-- ===== src/Commits/Tests.antt =====
-- The version control gateway on small logs.
use nntp_tools.Prelude.{
  ℕ, ◌+◌, ◌*◌, ◌≡◌, refl, Bool, true, false, List, [], ◌∷◌, ◌++◌, Option, none, some, Bytes, codes,
  All, Result, ok, failed, arith,
}
use nntp_tools.Prelude.Int.{ℤ, pos, negsuc}
use nntp_tools.Dates.{Tm}
use nntp_tools.Seen.Calls.{IsCommit}
use nntp_tools.Commits.{LogEntry, empty_entry, Fault, null_message}
use nntp_tools.Commits.Post.{Config, World}
use nntp_tools.Commits.Git.{process_git_log, stem_git_name, is_header_line, line_text}
use nntp_tools.Commits.Blocks.{
  Block, IsBlock, block_lines, process_blocks, process_git_log-blocks, process_git_log-null_message,
}
use nntp_tools.Commits.Lines.{IsHeader, IsComment, entry_of}
use nntp_tools.Commits.Once.{Postable, post_all, first_articles, post_all-first}

abbrev options : Config
options = record {
  newsgroup = codes "local.commits";
  msgiddomain = codes "example.com";
  salt = [];
  encoding = codes "UTF-8";
  preview = false;
  diffs = false;
  maxage = 0;
}

abbrev empty_world : World
empty_world = record { file = []; posted = []; shown = [] }

abbrev no_hash : Bytes → Bytes
no_hash s = []

abbrev no_time : Tm → Option ℤ
no_time tm = none

abbrev no_date : ℕ → Bytes
no_date n = []

abbrev no_bytes : ℤ → Bytes
no_bytes n = []

abbrev first_commit : Block
first_commit = record {
  first = codes "commit abcdef\n";
  more = codes "Author: A <a@example.com>\n" ∷ codes "Date:   100 +0000\n" ∷ [];
  comment = codes "\n" ∷ codes "    hello\n" ∷ codes "\n" ∷ [];
}

first_commit-IsBlock : IsBlock first_commit
unfolding IsHeader is_header_line line_text nntp_tools.Text.c_string nntp_tools.Commits.trim_end
    IsComment nntp_tools.Commits.Lines.message_of nntp_tools.Commits.Git.append_line
first_commit-IsBlock = record {
  first_header = refl;
  more_headers = (refl, (refl, tt));
  comments = (refl, (refl, (refl, tt)));
  message = codes "    hello\n\n";
  has_message = refl;
}

process_git_log-blocks_example :
    process_git_log no_hash no_time no_bytes no_date no_hash
      (pos 0)
      options
      (codes "/srv/x.git")
      (block_lines (first_commit ∷ []) [])
      empty_world
    ≡ process_blocks no_hash no_time no_bytes no_date no_hash
        (pos 0)
        options
        (codes "/srv/x.git")
        (first_commit ∷ [])
        empty_world
process_git_log-blocks_example =
    process_git_log-blocks no_hash no_time no_bytes no_date no_hash (pos 0) options
      (codes "/srv/x.git") (first_commit ∷ []) empty_world (first_commit-IsBlock, tt)

process_git_log-null_message_example :
    process_git_log no_hash no_time no_bytes no_date no_hash
      (pos 0)
      options
      (codes "/srv/x.git")
      (codes "commit abcdef\n" ∷ codes "\n" ∷ codes "commit 123456\n" ∷ [])
      empty_world
    ≡ failed null_message
unfolding IsHeader is_header_line line_text nntp_tools.Text.c_string nntp_tools.Commits.trim_end
    IsComment nntp_tools.Commits.Lines.message_of nntp_tools.Commits.Git.append_line entry_of
    nntp_tools.Commits.Git.collect_header nntp_tools.Commits.header nntp_tools.Commits.set_header
    nntp_tools.Prelude.equal nntp_tools.Commits.Git.cut_name nntp_tools.Atoi.skip_space
process_git_log-null_message_example =
    process_git_log-null_message no_hash no_time no_bytes no_date no_hash (pos 0) options
      (codes "/srv/x.git") (codes "commit abcdef\n") [] (codes "\n") [] (codes "commit 123456\n") []
      (record empty_entry { commitid = some (codes "abcdef") }) empty_world refl tt (refl, tt) refl
      refl refl

abbrev change : LogEntry
change = record empty_entry {
  revno = negsuc 0;
  commitid = some (codes "abcdef");
  committer = some (codes "A");
  message = some (codes "hello\n");
  branch = some (codes "x");
}

change-IsCommit : IsCommit (codes "abcdef")
unfolding nntp_tools.Seen.has_nul
change-IsCommit = record { short = omega arith; no_nul = refl }

abbrev change_postable : Postable
change_postable = record {
  entry = change;
  commitid = codes "abcdef";
  committer = codes "A";
  message = codes "hello\n";
  branch = codes "x";
  has_commitid = refl;
  has_committer = refl;
  has_message = refl;
  has_branch = refl;
  storable = change-IsCommit;
}

post_all-first_example :
    (v : World) × (post_all no_hash no_bytes no_date options
        (codes "/srv/x")
        (change_postable ∷ change_postable ∷ [])
        empty_world
      ≡ ok v)
    × (v.posted
        ≡ first_articles no_hash no_bytes no_date options
            (codes "/srv/x")
            0
            []
            (change_postable ∷ change_postable ∷ []))
post_all-first_example =
    post_all-first no_hash no_bytes no_date options (codes "/srv/x")
      (change_postable ∷ change_postable ∷ []) refl (omega arith)

stem_test : stem_git_name (codes "/srv/x.git") ≡ codes "x"
unfolding stem_git_name nntp_tools.Text.cut_last nntp_tools.Commits.Git.without_extension
    nntp_tools.Prelude.equal
stem_test = refl

-- The stem of the repository of a working tree is empty.
stem_dot_git_test : stem_git_name (codes "/srv/x/.git") ≡ []
unfolding stem_git_name nntp_tools.Text.cut_last nntp_tools.Commits.Git.without_extension
    nntp_tools.Prelude.equal
stem_dot_git_test = refl
