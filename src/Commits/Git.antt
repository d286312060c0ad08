-- ===== src/Commits/Git.antt =====
-- The git archives of gateways/bzr2news.c: the log, line by line, as `getline` delivers it.
use nntp_tools.Prelude.{
  ℕ, Bool, true, false, not, ◌||◌, List, [], ◌∷◌, ◌++◌, Option, none, some, Bytes, codes, equal,
  ◌==◌, if◌then◌else◌, Result, ok, failed, ◌>>=◌,
}
use nntp_tools.Prelude.Int.{ℤ, negsuc}
use nntp_tools.Text.{is_space, cut_last, c_string}
use nntp_tools.Atoi.{skip_space}
use nntp_tools.Dates.{Tm}
use nntp_tools.Commits.{LogEntry, empty_entry, Fault, null_message, trim_end, header, is_recent}
use nntp_tools.Commits.Post.{Config, World, post_log}

-- `stem_git_name`: behind the last slash, without the extension.
unfoldable pub without_extension : Bytes → Bytes
without_extension stem = elim (cut_last b'.' stem) [
  | none ↦ stem
  | some (before, ext) ↦ if equal ext (codes "git") then before else stem
]

unfoldable pub stem_git_name : Bytes → Bytes
stem_git_name dir = elim (cut_last b'/' dir) [
  | none ↦ without_extension dir
  | some (parent, name) ↦ without_extension name
]

-- The loop's variables: the states 0, 1 and 2, the entry and the message.
pub data Place : Type 0 where
  at_start in_header in_comment : Place

pub record Scan : Type 0 where
  pub place : Place
  pub entry : LogEntry
  pub message : Option Bytes
  pub world : World

-- `*line && !isspace(*line)`.
unfoldable pub is_header_line : Bytes → Bool
is_header_line [] = false
is_header_line (c ∷ s) = not (is_space c)

-- `strcspn(line, ": ")`: the name, and what follows the delimiter.
unfoldable pub cut_name : Bytes → Bytes × Bytes
cut_name [] = ([], [])
cut_name (c ∷ s) = elim (c == b':' || c == b' ') [
  | true ↦ ([], s)
  | false ↦ (c ∷ (cut_name s).0, (cut_name s).1)
]

-- The line without white space at its end.
unfoldable pub line_text : Bytes → Bytes
line_text line = c_string (trim_end line)

unfoldable pub append_line : Option Bytes → Bytes → Option Bytes
append_line none [] = none
append_line none (c ∷ s) = some ((c ∷ s) ++ b'\n' ∷ [])
append_line (some message) line = some (message ++ (line ++ b'\n' ∷ []))

module _ (sha1 : Bytes → Bytes) (mktime : Tm → Option ℤ) (int_bytes : ℤ → Bytes)
    (date822 : ℕ → Bytes) (git_show : Bytes → Bytes) (now : ℤ) (c : Config) (dir : Bytes) where
  -- `header` of a line, in the entry.
  unfoldable pub collect_header : Bytes → LogEntry → Result Fault LogEntry
  collect_header line l = header sha1 mktime (cut_name line).0 (skip_space (cut_name line).1) l

  -- The diff, the encoding and the missing revision number of an entry with a commit id.
  unfoldable pub finished : Bytes → LogEntry → LogEntry
  finished commitid l = record l {
    diff = (if c.diffs then some (git_show commitid) else l.diff);
    encoding = some (codes "UTF-8");
    revno = negsuc 0;
  }

  unfoldable pub post_commit : LogEntry → World → Result Fault World
  post_commit l w = elim (l.commitid) [
    | none ↦ ok w
    | some commitid ↦ post_log sha1 int_bytes date822 c dir (finished commitid l) w
  ]

  -- `complete_git_commit`; a NULL message fails the assertion in front of each call.
  unfoldable pub complete_git_commit : Option Bytes → LogEntry → World → Result Fault World
  complete_git_commit none l w = failed null_message
  complete_git_commit (some message) l w =
      if is_recent c.maxage now l.timestamp
      then (header sha1 mktime (codes "branch nick") (stem_git_name dir) l >>= λ k.
          header sha1 mktime (codes "message") message k >>= λ m. post_commit m w)
      else ok w

  -- The state 1, where the line is a header.
  unfoldable pub header_step : Bytes → LogEntry → Option Bytes → World → Result Fault Scan
  header_step line l m w = collect_header line l >>= λ k.
      ok (record { place = in_header; entry = k; message = m; world = w })

  -- The state 2.
  unfoldable pub comment_step : Bytes → Scan → Result Fault Scan
  comment_step line s = elim (is_header_line line) [
    | true ↦
        complete_git_commit s.message s.entry s.world >>= λ w. header_step line empty_entry none w
    | false ↦ ok (record s { place = in_comment; message = append_line s.message line })
  ]

  -- The state 1.
  unfoldable pub in_header_step : Bytes → Scan → Result Fault Scan
  in_header_step line s = elim (is_header_line line) [
    | true ↦ header_step line s.entry s.message s.world
    | false ↦ comment_step line s
  ]

  -- The state 0, which ends with the first header.
  unfoldable pub start_step : Bytes → Scan → Result Fault Scan
  start_step line s = elim (is_header_line line) [ true ↦ in_header_step line s | false ↦ ok s ]

  -- The `switch` on a line.
  unfoldable pub git_step : Place → Bytes → Scan → Result Fault Scan
  git_step at_start line s = start_step line s
  git_step in_header line s = in_header_step line s
  git_step in_comment line s = comment_step line s

  unfoldable pub git_lines : List Bytes → Scan → Result Fault Scan
  git_lines [] s = ok s
  git_lines (line ∷ lines) s = git_step s.place (line_text line) s >>= git_lines lines

  -- Behind the last line: a commit is completed if its id is there.
  unfoldable pub end_commit : Option Bytes → Scan → Result Fault World
  end_commit none s = ok s.world
  end_commit (some commitid) s = complete_git_commit s.message s.entry s.world

  unfoldable pub git_end : Scan → Result Fault World
  git_end s = end_commit s.entry.commitid s

  abbrev pub started : World → Scan
  started w = record { place = at_start; entry = empty_entry; message = none; world = w }

  -- The loop of `process_git_archive` and what follows it.
  unfoldable pub process_git_log : List Bytes → World → Result Fault World
  process_git_log lines w = git_lines lines (started w) >>= git_end
