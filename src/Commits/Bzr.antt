-- ===== src/Commits/Bzr.antt =====
-- The bzr archives of gateways/bzr2news.c, and `process_archive`. The loop of `process_bzr_archive` around
-- that of `read_bzr_log` is one pass over the lines: between two entries, or within one.
use nntp_tools.Prelude.{
  ℕ, zero, Bool, true, false, ◌&&◌, ◌||◌, List, [], ◌∷◌, ◌++◌, Option, none, some, Bytes, codes,
  equal, ◌==◌, if◌then◌else◌, drop, Result, ok, failed, ◌>>=◌,
}
use nntp_tools.Prelude.Int.{ℤ, pos}
use nntp_tools.Text.{cut_last, has_substring, starts_with}
use nntp_tools.Atoi.{skip_space}
use nntp_tools.Dates.{Tm}
use nntp_tools.Commits.{
  LogEntry, empty_entry, Fault, bogus_line, orphan_line, no_revno, no_timestamp, no_branch,
  no_message, ambiguous_branch, no_branches, no_first, no_realpath, header, is_recent,
}
use nntp_tools.Commits.Post.{Config, World, post_log}
use nntp_tools.Commits.Git.{process_git_log}

unfoldable pub is_bzr_divider : Bytes → Bool
is_bzr_divider line =
    starts_with line (codes "-")
    || equal line (codes "Use --include-merges or -n0 to see merged revisions.\n")

-- `strchr(line, ':')`: the name, and what follows the colon.
unfoldable pub cut_colon : Bytes → Option (Bytes × Bytes)
cut_colon [] = none
cut_colon (c ∷ s) =
    if c == b':'
    then some ([], s)
    else elim (cut_colon s) [ none ↦ none | some (name, rest) ↦ some (c ∷ name, rest) ]

-- Within an entry: the entry, and the name and the text of the header that is being read.
pub data Reading : Type 0 where
  between : Reading
  within : LogEntry → Option (Bytes × Bytes) → Reading

module _ (sha1 : Bytes → Bytes) (mktime : Tm → Option ℤ) (int_bytes : ℤ → Bytes)
    (date822 : ℕ → Bytes) (bzr_diff : ℤ → Bytes) (git_show : Bytes → Bytes) (now : ℤ) (c : Config)
    (dir : Bytes) where
  unfoldable pub store_header : LogEntry → Option (Bytes × Bytes) → Result Fault LogEntry
  store_header l none = ok l
  store_header l (some (name, text)) = header sha1 mktime name text l

  -- A line of an entry.
  unfoldable pub entry_line : LogEntry → Option (Bytes × Bytes) → Bytes → Result Fault Reading
  entry_line l pending line =
      if starts_with line (codes " ")
      then elim pending [
        | none ↦ failed orphan_line
        | some (name, text) ↦ ok (within l (some (name, text ++ drop 2 line)))
      ]
      else (store_header l pending >>= λ k. elim (cut_colon line) [
        | none ↦ failed bogus_line
        | some (name, rest) ↦ ok (within k (some (name, skip_space rest)))
      ])

  -- The tests on an entry that has been read, and its diff.
  unfoldable pub check_entry : LogEntry → Result Fault LogEntry
  check_entry l = elim (l.revno) [
    | pos zero ↦ failed no_revno
    | _ ↦ elim (l.timestamp) [
      | pos zero ↦ failed no_timestamp
      | _ ↦ elim (l.branch) [
        | none ↦ failed no_branch
        | some b ↦ elim (l.message) [
          | none ↦ failed no_message
          | some m ↦
              if c.diffs && is_recent c.maxage now l.timestamp
              then ok (record l { diff = some (bzr_diff l.revno) })
              else ok l
        ]
      ]
    ]
  ]

  -- The end of an entry, and what the caller does with it.
  unfoldable pub end_entry : LogEntry → Option (Bytes × Bytes) → World → Result Fault World
  end_entry l pending w = store_header l pending >>= λ k. check_entry k >>= λ m.
      if is_recent c.maxage now m.timestamp then post_log sha1 int_bytes date822 c dir m w else ok w

  unfoldable pub bzr_line : Reading → Bytes → World → Result Fault (Reading × World)
  bzr_line between line w =
      if is_bzr_divider line
      then ok (between, w)
      else (entry_line empty_entry none line >>= λ r. ok (r, w))
  bzr_line (within l pending) line w =
      if starts_with line (codes "-")
      then (end_entry l pending w >>= λ v. ok (between, v))
      else (entry_line l pending line >>= λ r. ok (r, w))

  unfoldable pub bzr_end : Reading → World → Result Fault World
  bzr_end between w = ok w
  bzr_end (within l pending) w = end_entry l pending w

  unfoldable pub bzr_lines : List Bytes → Reading → World → Result Fault World
  bzr_lines [] r w = bzr_end r w
  bzr_lines (line ∷ lines) r w = bzr_line r line w >>= λ (s, v). bzr_lines lines s v

  -- `process_bzr_archive`, on the lines that bzr prints.
  unfoldable pub process_bzr_archive : Option Bytes → List Bytes → World → Result Fault World
  process_bzr_archive (some branch) lines w = failed no_branches
  process_bzr_archive none lines w = bzr_lines lines between w

  -- `process_git_archive`, on the lines that git prints; `has_first` says whether there is `--first`.
  unfoldable pub process_git_archive : Bool → List Bytes → World → Result Fault World
  process_git_archive true lines w = failed no_first
  process_git_archive false lines w =
      process_git_log sha1 mktime int_bytes date822 git_show now c dir lines w

-- The repository and its branch, where the text behind the last colon may be one.
unfoldable pub split_branch : (Bytes → Bool) → Bytes → Result Fault (Bytes × Option Bytes)
split_branch isdir dir = elim (cut_last b':' dir) [
  | none ↦ ok (dir, none)
  | some (base, branch) ↦
      if isdir base
      then (if isdir dir then failed ambiguous_branch else ok (base, some branch))
      else ok (dir, none)
]

pub data Archive : Type 0 where
  bzr git : Archive

-- The kind of the archive: by its files, then by the name of the program.
unfoldable pub archive_kind : (Bytes → Bool) → Bytes → Archive
archive_kind fexists progname =
    if fexists (codes ".bzr")
    then bzr
    else if fexists (codes ".git")
    then git
    else if fexists (codes "HEAD")
    then git
    else if has_substring progname (codes "bzr")
    then bzr
    else if has_substring progname (codes "git")
    then git
    else bzr

-- `process_archive`, with the file system, the contents of the tracking file of a repository and the logs
-- of the version control systems as arguments; none: there is no such directory.
module _ (isdir : Bytes → Bool) (realpath : Bytes → Option Bytes) (fexists : Bytes → Bytes → Bool)
    (progname : Bytes) (has_first : Bool) (init_seen : Bytes → Bytes)
    (bzr_log git_log : Bytes → Option Bytes → List Bytes)
    (run_bzr : Bytes → Option Bytes → List Bytes → World → Result Fault World)
    (run_git : Bytes → Bool → List Bytes → World → Result Fault World) where
  unfoldable pub run_archive : Archive → Bytes → Option Bytes → World → Result Fault World
  run_archive bzr dir branch w = run_bzr dir branch (bzr_log dir branch) w
  run_archive git dir branch w = run_git dir has_first (git_log dir branch) w

  unfoldable pub open_archive : Bytes → Option Bytes → World → Result Fault World
  open_archive dir branch w = elim (realpath dir) [
    | none ↦ failed no_realpath
    | some realdir ↦
        run_archive (archive_kind (fexists dir) progname) dir branch
          (record w { file = init_seen (realdir ++ codes ".seen") })
  ]

  unfoldable pub process_archive : Bytes → World → Result Fault World
  process_archive arg w = split_branch isdir arg >>= λ (dir, branch). open_archive dir branch w
