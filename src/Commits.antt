-- ===== src/Commits.antt =====
-- gateways/bzr2news.c: the commits of a repository, read from its log and posted once each.
pub mod Post
pub mod Git
pub mod Lines
pub mod Blocks
pub mod Once
pub mod Bzr
mod Tests
use nntp_tools.Prelude.{
  ℕ, zero, suc, ◌+◌, ◌-◌, Bool, true, false, not, ◌&&◌, ◌||◌, List, [], ◌∷◌, ◌++◌, Option, none,
  some, Bytes, codes, equal, ◌==◌, if◌then◌else◌, take, Result, ok, failed, ◌>>=◌,
}
use nntp_tools.Prelude.Int.{ℤ, pos, is_less, ◌-ℤ◌}
use nntp_tools.Text.{is_space, cut_last}
use nntp_tools.Atoi.{atoi}
use nntp_tools.Feed.Article.{hex}
use nntp_tools.Dates.{Tm}
use nntp_tools.Dates.Strtol.{DateFault}
use nntp_tools.Dates.Bzr.{bzrdate_to_time_t}
use nntp_tools.Seen

-- `struct logentry`; a pointer that may be NULL is an option.
pub record LogEntry : Type 0 where
  pub revno : ℤ
  pub commitid : Option Bytes
  pub timestamp : ℤ
  pub branch : Option Bytes
  pub committer : Option Bytes
  pub message : Option Bytes
  pub added : Option Bytes
  pub removed : Option Bytes
  pub modified : Option Bytes
  pub renamed : Option Bytes
  pub diff : Option Bytes
  pub encoding : Option Bytes

-- `memset` of an entry to 0.
abbrev pub empty_entry : LogEntry
empty_entry = record {
  revno = pos 0;
  commitid = none;
  timestamp = pos 0;
  branch = none;
  committer = none;
  message = none;
  added = none;
  removed = none;
  modified = none;
  renamed = none;
  diff = none;
  encoding = none;
}

-- The ends of the process: calls of `fatal`, a failed `assert`, and uses of NULL.
pub data Fault : Type 0 where
  seen_fault : Seen.Fault → Fault
  date_fault : DateFault → Fault
  null_text null_message : Fault
  bogus_line orphan_line no_revno no_timestamp no_branch no_message : Fault
  ambiguous_branch no_branches no_first no_realpath : Fault

-- White space at the end is cut off.
unfoldable pub trim_end : Bytes → Bytes
trim_end [] = []
trim_end (c ∷ s) = elim (trim_end s) [ [] ↦ if is_space c then [] else c ∷ [] | d ∷ t ↦ c ∷ d ∷ t ]

unfoldable pub as_date {ℓ} : {A : Type ℓ} → Result DateFault A → Result Fault A
as_date (ok a) = ok a
as_date (failed e) = failed (date_fault e)

module _ (sha1 : Bytes → Bytes) (mktime : Tm → Option ℤ) where
  -- The `if` chain of `header`, on the text without its white space.
  unfoldable pub set_header : Bytes → Bytes → LogEntry → Result Fault LogEntry
  set_header name text l =
      if equal name (codes "message")
      then ok (record l { message = some text })
      else if equal name (codes "branch nick")
      then ok (record l { branch = some text })
      else if equal name (codes "committer") || equal name (codes "Author")
      then ok (record l { committer = some text })
      else if equal name (codes "added")
      then ok (record l { added = some text })
      else if equal name (codes "removed")
      then ok (record l { removed = some text })
      else if equal name (codes "modified")
      then ok (record l { modified = some text })
      else if equal name (codes "renamed")
      then ok (record l { renamed = some text })
      else if equal name (codes "revno")
      then ok (record l { revno = atoi text })
      else if equal name (codes "timestamp")
      then (as_date (bzrdate_to_time_t mktime text) >>= λ t. ok (record l { timestamp = t }))
      else if equal name (codes "Date")
      then ok (record l { timestamp = atoi text })
      else if equal name (codes "commit")
      then ok (record l { commitid = some text })
      else if equal name (codes "revision-id")
      then ok (record l { commitid = some (hex (take 20 (sha1 text))) })
      else ok l

  unfoldable pub header : Bytes → Bytes → LogEntry → Result Fault LogEntry
  header name text l = set_header name (trim_end text) l

-- `!maxage || now - timestamp <= maxage`.
unfoldable pub is_recent : ℕ → ℤ → ℤ → Bool
is_recent maxage now t = if maxage == 0 then true else not (is_less (pos maxage) (now -ℤ t))
