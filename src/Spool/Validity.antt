-- ===== src/Spool/Validity.antt =====
-- The headers of a valid article, and the bounds of its date, in spoolstats/AllGroups.cc.
use nntp_tools.Prelude.{
  ◌≡◌, ◌≢◌, refl, Bool, true, false, not, List, none, some, Bytes, codes, leb, ok, Option-cases,
  inl, inr, arith,
}
use nntp_tools.Prelude.Int.{ℤ, pos, negsuc, is_less}
use nntp_tools.Text.{lookup}
use nntp_tools.Split.{split}
use nntp_tools.Article.{Headers, valid, get_groups}
use nntp_tools.Spool.{need, groups_of}

pub need-ok : (h : Headers) (name v : Bytes) → lookup name h ≡ some v → need h name ≡ ok v
unfolding need
need-ok h name v e = rw (e, need) refl

pub valid-from : (h : Headers) → valid h ≡ true → (v : Bytes) × (lookup (codes "from") h ≡ some v)
unfolding valid
valid-from h v = elim (Option-cases (lookup (codes "from") h)) [
  | inr found ↦ found
  | inl e ↦ absurd (ground (arith, v, e))
]

pub valid-date : (h : Headers) → valid h ≡ true → (v : Bytes) × (lookup (codes "date") h ≡ some v)
unfolding valid
valid-date h v = elim (Option-cases (lookup (codes "date") h)) [
  | inr found ↦ found
  | inl e ↦ absurd (ground (arith, v, e))
]

pub valid-mid :
    (h : Headers) → valid h ≡ true → (v : Bytes) × (lookup (codes "message-id") h ≡ some v)
unfolding valid
valid-mid h v = elim (Option-cases (lookup (codes "message-id") h)) [
  | inr found ↦ found
  | inl e ↦ absurd (ground (arith, v, e))
]

get_groups-some :
    (h : Headers) (v : Bytes)
    → lookup (codes "newsgroups") h ≡ some v
    → get_groups h ≡ some (split b',' v)
unfolding get_groups
get_groups-some h v e = rw (e, get_groups) refl

pub groups-ok :
    (h : Headers) → lookup (codes "newsgroups") h ≢ none → (gs : List Bytes) × (groups_of h ≡ ok gs)
unfolding groups_of
groups-ok h some_groups = elim (Option-cases (lookup (codes "newsgroups") h)) [
  | inl e ↦ absurd (some_groups e)
  | inr (v, e) ↦ (split b',' v, rw (get_groups-some h v e, groups_of) refl)
]

-- `start` is not behind `date`.
unfoldable pub at_least : ℤ → ℤ → Bool
at_least (pos m) (pos n) = leb m n
at_least (negsuc m) (negsuc n) = leb n m
at_least (negsuc m) (pos n) = true
at_least (pos m) (negsuc n) = false

pub is_less-at_least : (date start : ℤ) → not (is_less date start) ≡ at_least start date
unfolding at_least
is_less-at_least (pos m) (pos n) = ground arith
is_less-at_least (pos m) (negsuc n) = refl
is_less-at_least (negsuc m) (pos n) = refl
is_less-at_least (negsuc m) (negsuc n) = ground arith
