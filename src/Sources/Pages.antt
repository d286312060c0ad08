-- ===== src/Sources/Pages.antt =====
-- `fixup_html` of sources/sources.cc: the links between the pages of the days. The pages are given in the order
-- of their names, and what is written is a list of pages.
use mathlib.Core.List.{map}
use nntp_tools.Prelude.{
  ◌≡◌, refl, Bool, true, false, not, ◌||◌, List, [], ◌∷◌, ◌++◌, Option, none, some, Bytes, codes,
  equal, equal_iff, All, ◌==◌, if◌then◌else◌, Bool-cases, inl, inr, Result, ok, failed,
}
use nntp_tools.Text.{char_at, has_substring, starts_with, cut_last}

abbrev pub prev_class : Bytes
prev_class = codes "class=prev"

abbrev pub next_class : Bytes
next_class = codes "class=next"

unfoldable pub prev_line : Option Bytes → Bytes
prev_line none = codes "<span class=prev></span>\n"
prev_line (some name) =
    codes "<span class=prev><a href=\"" ++ (name ++ codes "\">prev</a></span>\n")

unfoldable pub next_line : Option Bytes → Bytes
next_line none = codes "<span class=next></span>\n"
next_line (some name) =
    codes "<span class=next><a href=\"" ++ (name ++ codes "\">next</a></span>\n")

unfoldable pub fix_prev : Option Bytes → Bytes → Bytes
fix_prev prev line = if has_substring line prev_class then prev_line prev else line

unfoldable pub fix_next : Option Bytes → Bytes → Bytes
fix_next next line = if has_substring line next_class then next_line next else line

-- The body of the loop over the lines, where the second test is on what the first has made.
unfoldable pub fix_line : Option Bytes → Option Bytes → Bytes → Bytes
fix_line prev next line = fix_next next (fix_prev prev line)

-- `changes`.
unfoldable pub differs : List Bytes → List Bytes → Bool
differs [] _ = false
differs (l ∷ ls) [] = true
differs (l ∷ ls) (m ∷ ms) = not (equal l m) || differs ls ms

-- A page: its name and its lines.
unfoldable pub first_name : List (Bytes × List Bytes) → Option Bytes
first_name [] = none
first_name ((name, lines) ∷ pages) = some name

-- The loop over the pages, from the name of the one before on: the pages as they are then.
unfoldable pub fix_pages : Option Bytes → List (Bytes × List Bytes) → List (Bytes × List Bytes)
fix_pages prev [] = []
fix_pages prev ((name, lines) ∷ pages) =
    (name, map (fix_line prev (first_name pages)) lines) ∷ fix_pages (some name) pages

-- The pages that are written.
unfoldable pub written : Option Bytes → List (Bytes × List Bytes) → List (Bytes × List Bytes)
written prev [] = []
written prev ((name, lines) ∷ pages) =
    let fixed = map (fix_line prev (first_name pages)) lines in
    let rest = written (some name) pages in
    if differs lines fixed then (name, fixed) ∷ rest else rest

unfoldable pub last_name : List (Bytes × List Bytes) → Option Bytes
last_name [] = none
last_name ((name, lines) ∷ pages) = elim (last_name pages) [ none ↦ some name | some n ↦ some n ]

unfoldable pub index_abs : Bytes → Bytes → Bytes
index_abs output index_path =
    if char_at index_path 0 == b'/' then index_path else output ++ (b'/' ∷ index_path)

pub data IndexFault : Type 0 where
  no_realpath : IndexFault

-- The link of the index: its path and its target; none: there is none. `realpath` is the C library's.
unfoldable pub index_link :
    (Bytes → Option Bytes)
    → Bytes
    → Bytes
    → List (Bytes × List Bytes)
    → Result IndexFault (Option (Bytes × Bytes))
index_link realpath output [] pages = ok none
index_link realpath output (c ∷ path) pages = elim (last_name pages) [
  | none ↦ ok none
  | some name ↦ elim (cut_last b'/' (c ∷ path)) [
    | none ↦ ok (some (index_abs output (c ∷ path), name))
    | some (before, after) ↦ elim (realpath (output ++ (b'/' ∷ name))) [
      | none ↦ failed no_realpath
      | some target ↦ ok (some (index_abs output (c ∷ path), target))
    ]
  ]
]

-- A name that puts neither class into the other's line.
unfoldable pub IsPlain : Option Bytes → Type 0
IsPlain o =
    (has_substring (prev_line o) next_class ≡ false)
    × (has_substring (next_line o) prev_class ≡ false)

IsPlain-none : IsPlain none
unfolding IsPlain has_substring starts_with prev_line next_line
IsPlain-none = (refl, refl)

prev_line-has : (o : Option Bytes) → has_substring (prev_line o) prev_class ≡ true
unfolding prev_line has_substring starts_with
prev_line-has none = refl
prev_line-has (some name) = refl

next_line-has : (o : Option Bytes) → has_substring (next_line o) next_class ≡ true
unfolding next_line has_substring starts_with
next_line-has none = refl
next_line-has (some name) = refl

fix_line-prev :
    (p n : Option Bytes) (line : Bytes)
    → IsPlain p
    → has_substring line prev_class ≡ true
    → fix_line p n line ≡ prev_line p
unfolding fix_line fix_prev fix_next IsPlain
fix_line-prev p n line (plain, _) h = rw (h, plain) refl

fix_line-next :
    (p n : Option Bytes) (line : Bytes)
    → has_substring line prev_class ≡ false
    → has_substring line next_class ≡ true
    → fix_line p n line ≡ next_line n
unfolding fix_line fix_prev fix_next
fix_line-next p n line h k = rw (h, k) refl

fix_line-other :
    (p n : Option Bytes) (line : Bytes)
    → has_substring line prev_class ≡ false
    → has_substring line next_class ≡ false
    → fix_line p n line ≡ line
unfolding fix_line fix_prev fix_next
fix_line-other p n line h k = rw (h, k) refl

fix_line-fix_line :
    (p n : Option Bytes) (line : Bytes)
    → IsPlain p
    → IsPlain n
    → fix_line p n (fix_line p n line) ≡ fix_line p n line
unfolding IsPlain
fix_line-fix_line p n line hp hn = elim (Bool-cases (has_substring line prev_class)) [
  | inl e ↦ rw (fix_line-prev p n line hp e) (fix_line-prev p n (prev_line p) hp (prev_line-has p))
  | inr e ↦ elim (Bool-cases (has_substring line next_class)) [
    | inl f ↦
        rw (fix_line-next p n line e f) (fix_line-next p n (next_line n) hn.1 (next_line-has n))
    | inr f ↦ rw (fix_line-other p n line e f) (fix_line-other p n line e f)
  ]
]

differs-fixed :
    (p n : Option Bytes) (lines : List Bytes)
    → IsPlain p
    → IsPlain n
    → differs (map (fix_line p n) lines) (map (fix_line p n) (map (fix_line p n) lines)) ≡ false
unfolding differs
differs-fixed p n [] hp hn = refl
differs-fixed p n (l ∷ ls) hp hn =
    rw
      (
        fix_line-fix_line p n l hp hn,
        (equal_iff (fix_line p n l) (fix_line p n l)).1 refl,
        differs-fixed p n ls hp hn,
      )
      refl

first_name-fix_pages :
    (p : Option Bytes) (pages : List (Bytes × List Bytes))
    → first_name (fix_pages p pages) ≡ first_name pages
unfolding first_name fix_pages
first_name-fix_pages p [] = refl
first_name-fix_pages p ((name, lines) ∷ pages) = refl

first_name-IsPlain :
    (pages : List (Bytes × List Bytes))
    → All (λ q. IsPlain (some q.0)) pages
    → IsPlain (first_name pages)
unfolding first_name
first_name-IsPlain [] _ = IsPlain-none
first_name-IsPlain ((name, lines) ∷ pages) (h, _) = h

written-fix_pages :
    (p : Option Bytes) (pages : List (Bytes × List Bytes))
    → IsPlain p
    → All (λ q. IsPlain (some q.0)) pages
    → written p (fix_pages p pages) ≡ []
unfolding written fix_pages
written-fix_pages p [] hp _ = refl
written-fix_pages p ((name, lines) ∷ pages) hp (h, hs) =
    rw
      (
        first_name-fix_pages (some name) pages,
        differs-fixed p (first_name pages) lines hp (first_name-IsPlain pages hs),
      )
      (written-fix_pages (some name) pages h hs)

-- A second run over pages that have been linked writes none of them, if no name of a page carries the
-- class of one link into the line of the other.
pub written-fixed :
    (pages : List (Bytes × List Bytes))
    → All (λ q. IsPlain (some q.0)) pages
    → written none (fix_pages none pages) ≡ []
written-fixed pages hs = written-fix_pages none pages IsPlain-none hs
