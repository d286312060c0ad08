-- ===== src/Article.antt =====
-- One article of the spool, spoolstats/Article.cc and Article.h.
pub mod Headers
pub mod Total
pub mod Charset
mod Tests
use mathlib.Core.List.{map}
use nntp_tools.Prelude.{
  ℕ, zero, suc, ◌+◌, ◌-◌, ◌<◌, ◌≡◌, refl, Bool, true, false, not, ◌&&◌, ◌||◌, List, [], ◌∷◌, ◌++◌,
  Option, none, some, Bytes, codes, length, take, drop, ltb, leb, ◌==◌, if◌then◌else◌,
}
use nntp_tools.Text.{char_at, to_lower, lookup, insert, starts_with, is_space}
use nntp_tools.Split.{split}

abbrev pub Headers : Type 0
Headers = List (Bytes × Bytes)

-- `eol`, at the start of the text that is left: the length of the line end, or 0.
unfoldable pub eol : Bytes → ℕ
eol [] = 0
eol (c ∷ []) = if c == 10 then 1 else 0
eol (c ∷ d ∷ s) = if c == 10 then 1 else if c == 13 && d == 10 then 2 else 0

abbrev pub is_blank : ℕ → Bool
is_blank c = c == b' ' || c == b'\t'

-- `eoh`: a line end that no continuation line follows.
unfoldable pub eoh : Bytes → Bool
eoh s =
    let n = eol s in
    if n == 0 then false else let rest = drop n s in not (is_blank (char_at rest 0))

-- The loop that moves `header_end`: the full header, and the text from `header_end` on.
unfoldable pub scan_header : Bytes → Bytes × Bytes
scan_header [] = ([], [])
scan_header (c ∷ s) =
    let (h, rest) = scan_header s in if eoh (c ∷ s) then ([], c ∷ s) else (c ∷ h, rest)

-- `header.find(':')`.
unfoldable pub find_colon : Bytes → Option ℕ
find_colon [] = none
find_colon (c ∷ s) = elim (c == b':') [
  | true ↦ some 0
  | false ↦ elim (find_colon s) [ none ↦ none | some n ↦ some (suc n) ]
]

-- `find_first_not_of(" \t", pos)` where it finds something, else the end of the string.
unfoldable pub skip_blanks : Bytes → ℕ
skip_blanks [] = 0
skip_blanks (c ∷ s) = if is_blank c then suc (skip_blanks s) else 0

-- The loop `while(e < colon && (header[e - 1] == ' ' || header[e - 1] == '\t')) --e`.
unfoldable pub trim_end : Bytes → ℕ → ℕ → ℕ
trim_end header colon zero = zero
trim_end header colon (suc e) = elim (ltb (suc e) colon && is_blank (char_at header e)) [
  | true ↦ trim_end header colon e
  | false ↦ suc e
]

-- The value of a full header whose colon stands at `colon`. Where nothing but blanks follows the
-- colon, `find_first_not_of` is `npos` and `s` becomes `e`; here it is at once the end of the header.
unfoldable pub header_value : Bytes → ℕ → Bytes
header_value header colon =
    let e = trim_end header colon (length header) in
    let s = suc colon + skip_blanks (drop (suc colon) header) in
    let s' = if ltb e s then e else s in take (e - s') (drop s' header)

-- What one full header adds to the map.
unfoldable pub add_header : Bytes → Headers → Headers
add_header header headers = elim (find_colon header) [
  | none ↦ headers
  | some colon ↦ insert (map to_lower (take colon header)) (header_value header colon) headers
]

-- The loop of `parse`, on the text from `pos` on; `none` says that the fuel ran out.
unfoldable pub parse_from : ℕ → Bytes → Headers → Option Headers
parse_from zero text headers = none
parse_from (suc fuel) [] headers = some headers
parse_from (suc fuel) (c ∷ text) headers = elim (eol (c ∷ text) == 0) [
  | false ↦ some headers
  | true ↦
      let (header, rest) = scan_header (c ∷ text) in
      elim (length rest == 0) [
        | true ↦ some headers
        | false ↦ parse_from fuel (drop (eol rest) rest) (add_header header headers)
      ]
]

-- `Article::parse`; as many rounds as there are bytes, and one more.
unfoldable pub parse : Bytes → Option Headers
parse text = parse_from (length text + 1) text []

-- `valid`.
unfoldable pub valid : Headers → Bool
valid headers =
    has (lookup (codes "message-id") headers)
    && has (lookup (codes "date") headers)
    && has (lookup (codes "from") headers)
  where
    has : Option Bytes → Bool
    has none = false
    has (some v) = true

-- `useragent`.
unfoldable pub useragent : Headers → Bytes
useragent headers = elim (lookup (codes "user-agent") headers) [
  | some v ↦ v
  | none ↦ elim (lookup (codes "x-newsreader") headers) [
    | some v ↦ v
    | none ↦ elim (lookup (codes "x-mailer") headers) [ some v ↦ v | none ↦ codes "(unknown)" ]
  ]
]

-- `get_groups`; `none` is the dereference of `end()`, which no check rules out.
unfoldable pub get_groups : Headers → Option (List Bytes)
get_groups headers = elim (lookup (codes "newsgroups") headers) [
  | none ↦ none
  | some v ↦ some (split b',' v)
]
