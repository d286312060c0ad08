-- ===== src/Article/Charset.antt =====
-- `Article::charset` of spoolstats/Article.cc, with the positions it computes.
pub mod Values
use mathlib.Core.List.{map}
use nntp_tools.Prelude.{
  ℕ, zero, suc, ◌+◌, ◌-◌, ◌<◌, ◌≡◌, refl, Bool, true, false, not, ◌&&◌, ◌||◌, List, [], ◌∷◌, ◌++◌,
  Option, none, some, Bytes, codes, length, take, drop, ltb, leb, ◌==◌, if◌then◌else◌, arith,
  length-append,
}
use nntp_tools.Text.{char_at, to_lower, lookup, insert, starts_with}
use nntp_tools.Article.{Headers}

-- `find_first_of` and `find_first_not_of` with a test on bytes: the offset from the front.
unfoldable pub find : (ℕ → Bool) → Bytes → Option ℕ
find p [] = none
find p (c ∷ s) = elim (p c) [
  | true ↦ some 0
  | false ↦ elim (find p s) [ none ↦ none | some n ↦ some (suc n) ]
]

-- `ct.find(word)`.
unfoldable pub find_string : Bytes → Bytes → Option ℕ
find_string word [] = if starts_with [] word then some 0 else none
find_string word (c ∷ s) = elim (starts_with (c ∷ s) word) [
  | true ↦ some 0
  | false ↦ elim (find_string word s) [ none ↦ none | some n ↦ some (suc n) ]
]

-- The same from position `pos` of the string.
unfoldable pub find_from : (ℕ → Bool) → Bytes → ℕ → Option ℕ
find_from p s pos = elim (find p (drop pos s)) [ none ↦ none | some n ↦ some (pos + n) ]

abbrev pub is_space_byte : ℕ → Bool
is_space_byte c = c == b' ' || c == b'\t' || c == 13 || c == 10

abbrev pub not_space : ℕ → Bool
not_space c = not (is_space_byte c)

-- The bytes of `tokenchars`.
abbrev pub token_chars : Bytes
token_chars =
    codes "!#$%&'*+-.0123456789ABCDEFGHIJKLMNOPQRSTUVWXYZ^_`abcdefghijklmnopqrstuvwxyz{|}~"

unfoldable pub member : ℕ → Bytes → Bool
member c [] = false
member c (d ∷ s) = c == d || member c s

unfoldable pub not_token : ℕ → Bool
not_token c = not (member c token_chars)

abbrev pub unknown : Bytes
unknown = codes "unknown"

-- The text from `pos` to `end_pos`, in lower case.
abbrev pub lower_between : Bytes → ℕ → ℕ → Bytes
lower_between ct pos end_pos = map to_lower (take (end_pos - pos) (drop pos ct))

-- From `if(pos == '"')` on: the test compares the position with the code of the quote.
unfoldable pub charset_value : Bytes → ℕ → Bytes
charset_value ct pos =
    if pos == b'"'
    then elim (find_from (λ c. c == b'"') ct (suc pos)) [
      | none ↦ unknown
      | some end_pos ↦ lower_between ct (suc pos) end_pos
    ]
    else elim (find_from not_token ct pos) [
      | none ↦ if length ct == pos then unknown else lower_between ct pos (length ct)
      | some end_pos ↦ if end_pos == pos then unknown else lower_between ct pos end_pos
    ]

-- After the equals sign at `pos`.
unfoldable pub charset_equals : Bytes → ℕ → Bytes
charset_equals ct pos =
    if char_at ct pos == b'='
    then elim (find_from not_space ct (suc pos)) [
      | none ↦ unknown
      | some pos' ↦ charset_value ct pos'
    ]
    else unknown

-- The parse of a content type.
unfoldable pub charset_of : Bytes → Bytes
charset_of ct = elim (find_string (codes "charset") ct) [
  | none ↦ unknown
  | some pos ↦ elim (find_from not_space ct (pos + 7)) [
    | none ↦ unknown
    | some pos' ↦ charset_equals ct pos'
  ]
]

-- `charset`.
unfoldable pub charset : Headers → Bytes
charset headers = elim (lookup (codes "content-type") headers) [
  | none ↦ unknown
  | some ct ↦ charset_of ct
]
