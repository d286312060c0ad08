-- ===== src/Html/Reader.antt =====
-- What an HTML reader makes of escaped text.
use mathlib.Core.List.{flat_map}
use nntp_tools.Prelude.{
  passes_below, passes_below_lem, ℕ, ◌+◌, ◌*◌, ◌-◌, ◌/◌, ◌%◌, ◌<◌, ◌≤◌, ◌≡◌, ◌≢◌, refl, ap, ◌∙◌,
  Bool, true, false, not, ◌&&◌, ◌||◌, [], ◌∷◌, ◌++◌, Bytes, All, All-append, ltb, leb, ◌==◌, equal,
  equal_iff, if◌then◌else◌, arith,
}
use nntp_tools.Words.{AreBytes}
use nntp_tools.Html.{escape_char, escape}

-- In text, behind an ampersand, or in the digits of a numeric reference.
pub data Mode : Type 0 where
  text ampersand : Mode
  number : ℕ → Mode

-- A numeric reference stands for the character of that number; the byte behind `&` is its `#`.
pub read : Mode → Bytes → Bytes
read m [] = []
read text (c ∷ s) = elim (c == b'&') [ true ↦ read ampersand s | false ↦ c ∷ read text s ]
read ampersand (c ∷ s) = read (number 0) s
read (number n) (c ∷ s) = elim (c == b';') [
  | true ↦ n ∷ read text s
  | false ↦ read (number (10 * n + (c - b'0'))) s
]

abbrev digits : ℕ → Bytes
digits c =
    if ltb c 10
    then (b'0' + c) ∷ []
    else if ltb c 100
    then (b'0' + c / 10) ∷ (b'0' + c % 10) ∷ []
    else (b'0' + c / 100) ∷ (b'0' + c / 10 % 10) ∷ (b'0' + c % 10) ∷ []

-- The bytes that stand for themselves.
abbrev is_plain : ℕ → Bool
is_plain c = leb 32 c && leb c 126 && not (c == b'"' || c == b'<' || c == b'&')

abbrev escaped : ℕ → Bytes
escaped c = if is_plain c then c ∷ [] else b'&' ∷ b'#' ∷ (digits c ++ b';' ∷ [])

escape_char_table : passes_below (λ c. equal (escape_char c) (escaped c)) 256 ≡ true
unfolding passes_below escape_char equal
escape_char_table = refl

escape_char-escaped : (c : ℕ) → c < 256 → escape_char c ≡ escaped c
escape_char-escaped c h =
    (equal_iff _ _).0
      (passes_below_lem (λ c. equal (escape_char c) (escaped c)) 256 c h escape_char_table)

read-escaped : (c : ℕ) (s : Bytes) → c < 256 → read text (escaped c ++ s) ≡ c ∷ read text s
unfolding read
read-escaped c s h = ground arith

read_text : (s : Bytes) → AreBytes s → read text (escape s) ≡ s
unfolding escape flat_map
read_text [] _ = unfold read in refl
read_text (c ∷ s) (h, hs) =
    rw (escape_char-escaped c h) (read-escaped c _ h ∙ ap (◌∷◌ c) (read_text s hs))

-- A byte that may stand in text and in a quoted attribute.
abbrev pub IsSafe : ℕ → Type 0
IsSafe c = (32 ≤ c) × (c ≤ 126) × (c ≢ b'<') × (c ≢ b'"')

escaped-IsSafe : (c : ℕ) → c < 256 → All IsSafe (escaped c)
escaped-IsSafe c h = ground arith

escape-IsSafe : (s : Bytes) → AreBytes s → All IsSafe (escape s)
unfolding escape flat_map
escape-IsSafe [] _ = tt
escape-IsSafe (c ∷ s) (h, hs) =
    rw (escape_char-escaped c h)
      (All-append _ (escaped c) _ (escaped-IsSafe c h) (escape-IsSafe s hs))

-- Escaped text holds only printable ASCII and neither `<` nor `"`, and an HTML reader reads the
-- original bytes from it.
pub read-escape : (s : Bytes) → AreBytes s → All IsSafe (escape s) × (read text (escape s) ≡ s)
read-escape s h = (escape-IsSafe s h, read_text s h)
