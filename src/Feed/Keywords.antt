-- ===== src/Feed/Keywords.antt =====
-- The keywords and the body of an article of gateways/lj2news.c.
use mathlib.Core.List.{cons-ne-nil}
use nntp_tools.Prelude.{
  ℕ, zero, suc, ◌≤◌, ◌≡◌, ◌≢◌, refl, ap, ◌∙◌, true, false, not, ◌&&◌, List, [], ◌∷◌, ◌++◌,
  append_assoc, Bytes, codes, equal, ◌==◌, if◌then◌else◌, length, length-append, All, arith,
  Bool-cases, inl, inr,
}
use nntp_tools.Text.{is_space}
use nntp_tools.Feed.Article.{
  keywords_from, fgets, has_newline, is_blank_line, lynx_text, lynx_body, buffer_room,
}

-- The values of the elements named `category`.
unfoldable pub categories : List (Bytes × Bytes) → List Bytes
categories [] = []
categories ((name, value) ∷ es) =
    if equal name (codes "category") then value ∷ categories es else categories es

-- Each behind a comma.
unfoldable pub comma_separated : List Bytes → Bytes
comma_separated [] = []
comma_separated (s ∷ ss) = codes "," ++ (s ++ comma_separated ss)

unfoldable pub keyword_line : List Bytes → Bytes
keyword_line [] = []
keyword_line (s ∷ ss) = codes "Keywords: " ++ (s ++ (comma_separated ss ++ b'\n' ∷ []))

keywords_from-more :
    (n : ℕ) (es : List (Bytes × Bytes))
    → keywords_from (suc n) es ≡ comma_separated (categories es) ++ b'\n' ∷ []
unfolding keywords_from comma_separated categories
keywords_from-more n [] = refl
keywords_from-more n ((name, value) ∷ es) = elim (Bool-cases (equal name (codes "category"))) [
  | inl here ↦
      let later : (suc n == 0) ≡ false = ground arith in
      rw
        (
          here,
          later,
          keywords_from-more (suc n) es,
          append_assoc value (comma_separated (categories es)) (b'\n' ∷ []),
        )
        refl
  | inr other ↦ rw (other) (keywords_from-more n es)
]

-- The loop writes one line with the categories between commas, in the order of the elements, or no line if
-- there is none.
keywords_from_lem : (es : List (Bytes × Bytes)) → keywords_from 0 es ≡ keyword_line (categories es)
unfolding keywords_from keyword_line categories
keywords_from_lem [] = refl
keywords_from_lem ((name, value) ∷ es) = elim (Bool-cases (equal name (codes "category"))) [
  | inl here ↦ rw (here, keywords_from-more 0 es) refl
  | inr other ↦ rw (other) (keywords_from_lem es)
]

-- A line without its newline: no newline in it, and room for it.
pub record IsLine (s : Bytes) : Type 0 where
  pub no_newline : has_newline s ≡ false
  pub fits : suc (length s) ≤ buffer_room

fgets-line :
    (n : ℕ) (s rest : Bytes)
    → has_newline s ≡ false
    → suc (length s) ≤ n
    → fgets n (s ++ (b'\n' ∷ rest)) ≡ (s ++ b'\n' ∷ [], rest)
unfolding fgets has_newline
fgets-line zero s rest h f = absurd (omega arith)
fgets-line (suc n) [] rest h f = refl
fgets-line (suc n) (c ∷ s) rest h f = elim (Bool-cases (c == b'\n')) [
  | inl here ↦ absurd (ground (arith, h, here))
  | inr other ↦ rw (other, fgets-line n s rest (ground (arith, h, other)) (omega arith)) refl
]

has_newline-line : (s : Bytes) → has_newline (s ++ b'\n' ∷ []) ≡ true
unfolding has_newline
has_newline-line [] = refl
has_newline-line (c ∷ s) = ground (arith, has_newline-line s)

is_blank_line-line : (s : Bytes) → is_blank_line (s ++ b'\n' ∷ []) ≡ is_blank_line s
unfolding is_blank_line
is_blank_line-line [] = refl
is_blank_line-line (c ∷ s) = ap (λ b. is_space c && b) (is_blank_line-line s)

lynx_text-cons :
    (fuel : ℕ) (t line rest : Bytes)
    → t ≢ []
    → fgets buffer_room t ≡ (line, rest)
    → lynx_text buffer_room (suc fuel) t ≡ (
        if not (has_newline line)
        then lynx_text buffer_room fuel rest
        else if is_blank_line line
        then lynx_text buffer_room fuel rest
        else line ++ rest)
unfolding lynx_text
lynx_text-cons fuel [] line rest n e = absurd (n refl)
lynx_text-cons fuel (c ∷ t) line rest n e = rw (e) refl

line-ne-nil : (s rest : Bytes) → s ++ (b'\n' ∷ rest) ≢ []
line-ne-nil [] rest = cons-ne-nil _ _
line-ne-nil (c ∷ s) rest = cons-ne-nil _ _

lynx_text-step :
    (fuel : ℕ) (s rest : Bytes)
    → IsLine s
    → lynx_text buffer_room (suc fuel) (s ++ (b'\n' ∷ rest))
      ≡ (if is_blank_line s then lynx_text buffer_room fuel rest else (s ++ b'\n' ∷ []) ++ rest)
lynx_text-step fuel s rest h =
    lynx_text-cons fuel (s ++ (b'\n' ∷ rest)) (s ++ b'\n' ∷ []) rest (line-ne-nil s rest)
      (fgets-line buffer_room s rest h.no_newline h.fits)
    ∙ rw (has_newline-line s, is_blank_line-line s) refl

unfoldable pub lines : List Bytes → Bytes → Bytes
lines [] rest = rest
lines (s ∷ ss) rest = s ++ (b'\n' ∷ lines ss rest)

lynx_text-blank :
    (blank : List Bytes) (s rest : Bytes) (fuel : ℕ)
    → All (λ b. IsLine b × (is_blank_line b ≡ true)) blank
    → IsLine s
    → is_blank_line s ≡ false
    → length (lines blank (s ++ (b'\n' ∷ rest))) ≤ fuel
    → lynx_text buffer_room fuel (lines blank (s ++ (b'\n' ∷ rest))) ≡ s ++ (b'\n' ∷ rest)
unfolding lines
lynx_text-blank [] s rest zero _ hs n f = absurd (omega (arith, length-append s (b'\n' ∷ rest)))
lynx_text-blank [] s rest (suc fuel) _ hs n f =
    lynx_text-step fuel s rest hs ∙ rw (n, append_assoc s (b'\n' ∷ []) rest) refl
lynx_text-blank (b ∷ bs) s rest zero _ hs n f =
    absurd (omega (arith, length-append b (b'\n' ∷ lines bs (s ++ (b'\n' ∷ rest)))))
lynx_text-blank (b ∷ bs) s rest (suc fuel) ((hb, e), hbs) hs n f =
    let later = lines bs (s ++ (b'\n' ∷ rest)) in
    lynx_text-step fuel b later hb
    ∙ rw (e)
        (lynx_text-blank bs s rest fuel hbs hs n (omega (arith, length-append b (b'\n' ∷ later))))

-- Blank lines in front of the first line that is not are dropped, and everything from that line on is
-- kept, when these lines fit the buffer.
pub lynx_body-blank :
    (blank : List Bytes) (s rest : Bytes)
    → All (λ b. IsLine b × (is_blank_line b ≡ true)) blank
    → IsLine s
    → is_blank_line s ≡ false
    → lynx_body (lines blank (s ++ (b'\n' ∷ rest))) ≡ s ++ (b'\n' ∷ rest)
unfolding lynx_body
lynx_body-blank blank s rest hb hs n =
    lynx_text-blank blank s rest (suc (length (lines blank (s ++ (b'\n' ∷ rest))))) hb hs n
      (omega arith)
