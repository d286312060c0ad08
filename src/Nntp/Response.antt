-- ===== src/Nntp/Response.antt =====
-- `pts_response` of lib/nntp.c: the status code of a response line.
use mathlib.Core.Path.{subst}
use nntp_tools.Prelude.{
  ℕ, ◌+◌, ◌-◌, ◌*◌, ◌<◌, ◌≡◌, refl, true, false, not, ◌&&◌, ◌||◌, [], ◌∷◌, ◌++◌, none, some, All,
  Option-cases, inl, inr, ◌≢◌, ◌↔◌, Bytes, ◌==◌, if◌then◌else◌, Result, ok, failed, ◌>>=◌,
  >>=-eq-ok, arith,
}
use nntp_tools.Text.{c_string, char_at, is_digit, cut_last}

-- The reasons for which the poster calls `fatal`.
pub data Fault : Type 0 where
  read_error end_of_file not_crlf no_code not_postable bad_banner auth_failed : Fault
  out_of_fuel : Fault

-- What follows the last CR must be a LF and nothing else; the CR is overwritten by a NUL.
unfoldable pub strip_crlf : Bytes → Result Fault Bytes
strip_crlf line = elim (cut_last 13 line) [
  | none ↦ failed not_crlf
  | some (text, after) ↦
      if char_at after 0 == 10 && char_at after 1 == 0 then ok text else failed not_crlf
]

-- Three digits and no fourth.
unfoldable pub status_code : Bytes → Result Fault ℕ
status_code line =
    if not (is_digit (char_at line 0))
      || not (is_digit (char_at line 1))
      || not (is_digit (char_at line 2))
      || is_digit (char_at line 3)
    then failed no_code
    else ok (char_at line 0 * 100 + char_at line 1 * 10 + char_at line 2 - 111 * b'0')

-- The line that `io_getline` has read, to the code and the line without its CRLF.
unfoldable pub parse_response : Bytes → Result Fault (ℕ × Bytes)
parse_response line =
    strip_crlf (c_string line) >>= λ text. status_code text >>= λ code. ok (code, text)

-- A byte of a C string.
abbrev pub NoNul : Bytes → Type 0
NoNul = All (λ c. c ≢ 0)

abbrev pub crlf : Bytes
crlf = 13 ∷ 10 ∷ []

-- A response line: three digits that spell the code, and no digit behind them.
pub record IsStatus (code : ℕ) (text : Bytes) : Type 0 where
  pub hundreds : ℕ
  pub tens : ℕ
  pub units : ℕ
  pub rest : Bytes
  pub spelled : text ≡ (b'0' + hundreds) ∷ (b'0' + tens) ∷ (b'0' + units) ∷ rest
  pub digits : (hundreds < 10) × (tens < 10) × (units < 10)
  pub value : code ≡ 100 * hundreds + 10 * tens + units
  pub ends : is_digit (char_at rest 0) ≡ false

cut_last_sound :
    (c : ℕ) (s : Bytes) {before after : Bytes}
    → cut_last c s ≡ some (before, after)
    → s ≡ before ++ c ∷ after
unfolding cut_last
cut_last_sound c [] h = cc
cut_last_sound c (d ∷ s) h = elim (Option-cases (cut_last c s)) [
  | inl e ↦ ground (arith, e)
  | inr ((b, a), e) ↦ ground (arith, e, cut_last_sound c s e)
]

c_string-NoNul : (s : Bytes) → NoNul (c_string s)
unfolding c_string
c_string-NoNul [] = tt
c_string-NoNul (c ∷ s) = ground (arith, c_string-NoNul s)

c_string_self : (s : Bytes) → NoNul s → c_string s ≡ s
unfolding c_string
c_string_self [] _ = refl
c_string_self (c ∷ s) (h, hs) = ground (arith, c_string_self s hs)

cut_last_end : (c : ℕ) (s : Bytes) (d : ℕ) → d ≢ c → cut_last c (s ++ c ∷ d ∷ []) ≡ some (s, d ∷ [])
unfolding cut_last
cut_last_end c [] d h = ground arith
cut_last_end c (x ∷ s) d h = ground (arith, cut_last_end c s d h)

NoNul-tail : (before : Bytes) (c : ℕ) (after : Bytes) → NoNul (before ++ c ∷ after) → NoNul after
NoNul-tail [] c after h = h.1
NoNul-tail (b ∷ before) c after h = NoNul-tail before c after h.1

only_lf :
    (after : Bytes)
    → NoNul after
    → (char_at after 0 == 10) ≡ true
    → (char_at after 1 == 0) ≡ true
    → after ≡ 10 ∷ []
only_lf [] h p q = cc
only_lf (a ∷ []) h p q = ground arith
only_lf (a ∷ b ∷ after) (_, h) p q = ground arith

strip_crlf_sound : (s : Bytes) {t : Bytes} → NoNul s → strip_crlf s ≡ ok t → s ≡ t ++ crlf
unfolding strip_crlf
strip_crlf_sound s h e = elim (Option-cases (cut_last 13 s)) [
  | inl none_there ↦ ground (arith, none_there)
  | inr ((before, after), there) ↦
      let whole = cut_last_sound 13 s there in
      ground (arith, there, whole, only_lf after (NoNul-tail before 13 after (subst NoNul whole h)))
]

strip_crlf_complete : (t : Bytes) → strip_crlf (t ++ crlf) ≡ ok t
unfolding strip_crlf
strip_crlf_complete t = rw (cut_last_end 13 t 10 (omega arith), strip_crlf)

status_code_sound : (text : Bytes) {code : ℕ} → status_code text ≡ ok code → IsStatus code text
unfolding status_code
status_code_sound [] e = absurd (ground arith)
status_code_sound (a ∷ []) e = absurd (ground arith)
status_code_sound (a ∷ b ∷ []) e = absurd (ground arith)
status_code_sound (a ∷ b ∷ c ∷ rest) e = record {
  hundreds = a - b'0';
  tens = b - b'0';
  units = c - b'0';
  rest = rest;
  spelled = ground arith;
  digits = (ground arith, ground arith, ground arith);
  value = ground arith;
  ends = ground arith;
}

status_code_complete : (text : Bytes) {code : ℕ} → IsStatus code text → status_code text ≡ ok code
unfolding status_code
status_code_complete text k = rw k.spelled (ground arith)

parse_response_sound :
    (line text : Bytes) (code : ℕ)
    → parse_response line ≡ ok (code, text)
    → (c_string line ≡ text ++ crlf) × IsStatus code text
unfolding parse_response
parse_response_sound line text code e =
    let (t, stripped, e') = >>=-eq-ok (strip_crlf (c_string line)) _ e in
    let (c, coded, e'') = >>=-eq-ok (status_code t) _ e' in
    let same_code : c ≡ code = ground (arith, e'') in
    let same_text : t ≡ text = ground (arith, e'') in
    (
      rw (← same_text) (strip_crlf_sound (c_string line) (c_string-NoNul line) stripped),
      rw (← same_code, ← same_text) (status_code_sound t coded),
    )

-- `pts_response` returns a code exactly for a line that ends CRLF and starts with that three-digit
-- code, with the line it leaves in `line`; it calls `fatal` for every other line.
pub parse_response_iff :
    (line text : Bytes) (code : ℕ)
    → (parse_response line ≡ ok (code, text))
      ↔ ((c_string line ≡ text ++ crlf) × IsStatus code text)
unfolding parse_response
parse_response_iff line text code = (
  parse_response_sound line text code,
  λ (ends, k). rw (ends, strip_crlf_complete text, status_code_complete text k),
)
