-- ===== src/Csv/RoundTrip.antt =====
-- A string written by `csv_quote` and read back by `read_csv`.
use mathlib.Core.List.{flat_map}
use nntp_tools.Prelude.{
  ℕ, suc, ◌+◌, ◌-◌, ◌≤◌, ◌<◌, ◌≡◌, ◌↔◌, refl, ap, ◌∙◌, inl, inr, [], ◌∷◌, ◌++◌, append_assoc,
  append-nil, Bytes, length, length-append, All, ltb, Bool-cases, Result, ok, arith,
}
use nntp_tools.Words.{AreBytes}
use nntp_tools.Csv.{Value, Fault, string, quote_char, csv_quote, read_quoted, read_field}
use nntp_tools.Csv.Chars.{
  restored, read_quoted-quote_char, length-restored-le, length-restored_high, restored-low,
}

-- A string as it is read back.
pub restore : Bytes → Bytes
restore [] = []
restore (c ∷ s) = restored c ++ restore s

abbrev pub IsAscii : Bytes → Type 0
IsAscii = All (λ c. c < 128)

read_quoted-end :
    (fuel : ℕ) (t rest : Bytes) → read_quoted (suc fuel) t (b'"' ∷ rest) ≡ ok (t, rest)
unfolding read_quoted
read_quoted-end fuel t rest = refl

read_quoted-restore :
    (fuel : ℕ) (s t rest : Bytes)
    → AreBytes s
    → read_quoted (length (restore s) + suc fuel) t (flat_map quote_char s ++ b'"' ∷ rest)
      ≡ ok (t ++ restore s, rest)
unfolding flat_map restore
read_quoted-restore fuel [] t rest _ =
    let one : 0 + suc fuel ≡ suc fuel = omega arith in
    rw (one, append-nil) (read_quoted-end fuel t rest)
read_quoted-restore fuel (c ∷ s) t rest (h, hs) =
    let more : length (restored c ++ restore s) + suc fuel
        ≡ length (restored c) + (length (restore s) + suc fuel) =
      omega (arith, length-append (restored c) (restore s)) in
    rw (more, append_assoc (quote_char c) (flat_map quote_char s) (b'"' ∷ rest))
      (read_quoted-quote_char (length (restore s) + suc fuel) c t _ h
        ∙ (read_quoted-restore fuel s (t ++ restored c) rest hs
            ∙ ap (λ u. ok (u, rest)) (append_assoc t (restored c) (restore s))))

length-restore-le : (s : Bytes) → AreBytes s → length (restore s) ≤ length (flat_map quote_char s)
unfolding restore flat_map
length-restore-le [] _ = omega arith
length-restore-le (c ∷ s) (h, hs) = omega (
  arith,
  length-append (restored c) (restore s),
  length-append (quote_char c) (flat_map quote_char s),
  length-restored-le c h,
  length-restore-le s hs,
)

-- Reading a quoted string takes exactly what `csv_quote` wrote, and gives the restored string.
pub read_field-restore :
    (s rest : Bytes) → AreBytes s → read_field (csv_quote s ++ rest) ≡ ok (string (restore s), rest)
unfolding read_field csv_quote
read_field-restore s rest h =
    let body : Bytes = flat_map quote_char s ++ b'"' ∷ rest in
    let spare : ℕ = length body - length (restore s) in
    let fuel : length body + 1 ≡ length (restore s) + suc spare =
      omega (arith, length-append (flat_map quote_char s) (b'"' ∷ rest), length-restore-le s h) in
    rw (
      append_assoc (flat_map quote_char s) (b'"' ∷ []) rest,
      fuel,
      read_quoted-restore spare s [] rest h,
    )

pub restore-eq : (s : Bytes) → IsAscii s → restore s ≡ s
unfolding restore restored
restore-eq [] _ = refl
restore-eq (c ∷ s) (h, hs) = ground (arith, restore-eq s hs)

length-le-restore : (s : Bytes) → length s ≤ length (restore s)
unfolding restore restored
length-le-restore [] = omega arith
length-le-restore (c ∷ s) = ground (arith, length-le-restore s)

string-injective :
    {s t : Bytes} (rest : Bytes) (r : Result Fault (Value × Bytes))
    → r ≡ ok (string s, rest)
    → r ≡ ok (string t, rest)
    → s ≡ t
string-injective rest r d e = ground arith

restore-IsAscii : (s : Bytes) → restore s ≡ s → IsAscii s
unfolding restore
restore-IsAscii [] e = tt
restore-IsAscii (c ∷ s) e = elim (Bool-cases (ltb c 128)) [
  | inl low ↦ (ground arith, restore-IsAscii s (ground (arith, restored-low c)))
  | inr high ↦ absurd (
      omega (
        arith,
        ap length e,
        length-append (restored c) (restore s),
        length-restored_high c (ground arith),
        length-le-restore s,
      ))
]

-- `read_csv` reads a string back from what `csv_quote` wrote for it exactly if the string is ASCII:
-- a byte of 128 or more comes back as nine bytes.
pub read_field-csv_quote :
    (s rest : Bytes)
    → AreBytes s
    → (read_field (csv_quote s ++ rest) ≡ ok (string s, rest)) ↔ IsAscii s
read_field-csv_quote s rest h = (
  λ e. restore-IsAscii s (string-injective rest _ (read_field-restore s rest h) e),
  λ a. read_field-restore s rest h ∙ ap (λ t. ok (string t, rest)) (restore-eq s a),
)
