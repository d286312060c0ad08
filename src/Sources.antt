-- ===== src/Sources.antt =====
-- sources/sources.cc: the news log of INN, counted by peer and minute. A position in the line is the text
-- that is left.
pub mod Line
pub mod Maps
pub mod Entries
pub mod Counts
pub mod Pages
mod Tests
use nntp_tools.Prelude.{
  ℕ, zero, suc, ◌+◌, ◌-◌, ◌*◌, Bool, true, false, ◌||◌, List, [], ◌∷◌, ◌++◌, Option, none, some,
  Bytes, codes, ltb, ◌==◌, if◌then◌else◌,
}
use nntp_tools.Prelude.Int.{ℤ, pos}
use nntp_tools.Text.{char_at, is_digit, is_space, starts_with}
use nntp_tools.Atoi.{skip_space}
use nntp_tools.Dates.{Tm, digits_from, int_end}

infixl 5 ◌>>?◌
abbrev pub ◌>>?◌ {ℓ κ} : {A : Type ℓ} {B : Type κ} → Option A → (A → Option B) → Option B
none >>? f = none
some a >>? f = f a

abbrev pub drop_prefix : Bytes → Bytes → Option Bytes
drop_prefix s [] = some s
drop_prefix [] (p ∷ ps) = none
drop_prefix (c ∷ s) (p ∷ ps) = if c == p then drop_prefix s ps else none

-- `parser::is`, of a character and of a string.
unfoldable pub is : Bytes → Bytes → Option Bytes
is s p = drop_prefix s p

-- `parser::get_char`.
unfoldable pub first_char : Bytes → Option (ℕ × Bytes)
first_char [] = none
first_char (c ∷ s) = some (c, s)

unfoldable pub get_char : Bytes → Option (ℕ × Bytes)
get_char s = first_char (skip_space s)

-- The digits as an `int`: none where `10 * n + line.at(pos++) - '0'` overflows, which C leaves undefined. The
-- character is added before the 48 of `'0'` is taken off, and the values grow, so the last one tells.
unfoldable pub as_int : ℕ × Bytes → Option (ℕ × Bytes)
as_int (n, rest) = if ltb (n + b'0') int_end then some (n, rest) else none

-- `parser::get_int`.
unfoldable pub digits_of : Bytes → Option (ℕ × Bytes)
digits_of s = if is_digit (char_at s 0) then as_int (digits_from 0 s) else none

unfoldable pub get_int : Bytes → Option (ℕ × Bytes)
get_int s = digits_of (skip_space s)

-- `parser::get_string`.
unfoldable pub take_word : Bytes → Bytes × Bytes
take_word [] = ([], [])
take_word (c ∷ s) = elim (is_space c) [
  | true ↦ ([], c ∷ s)
  | false ↦ (c ∷ (take_word s).0, (take_word s).1)
]

unfoldable pub word_of : Bytes → Option (Bytes × Bytes)
word_of [] = none
word_of (c ∷ s) = some (take_word (c ∷ s))

unfoldable pub get_string : Bytes → Option (Bytes × Bytes)
get_string s = word_of (skip_space s)

-- `details`; the time as `mktime` makes it, in seconds and microseconds.
pub record Details : Type 0 where
  pub when : Tm
  pub seconds : ℤ
  pub microseconds : ℕ
  pub code : ℕ
  pub peer : Bytes
  pub message : Bytes
  pub size : ℕ
  pub extra : Bytes

abbrev pub months : List Bytes
months =
    codes "Jan"
    ∷ codes "Feb"
    ∷ codes "Mar"
    ∷ codes "Apr"
    ∷ codes "May"
    ∷ codes "Jun"
    ∷ codes "Jul"
    ∷ codes "Aug"
    ∷ codes "Sep"
    ∷ codes "Oct"
    ∷ codes "Nov"
    ∷ codes "Dec"
    ∷ []

unfoldable pub month_from : ℕ → List Bytes → Bytes → Option (ℕ × Bytes)
month_from n [] s = none
month_from n (m ∷ ms) s = elim (is s m) [
  | some rest ↦ some (n, rest)
  | none ↦ month_from (suc n) ms s
]

unfoldable pub is_accepted : ℕ → Bool
is_accepted code = code == b'+' || code == b'j'

-- The size, which only accepted articles have; for others it is not set, here 0.
unfoldable pub size_of : ℕ → Bytes → Option (ℕ × Bytes)
size_of code s = if is_accepted code then get_int s else some (0, s)

-- The fields of the line.
pub record Fields : Type 0 where
  pub mon : ℕ
  pub mday : ℕ
  pub hour : ℕ
  pub min : ℕ
  pub sec : ℕ
  pub msec : ℕ
  pub code : ℕ
  pub peer : Bytes
  pub message : Bytes
  pub size : ℕ
  pub extra : Bytes

unfoldable pub parse_rest : (ℕ → ℕ → Bytes → Bytes → ℕ → Bytes → Fields) → Bytes → Option Fields
parse_rest fields s = get_int s >>? λ (msec, a). get_char a >>? λ (code, b).
    get_string b >>? λ (peer, c). get_string c >>? λ (message, d).
    size_of code d >>? λ (size, e). some (fields msec code peer message size (skip_space e))

unfoldable pub parse_fields : Bytes → Option Fields
parse_fields s = month_from 0 months s >>? λ (n, a). get_int a >>? λ (mday, b).
    get_int b >>? λ (hour, c). is c (codes ":") >>? λ d. get_int d >>? λ (min, e).
    is e (codes ":") >>? λ f. get_int f >>? λ (sec, g). is g (codes ".") >>? λ h.
    parse_rest
      (λ msec code peer message size extra. record {
        mon = n;
        mday = mday;
        hour = hour;
        min = min;
        sec = sec;
        msec = msec;
        code = code;
        peer = peer;
        message = message;
        size = size;
        extra = extra;
      })
      h

-- The year is that of the start, or the one before for a later month.
unfoldable pub guess_year : Tm → ℕ → ℤ → ℕ
guess_year start mon (pos m) = if ltb m mon then start.year - 1 else start.year
guess_year start mon n = start.year - 1

-- The date as it is given to `mktime`.
unfoldable pub given : Tm → Fields → Tm
given start f = record {
  mday = f.mday;
  mon = pos (f.mon);
  year = guess_year start f.mon start.mon;
  hour = f.hour;
  min = f.min;
  sec = pos (f.sec);
}

-- `details::parse`; `mktime` of the C library normalises the fields and gives the time.
unfoldable pub parse : (Tm → Tm × ℤ) → Tm → Bytes → Option Details
parse mktime start line = parse_fields line >>? λ f.
    let (tm, t) = mktime (given start f) in
    some (record {
      when = tm;
      seconds = t;
      microseconds = 1000 * f.msec;
      code = f.code;
      peer = f.peer;
      message = f.message;
      size = f.size;
      extra = f.extra;
    })
