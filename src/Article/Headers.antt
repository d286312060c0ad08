-- ===== src/Article/Headers.antt =====
-- `parse` on a well-formed article: it finds the headers that were written, in either line ending.
use mathlib.Core.Path.{ap₂}
use mathlib.Core.List.{map}
use nntp_tools.Prelude.{
  ℕ, zero, suc, ◌+◌, ◌-◌, ◌<◌, ◌≤◌, ◌≡◌, ◌≢◌, refl, sym, ap, ◌∙◌, true, false, [], ◌∷◌, ◌++◌,
  append_assoc, some, Bytes, All, length, take, drop, length-append, take-length, drop-length, ltb,
  arith,
}
use nntp_tools.Text.{char_at, to_lower, insert}
use nntp_tools.Article.{
  Headers, eol, is_blank, eoh, scan_header, find_colon, skip_blanks, trim_end, header_value,
  add_header, parse_from, parse,
}

-- The line ends of native and of wire format.
pub data LineEnd : Type 0 where
  lf crlf : LineEnd

abbrev pub bytes_of : LineEnd → Bytes
bytes_of lf = 10 ∷ []
bytes_of crlf = 13 ∷ 10 ∷ []

abbrev pub IsPlain : Bytes → Type 0
IsPlain = All (λ c. (c ≢ 10) × (c ≢ 13))

-- A value on one line or folded onto several: a line end in it has a blank behind it.
pub data IsFolded : Bytes → Type 0 where
  ended : IsFolded []
  plain : (c : ℕ) {v : Bytes} → c ≢ 10 → c ≢ 13 → IsFolded v → IsFolded (c ∷ v)
  fold :
      (e : LineEnd) (c : ℕ) {v : Bytes}
      → is_blank c ≡ true
      → IsFolded v
      → IsFolded (bytes_of e ++ c ∷ v)

-- A field name and a value; the value may be folded and may end in blanks.
pub record IsField (name value : Bytes) : Type 0 where
  pub name_plain : IsPlain name
  pub name_colon : All (λ c. c ≢ b':') name
  pub name_starts : (name ≢ []) × (is_blank (char_at name 0) ≡ false)
  pub value_folded : IsFolded value
  pub value_starts : is_blank (char_at value 0) ≡ false

abbrev pub AreFields : Headers → Type 0
AreFields = All (λ (n, v). IsField n v)

pub render : LineEnd → Headers → Bytes
render e [] = []
render e ((n, v) ∷ hs) = (n ++ b':' ∷ b' ' ∷ v) ++ (bytes_of e ++ render e hs)

-- The map that holds the last value of each name, in lower case.
pub collect : Headers → Headers → Headers
collect [] m = m
collect ((n, v) ∷ hs) m = collect hs (insert (map to_lower n) v m)

eol-plain : (c : ℕ) (s : Bytes) → c ≢ 10 → c ≢ 13 → eol (c ∷ s) ≡ 0
unfolding eol
eol-plain c [] h k = ground arith
eol-plain c (d ∷ s) h k = ground arith

eoh-plain : (c : ℕ) (s : Bytes) → c ≢ 10 → c ≢ 13 → eoh (c ∷ s) ≡ false
unfolding eoh
eoh-plain c s h k = rw (eol-plain c s h k)

eol-line : (e : LineEnd) (s : Bytes) → eol (bytes_of e ++ s) ≡ length (bytes_of e)
unfolding eol
eol-line lf [] = refl
eol-line lf (c ∷ s) = refl
eol-line crlf s = refl

drop-line : (e : LineEnd) (s : Bytes) → drop (eol (bytes_of e ++ s)) (bytes_of e ++ s) ≡ s
drop-line e s =
    ap (λ n. drop n (bytes_of e ++ s)) (eol-line e s) ∙ drop-length _ (bytes_of e) s refl

eoh-line :
    (e : LineEnd) (rest : Bytes)
    → is_blank (char_at rest 0) ≡ false
    → eoh (bytes_of e ++ rest) ≡ true
unfolding eoh eol
eoh-line lf [] h = refl
eoh-line lf (c ∷ rest) h = ground (arith, h)
eoh-line crlf rest h = ground (arith, h)

scan_header-stop : (c : ℕ) (s : Bytes) → eoh (c ∷ s) ≡ true → scan_header (c ∷ s) ≡ ([], c ∷ s)
unfolding scan_header
scan_header-stop c s h = ground (arith, h)

pub scan_header-more :
    (c : ℕ) (s h rest : Bytes)
    → eoh (c ∷ s) ≡ false
    → scan_header s ≡ (h, rest)
    → scan_header (c ∷ s) ≡ (c ∷ h, rest)
unfolding scan_header
scan_header-more c s h rest e f = ground (arith, e, f)

-- A line end with a blank behind it ends no header.
eoh-fold : (e : LineEnd) (c : ℕ) (s : Bytes) → is_blank c ≡ true → eoh (bytes_of e ++ c ∷ s) ≡ false
unfolding eoh eol
eoh-fold lf c s h = ground (arith, h)
eoh-fold crlf c s h = ground (arith, h)

blank-plain : (c : ℕ) → is_blank c ≡ true → (c ≢ 10) × (c ≢ 13)
blank-plain c h = (λ e. ground (arith, h, e), λ e. ground (arith, h, e))

scan_header-line :
    (e : LineEnd) (h rest : Bytes)
    → IsFolded h
    → is_blank (char_at rest 0) ≡ false
    → scan_header (h ++ (bytes_of e ++ rest)) ≡ (h, bytes_of e ++ rest)
scan_header-line lf h rest ended starts = scan_header-stop 10 rest (eoh-line lf rest starts)
scan_header-line crlf h rest ended starts =
    scan_header-stop 13 (10 ∷ rest) (eoh-line crlf rest starts)
scan_header-line e h rest (plain c {v} n r hs) starts =
    scan_header-more c _ v _ (eoh-plain c _ n r) (scan_header-line e v rest hs starts)
scan_header-line e h rest (fold lf c {v} k hs) starts =
    scan_header-more 10 _ (c ∷ v) _ (eoh-fold lf c (v ++ (bytes_of e ++ rest)) k) (
      scan_header-more c _ v _ (eoh-plain c _ (blank-plain c k).0 (blank-plain c k).1)
        (scan_header-line e v rest hs starts))
scan_header-line e h rest (fold crlf c {v} k hs) starts =
    scan_header-more 13 _ (10 ∷ c ∷ v) _ (eoh-fold crlf c (v ++ (bytes_of e ++ rest)) k) (
      scan_header-more 10 _ (c ∷ v) _ (eoh-fold lf c (v ++ (bytes_of e ++ rest)) k) (
        scan_header-more c _ v _ (eoh-plain c _ (blank-plain c k).0 (blank-plain c k).1)
          (scan_header-line e v rest hs starts)))

plain-append : (s v : Bytes) → IsPlain s → IsFolded v → IsFolded (s ++ v)
plain-append [] v _ f = f
plain-append (c ∷ s) v ((n, r), hs) f = plain c n r (plain-append s v hs f)

find_colon-name :
    (name rest : Bytes)
    → All (λ c. c ≢ b':') name
    → find_colon (name ++ b':' ∷ rest) ≡ some (length name)
unfolding find_colon
find_colon-name [] rest _ = refl
find_colon-name (c ∷ name) rest (h, hs) = ground (arith, find_colon-name name rest hs)

trim_end-behind : (header : Bytes) (colon e : ℕ) → colon < e → trim_end header colon e ≡ e
unfolding trim_end
trim_end-behind header colon zero h = elim h [ ]
trim_end-behind header colon (suc e) h = ground arith

skip_blanks-one : (v : Bytes) → is_blank (char_at v 0) ≡ false → skip_blanks (b' ' ∷ v) ≡ 1
unfolding skip_blanks
skip_blanks-one [] h = refl
skip_blanks-one (c ∷ v) h = ground arith

take_self : (v : Bytes) → take (length v) v ≡ v
take_self [] = refl
take_self (c ∷ v) = ap (◌∷◌ c) (take_self v)

drop_name : (name : Bytes) (c : ℕ) (s : Bytes) → drop (suc (length name)) (name ++ c ∷ s) ≡ s
drop_name [] c s = refl
drop_name (d ∷ name) c s = drop_name name c s

drop_two :
    (name value : Bytes) → drop (suc (suc (length name))) (name ++ b':' ∷ b' ' ∷ value) ≡ value
drop_two [] value = refl
drop_two (d ∷ name) value = drop_two name value

header_value-field :
    (name value : Bytes)
    → is_blank (char_at value 0) ≡ false
    → header_value (name ++ b':' ∷ b' ' ∷ value) (length name) ≡ value
unfolding header_value
header_value-field name value starts =
    let header = name ++ b':' ∷ b' ' ∷ value in
    let size : length header ≡ length name + 2 + length value =
      length-append name (b':' ∷ b' ' ∷ value) ∙ omega arith in
    let kept = trim_end-behind header (length name) (length header) (omega (arith, size)) in
    let first = drop_name name b':' (b' ' ∷ value) in
    let start : suc (length name) + 1 ≡ suc (suc (length name)) = omega arith in
    let inside : ltb (length header) (suc (suc (length name))) ≡ false = ground (arith, size) in
    let count : length header - suc (suc (length name)) ≡ length value = omega (arith, size) in
    let behind : drop (suc (suc (length name))) header ≡ value = drop_two name value in
    rw (kept, first, skip_blanks-one value starts, header_value, start, inside, count, behind)
      (take_self value)

add_header-field :
    (name value : Bytes) (m : Headers)
    → IsField name value
    → add_header (name ++ b':' ∷ b' ' ∷ value) m ≡ insert (map to_lower name) value m
unfolding add_header
add_header-field name value m f = rw (
  find_colon-name name (b' ' ∷ value) f.name_colon,
  add_header,
  take-length (length name) name _ refl,
  header_value-field name value f.value_starts,
)

-- One round of the loop of `parse`.
pub parse_from-header :
    (fuel c : ℕ) (text header rest : Bytes) (m : Headers)
    → eol (c ∷ text) ≡ 0
    → scan_header (c ∷ text) ≡ (header, rest)
    → rest ≢ []
    → parse_from (suc fuel) (c ∷ text) m
      ≡ parse_from fuel (drop (eol rest) rest) (add_header header m)
unfolding parse_from
parse_from-header fuel c text header [] m e f n = absurd (n refl)
parse_from-header fuel c text header (d ∷ rest) m e f n = ground (arith, e, f)

pub parse_from-stop :
    (fuel c : ℕ) (text : Bytes) (m : Headers)
    → eol (c ∷ text) ≢ 0
    → parse_from (suc fuel) (c ∷ text) m ≡ some m
unfolding parse_from
parse_from-stop fuel c text m h = ground arith

end-starts : (e : LineEnd) (s : Bytes) → is_blank (char_at (bytes_of e ++ s) 0) ≡ false
end-starts lf s = refl
end-starts crlf s = refl

end-ne-nil : (e : LineEnd) (s : Bytes) → bytes_of e ++ s ≢ []
end-ne-nil lf s = cc
end-ne-nil crlf s = cc

render-starts :
    (e : LineEnd) (hs : Headers) (body : Bytes)
    → AreFields hs
    → is_blank (char_at (render e hs ++ (bytes_of e ++ body)) 0) ≡ false
unfolding render
render-starts e [] body _ = end-starts e body
render-starts e (([], v) ∷ hs) body (f, fs) = absurd (f.name_starts.0 refl)
render-starts e ((c ∷ n, v) ∷ hs) body (f, fs) = f.name_starts.1

-- One field in front of the rest of the text.
parse_from-field :
    (fuel c : ℕ) (e : LineEnd) (n v rest : Bytes) (m : Headers)
    → IsField (c ∷ n) v
    → is_blank (char_at rest 0) ≡ false
    → parse_from (suc fuel) ((c ∷ n ++ b':' ∷ b' ' ∷ v) ++ (bytes_of e ++ rest)) m
      ≡ parse_from fuel rest (insert (map to_lower (c ∷ n)) v m)
parse_from-field fuel c e n v rest m f starts =
    let header : Bytes = (c ∷ n) ++ b':' ∷ b' ' ∷ v in
    let folded : IsFolded header = plain-append (c ∷ n) (b':' ∷ b' ' ∷ v) f.name_plain (
      plain b':' (omega arith) (omega arith)
        (plain b' ' (omega arith) (omega arith) f.value_folded)) in
    let first = f.name_plain.0 in
    parse_from-header fuel c _ header (bytes_of e ++ rest) m (eol-plain c _ first.0 first.1)
      (scan_header-line e header rest folded starts) (end-ne-nil e rest)
    ∙ ap₂ (parse_from fuel) (drop-line e rest) (add_header-field (c ∷ n) v m f)

collect-field :
    (n v : Bytes) (hs m : Headers)
    → collect ((n, v) ∷ hs) m ≡ collect hs (insert (map to_lower n) v m)
unfolding collect
collect-field n v hs m = refl

parse_from-render :
    (fuel : ℕ) (e : LineEnd) (hs m : Headers) (body : Bytes)
    → AreFields hs
    → length hs < fuel
    → parse_from fuel (render e hs ++ (bytes_of e ++ body)) m ≡ some (collect hs m)
parse_from-render zero e hs m body _ h = elim h [ ]
parse_from-render (suc fuel) lf [] m body _ h =
    unfold render collect in
    parse_from-stop fuel 10 body m (λ z. absurd (omega (arith, z, eol-line lf body)))
parse_from-render (suc fuel) crlf [] m body _ h =
    unfold render collect in
    parse_from-stop fuel 13 (10 ∷ body) m (λ z. absurd (omega (arith, z, eol-line crlf body)))
parse_from-render (suc fuel) e (([], v) ∷ hs) m body (f, fs) h = absurd (f.name_starts.0 refl)
parse_from-render (suc fuel) e ((c ∷ n, v) ∷ hs) m body (f, fs) h =
    let rest : Bytes = render e hs ++ (bytes_of e ++ body) in
    let header : Bytes = (c ∷ n) ++ b':' ∷ b' ' ∷ v in
    let split_up : render e ((c ∷ n, v) ∷ hs) ++ (bytes_of e ++ body)
        ≡ header ++ (bytes_of e ++ rest) =
      unfold render in
      append_assoc header (bytes_of e ++ render e hs) (bytes_of e ++ body)
      ∙ ap (λ t. header ++ t) (append_assoc (bytes_of e) (render e hs) (bytes_of e ++ body)) in
    ap (λ t. parse_from (suc fuel) t m) split_up
    ∙ (parse_from-field fuel c e n v rest m f (render-starts e hs body fs)
        ∙ (parse_from-render fuel e hs _ body fs (omega arith)
            ∙ ap some (sym (collect-field (c ∷ n) v hs m))))

length-le-render : (e : LineEnd) (hs : Headers) → length hs ≤ length (render e hs)
unfolding render
length-le-render e [] = omega arith
length-le-render e ((n, v) ∷ hs) = omega (
  arith,
  length-append (n ++ b':' ∷ b' ' ∷ v) (bytes_of e ++ render e hs),
  length-append n (b':' ∷ b' ' ∷ v),
  length-append (bytes_of e) (render e hs),
  length-le-render e hs,
)

-- On an article in native or wire format, with any fields that are well formed, folded ones included,
-- and any body, `parse` finds exactly the fields: under each name in lower case the value that was
-- written last, its line ends and the blanks at its end included, and nothing from the body.
pub parse-render :
    (e : LineEnd) (hs : Headers) (body : Bytes)
    → AreFields hs
    → parse (render e hs ++ (bytes_of e ++ body)) ≡ some (collect hs [])
unfolding parse
parse-render e hs body fs =
    parse_from-render _ e hs [] body fs
      (omega (arith, length-le-render e hs, length-append (render e hs) (bytes_of e ++ body)))
