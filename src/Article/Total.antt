-- ===== src/Article/Total.antt =====
-- `parse` of spoolstats/Article.cc reads every text on the rounds that it is given.
use nntp_tools.Prelude.{
  ℕ, zero, suc, ◌+◌, ◌≤◌, ◌<◌, ◌≡◌, refl, ap, ◌∙◌, true, false, [], ◌∷◌, some, Bytes, length, drop,
  length-drop, ◌==◌, Bool-cases, inl, inr, arith,
}
use nntp_tools.Article.Headers.{parse_from-header, parse_from-stop}
use nntp_tools.Article.{Headers, eol, eoh, scan_header, add_header, parse_from, parse}

scan_header-length : (s : Bytes) → length (scan_header s).1 ≤ length s
unfolding scan_header
scan_header-length [] = omega arith
scan_header-length (c ∷ s) = elim (Bool-cases (eoh (c ∷ s))) [
  | inl ends ↦ rw (ends) (omega arith)
  | inr more ↦ rw (more) (omega (arith, scan_header-length s))
]

eoh-none : (s : Bytes) → eol s ≡ 0 → eoh s ≡ false
unfolding eoh
eoh-none s h = rw (h) refl

-- A text that does not start with a line end loses a byte to its header.
scan_header-shorter :
    (c : ℕ) (s : Bytes) → eol (c ∷ s) ≡ 0 → length (scan_header (c ∷ s)).1 ≤ length s
unfolding scan_header
scan_header-shorter c s h = rw (eoh-none (c ∷ s) h) (scan_header-length s)

parse_from-cut :
    (fuel c : ℕ) (text header rest : Bytes) (m : Headers)
    → eol (c ∷ text) ≡ 0
    → scan_header (c ∷ text) ≡ (header, rest)
    → (length rest == 0) ≡ true
    → parse_from (suc fuel) (c ∷ text) m ≡ some m
unfolding parse_from
parse_from-cut fuel c text header [] m e f h = ground (arith, e, f)
parse_from-cut fuel c text header (d ∷ rest) m e f h = absurd (ground (arith, h))

parse_from-total :
    (fuel : ℕ) (text : Bytes) (m : Headers)
    → length text < fuel
    → (h : Headers) × (parse_from fuel text m ≡ some h)
parse_from-total zero text m enough = absurd (omega (arith, enough))
parse_from-total (suc fuel) [] m enough = (m, unfold parse_from in refl)
parse_from-total (suc fuel) (c ∷ text) m enough = elim (Bool-cases (eol (c ∷ text) == 0)) [
  | inr ends ↦ (m, parse_from-stop fuel c text m (ground (arith, ends)))
  | inl more ↦
      let none_here : eol (c ∷ text) ≡ 0 = ground (arith, more) in
      let header = (scan_header (c ∷ text)).0 in
      let rest = (scan_header (c ∷ text)).1 in
      elim (Bool-cases (length rest == 0)) [
        | inl cut ↦ (m, parse_from-cut fuel c text header rest m none_here refl cut)
        | inr whole ↦
            let (h, runs) = parse_from-total fuel (drop (eol rest) rest) (add_header header m) (
              omega (
                arith,
                enough,
                length-drop (eol rest) rest,
                scan_header-shorter c text none_here,
              )) in
            (
              h,
              parse_from-header fuel c text header rest m none_here refl
                    (λ e. absurd (ground (arith, whole, ap length e)))
                  ∙ runs,
            )
      ]
]

-- Every text is parsed: the rounds of the loop are enough.
pub parse-total : (text : Bytes) → (h : Headers) × (parse text ≡ some h)
unfolding parse
parse-total text = parse_from-total (length text + 1) text [] (omega arith)
