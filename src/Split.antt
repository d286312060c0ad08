-- ===== src/Split.antt =====
-- `split` of lib/split.cc: a string cut at every separator.
mod Tests
use nntp_tools.Prelude.{
  ℕ, ◌≡◌, ◌≢◌, refl, sym, ap, ◌∙◌, Bool, true, false, List, [], ◌∷◌, ◌++◌, append_assoc, append-nil,
  Bytes, All, All-append, inl, inr, Bool-cases, ◌==◌, if◌then◌else◌, arith,
}

-- The part from `pos` on: `cur` holds the bytes over which `find` has gone.
unfoldable pub split_from : ℕ → Bytes → Bytes → List Bytes
split_from sep cur [] = cur ∷ []
split_from sep cur (c ∷ s) = elim (c == sep) [
  | true ↦ cur ∷ split_from sep [] s
  | false ↦ split_from sep (cur ++ c ∷ []) s
]

unfoldable pub split : ℕ → Bytes → List Bytes
unfolding split_from
split sep s = split_from sep [] s

-- The parts with the separator between them.
pub join : ℕ → List Bytes → Bytes
join sep [] = []
join sep (p ∷ []) = p
join sep (p ∷ q ∷ ps) = p ++ sep ∷ join sep (q ∷ ps)

abbrev pub Lacks : ℕ → Bytes → Type 0
Lacks sep = All (λ c. c ≢ sep)

split_from-sep :
    (sep : ℕ) (cur s : Bytes) (c : ℕ)
    → (c == sep) ≡ true
    → split_from sep cur (c ∷ s) ≡ cur ∷ split_from sep [] s
unfolding split_from
split_from-sep sep cur s c h = ground (arith, h)

split_from-other :
    (sep : ℕ) (cur s : Bytes) (c : ℕ)
    → (c == sep) ≡ false
    → split_from sep cur (c ∷ s) ≡ split_from sep (cur ++ c ∷ []) s
unfolding split_from
split_from-other sep cur s c h = ground (arith, h)

join-cons :
    (sep : ℕ) (p : Bytes) (ps : List Bytes) → ps ≢ [] → join sep (p ∷ ps) ≡ p ++ sep ∷ join sep ps
unfolding join
join-cons sep p [] h = absurd (h refl)
join-cons sep p (q ∷ ps) h = refl

split_from-ne-nil : (sep : ℕ) (cur s : Bytes) → split_from sep cur s ≢ []
split_from-ne-nil sep cur [] e = unfold split_from in cc e
split_from-ne-nil sep cur (c ∷ s) e = elim (Bool-cases (c == sep)) [
  | inl at ↦ cc (e, split_from-sep sep cur s c at)
  | inr other ↦
      split_from-ne-nil sep (cur ++ c ∷ []) s (sym (split_from-other sep cur s c other) ∙ e)
]

join-split_from : (sep : ℕ) (cur s : Bytes) → join sep (split_from sep cur s) ≡ cur ++ s
join-split_from sep cur [] = unfold split_from join in sym (append-nil cur)
join-split_from sep cur (c ∷ s) = elim (Bool-cases (c == sep)) [
  | inl at ↦
      rw
        (
          split_from-sep sep cur s c at,
          join-cons sep cur (split_from sep [] s) (split_from-ne-nil sep [] s),
          join-split_from sep [] s,
        )
        (ground arith)
  | inr other ↦
      rw (split_from-other sep cur s c other)
        (join-split_from sep (cur ++ c ∷ []) s ∙ append_assoc cur (c ∷ []) s)
]

split_from-Lacks :
    (sep : ℕ) (cur s : Bytes) → Lacks sep cur → All (Lacks sep) (split_from sep cur s)
split_from-Lacks sep cur [] h = unfold split_from in (h, tt)
split_from-Lacks sep cur (c ∷ s) h = elim (Bool-cases (c == sep)) [
  | inl at ↦ rw (split_from-sep sep cur s c at) (h, split_from-Lacks sep [] s tt)
  | inr other ↦
      rw (split_from-other sep cur s c other)
        (split_from-Lacks sep (cur ++ c ∷ []) s (All-append _ cur (c ∷ []) h (ground arith, tt)))
]

-- `split` cuts at every separator and nowhere else: no part holds the separator, and the parts
-- joined by it are the string.
pub split_lem : (sep : ℕ) (s : Bytes) → All (Lacks sep) (split sep s) × (join sep (split sep s) ≡ s)
unfolding split
split_lem sep s = (split_from-Lacks sep [] s tt, join-split_from sep [] s)
