-- ===== src/Feed/ContentTypes.antt =====
-- The test of gateways/lj2news.c on the header `Content-Type`.
use mathlib.Core.List.{map}
use nntp_tools.Text.{starts_with, has_substring, to_lower}
use nntp_tools.Prelude.{
  ◌≡◌, ◌≢◌, ◌⊎◌, inl, inr, refl, ap, sym, ◌∙◌, Bool, true, false, not, ◌&&◌, List, [], ◌∷◌, ◌++◌,
  Bytes, codes, All, Bool-cases, arith,
}
use nntp_tools.Feed.Http.{header_text, is_wrong_type}

-- The fields name no content type that is not XML.
unfoldable pub accepted : List Bytes → Bool
accepted [] = true
accepted (f ∷ fs) = not (is_wrong_type (header_text f)) && accepted fs

-- A field `Content-Type`, and one that has `text/xml` somewhere in it, in upper or lower case.
unfoldable pub IsContentType : Bytes → Type 0
IsContentType f = (v : Bytes) × (map to_lower (header_text f) ≡ codes "content-type:" ++ v)

unfoldable pub NamesXml : Bytes → Type 0
NamesXml f = (u v : Bytes) × (map to_lower (header_text f) ≡ u ++ (codes "text/xml" ++ v))

starts_with-some : (s p : Bytes) → starts_with s p ≡ true → (v : Bytes) × (s ≡ p ++ v)
unfolding starts_with
starts_with-some s [] h = (s, refl)
starts_with-some [] (p ∷ ps) h = absurd (cc h)
starts_with-some (c ∷ s) (p ∷ ps) h =
    let same : c ≡ p = ground (arith, h) in
    let (v, e) = starts_with-some s ps (ground (arith, h)) in
    (v, ap (λ d. d ∷ s) same ∙ ap (λ t. p ∷ t) e)

starts_with-append : (p v : Bytes) → starts_with (p ++ v) p ≡ true
unfolding starts_with
starts_with-append [] v = refl
starts_with-append (c ∷ p) v = ground (arith, starts_with-append p v)

has_substring-some : (s p : Bytes) → has_substring s p ≡ true → (u v : Bytes) × (s ≡ u ++ (p ++ v))
unfolding has_substring
has_substring-some [] p h = let (v, e) = starts_with-some [] p h in ([], v, e)
has_substring-some (c ∷ s) p h = elim (Bool-cases (starts_with (c ∷ s) p)) [
  | inl yes_here ↦ let (v, e) = starts_with-some (c ∷ s) p yes_here in ([], v, e)
  | inr no_here ↦
      let (u, v, e) = has_substring-some s p (ground (arith, h, no_here)) in
      (c ∷ u, v, ap (λ t. c ∷ t) e)
]

has_substring-append : (u p v : Bytes) → has_substring (u ++ (p ++ v)) p ≡ true
unfolding has_substring
has_substring-append [] [] [] = unfold starts_with in refl
has_substring-append [] [] (c ∷ v) = unfold starts_with in refl
has_substring-append [] (c ∷ p) v = rw (starts_with-append (c ∷ p) v) refl
has_substring-append (c ∷ u) p v = ground (arith, has_substring-append u p v)

true-ne-false : true ≢ false
true-ne-false e = absurd (cc e)

-- The test of `writeheader` on one field.
is_wrong_type-cases :
    (f : Bytes)
    → ((is_wrong_type (header_text f) ≡ true) × IsContentType f × (¬ NamesXml f))
      ⊎ ((is_wrong_type (header_text f) ≡ false) × (NamesXml f ⊎ ¬ IsContentType f))
unfolding is_wrong_type IsContentType NamesXml
is_wrong_type-cases f =
    let s = map to_lower (header_text f) in
    elim (Bool-cases (has_substring s (codes "text/xml"))) [
      | inl xml ↦ inr (ground (arith, xml), inl (has_substring-some s (codes "text/xml") xml))
      | inr other ↦ elim (Bool-cases (starts_with s (codes "content-type:"))) [
        | inl type ↦ inl (
          ground (arith, other, type),
          starts_with-some s (codes "content-type:") type,
          λ (u, v, e). true-ne-false (
              sym (has_substring-append u (codes "text/xml") v)
              ∙ (ap (λ t. has_substring t (codes "text/xml")) (sym e) ∙ other)),
        )
        | inr no_type ↦ inr (
          ground (arith, no_type),
          inr (λ (v, e). true-ne-false (
              sym (starts_with-append (codes "content-type:") v)
              ∙ (ap (λ t. starts_with t (codes "content-type:")) (sym e) ∙ no_type))),
        )
      ]
    ]

pub accepted-verdict :
    (fs : List Bytes)
    → ((accepted fs ≡ true) × All (λ f. NamesXml f ⊎ ¬ IsContentType f) fs)
      ⊎ ((accepted fs ≡ false)
          × ((before after : List Bytes) × (f : Bytes) × (fs ≡ before ++ f ∷ after)
              × IsContentType f
              × (¬ NamesXml f)))
unfolding accepted
accepted-verdict [] = inl (refl, tt)
accepted-verdict (f ∷ fs) = elim (is_wrong_type-cases f) [
  | inl (wrong, type, no_xml) ↦ inr (rw (wrong) refl, ([], fs, f, refl, type, no_xml))
  | inr (right, fine) ↦ elim (accepted-verdict fs) [
    | inl (e, all) ↦ inl (rw (right, e) refl, (fine, all))
    | inr (e, (before, after, g, at, type, no_xml)) ↦
        inr (rw (right, e) refl, (f ∷ before, after, g, ap (λ gs. f ∷ gs) at, type, no_xml))
  ]
]
