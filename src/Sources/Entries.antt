-- ===== src/Sources/Entries.antt =====
-- The entries of the maps of sources/sources.cc, and what a write changes.
use nntp_tools.Prelude.{
  ℕ, zero, suc, ◌+◌, ◌%◌, ◌^◌, ◌<◌, ◌≡◌, ◌≢◌, refl, ap, ◌∙◌, List, Option, none, some, Bytes, equal,
  ◌==◌, ==_iff, if◌then◌else◌, arith, Bool-cases, inl, inr, length, replicate, get_elem?, set,
  length-set, get_elem?-set_self, get_elem?-set_ne, get_elem?-lt_length,
}
use nntp_tools.Text.{insert, lookup-insert}
use nntp_tools.Sources.Maps.{Entry, open_map, add, bump}

-- The articles that a list of entries counts for a minute.
unfoldable pub articles_at : List Entry → ℕ → ℕ
articles_at es i = elim (get_elem? es i) [ none ↦ 0 | some e ↦ e.articles ]

unfoldable pub articles_in : List (Bytes × List Entry) → Bytes → ℕ → ℕ
articles_in maps path i = articles_at (open_map path maps) i

-- Every file is as long as `ftruncate` makes it.
unfoldable pub AreMaps : List (Bytes × List Entry) → Type 0
AreMaps maps = (path : Bytes) → length (open_map path maps) ≡ 1440

open_map-insert :
    (path p : Bytes) (es : List Entry) (maps : List (Bytes × List Entry))
    → open_map p (insert path es maps) ≡ (if equal path p then es else open_map p maps)
unfolding open_map
open_map-insert path p es maps = ground (arith, lookup-insert path p es maps)

articles_at-some :
    (es : List Entry) (i : ℕ) (e : Entry) → get_elem? es i ≡ some e → articles_at es i ≡ e.articles
unfolding articles_at
articles_at-some es i e at = rw (at, articles_at) refl

articles_at-set_ne :
    (es : List Entry) (i j : ℕ) (e : Entry) → i ≢ j → articles_at (set es i e) j ≡ articles_at es j
unfolding articles_at
articles_at-set_ne es i j e n = ap at_option (get_elem?-set_ne es i j e n)
  where
    at_option : Option Entry → ℕ
    at_option o = elim o [ none ↦ 0 | some x ↦ x.articles ]

pub bump-some :
    (es : List Entry) (i size : ℕ)
    → length es ≡ 1440
    → i < 1440
    → (fs : List Entry) × (bump es i size ≡ some fs)
      × (length fs ≡ 1440)
      × ((j : ℕ)
          → articles_at fs j
            ≡ (if i == j then (articles_at es j + 1) % 2 ^ 64 else articles_at es j))
unfolding bump add
bump-some es i size len h =
    let (e, at) = get_elem?-lt_length es i (omega arith) in
    let fs = set es i (add size e) in
    (
      fs,
      rw (at, bump) refl,
      length-set es i (add size e) ∙ len,
      λ j. elim (Bool-cases (i == j)) [
        | inl same ↦
            let j_at : get_elem? es j ≡ some e = rw⁻¹ ((==_iff i j).0 same) at in
            let set_at : get_elem? fs j ≡ some (add size e) =
              rw⁻¹ ((==_iff i j).0 same) (get_elem?-set_self es i (add size e) (omega arith)) in
            rw (same, articles_at-some fs j (add size e) set_at, articles_at-some es j e j_at) refl
        | inr other ↦
            rw (other) (articles_at-set_ne es i j (add size e) (λ q. cc (other, (==_iff i j).1 q)))
      ],
    )

pub articles_in-insert :
    (path p : Bytes) (fs : List Entry) (maps : List (Bytes × List Entry)) (j : ℕ)
    → articles_in (insert path fs maps) p j
      ≡ (if equal path p then articles_at fs j else articles_in maps p j)
unfolding articles_in
articles_in-insert path p fs maps j =
    ap (λ es. articles_at es j) (open_map-insert path p fs maps)
    ∙ elim (Bool-cases (equal path p)) [ inl same ↦ rw (same) refl | inr other ↦ rw (other) refl ]

pub insert-AreMaps :
    (path : Bytes) (fs : List Entry) (maps : List (Bytes × List Entry))
    → length fs ≡ 1440
    → AreMaps maps
    → AreMaps (insert path fs maps)
unfolding AreMaps
insert-AreMaps path fs maps h k p =
    ap length (open_map-insert path p fs maps)
    ∙ elim (Bool-cases (equal path p)) [ inl same ↦ rw (same) h | inr other ↦ rw (other) (k p) ]

pub articles_at-replicate :
    (n j : ℕ) → articles_at (replicate n (record { articles = 0; bytes = 0 })) j ≡ 0
unfolding articles_at
articles_at-replicate zero j = refl
articles_at-replicate (suc n) zero = refl
articles_at-replicate (suc n) (suc j) = articles_at-replicate n j
