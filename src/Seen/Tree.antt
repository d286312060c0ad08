-- ===== src/Seen/Tree.antt =====
-- The tree in a list of nodes: children stand behind their parents, and a walk down it is a relation.
use Prim.Native.Nat.{Ordering}
use nntp_tools.Prelude.{
  ℕ, zero, suc, ◌+◌, ◌*◌, ◌^◌, ◌≤◌, ◌<◌, ◌≡◌, ◌≢◌, refl, ap, ◌∙◌, ◌⊎◌, inl, inr, Bool, true, false,
  List, some, Bytes, length, get_elem?, All, get_elem?-lt, get_elem?-lt_length, ok, arith,
}
use nntp_tools.Words.{native_order}
use nntp_tools.Text.{c_string}
use nntp_tools.Seen.{Node, child, strcmp, seen_from, get}
use nntp_tools.Seen.File.{IsValid, image, get-image_at}

-- A child position of node `i` among `k` nodes: none, or a later node.
abbrev pub ChildFits : ℕ → ℕ → ℕ → Type 0
ChildFits k i position =
    (native_order position ≡ 0) ⊎ ((j : ℕ) × (native_order position ≡ 64 * j) × (i < j) × (j < k))

pub record IsTree (ns : List Node) : Type 0 where
  pub valid : All IsValid ns
  pub small : 64 * length ns < 2 ^ 63
  pub children :
      (i : ℕ) (n : Node) (c : Ordering)
      → c ≢ Ordering.eq
      → get_elem? ns i ≡ some n
      → ChildFits (length ns) i (child c n)

-- The walk of `seen` for a commit, from node `i` to its answer.
pub data Walk (ns : List Node) (commit : Bytes) : ℕ → Bool → Type 0 where
  found :
      {i : ℕ} (n : Node)
      → get_elem? ns i ≡ some n
      → strcmp commit (c_string n.commit) ≡ Ordering.eq
      → Walk ns commit i true
  fell :
      {i : ℕ} (n : Node) (c : Ordering)
      → get_elem? ns i ≡ some n
      → strcmp commit (c_string n.commit) ≡ c
      → c ≢ Ordering.eq
      → native_order (child c n) ≡ 0
      → Walk ns commit i false
  down :
      {i : ℕ} {b : Bool} (n : Node) (c : Ordering) (j : ℕ)
      → get_elem? ns i ≡ some n
      → strcmp commit (c_string n.commit) ≡ c
      → c ≢ Ordering.eq
      → native_order (child c n) ≡ 64 * j
      → i < j
      → Walk ns commit j b
      → Walk ns commit i b

Ordering-cases : (c : Ordering) → (c ≡ Ordering.eq) ⊎ (c ≢ Ordering.eq)
Ordering-cases Ordering.lt = inr cc
Ordering-cases Ordering.eq = inl refl
Ordering-cases Ordering.gt = inr cc

-- In a tree every walk ends.
pub Walk-total :
    (ns : List Node) (commit : Bytes) (t : IsTree ns) (fuel i : ℕ)
    → i < length ns
    → length ns ≤ i + fuel
    → (b : Bool) × Walk ns commit i b
Walk-total ns commit t zero i h f = absurd (omega arith)
Walk-total ns commit t (suc fuel) i h f =
    let (n, at) = get_elem?-lt_length ns i h in
    let c = strcmp commit (c_string n.commit) in
    elim (Ordering-cases c) [
      | inl same ↦ (true, found n at same)
      | inr other ↦ elim (t.children i n c other at) [
        | inl none_there ↦ (false, fell n c at refl other none_there)
        | inr (j, there, later, inside) ↦
            let (b, w) = Walk-total ns commit t fuel j inside (omega arith) in
            (b, down n c j at refl other there later w)
      ]
    ]

-- One round of the loop of `seen`.
module _ (fuel : ℕ) (file commit : Bytes) (n : Node) where
  seen_from-found :
      strcmp commit (c_string n.commit) ≡ Ordering.eq → seen_from (suc fuel) file commit n ≡ ok true
  seen_from-found same = unfold seen_from in ground arith

  module _ (c : Ordering) (o : strcmp commit (c_string n.commit) ≡ c) (ne : c ≢ Ordering.eq) where
    seen_from-fell : native_order (child c n) ≡ 0 → seen_from (suc fuel) file commit n ≡ ok false
    seen_from-fell z = unfold seen_from in ground arith

    seen_from-down :
        (m : Node)
        → native_order (child c n) ≢ 0
        → get file (native_order (child c n)) ≡ ok (some m)
        → seen_from (suc fuel) file commit n ≡ seen_from fuel file commit m
    seen_from-down m z g = unfold seen_from in ground arith

pub Walk-lt :
    {ns : List Node} {commit : Bytes} {i : ℕ} {b : Bool} → Walk ns commit i b → i < length ns
Walk-lt (found n at _) = get_elem?-lt _ _ at
Walk-lt (fell n c at _ _ _) = get_elem?-lt _ _ at
Walk-lt (down n c j at _ _ _ _ _) = get_elem?-lt _ _ at

-- The loop of `seen` follows the walk.
pub seen_from-Walk :
    (ns : List Node) (commit : Bytes) (t : IsTree ns) (fuel : ℕ) {i : ℕ} {b : Bool} (m : Node)
    → Walk ns commit i b
    → get_elem? ns i ≡ some m
    → length ns ≤ i + fuel
    → seen_from fuel (image ns) commit m ≡ ok b
seen_from-Walk ns commit t zero {i} m w at f = absurd (omega (arith, get_elem?-lt ns i at))
seen_from-Walk ns commit t (suc fuel) m (found n at same) at' f =
    let e : m ≡ n = cc in seen_from-found fuel (image ns) commit m (rw e same)
seen_from-Walk ns commit t (suc fuel) m (fell n c at o ne z) at' f =
    let e : m ≡ n = cc in seen_from-fell fuel (image ns) commit m c (rw e o) ne (rw e z)
seen_from-Walk ns commit t (suc fuel) {i} m (down n c j at o ne z later w) at' f =
    let e : m ≡ n = cc in
    let inside = Walk-lt w in
    let (l, at_j) = get_elem?-lt_length ns j inside in
    let read : get (image ns) (native_order (child c n)) ≡ ok (some l) =
      ap (get (image ns)) z
      ∙ (get-image_at ns j t.valid (omega (arith, t.small)) ∙ ap (λ r. ok r) at_j) in
    rw e (
      seen_from-down fuel (image ns) commit n c o ne l (omega arith) read
      ∙ seen_from-Walk ns commit t fuel l w at_j (omega arith))
