-- ===== src/Seen/Others.antt =====
-- What storing a node leaves alone: the tree stays a tree, and the walks for other commits end as before.
use Prim.Native.Nat.{Ordering}
use mathlib.Core.Path.{subst₂}
use native.Mathlib.Decide.{ℕ_discrete}
use nntp_tools.Prelude.{
  ℕ, ◌+◌, ◌*◌, ◌<◌, ◌≡◌, ◌≢◌, refl, sym, ap, ◌∙◌, ◌⊎◌, inl, inr, Bool, true, false, List, [], ◌∷◌,
  some, Bytes, length, get_elem?, length-set, get_elem?-lt, get_elem?-append, get_elem?-lt_length,
  get_elem?-append_length, arith,
}
use nntp_tools.Words.{native_order}
use nntp_tools.Text.{c_string}
use nntp_tools.Seen.{Node, child, link, strcmp}
use nntp_tools.Seen.File.{IsValid}
use nntp_tools.Seen.Tree.{ChildFits, IsTree, Walk, found, fell, down}
use nntp_tools.Seen.Insert.{
  Slot, grown, linked, Insertion, link-commit, child-link_ne, link-IsValid, All-set, All-get_elem?,
  length-grown, grown-valid, child-new, parent-lt, linked-at_parent, linked-at_end, linked-at_other,
  linked-to_end,
}

Ordering-eq? : (a b : Ordering) → (a ≡ b) ⊎ (a ≢ b)
Ordering-eq? Ordering.lt Ordering.lt = inl refl
Ordering-eq? Ordering.eq Ordering.eq = inl refl
Ordering-eq? Ordering.gt Ordering.gt = inl refl
Ordering-eq? _ _ = inr cc

ChildFits-suc : (k i position : ℕ) → ChildFits k i position → ChildFits (k + 1) i position
ChildFits-suc k i position (inl z) = inl z
ChildFits-suc k i position (inr (j, there, later, inside)) = inr (j, there, later, omega arith)

module _ {ns : List Node} {new : Node} {commit : Bytes} (g : Insertion ns new commit)
    (s : Slot ns commit) where
  -- A node of the tree after the insertion: its text and its children stay, but for the slot.
  record Kept (i : ℕ) (n : Node) : Type 0 where
    node : Node
    at : get_elem? (linked ns new s) i ≡ some node
    same_text : c_string node.commit ≡ c_string n.commit
    sides :
        (c : Ordering)
        → c ≢ Ordering.eq
        → (child c node ≡ child c n)
          ⊎ ((native_order (child c node) ≡ 64 * length ns)
              × (native_order (child c n) ≡ 0)
              × (i < length ns))

  sides_at_parent :
      (c : Ordering)
      → c ≢ Ordering.eq
      → (child c (link s.side s.node (64 * length ns)) ≡ child c s.node)
        ⊎ ((native_order (child c (link s.side s.node (64 * length ns))) ≡ 64 * length ns)
            × (native_order (child c s.node) ≡ 0)
            × (s.parent < length ns))
  sides_at_parent c ne = elim (Ordering-eq? c s.side) [
    | inl e ↦ inr (linked-to_end g s c e, rw e s.free, parent-lt g s)
    | inr other ↦ inl (child-link_ne s.side s.node _ c s.differs ne other)
  ]

  kept : (i : ℕ) (n : Node) → get_elem? ns i ≡ some n → Kept i n
  kept i n at = elim (ℕ_discrete i s.parent) [
    | yes e ↦
        let same : s.node ≡ n = cc (s.at, ap (get_elem? ns) e, at) in
        subst₂ Kept (sym e) same (record {
          node = link s.side s.node (64 * length ns);
          at = linked-at_parent g s;
          same_text = ap c_string (link-commit s.side s.node _);
          sides = sides_at_parent;
        })
    | no other ↦ record {
      node = n;
      at = linked-at_other g s i other at;
      same_text = refl;
      sides = λ c ne. inl refl;
    }
  ]

  pub linked-Walk :
      {d : Bytes} {i : ℕ} {b : Bool}
      → strcmp d commit ≢ Ordering.eq
      → Walk ns d i b
      → Walk (linked ns new s) d i b
  linked-Walk h (found {i = i} n at same) =
      let k = kept i n at in found k.node k.at (rw k.same_text same)
  linked-Walk {d} h (fell {i = i} n c at o ne z) =
      let k = kept i n at in
      elim (k.sides c ne) [
        | inl stays ↦ fell k.node c k.at (rw k.same_text o) ne (rw stays z)
        | inr (to_end, _, before) ↦
            down k.node c (length ns) k.at (rw k.same_text o) ne to_end before (
              fell new (strcmp d (c_string new.commit)) (linked-at_end g s) refl (rw g.text h)
                (child-new g _))
      ]
  linked-Walk h (down {i = i} n c j at o ne z later w) =
      let k = kept i n at in
      elim (k.sides c ne) [
        | inl stays ↦
            down k.node c j k.at (rw k.same_text o) ne (rw stays z) later (linked-Walk h w)
        | inr (_, free, _) ↦ absurd (omega (arith, z, free))
      ]

  pub length-linked : length (linked ns new s) ≡ length ns + 1
  length-linked = length-set (grown ns new) s.parent _ ∙ length-grown g

  linked-children :
      (i : ℕ) (n : Node) (c : Ordering)
      → c ≢ Ordering.eq
      → get_elem? (linked ns new s) i ≡ some n
      → ChildFits (length ns + 1) i (child c n)
  linked-children i n c ne at = elim (ℕ_discrete i (length ns)) [
    | yes e ↦
        let is_new : new ≡ n = cc (linked-at_end g s, ap (get_elem? (linked ns new s)) e, at) in
        inl (rw (← is_new) (child-new g c))
    | no other ↦
        let inside : i < length ns =
          omega (arith, get_elem?-lt (linked ns new s) i at, length-linked) in
        let (m, before) = get_elem?-lt_length ns i inside in
        let k = kept i m before in
        let same : k.node ≡ n = cc (k.at, at) in
        rw (← same) (elim (k.sides c ne) [
          | inl stays ↦ rw stays (ChildFits-suc _ _ _ (g.tree.children i m c ne before))
          | inr (to_end, _, _) ↦ inr (length ns, to_end, inside, omega arith)
        ])
  ]

  pub linked-IsTree : IsTree (linked ns new s)
  linked-IsTree = record {
    valid =
        All-set IsValid (grown ns new) s.parent _ (grown-valid g)
          (link-IsValid s.side s.node _ (All-get_elem? IsValid ns s.parent g.tree.valid s.at));
    small = omega (arith, length-linked, g.room);
    children = λ i n c ne at. rw length-linked (linked-children i n c ne at);
  }

-- With the node appended and not yet stored in a slot, the tree is the same tree.
module _ {ns : List Node} {new : Node} {commit : Bytes} (g : Insertion ns new commit) where
  grown-at : (i : ℕ) {n : Node} → get_elem? ns i ≡ some n → get_elem? (grown ns new) i ≡ some n
  grown-at i at = get_elem?-append ns (new ∷ []) i (get_elem?-lt ns i at) ∙ at

  pub grown-Walk : {d : Bytes} {i : ℕ} {b : Bool} → Walk ns d i b → Walk (grown ns new) d i b
  grown-Walk (found {i = i} n at same) = found n (grown-at i at) same
  grown-Walk (fell {i = i} n c at o ne z) = fell n c (grown-at i at) o ne z
  grown-Walk (down {i = i} n c j at o ne z later w) =
      down n c j (grown-at i at) o ne z later (grown-Walk w)

  grown-children :
      (i : ℕ) (n : Node) (c : Ordering)
      → c ≢ Ordering.eq
      → get_elem? (grown ns new) i ≡ some n
      → ChildFits (length ns + 1) i (child c n)
  grown-children i n c ne at = elim (ℕ_discrete i (length ns)) [
    | yes e ↦
        let is_new : new ≡ n =
          cc (get_elem?-append_length ns [] new, ap (get_elem? (grown ns new)) e, at) in
        inl (rw (← is_new) (child-new g c))
    | no other ↦
        let inside : i < length ns =
          omega (arith, get_elem?-lt (grown ns new) i at, length-grown g) in
        ChildFits-suc _ _ _
          (g.tree.children i n c ne (sym (get_elem?-append ns (new ∷ []) i inside) ∙ at))
  ]

  pub grown-IsTree : IsTree (grown ns new)
  grown-IsTree = record {
    valid = grown-valid g;
    small = omega (arith, length-grown g, g.room);
    children = λ i n c ne at. rw (length-grown g) (grown-children i n c ne at);
  }

  -- The walks from the appended node itself.
  pub end-found : Walk (grown ns new) commit (length ns) true
  end-found = found new (get_elem?-append_length ns [] new) (rw g.text g.same)

  pub end-fell :
      {d : Bytes} → strcmp d commit ≢ Ordering.eq → Walk (grown ns new) d (length ns) false
  end-fell {d} h =
      fell new (strcmp d (c_string new.commit)) (get_elem?-append_length ns [] new) refl
        (rw g.text h) (child-new g _)
