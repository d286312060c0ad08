-- ===== src/Seen/Insert.antt =====
-- The loop of `remember`: it hangs the new node below the slot where the walk for its commit ends.
use Prim.Native.Nat.{Ordering}
use mathlib.Core.Path.{subst}
use nntp_tools.Prelude.{
  ℕ, zero, suc, ◌+◌, ◌*◌, ◌^◌, ◌<◌, ◌≡◌, ◌≢◌, refl, sym, ap, ◌∙◌, ◌⊎◌, true, List, [], ◌∷◌, ◌++◌,
  some, Bytes, length, get_elem?, set, All, All-append, length-append, get_elem?-lt,
  get_elem?-append, get_elem?-append_length, get_elem?-set_self, get_elem?-set_ne, ok, arith,
}
use nntp_tools.Words.{limit, native_order, file_order, file_order-lt, native_order-file_order}
use nntp_tools.Text.{c_string}
use nntp_tools.Seen.{Node, encode, child, link, strcmp, get, pwrite, insert_from}
use nntp_tools.Seen.File.{IsValid, image, get-image_at}
use nntp_tools.Seen.Tree.{IsTree, Walk, found, down}

-- A free child of a node of the tree, where the walk for a commit falls off.
pub record Slot (ns : List Node) (commit : Bytes) : Type 0 where
  pub parent : ℕ
  pub node : Node
  pub side : Ordering
  pub at : get_elem? ns parent ≡ some node
  pub turn : strcmp commit (c_string node.commit) ≡ side
  pub differs : side ≢ Ordering.eq
  pub free : native_order (child side node) ≡ 0

-- The nodes once `new` is appended, and once it hangs in a slot.
abbrev pub grown : List Node → Node → List Node
grown ns new = ns ++ new ∷ []

abbrev pub linked : (ns : List Node) → Node → {commit : Bytes} → Slot ns commit → List Node
linked ns new s = set (grown ns new) s.parent (link s.side s.node (64 * length ns))

-- One round of the loop of `remember`.
module _ (fuel : ℕ) (file commit : Bytes) (pos parent : ℕ) (n : Node)
    (read : get file parent ≡ ok (some n)) where
  pub insert_from-found :
      strcmp commit (c_string n.commit) ≡ Ordering.eq
      → insert_from (suc fuel) file commit pos parent ≡ ok file
  insert_from-found same = unfold insert_from in ground arith

  module _ (c : Ordering) (o : strcmp commit (c_string n.commit) ≡ c) (ne : c ≢ Ordering.eq) where
    pub insert_from-fell :
        native_order (child c n) ≡ 0
        → insert_from (suc fuel) file commit pos parent
          ≡ ok (pwrite file (encode (link c n pos)) parent)
    insert_from-fell z = unfold insert_from in ground arith

    pub insert_from-down :
        native_order (child c n) ≢ 0
        → insert_from (suc fuel) file commit pos parent
          ≡ insert_from fuel file commit pos (native_order (child c n))
    insert_from-down z = unfold insert_from in ground arith

module _ (c : Ordering) (n : Node) (pos : ℕ) where
  pub link-commit : (link c n pos).commit ≡ n.commit
  unfolding link
  link-commit = ground arith

  pub child-link_self : c ≢ Ordering.eq → child c (link c n pos) ≡ file_order pos
  unfolding link child
  child-link_self h = ground arith

  -- The other child stays.
  pub child-link_cases :
      (o : Ordering)
      → (child o (link c n pos) ≡ file_order pos) ⊎ (child o (link c n pos) ≡ child o n)
  unfolding link child
  child-link_cases o = ground arith

  pub child-link_ne :
      (o : Ordering)
      → c ≢ Ordering.eq
      → o ≢ Ordering.eq
      → o ≢ c
      → child o (link c n pos) ≡ child o n
  unfolding link child
  child-link_ne o h k l = ground arith

  pub link-IsValid : IsValid n → IsValid (link c n pos)
  unfolding link
  link-IsValid v = ground (arith, file_order-lt pos)

pub All-set {ℓ κ} :
    {A : Type ℓ} (P : A → Type κ) (xs : List A) (i : ℕ) (v : A)
    → All P xs
    → P v
    → All P (set xs i v)
All-set P [] i v _ h = tt
All-set P (x ∷ xs) zero v (_, hs) h = (h, hs)
All-set P (x ∷ xs) (suc i) v (hx, hs) h = (hx, All-set P xs i v hs h)

pub All-get_elem? {ℓ κ} :
    {A : Type ℓ} (P : A → Type κ) (xs : List A) (i : ℕ) {v : A}
    → All P xs
    → get_elem? xs i ≡ some v
    → P v
All-get_elem? P [] i _ e = absurd (ground arith)
All-get_elem? P (x ∷ xs) zero (h, _) e = subst P (cc) h
All-get_elem? P (x ∷ xs) (suc i) (_, hs) e = All-get_elem? P xs i hs e

-- What the tree and the appended node satisfy when `remember` starts its walk.
pub record Insertion (ns : List Node) (new : Node) (commit : Bytes) : Type 0 where
  pub tree : IsTree ns
  pub new_valid : IsValid new
  pub left_free : native_order new.left ≡ 0
  pub right_free : native_order new.right ≡ 0
  pub text : c_string new.commit ≡ commit
  pub same : strcmp commit commit ≡ Ordering.eq
  pub room : 64 * length ns + 64 < 2 ^ 63

module _ {ns : List Node} {new : Node} {commit : Bytes} (g : Insertion ns new commit) where
  pub length-grown : length (grown ns new) ≡ length ns + 1
  length-grown = length-append ns (new ∷ []) ∙ omega arith

  pub grown-valid : All IsValid (grown ns new)
  grown-valid = All-append IsValid ns (new ∷ []) g.tree.valid (g.new_valid, tt)

  pub get-grown :
      (i : ℕ) {n : Node}
      → get_elem? ns i ≡ some n
      → get (image (grown ns new)) (64 * i) ≡ ok (some n)
  get-grown i at =
      let inside = get_elem?-lt ns i at in
      get-image_at (grown ns new) i grown-valid (omega (arith, g.room))
      ∙ ap (λ r. ok r) (get_elem?-append ns (new ∷ []) i inside ∙ at)

  pub child-new : (c : Ordering) → native_order (child c new) ≡ 0
  unfolding child
  child-new c = ground (arith, g.left_free, g.right_free)

  module _ (s : Slot ns commit) where
    pub parent-lt : s.parent < length ns
    parent-lt = get_elem?-lt ns s.parent s.at

    pub linked-at_parent :
        get_elem? (linked ns new s) s.parent ≡ some (link s.side s.node (64 * length ns))
    linked-at_parent =
        get_elem?-set_self (grown ns new) s.parent _ (omega (arith, length-grown, parent-lt))

    pub linked-at_end : get_elem? (linked ns new s) (length ns) ≡ some new
    linked-at_end =
        get_elem?-set_ne (grown ns new) s.parent (length ns) _ (omega (arith, parent-lt))
        ∙ get_elem?-append_length ns [] new

    pub linked-at_other :
        (i : ℕ) {n : Node}
        → i ≢ s.parent
        → get_elem? ns i ≡ some n
        → get_elem? (linked ns new s) i ≡ some n
    linked-at_other i ne at =
        get_elem?-set_ne (grown ns new) s.parent i _ (λ e. ne (sym e))
        ∙ (get_elem?-append ns (new ∷ []) i (get_elem?-lt ns i at) ∙ at)

    pub linked-to_end :
        (c : Ordering)
        → c ≡ s.side
        → native_order (child c (link s.side s.node (64 * length ns))) ≡ 64 * length ns
    linked-to_end c e =
        ap native_order (rw e (child-link_self s.side s.node (64 * length ns) s.differs))
        ∙ native_order-file_order (64 * length ns) (unfold limit in omega (arith, g.room))

    -- The commit is found below the slot.
    pub found_below : Walk (linked ns new s) commit s.parent true
    found_below =
        down (link s.side s.node (64 * length ns)) s.side (length ns) linked-at_parent
          (rw (link-commit s.side s.node (64 * length ns)) s.turn) s.differs
          (linked-to_end s.side refl) parent-lt (found new linked-at_end (rw g.text g.same))
