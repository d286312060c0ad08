-- ===== src/Seen/Set.antt =====
-- The tracking file as a set of commits: what `remember` adds, and what `seen` answers.
use nntp_tools.Prelude.{
  ◌+◌, ◌*◌, ◌^◌, ◌≤◌, ◌<◌, ◌≡◌, ◌≢◌, refl, sym, ap, ◌∙◌, inl, inr, Bool, true, false, List, [], ◌∷◌,
  Bytes, length, ok, Bool-cases, arith,
}
use mathlib.Core.Path.{subst}
use nntp_tools.Seen.{Node, encode, seen, rounds, remember, insert_from}
use nntp_tools.Seen.File.{image, length-image, image-append}
use nntp_tools.Seen.Tree.{IsTree, Walk, Walk-total}
use nntp_tools.Seen.Insert.{Insertion, grown, linked, grown-valid, length-grown}
use nntp_tools.Seen.Link.{insert_from-present, insert_from-absent}
use nntp_tools.Seen.Others.{
  linked-Walk, linked-IsTree, length-linked, grown-Walk, grown-IsTree, end-found, end-fell,
}
use nntp_tools.Seen.Calls.{
  IsCommit, fresh, strcmp-eq, fresh-Insertion, remember-nil, remember-insert, seen-Walk, seen-nil,
}

-- A tracking file: the bytes of a tree of nodes.
pub record IsTracking (file : Bytes) : Type 0 where
  pub nodes : List Node
  pub tree : IsTree nodes
  pub bytes : file ≡ image nodes

pub nil-IsTree : IsTree []
nil-IsTree = record {
  valid = tt;
  small = omega arith;
  children = λ i n c ne at. absurd (ground arith);
}

pub nil-IsTracking : IsTracking []
nil-IsTracking = record { nodes = []; tree = nil-IsTree; bytes = unfold image in refl }

seen-image_total :
    (ns : List Node) (d : Bytes) → IsTree ns → (b : Bool) × (seen (image ns) d ≡ ok b)
seen-image_total [] d t = (false, unfold image in seen-nil d)
seen-image_total (n ∷ ns) d t =
    let (b, w) = Walk-total (n ∷ ns) d t (length (n ∷ ns)) 0 (omega arith) (omega arith) in
    (b, seen-Walk (n ∷ ns) t d w)

-- On a tracking file `seen` always answers: it calls `fatal` on no branch and its loop ends.
pub seen-total : (file d : Bytes) → IsTracking file → (b : Bool) × (seen file d ≡ ok b)
seen-total file d k =
    subst (λ f. (b : Bool) × (seen f d ≡ ok b)) (sym k.bytes) (seen-image_total k.nodes d k.tree)

-- What `remember` of a commit leaves behind.
pub record Remembered (file commit : Bytes) : Type 0 where
  pub after : Bytes
  pub returns : remember file commit ≡ ok after
  pub tracking : IsTracking after
  pub size : length after ≡ length file + 64
  pub added : seen after commit ≡ ok true
  pub others : (d : Bytes) → d ≢ commit → seen after d ≡ seen file d

module _ (c : Bytes) (h : IsCommit c) where
  remember-image_nil : Remembered [] c
  remember-image_nil =
      let g = fresh-Insertion c h nil-IsTree (omega arith) in
      let t = grown-IsTree g in
      let written : encode (fresh c) ≡ image (grown [] (fresh c)) =
        sym (unfold image in image-append [] (fresh c)) in
      record {
        after = image (grown [] (fresh c));
        returns = remember-nil c h ∙ ap (λ f. ok f) written;
        tracking = record { nodes = grown [] (fresh c); tree = t; bytes = refl };
        size = length-image (grown [] (fresh c)) t.valid ∙ omega arith;
        added = seen-Walk (grown [] (fresh c)) t c (end-found g);
        others = λ d other.
            seen-Walk (grown [] (fresh c)) t d (end-fell g (λ e. other (strcmp-eq d c e)))
            ∙ sym (seen-nil d);
      }

  module _ (n : Node) (ms : List Node) (t : IsTree (n ∷ ms))
      (room : 64 * length (n ∷ ms) + 64 < 2 ^ 63) where
    abbrev ns : List Node
    ns = n ∷ ms

    insertion : Insertion ns (fresh c) c
    insertion = fresh-Insertion c h t room

    start :
        remember (image ns) c
        ≡ insert_from (rounds (image ns)) (image (grown ns (fresh c))) c (64 * length ns) (64 * 0)
    start =
        let size = length-image ns t.valid in
        remember-insert c h (image ns) (omega (arith, size)) (omega (arith, size))
        ∙ rw (size, image-append ns (fresh c))

    enough : length ns ≤ 0 + rounds (image ns)
    enough = omega (arith, length-image ns t.valid)

    remember_present : Walk ns c 0 true → Remembered (image ns) c
    remember_present w = record {
      after = image (grown ns (fresh c));
      returns = start ∙ insert_from-present insertion _ w refl enough;
      tracking = record { nodes = grown ns (fresh c); tree = grown-IsTree insertion; bytes = refl };
      size =
          length-image _ (grown-valid insertion)
          ∙ omega (arith, length-grown insertion, length-image ns t.valid);
      added = seen-Walk _ (grown-IsTree insertion) c (grown-Walk insertion w);
      others = λ d other.
          let (b, v) = Walk-total ns d t (length ns) 0 (omega arith) (omega arith) in
          seen-Walk _ (grown-IsTree insertion) d (grown-Walk insertion v)
          ∙ sym (seen-Walk ns t d v);
    }

    remember_absent : Walk ns c 0 false → Remembered (image ns) c
    remember_absent w =
        let r = insert_from-absent insertion (rounds (image ns)) w refl enough in
        let s = r.slot in
        record {
          after = image (linked ns (fresh c) s);
          returns = start ∙ r.stored;
          tracking = record {
            nodes = linked ns (fresh c) s;
            tree = linked-IsTree insertion s;
            bytes = refl;
          };
          size =
              length-image _ (linked-IsTree insertion s).valid
              ∙ omega (arith, length-linked insertion s, length-image ns t.valid);
          added = seen-Walk _ (linked-IsTree insertion s) c r.walk;
          others = λ d other.
              let (b, v) = Walk-total ns d t (length ns) 0 (omega arith) (omega arith) in
              seen-Walk _ (linked-IsTree insertion s) d
                (linked-Walk insertion s (λ e. other (strcmp-eq d c e)) v)
              ∙ sym (seen-Walk ns t d v);
        }

  remember-image :
      (ns : List Node) → IsTree ns → 64 * length ns + 64 < 2 ^ 63 → Remembered (image ns) c
  remember-image [] t room = unfold image in remember-image_nil
  remember-image (n ∷ ms) t room =
      let (b, w) = Walk-total (n ∷ ms) c t (length (n ∷ ms)) 0 (omega arith) (omega arith) in
      elim (Bool-cases b) [
        | inl e ↦ remember_present n ms t room (subst (Walk (n ∷ ms) c 0) e w)
        | inr e ↦ remember_absent n ms t room (subst (Walk (n ∷ ms) c 0) e w)
      ]

-- `remember` of a commit id succeeds on a tracking file with room for one more node: it leaves a
-- tracking file that is 64 bytes longer, in which the commit is seen, and in which every other
-- commit is seen exactly if it was seen before.
pub remember-Remembered :
    (file commit : Bytes)
    → IsTracking file
    → IsCommit commit
    → length file + 64 < 2 ^ 63
    → Remembered file commit
remember-Remembered file commit k h room =
    let size : length file ≡ 64 * length k.nodes =
      ap length k.bytes ∙ length-image k.nodes k.tree.valid in
    subst (λ f. Remembered f commit) (sym k.bytes)
      (remember-image commit h k.nodes k.tree (omega (arith, size, room)))
