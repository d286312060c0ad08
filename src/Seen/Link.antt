-- ===== src/Seen/Link.antt =====
-- `remember` on a tree: it stores the new node in a free slot, which keeps the tree and all other walks.
use nntp_tools.Prelude.{
  ℕ, zero, suc, ◌+◌, ◌*◌, ◌≤◌, ◌≡◌, ap, ◌∙◌, Bool, true, false, List, Bytes, length, get_elem?-lt,
  ok, arith,
}
use nntp_tools.Seen.{Node, link, insert_from}
use nntp_tools.Seen.File.{IsValid, image, pwrite-image}
use nntp_tools.Seen.Tree.{Walk, found, fell, down, Walk-lt}
use nntp_tools.Seen.Insert.{
  Slot, grown, linked, Insertion, insert_from-found, insert_from-fell, insert_from-down,
  link-IsValid, All-get_elem?, length-grown, grown-valid, get-grown, linked-at_other, found_below,
}

module _ {ns : List Node} {new : Node} {commit : Bytes} (g : Insertion ns new commit) where
  -- A commit that the tree has: the file keeps the unused node and nothing else changes.
  pub insert_from-present :
      (fuel : ℕ) {i : ℕ} {b : Bool}
      → Walk ns commit i b
      → b ≡ true
      → length ns ≤ i + fuel
      → insert_from fuel (image (grown ns new)) commit (64 * length ns) (64 * i)
        ≡ ok (image (grown ns new))
  insert_from-present zero w e f = absurd (omega (arith, Walk-lt w))
  insert_from-present (suc fuel) {i} (found n at same) e f =
      insert_from-found fuel _ commit _ (64 * i) n (get-grown g i at) same
  insert_from-present (suc fuel) {i} (fell n c at o ne z) e f = absurd (cc)
  insert_from-present (suc fuel) {i} (down n c j at o ne z later w) e f =
      insert_from-down fuel _ commit _ (64 * i) n (get-grown g i at) c o ne (omega arith)
      ∙ (ap (insert_from fuel (image (grown ns new)) commit (64 * length ns)) z
          ∙ insert_from-present fuel w e (omega arith))

  pub record Inserted (fuel i : ℕ) : Type 0 where
    pub slot : Slot ns commit
    pub behind : i ≤ slot.parent
    pub stored :
        insert_from fuel (image (grown ns new)) commit (64 * length ns) (64 * i)
        ≡ ok (image (linked ns new slot))
    pub walk : Walk (linked ns new slot) commit i true

  -- A commit that the tree lacks: the node is stored where its walk falls off, and is found there.
  pub insert_from-absent :
      (fuel : ℕ) {i : ℕ} {b : Bool}
      → Walk ns commit i b
      → b ≡ false
      → length ns ≤ i + fuel
      → Inserted fuel i
  insert_from-absent zero w e f = absurd (omega (arith, Walk-lt w))
  insert_from-absent (suc fuel) {i} (found n at same) e f = absurd (cc)
  insert_from-absent (suc fuel) {i} (fell n c at o ne z) e f =
      let s : Slot ns commit = record {
        parent = i;
        node = n;
        side = c;
        at = at;
        turn = o;
        differs = ne;
        free = z;
      } in
      record {
        slot = s;
        behind = omega arith;
        stored =
            insert_from-fell fuel _ commit _ (64 * i) n (get-grown g i at) c o ne z
            ∙ ap (λ r. ok r)
                (pwrite-image (grown ns new) i (link c n (64 * length ns)) (grown-valid g)
                  (link-IsValid c n _ (All-get_elem? IsValid ns i g.tree.valid at))
                  (omega (arith, length-grown g, get_elem?-lt ns i at)));
        walk = found_below g s;
      }
  insert_from-absent (suc fuel) {i} (down n c j at o ne z later w) e f =
      let r = insert_from-absent fuel w e (omega arith) in
      record {
        slot = r.slot;
        behind = omega (arith, r.behind);
        stored =
            insert_from-down fuel _ commit _ (64 * i) n (get-grown g i at) c o ne (omega arith)
            ∙ (ap (insert_from fuel (image (grown ns new)) commit (64 * length ns)) z ∙ r.stored);
        walk =
            down n c j (linked-at_other g r.slot i (omega (arith, r.behind)) at) o ne z later
              r.walk;
      }
