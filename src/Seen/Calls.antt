-- ===== src/Seen/Calls.antt =====
-- The node that `remember` writes, the calls on which it starts its loop, and `seen` from the root.
use Prim.Native.Nat.{Ordering}
use nntp_tools.Prelude.{
  ℕ, suc, ◌+◌, ◌-◌, ◌*◌, ◌%◌, ◌^◌, ◌<◌, ◌≡◌, ◌≢◌, refl, ap, ◌∙◌, Bool, true, false, List, [], ◌∷◌,
  ◌++◌, some, Bytes, length, replicate, get_elem?-lt_length, length-append, length-replicate, ok,
  arith,
}
use nntp_tools.Words.{limit, native_order-zero}
use nntp_tools.Text.{c_string}
use nntp_tools.Seen.{
  Node, encode, has_nul, strcmp, get, seen, rounds, check_node, pread, remember, new_node,
  insert_from,
}
use nntp_tools.Seen.File.{IsValid, image, length-image, get-image_at}
use nntp_tools.Seen.Tree.{IsTree, Walk, Walk-lt, seen_from-Walk}
use nntp_tools.Seen.Insert.{Insertion}

-- A commit id that `remember` can store: a C string of at most 47 bytes.
pub record IsCommit (commit : Bytes) : Type 0 where
  pub short : length commit < 48
  pub no_nul : has_nul commit ≡ false

pub strcmp_refl : (s : Bytes) → strcmp s s ≡ Ordering.eq
unfolding strcmp
strcmp_refl [] = refl
strcmp_refl (x ∷ s) = ground (arith, strcmp_refl s)

pub strcmp-eq : (s t : Bytes) → strcmp s t ≡ Ordering.eq → s ≡ t
unfolding strcmp
strcmp-eq [] [] h = refl
strcmp-eq [] (y ∷ t) h = cc
strcmp-eq (x ∷ s) [] h = cc
strcmp-eq (x ∷ s) (y ∷ t) h = ground (arith, strcmp-eq s t)

padded-has_nul : (c : Bytes) (k : ℕ) → has_nul (c ++ replicate (suc k) 0) ≡ true
unfolding has_nul
padded-has_nul [] k = refl
padded-has_nul (x ∷ c) k = ground (arith, padded-has_nul c k)

c_string-padded : (c : Bytes) (k : ℕ) → has_nul c ≡ false → c_string (c ++ replicate (suc k) 0) ≡ c
unfolding c_string has_nul
c_string-padded [] k h = refl
c_string-padded (x ∷ c) k h = ground (arith, c_string-padded c k)

abbrev pub fresh : Bytes → Node
fresh c = record { left = 0; right = 0; commit = c ++ replicate (48 - length c) 0 }

module _ (c : Bytes) (h : IsCommit c) where
  pub new_node-fresh : new_node c ≡ ok (fresh c)
  unfolding new_node
  new_node-fresh = ground (arith, h.short)

  padding : 48 - length c ≡ suc (47 - length c)
  padding = omega (arith, h.short)

  fresh-IsValid : IsValid (fresh c)
  unfolding limit
  fresh-IsValid = record {
    left_fits = omega arith;
    right_fits = omega arith;
    commit_fits =
        length-append c _ ∙ omega (arith, length-replicate {A = ℕ} (48 - length c) 0, h.short);
    terminated = rw padding (padded-has_nul c _);
  }

  pub fresh-Insertion :
      {ns : List Node} → IsTree ns → 64 * length ns + 64 < 2 ^ 63 → Insertion ns (fresh c) c
  fresh-Insertion t room = record {
    tree = t;
    new_valid = fresh-IsValid;
    left_free = native_order-zero;
    right_free = native_order-zero;
    text = rw padding (c_string-padded c _ h.no_nul);
    same = strcmp_refl c;
    room = room;
  }

  pub remember-nil : remember [] c ≡ ok (encode (fresh c))
  unfolding remember
  remember-nil = ground (arith, new_node-fresh)

  pub remember-insert :
      (file : Bytes)
      → length file % 64 ≡ 0
      → length file ≢ 0
      → remember file c ≡ insert_from (rounds file) (file ++ encode (fresh c)) c (length file) 0
  unfolding remember
  remember-insert file whole some_node = ground (arith, new_node-fresh)

-- `seen` answers as the walk from the root does.
pub seen-Walk :
    (ns : List Node) (t : IsTree ns) (d : Bytes) {b : Bool}
    → Walk ns d 0 b
    → seen (image ns) d ≡ ok b
unfolding seen
seen-Walk ns t d w =
    let (n, at) = get_elem?-lt_length ns 0 (Walk-lt w) in
    let read : get (image ns) 0 ≡ ok (some n) =
      get-image_at ns 0 t.valid (omega (arith, t.small)) ∙ ap (λ r. ok r) at in
    rw (read, seen)
      (seen_from-Walk ns d t (rounds (image ns)) n w at (omega (arith, length-image ns t.valid)))

pub seen-nil : (d : Bytes) → seen [] d ≡ ok false
unfolding seen get check_node pread
seen-nil d = refl
