-- ===== src/Seen/Tests.antt =====
-- Runs of lib/seen.c, and its theorems at concrete inputs.
use nntp_tools.Prelude.{◌≡◌, refl, Bool, [], ◌∷◌, Bytes, codes, ok, arith}
use nntp_tools.Words.{native_order, file_order, native_order-file_order, limit}
use nntp_tools.Seen.{seen, has_nul}
use nntp_tools.Seen.Calls.{IsCommit}
use nntp_tools.Seen.Set.{nil-IsTracking, Remembered, remember-Remembered, seen-total}
use nntp_tools.Seen.History.{remember_all, contains, seen-remember_all}

abbrev commit_a : Bytes
commit_a = codes "3f2a"

commit_a-IsCommit : IsCommit commit_a
unfolding has_nul
commit_a-IsCommit = record { short = omega arith; no_nul = refl }

native_order-file_order_example : native_order (file_order 128) ≡ 128
native_order-file_order_example = native_order-file_order 128 (unfold limit in omega arith)

remember-Remembered_example : Remembered [] commit_a
remember-Remembered_example =
    remember-Remembered [] commit_a nil-IsTracking commit_a-IsCommit (omega arith)

seen-total_example : (b : Bool) × (seen [] commit_a ≡ ok b)
seen-total_example = seen-total [] commit_a nil-IsTracking

seen-remember_all_example :
    (file : Bytes) × (remember_all [] (commit_a ∷ commit_a ∷ []) ≡ ok file)
    × (seen file commit_a ≡ ok (contains (commit_a ∷ commit_a ∷ []) commit_a))
seen-remember_all_example =
    seen-remember_all (commit_a ∷ commit_a ∷ []) commit_a
      (commit_a-IsCommit, (commit_a-IsCommit, tt)) (omega arith)
