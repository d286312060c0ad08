-- ===== src/Feed/Writing.antt =====
-- The loop of `writedata`, gateways/lj2news.c.
use nntp_tools.Prelude.{
  ℕ, zero, suc, ◌≤◌, ◌≡◌, refl, List, [], ◌∷◌, Bytes, All, ok, length, length-drop, drop,
  take-append-drop, arith,
}
use nntp_tools.Feed.Http.{WriteResult, wrote, interrupted, broken, write_all}

-- How many of the calls of `write` wrote something.
unfoldable progress : List WriteResult → ℕ
progress [] = 0
progress (wrote zero ∷ rs) = progress rs
progress (wrote (suc n) ∷ rs) = suc (progress rs)
progress (interrupted ∷ rs) = progress rs
progress (broken ∷ rs) = progress rs

unfoldable Works : WriteResult → Type 0
Works broken = ⊥
Works (wrote n) = Unit
Works interrupted = Unit

-- A loop whose calls of `write` do not fail, and of which as many make progress as there are bytes,
-- ends with every byte written once, in order.
write_all_lem :
    (rs : List WriteResult) (s : Bytes)
    → All Works rs
    → length s ≤ progress rs
    → write_all rs s ≡ ok s
unfolding write_all progress Works
write_all_lem rs [] _ h = refl
write_all_lem [] (c ∷ s) _ h = absurd (omega arith)
write_all_lem (broken ∷ rs) (c ∷ s) (w, _) h = absurd w
write_all_lem (interrupted ∷ rs) (c ∷ s) (_, ws) h = write_all_lem rs (c ∷ s) ws h
write_all_lem (wrote zero ∷ rs) (c ∷ s) (_, ws) h = rw (write_all_lem rs (c ∷ s) ws h) refl
write_all_lem (wrote (suc n) ∷ rs) (c ∷ s) (_, ws) h =
    rw (write_all_lem rs (drop n s) ws (omega (arith, length-drop n s)), take-append-drop n s) refl
