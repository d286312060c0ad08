-- ===== src/Words.antt =====
-- Integers in memory: the bytes of a little-endian integer, and the byte swap of lib/seen.c.
use mathlib.Core.List.{reverse, reverse-append, reverse-reverse}
use nntp_tools.Prelude.{
  ℕ, zero, suc, ◌+◌, ◌*◌, ◌/◌, ◌%◌, ◌<◌, ◌≡◌, refl, ap, ◌∙◌, [], ◌∷◌, Bytes, length, length-append,
  All, All-append, arith,
}

-- 256 ^ k.
unfoldable pub limit : ℕ → ℕ
limit zero = 1
limit (suc k) = 256 * limit k

-- The `k` bytes of an integer, the least significant first.
unfoldable pub store : ℕ → ℕ → Bytes
store zero n = []
store (suc k) n = n % 256 ∷ store k (n / 256)

unfoldable pub load : Bytes → ℕ
load [] = 0
load (b ∷ bs) = b + 256 * load bs

abbrev pub AreBytes : Bytes → Type 0
AreBytes = All (λ b. b < 256)

pub load-store : (k n : ℕ) → n < limit k → load (store k n) ≡ n
unfolding limit store load
load-store zero n h = omega arith
load-store (suc k) n h = omega (arith, load-store k (n / 256) (omega arith))

pub length-store : (k n : ℕ) → length (store k n) ≡ k
unfolding store
length-store zero n = refl
length-store (suc k) n = ap suc (length-store k (n / 256))

store-AreBytes : (k n : ℕ) → AreBytes (store k n)
unfolding store
store-AreBytes zero n = tt
store-AreBytes (suc k) n = (omega arith, store-AreBytes k (n / 256))

store-load : (bs : Bytes) → AreBytes bs → store (length bs) (load bs) ≡ bs
unfolding store load
store-load [] _ = refl
store-load (b ∷ bs) (h, hs) =
    let quotient : (b + 256 * load bs) / 256 ≡ load bs = omega arith in
    let remainder : (b + 256 * load bs) % 256 ≡ b = omega arith in
    rw (quotient, remainder) (ap (◌∷◌ b) (store-load bs hs))

load-lt-limit : (bs : Bytes) → AreBytes bs → load bs < limit (length bs)
unfolding load limit
load-lt-limit [] _ = omega arith
load-lt-limit (b ∷ bs) (h, hs) = omega (arith, load-lt-limit bs hs)

reverse-AreBytes : (bs : Bytes) → AreBytes bs → AreBytes (reverse bs)
reverse-AreBytes [] _ = tt
reverse-AreBytes (b ∷ bs) (h, hs) =
    rw (reverse-append (b ∷ []) bs)
      (All-append _ (reverse bs) (b ∷ []) (reverse-AreBytes bs hs) (h, tt))

length-reverse : (bs : Bytes) → length (reverse bs) ≡ length bs
length-reverse [] = refl
length-reverse (b ∷ bs) =
    ap length (reverse-append (b ∷ []) bs)
    ∙ omega (arith, length-append (reverse bs) (b ∷ []), length-reverse bs)

length-swapped : (n : ℕ) → length (reverse (store 8 n)) ≡ 8
length-swapped n = length-reverse (store 8 n) ∙ length-store 8 n

swapped-AreBytes : (n : ℕ) → AreBytes (reverse (store 8 n))
swapped-AreBytes n = reverse-AreBytes (store 8 n) (store-AreBytes 8 n)

-- `native_order`: the bytes of a 64-bit integer in the other order (`bswap`).
unfoldable pub native_order : ℕ → ℕ
native_order n = load (reverse (store 8 n))

-- `file_order`, the way back.
unfoldable pub file_order : ℕ → ℕ
file_order n = load (reverse (store 8 n))

pub file_order-lt : (n : ℕ) → file_order n < limit 8
unfolding file_order
file_order-lt n =
    rw (length-swapped n) at (load-lt-limit (reverse (store 8 n)) (swapped-AreBytes n))

-- A 64-bit position that is written in file order is read back.
pub native_order-file_order : (n : ℕ) → n < limit 8 → native_order (file_order n) ≡ n
unfolding native_order file_order
native_order-file_order n h =
    let stored : store 8 (load (reverse (store 8 n))) ≡ reverse (store 8 n) =
      rw (length-swapped n) at (store-load (reverse (store 8 n)) (swapped-AreBytes n)) in
    ap (λ bs. load (reverse bs)) stored ∙ (ap load (reverse-reverse (store 8 n)) ∙ load-store 8 n h)

pub native_order-zero : native_order 0 ≡ 0
unfolding native_order store load
native_order-zero = refl
