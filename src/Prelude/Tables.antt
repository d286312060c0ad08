-- ===== src/Prelude/Tables.antt =====
-- Facts about every byte, by evaluation of a test over a range.
use Prim.Native.Nat.{ℕ, zero, suc, ◌<◌}
use mathlib.Core.Path.{◌≡◌}
use mathlib.Core.Bool.{Bool, true, ◌&&◌}
use native.Mathlib.Omega.{arith}

-- Whether a test passes on each number below a bound.
unfoldable pub passes_below : (ℕ → Bool) → ℕ → Bool
passes_below test zero = true
passes_below test (suc bound) = passes_below test bound && test bound

pub passes_below_lem :
    (test : ℕ → Bool) (bound c : ℕ) → c < bound → passes_below test bound ≡ true → test c ≡ true
unfolding passes_below
passes_below_lem test (suc bound) c = ground (arith, passes_below_lem test bound c)
passes_below_lem test zero c = ground arith
