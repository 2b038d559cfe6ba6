-- ===== src/Clock/Range.antt =====
-- The numbers of `rand_int_range` of Kernel/random.c lie in their range.
use tpe.Base.{ℕ, ◌+◌, ◌-◌, ◌%◌, ◌≤◌, ◌<◌, ◌≡◌, refl, false, leb, arith}
use tpe.Base.Int.{pos}
use native.Mathlib.Nat.{mod-lt}
use tpe.Clock.{rand_int, rand_int_range}

-- For a range that is not empty, whatever the state of the generator, the number is at least `low` and
-- below `top`.
pub rand_int_range-bounds :
    (low top next : ℕ)
    → low < top
    → (r : ℕ) × ((rand_int_range low top next).0 ≡ pos r) × (low ≤ r) × (r < top)
unfolding rand_int_range
rand_int_range-bounds low top next h =
    let some_range : leb top low ≡ false = ground arith in
    let below : (rand_int next).0 % (top - low) < top - low =
      mod-lt (rand_int next).0 (omega arith) in
    ((rand_int next).0 % (top - low) + low, rw some_range refl, omega arith, omega (arith, below))
