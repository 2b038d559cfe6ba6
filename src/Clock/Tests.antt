-- ===== src/Clock/Tests.antt =====
-- The theorems on Kernel/time.c and Kernel/random.c.
use tpe.Base.{◌≡◌, refl}
use tpe.Base.Int.{pos}
use tpe.Clock.{rand_int, rand_int_range}

-- The generator from its first state on: 16838, and 5 between 2 and 7.
first_number : (rand_int 1).0 ≡ 16838
unfolding rand_int
first_number = refl

first_pause : (rand_int_range 2 7 1).0 ≡ pos 5
unfolding rand_int_range rand_int
first_pause = refl
