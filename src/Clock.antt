-- ===== src/Clock.antt =====
-- Kernel/time.c and Kernel/random.c: the hour in a time zone, and the random numbers. `sys_time` reads
-- the clock's registers and is a parameter.
pub mod Hour
pub mod Range
mod Tests
use tpe.Base.{ℕ, ◌+◌, ◌-◌, ◌*◌, ◌/◌, ◌%◌, ◌^◌, Bool, true, false, ◌&&◌, leb, if◌then◌else◌}
use tpe.Base.Int.{ℤ, pos, negsuc, pos_part, neg_part, sub_ℕ}

-- MIN_GMT, MAX_GMT and DEFAULT_GMT; the least is negative.
abbrev pub min_gmt : ℕ
min_gmt = 12

abbrev pub max_gmt : ℕ
max_gmt = 14

abbrev pub default_gmt : ℤ
default_gmt = negsuc 2

-- The result and GMT.
unfoldable pub set_gmt : ℤ → ℤ → ℕ × ℤ
set_gmt gmt old =
    if leb (neg_part gmt) min_gmt && leb (pos_part gmt) max_gmt then (1, gmt) else (0, old)

abbrev pub get_gmt : ℤ → ℤ
get_gmt gmt = gmt

module _ (sys_time : ℕ → ℕ) where
  abbrev pub seconds : ℕ
  seconds = sys_time 0

  abbrev pub minutes : ℕ
  minutes = sys_time 1

  -- `h < 0 ? h + 24 : h - 24` where `h` is no hour.
  abbrev pub in_day : ℤ → ℤ
  in_day (pos h) = if leb h 23 then pos h else pos (h - 24)
  in_day (negsuc m) = sub_ℕ 24 (m + 1)

  unfoldable pub hour : ℤ → ℤ
  hour gmt = in_day (sub_ℕ (sys_time 2 + pos_part gmt) (neg_part gmt))

-- `next` after the step, an `unsigned long`, and the number.
unfoldable pub rand_int : ℕ → ℕ × ℕ
rand_int next =
    let stepped = (next * 1103515245 + 12345) % 2 ^ 64 in
    ((stepped / 65536) % 2 ^ 32 % 32768, stepped)

-- The bounds are not negative.
unfoldable pub rand_int_range : ℕ → ℕ → ℕ → ℤ × ℕ
rand_int_range low top next =
    if leb top low
    then (negsuc 0, next)
    else (pos ((rand_int next).0 % (top - low) + low), (rand_int next).1)

-- The seed is an `unsigned int`.
unfoldable pub srand : ℕ → ℕ
srand seed = seed % 2 ^ 32
