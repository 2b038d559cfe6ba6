-- ===== src/Console.antt =====
-- Kernel/naiveConsole.c: the text memory of the console. Memory is a function of the address;
-- nothing in the code keeps the writes inside the screen. The conversion of numbers is in Numbers.
pub mod NewLine
pub mod Printed
mod Tests
use tpe.Base.{
  ℕ, zero, suc, ◌+◌, ◌-◌, ◌*◌, ◌%◌, Option, none, some, List, [], ◌∷◌, ◌==◌, ltb, if◌then◌else◌,
  length, ◌>>=◌,
}
use tpe.Numbers.{uint_to_base}

abbrev pub video : ℕ
video = 0xB8000

abbrev pub width : ℕ
width = 80

abbrev pub height : ℕ
height = 25

abbrev pub number_buffer_size : ℕ
number_buffer_size = 64

-- `current` is `currentVideo`.
pub record Console : Type 0 where
  pub memory : ℕ → ℕ
  pub current : ℕ

-- `*p = v`
abbrev pub store : ℕ → ℕ → (ℕ → ℕ) → ℕ → ℕ
store p v memory a = if a == p then v else memory a

unfoldable pub nc_print_char : ℕ → Console → Console
nc_print_char character s = record {
  memory = store s.current character s.memory;
  current = s.current + 2;
}

unfoldable pub nc_print : List ℕ → Console → Console
nc_print [] s = s
nc_print (c ∷ string) s = nc_print string (nc_print_char c s)

-- The `do` loop with at most `n` rounds; `none` is a loop that has not ended.
unfoldable pub newline_loop : ℕ → Console → Option Console
newline_loop zero s = none
newline_loop (suc n) s =
    let s' : Console = nc_print_char b' ' s in
    let rest = newline_loop n s' in
    if (s'.current - video) % (width * 2) == 0 then some s' else rest

-- A line has `width` places.
unfoldable pub nc_newline : Console → Option Console
nc_newline s = newline_loop width s

-- The number and its NUL are stored in `buffer`; a number that does not fit is `none`.
unfoldable pub nc_print_base : ℕ → ℕ → Console → Option Console
nc_print_base value base s = uint_to_base value base >>= λ (str, digits).
    if ltb (length str) number_buffer_size then some (nc_print str s) else none

unfoldable pub nc_print_dec : ℕ → Console → Option Console
nc_print_dec value = nc_print_base value 10

unfoldable pub nc_print_hex : ℕ → Console → Option Console
nc_print_hex value = nc_print_base value 16

unfoldable pub nc_print_bin : ℕ → Console → Option Console
nc_print_bin value = nc_print_base value 2

-- The loop of `ncClear` at `i` with `n` rounds left.
unfoldable pub nc_clear_loop : ℕ → ℕ → (ℕ → ℕ) → ℕ → ℕ
nc_clear_loop zero i memory = memory
nc_clear_loop (suc n) i memory = nc_clear_loop n (i + 1) (store (video + i * 2) b' ' memory)

unfoldable pub nc_clear : Console → Console
nc_clear s = record { memory = nc_clear_loop (height * width) 0 s.memory; current = video }
