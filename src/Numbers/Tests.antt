-- ===== src/Numbers/Tests.antt =====
-- Runs of the conversions of Kernel/lib.c.
use tpe.Base.{◌≡◌, refl, some, [], ◌∷◌}
use tpe.Base.Int.{pos, negsuc}
use tpe.Ctype.{isspace, isblank, isdigit}
use tpe.Numbers.{
  digits_loop, swap_loop, reverse_digits, convert, itoa, skip_space, parse_loop, atoi_sign, atoi,
  uint_to_base,
}

-- "FF" and "-42".
hexadecimal : itoa (pos 255) 16 ≡ some (70 ∷ 70 ∷ [], 2)
unfolding itoa convert digits_loop reverse_digits swap_loop
hexadecimal = refl

minus_42 : itoa (negsuc 41) 10 ≡ some (45 ∷ 52 ∷ 50 ∷ [], 3)
unfolding itoa convert digits_loop reverse_digits swap_loop
minus_42 = refl

-- " +7x"
seven : atoi (32 ∷ 43 ∷ 55 ∷ 120 ∷ []) ≡ some (pos 7)
unfolding atoi atoi_sign skip_space parse_loop isspace isblank isdigit
seven = refl

binary : uint_to_base 6 2 ≡ some (49 ∷ 49 ∷ 48 ∷ [], 3)
unfolding uint_to_base digits_loop reverse_digits swap_loop
binary = refl
