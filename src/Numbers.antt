-- ===== src/Numbers.antt =====
-- The conversions between numbers and strings: `itoa` and `atoi` of Kernel/lib.c, and `uintToBase` of
-- Kernel/naiveConsole.c. The destination has room for the string; a string is the list of its
-- characters before the NUL.
pub mod Reverse
pub mod RoundTrip
mod Tests
use tpe.Base.{
  ℕ, zero, suc, ◌+◌, ◌-◌, ◌*◌, ◌/◌, ◌%◌, ◌^◌, Bool, Option, none, some, List, [], ◌∷◌, ◌==◌, ltb,
  if◌then◌else◌, ◌>>=◌, length, get_or, set,
}
use tpe.Base.Int.{ℤ, pos, negsuc, neg}
use tpe.Ctype.{isspace, isdigit}

-- The character of a remainder.
abbrev pub digit : ℕ → ℕ
digit remainder = if ltb remainder 10 then remainder + 48 else remainder + 55

-- The `char` that the same line gives for the remainder -r of a negative number.
abbrev pub negative_digit : ℕ → ℕ
negative_digit r = (48 + 256 - r % 256) % 256

-- The `do` loop with at most `n` rounds: the characters in the order in which they are stored, the
-- last digit first; `none` is a loop that has not ended.
unfoldable pub digits_loop : (ℕ → ℕ) → ℕ → ℕ → ℕ → Option (List ℕ)
digits_loop char zero value base = none
digits_loop char (suc n) value base =
    let rest = digits_loop char n (value / base) base in
    if value / base == 0
    then some (char (value % base) ∷ [])
    else (rest >>= λ ds. some (char (value % base) ∷ ds))

-- `tmp = *p1; *p1 = *p2; *p2 = tmp;`
abbrev pub swap : List ℕ → ℕ → ℕ → List ℕ
swap str p1 p2 = set (set str p1 (get_or str p2 0)) p2 (get_or str p1 0)

-- The loop that reverses, with at most `n` rounds.
unfoldable pub swap_loop : ℕ → List ℕ → ℕ → ℕ → List ℕ
swap_loop zero str p1 p2 = str
swap_loop (suc n) str p1 p2 =
    let rest = swap_loop n (swap str p1 p2) (p1 + 1) (p2 - 1) in if ltb p1 p2 then rest else str

-- The digits between the first character stored and the last are reversed in place; there are fewer
-- rounds than digits.
unfoldable pub reverse_digits : List ℕ → List ℕ
reverse_digits str = swap_loop (length str) str 0 (length str - 1)

-- An `int` has at most 32 digits in a base from 2 on.
unfoldable pub convert : (ℕ → ℕ) → ℕ → ℕ → Option (List ℕ)
convert char value base = digits_loop char 32 value base >>= λ ds. some (reverse_digits ds)

-- `itoa` with the number of characters; `-value` overflows for the least `int`, which is `none`.
unfoldable pub itoa : ℤ → ℕ → Option (List ℕ × ℕ)
itoa (pos value) base = convert digit value base >>= λ str. some (str, length str)
itoa (negsuc m) base =
    if base == 10
    then (if ltb (m + 1) (2 ^ 31)
        then (convert digit (m + 1) base >>= λ str. some (45 ∷ str, length str + 1))
        else none)
    else (convert negative_digit (m + 1) base >>= λ str. some (str, length str))

-- `while (isspace(*str)) str++;`
unfoldable pub skip_space : List ℕ → List ℕ
skip_space [] = []
skip_space (c ∷ str) = if isspace c then skip_space str else (c ∷ str)

-- The loop of `atoi` over the digits; `none` is an overflow of `num`.
unfoldable pub parse_loop : ℕ → List ℕ → Option ℕ
parse_loop num [] = some num
parse_loop num (c ∷ str) =
    let next = num * 10 + (c - 48) in
    let rest = parse_loop next str in
    if isdigit c then (if ltb next (2 ^ 31) then rest else none) else some num

-- `num * sign`
unfoldable pub atoi_sign : List ℕ → Option ℤ
atoi_sign [] = some (pos 0)
atoi_sign (c ∷ str) =
    if c == 45
    then (parse_loop 0 str >>= λ num. some (neg (pos num)))
    else (parse_loop 0 (if c == 43 then str else (c ∷ str)) >>= λ num. some (pos num))

unfoldable pub atoi : List ℕ → Option ℤ
atoi str = atoi_sign (skip_space str)

-- A `uint64_t` has at most 64 digits in a base from 2 on. The string and the number of its digits.
unfoldable pub uint_to_base : ℕ → ℕ → Option (List ℕ × ℕ)
uint_to_base value base =
    digits_loop digit 64 value base >>= λ ds. some (reverse_digits ds, length ds)
