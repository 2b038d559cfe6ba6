-- ===== src/Strings.antt =====
-- Kernel/strings.c. A C string is the list of its characters before the NUL, as codes; an array that
-- a string is copied to is the list of its bytes, and every store to it is checked (see Memory).
pub mod Compare
pub mod Copy
mod Tests
use tpe.Base.{
  ℕ, zero, suc, ◌+◌, ◌-◌, ◌^◌, ◌≡◌, Bool, ◌&&◌, not, Option, none, some, List, [], ◌∷◌, ◌==◌, ltb,
  if◌then◌else◌, ◌>>=◌, length,
}
use tpe.Base.Int.{ℤ, sub_ℕ}
use tpe.Memory.{put}

abbrev pub uint_max : ℕ
uint_max = 4294967295

-- `str[i] != '\0'` counted from the front.
unfoldable pub str_len : List ℕ → ℕ
str_len [] = 0
str_len (c ∷ str) = str_len str + 1

-- The character at the front, NUL at the end of the string.
abbrev pub front : List ℕ → ℕ
front [] = 0
front (c ∷ str) = c

-- The loop of `strncmp` with `n` rounds left, at the rests of the two strings.
unfoldable pub strncmp : List ℕ → List ℕ → ℕ → ℤ
strncmp s t zero = sub_ℕ (front s) (front t)
strncmp [] t (suc n) = sub_ℕ 0 (front t)
strncmp (a ∷ s) [] (suc n) = sub_ℕ a 0
strncmp (a ∷ s) (b ∷ t) (suc n) = if a == b then strncmp s t n else sub_ℕ a b

unfoldable pub strcmp : List ℕ → List ℕ → ℤ
strcmp s t = strncmp s t uint_max

-- `strcpy(to + i, from)`, with the number of characters copied so far.
strcpy_loop : List ℕ → ℕ → List ℕ → ℕ → Option (List ℕ × ℕ)
strcpy_loop to i [] n = put to i 0 >>= λ to'. some (to', n)
strcpy_loop to i (c ∷ from) n = put to i c >>= λ to'. strcpy_loop to' (i + 1) from (n + 1)

pub strcpy : List ℕ → ℕ → List ℕ → Option (List ℕ × ℕ)
unfolding strcpy_loop
strcpy to i from = strcpy_loop to i from 0

-- `strcpynto(to, from, limit, n)`, with `left` rounds left.
strcpynto_loop : List ℕ → ℕ → List ℕ → ℕ → ℕ → Option (List ℕ × ℕ)
strcpynto_loop to i from limit zero = put to i 0 >>= λ to'. some (to', i)
strcpynto_loop to i [] limit (suc left) = put to i 0 >>= λ to'. some (to', i)
strcpynto_loop to i (c ∷ from) limit (suc left) =
    let rest = put to i c >>= λ to'. strcpynto_loop to' (i + 1) from limit left in
    if c == limit then (put to i 0 >>= λ to'. some (to', i)) else rest

-- The bound is an `int`: the rounds that `i < n` allows, for its bit pattern `n`.
abbrev pub rounds : ℕ → ℕ
rounds n = if ltb n (2 ^ 31) then n else 0

pub strcpynto : List ℕ → List ℕ → ℕ → ℕ → Option (List ℕ × ℕ)
strcpynto to from limit n = strcpynto_loop to 0 from limit (rounds n)

pub strcpyto : List ℕ → List ℕ → ℕ → Option (List ℕ × ℕ)
unfolding strcpynto
strcpyto to from limit = strcpynto to from limit uint_max
