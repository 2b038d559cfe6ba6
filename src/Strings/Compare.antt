-- ===== src/Strings/Compare.antt =====
-- `strcmp` of Kernel/strings.c tells strings apart.
use tpe.Base.{
  ℕ, zero, suc, ◌<◌, ◌≡◌, ◌↔◌, ◌^◌, refl, ap₂, inl, inr, List, [], ◌∷◌, ◌==◌, length, arith,
  Bool-cases,
}
use tpe.Base.Int.{pos}
use tpe.Strings.{str_len, strncmp, strcmp, uint_max}

-- No character of a C string is NUL, and as a `char` has a sign, none is above 127.
abbrev pub IsString : List ℕ → Type 0
IsString [] = Unit {0}
IsString (c ∷ s) = (0 < c) × (c < 128) × IsString s

strncmp_self : (s : List ℕ) (n : ℕ) → strncmp s s n ≡ pos 0
unfolding strncmp
strncmp_self [] zero = refl
strncmp_self [] (suc n) = refl
strncmp_self (c ∷ s) zero = ground arith
strncmp_self (c ∷ s) (suc n) = ground (arith, strncmp_self s n)

eq_of_strncmp :
    (s t : List ℕ) (n : ℕ) → IsString s → IsString t → length s < n → strncmp s t n ≡ pos 0 → s ≡ t
unfolding strncmp
eq_of_strncmp s t zero hs ht h e = absurd (omega arith)
eq_of_strncmp [] [] (suc n) hs ht h e = refl
eq_of_strncmp [] (b ∷ t) (suc n) hs ht h e = absurd (ground arith)
eq_of_strncmp (a ∷ s) [] (suc n) hs ht h e = absurd (ground arith)
eq_of_strncmp (a ∷ s) (b ∷ t) (suc n) hs ht h e = elim (Bool-cases (a == b)) [
  | inl same ↦ ap₂ ◌∷◌ (ground arith) (eq_of_strncmp s t n hs.2 ht.2 (omega arith) (rw same at e))
  | inr apart ↦ absurd (ground arith)
]

-- `strcmp` returns 0 exactly when the two strings are the same, for strings whose first has a length
-- that its counter, an `int`, can hold.
pub strcmp_zero_iff :
    (s t : List ℕ) → IsString s → IsString t → length s < 2 ^ 31 → (strcmp s t ≡ pos 0) ↔ (s ≡ t)
unfolding strcmp
strcmp_zero_iff s t hs ht h =
    (eq_of_strncmp s t uint_max hs ht (omega arith), λ e. rw (← e) (strncmp_self s uint_max))

-- `str_len` is the number of characters.
pub str_len-length : (s : List ℕ) → str_len s ≡ length s
unfolding str_len
str_len-length [] = refl
str_len-length (c ∷ s) = omega (arith, str_len-length s)
