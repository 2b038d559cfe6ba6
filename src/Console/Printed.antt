-- ===== src/Console/Printed.antt =====
-- What printing a number on the console of Kernel/naiveConsole.c leaves.
use tpe.Base.{
  ℕ, zero, suc, ◌+◌, ◌*◌, ◌/◌, ◌%◌, ◌^◌, ◌≤◌, ◌<◌, ◌≡◌, refl, ap, inl, inr, true, some, List, [],
  ◌∷◌, ◌==◌, length, arith, Bool-cases, lt→ltb,
}
use tpe.Numbers.{digit, digits_loop, reverse_digits, uint_to_base}
use tpe.Numbers.Reverse.{length-rev, reverse_digits-rev}
use tpe.Console.{
  Console, video, number_buffer_size, nc_print_char, nc_print, nc_print_base, nc_print_dec,
  nc_print_hex,
}

-- The cursor is at a place of the console, not at the colour of one.
abbrev pub AtPlace : Console → Type 0
AtPlace s = (k : ℕ) × (s.current ≡ video + 2 * k)

pub nc_print-AtPlace : (str : List ℕ) (s : Console) → AtPlace s → AtPlace (nc_print str s)
unfolding nc_print nc_print_char
nc_print-AtPlace [] s h = h
nc_print-AtPlace (c ∷ str) s (k, e) = nc_print-AtPlace str (nc_print_char c s) (k + 1, omega arith)

-- `base` to the power `m`.
abbrev pub power : ℕ → ℕ → ℕ
power base zero = 1
power base (suc m) = base * power base m

module _ (base : ℕ) (one_less : (v p : ℕ) → v < base * p → v / base < p) where
  digits_enough :
      (n m v : ℕ)
      → m < n
      → v < power base (suc m)
      → (ds : List ℕ) × (digits_loop digit n v base ≡ some ds) × (length ds ≤ suc m)
  unfolding digits_loop
  digits_enough zero m v h k = absurd (omega arith)
  digits_enough (suc n) zero v h k =
      let e : (v / base == 0) ≡ true = let l : v / base < 1 = one_less v 1 k in ground arith in
      (digit (v % base) ∷ [], rw e refl, omega arith)
  digits_enough (suc n) (suc m) v h k =
      let (ds, ran, few) =
        digits_enough n m (v / base) (omega arith) (one_less v (power base (suc m)) k) in
      elim (Bool-cases (v / base == 0)) [
        | inl e ↦ (digit (v % base) ∷ [], rw e refl, omega arith)
        | inr e ↦ (digit (v % base) ∷ ds, rw (e, ran) refl, omega arith)
      ]

  -- A number with few enough digits is printed.
  nc_print_base-AtPlace :
      (m v : ℕ) (s : Console)
      → m < 63
      → v < power base (suc m)
      → AtPlace s
      → (s' : Console) × (nc_print_base v base s ≡ some s') × AtPlace s'
  unfolding nc_print_base uint_to_base
  nc_print_base-AtPlace m v s h k place =
      let (ds, ran, few) = digits_enough 64 m v (omega arith) k in
      let fits : length (reverse_digits ds) < number_buffer_size =
        omega (arith, ap length (reverse_digits-rev ds), length-rev ds) in
      (
        nc_print (reverse_digits ds) s,
        rw (ran, lt→ltb (length (reverse_digits ds)) number_buffer_size fits) refl,
        nc_print-AtPlace (reverse_digits ds) s place,
      )

tenth : (v p : ℕ) → v < 10 * p → v / 10 < p
tenth v p h = omega arith

sixteenth : (v p : ℕ) → v < 16 * p → v / 16 < p
sixteenth v p h = omega arith

pub nc_print_dec-AtPlace :
    (v : ℕ) (s : Console)
    → v < 2 ^ 64
    → AtPlace s
    → (s' : Console) × (nc_print_dec v s ≡ some s') × AtPlace s'
unfolding nc_print_dec
nc_print_dec-AtPlace v s h = nc_print_base-AtPlace 10 tenth 19 v s (omega arith) (omega arith)

pub nc_print_hex-AtPlace :
    (v : ℕ) (s : Console)
    → v < 2 ^ 64
    → AtPlace s
    → (s' : Console) × (nc_print_hex v s ≡ some s') × AtPlace s'
unfolding nc_print_hex
nc_print_hex-AtPlace v s h = nc_print_base-AtPlace 16 sixteenth 15 v s (omega arith) (omega arith)
