-- ===== src/Numbers/RoundTrip.antt =====
-- `atoi` of Kernel/lib.c reads back what `itoa` writes.
use tpe.Base.{
  ℕ, zero, suc, ◌+◌, ◌-◌, ◌*◌, ◌/◌, ◌%◌, ◌^◌, ◌≤◌, ◌<◌, ◌≡◌, refl, ◌∙◌, sym, ap, inl, inr, true,
  some, List, [], ◌∷◌, ◌++◌, ◌==◌, length, arith, Bool-cases, lt→ltb,
}
use mathlib.Core.Path.{subst}
use tpe.Base.Int.{ℤ, pos, negsuc, neg, pos_part, neg_part}
use tpe.Ctype.{isspace, isblank, isdigit}
use tpe.Numbers.{digit, digits_loop, convert, itoa, skip_space, parse_loop, atoi_sign, atoi}
use tpe.Numbers.Reverse.{rev, length-rev, reverse_digits-rev}

-- The number that digits spell, the last one first.
abbrev pub value_of : List ℕ → ℕ
value_of [] = 0
value_of (c ∷ ds) = value_of ds * 10 + (c - 48)

-- Every character is a digit.
abbrev pub AllDigits : List ℕ → Type 0
AllDigits [] = Unit {0}
AllDigits (c ∷ ds) = (isdigit c ≡ true) × AllDigits ds

AllDigits-append : (xs ys : List ℕ) → AllDigits xs → AllDigits ys → AllDigits (xs ++ ys)
AllDigits-append [] ys h k = k
AllDigits-append (x ∷ xs) ys h k = (h.0, AllDigits-append xs ys h.1 k)

AllDigits-rev : (ds : List ℕ) → AllDigits ds → AllDigits (rev ds)
unfolding rev
AllDigits-rev [] h = tt
AllDigits-rev (c ∷ ds) h = AllDigits-append (rev ds) (c ∷ []) (AllDigits-rev ds h.1) (h.0, tt)

-- A number below this has at most `n` decimal digits.
abbrev pub limit : ℕ → ℕ
limit zero = 1
limit (suc n) = 10 * limit n

pub round_left : (n v : ℕ) → v < limit n → 0 < v → 0 < n
round_left zero v h k = absurd (omega arith)
round_left (suc n) v h k = omega arith

digit-isdigit : (v : ℕ) → isdigit (digit (v % 10)) ≡ true
unfolding isdigit
digit-isdigit v = ground arith

digit-value : (v : ℕ) → digit (v % 10) - 48 ≡ v % 10
digit-value v = ground arith

-- The digits spell the value, and the rounds are enough.
digits_loop-value_of :
    (n v : ℕ)
    → v < limit n
    → 0 < n
    → (c : ℕ) × (ds : List ℕ) × (digits_loop digit n v 10 ≡ some (c ∷ ds))
      × AllDigits (c ∷ ds)
      × (value_of (c ∷ ds) ≡ v)
      × (length (c ∷ ds) ≤ n)
unfolding digits_loop
digits_loop-value_of zero v h k = absurd (omega arith)
digits_loop-value_of (suc n) v h k = elim (Bool-cases (v / 10 == 0)) [
  | inl last ↦ (
    digit (v % 10),
    [],
    rw last refl,
    (digit-isdigit v, tt),
    (let none_left : v / 10 ≡ 0 = ground arith in omega (arith, digit-value v, none_left)),
    omega arith,
  )
  | inr more ↦
      let (c, ds, e, all, same, short) =
        digits_loop-value_of n (v / 10) (omega arith)
          (round_left n (v / 10) (omega arith) (ground arith)) in
      (
        digit (v % 10),
        c ∷ ds,
        rw (more, e) refl,
        (digit-isdigit v, all),
        omega (arith, digit-value v, same),
        omega (arith, short),
      )
]

-- The value of a longer number is read in one more round.
parse_loop-snoc :
    (num : ℕ) (xs : List ℕ) (c m : ℕ)
    → AllDigits xs
    → parse_loop num xs ≡ some m
    → parse_loop num (xs ++ (c ∷ [])) ≡ parse_loop m (c ∷ [])
unfolding parse_loop
parse_loop-snoc num [] c m h e = ground arith
parse_loop-snoc num (x ∷ xs) c m h e = ground (arith, parse_loop-snoc (num * 10 + (x - 48)) xs c m)

parse_loop-rev :
    (ds : List ℕ) → AllDigits ds → value_of ds < 2 ^ 31 → parse_loop 0 (rev ds) ≡ some (value_of ds)
unfolding rev parse_loop
parse_loop-rev [] h small = refl
parse_loop-rev (c ∷ ds) h small =
    parse_loop-snoc 0 (rev ds) c (value_of ds) (AllDigits-rev ds h.1)
      (parse_loop-rev ds h.1 (omega arith))
    ∙ ground arith

first_of : (xs : List ℕ) → 0 < length xs → (c : ℕ) × (str : List ℕ) × (xs ≡ c ∷ str)
first_of [] h = absurd (omega arith)
first_of (c ∷ str) h = (c, str, refl)

-- What `convert` leaves for a decimal number: its first character is a digit.
pub convert-parse_loop :
    (v : ℕ)
    → v < 2 ^ 31
    → (c : ℕ) × (str : List ℕ) × (convert digit v 10 ≡ some (c ∷ str))
      × (isdigit c ≡ true)
      × (parse_loop 0 (c ∷ str) ≡ some v)
      × AllDigits (c ∷ str)
      × (length (c ∷ str) ≤ 32)
unfolding convert
convert-parse_loop v small =
    let (d, ds, e, all, same, short) = digits_loop-value_of 32 v (omega arith) (omega arith) in
    let (c, str, same_list) = first_of (rev (d ∷ ds)) (omega (arith, length-rev (d ∷ ds))) in
    let digits : AllDigits (c ∷ str) = subst AllDigits same_list (AllDigits-rev (d ∷ ds) all) in
    (
      c,
      str,
      rw e (ap some (reverse_digits-rev (d ∷ ds) ∙ same_list)),
      digits.0,
      ap (parse_loop 0) (sym same_list) ∙ parse_loop-rev (d ∷ ds) all (omega arith) ∙ ap some same,
      digits,
      omega (arith, short, ap length same_list, length-rev (d ∷ ds)),
    )

pub atoi-digits :
    (c : ℕ) (str : List ℕ) (v : ℕ)
    → isdigit c ≡ true
    → parse_loop 0 (c ∷ str) ≡ some v
    → (atoi (c ∷ str) ≡ some (pos v)) × (atoi (45 ∷ c ∷ str) ≡ some (neg (pos v)))
unfolding atoi atoi_sign skip_space isspace isblank isdigit
atoi-digits c str v h e = (ground arith, rw e refl)

-- `itoa` in base 10 gives a string and its length for every `int` but the least, and `atoi` reads
-- the number back from the string.
pub atoi-itoa :
    (v : ℤ)
    → pos_part v < 2 ^ 31
    → neg_part v < 2 ^ 31
    → (str : List ℕ) × (itoa v 10 ≡ some (str, length str)) × (atoi str ≡ some v)
unfolding itoa
atoi-itoa (pos v) h k =
    let (c, str, e, first, read, all, short) = convert-parse_loop v h in
    (c ∷ str, rw e refl, (atoi-digits c str v first read).0)
atoi-itoa (negsuc v) h k =
    let (c, str, e, first, read, all, short) = convert-parse_loop (v + 1) (omega arith) in
    (
      45 ∷ c ∷ str,
      rw (lt→ltb (v + 1) (2 ^ 31) (omega arith), e)
          (ap (λ n. some (45 ∷ c ∷ str, n)) (omega arith)),
      (atoi-digits c str (v + 1) first read).1 ∙ ap some (ground arith),
    )
