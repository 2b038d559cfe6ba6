-- ===== src/Process/Files.antt =====
-- The bit map of open files of Kernel/process.c.
use tpe.Base.{
  ℕ, zero, suc, ◌≤◌, ◌<◌, ◌≡◌, refl, sym, ◌∙◌, inl, inr, Bool, true, false, ◌&&◌, ◌||◌, not, none,
  some, List, [], ◌∷◌, ◌==◌, if◌then◌else◌, length, arith, Bool-cases,
}
use tpe.Process.{
  Process, max_fds, bit_mask, or_bits, and_not_bits, meets, set_file_open, set_file_closed,
  file_is_open,
}

-- The mask of a descriptor for which the shift is defined.
mask : ℕ → List Bool
unfolding bit_mask
mask fd = elim (bit_mask fd) [ none ↦ [] | some m ↦ m ]

eqb : Bool → Bool → Bool
eqb true b = b
eqb false b = not b

eq_of_eqb : (a b : Bool) → eqb a b ≡ true → a ≡ b
unfolding eqb
eq_of_eqb true true h = refl
eq_of_eqb true false h = cc
eq_of_eqb false true h = cc
eq_of_eqb false false h = refl

-- The test holds for each number under the limit.
each : (limit : ℕ) → (ℕ → Bool) → Bool
each zero test = true
each (suc limit) test = if test limit then each limit test else false

test_of_each :
    (test : ℕ → Bool) (limit : ℕ) → each limit test ≡ true → (i : ℕ) → i < limit → test i ≡ true
unfolding each
test_of_each test zero all i under = absurd (omega arith)
test_of_each test (suc limit) all i under = elim (Bool-cases (i == limit)) [
  | inl top ↦ let at : i ≡ limit = ground arith in rw at (ground arith)
  | inr below ↦ test_of_each test limit (ground arith) i (ground arith)
]

-- For the descriptors up to 31 the masks are defined, fill a word, and meet only themselves.
mask_row : ℕ → Bool
mask_row i = (length (mask i) == 64) && each 32 (λ j. eqb (meets (mask i) (mask j)) (i == j))

mask_table : each 32 mask_row ≡ true
unfolding each mask_row mask meets eqb
mask_table = refl

&&-left : (a b : Bool) → (a && b) ≡ true → a ≡ true
&&-left a b h = ground arith

&&-right : (a b : Bool) → (a && b) ≡ true → b ≡ true
&&-right a b h = ground arith

length-mask : (i : ℕ) → i < 32 → length (mask i) ≡ 64
unfolding mask_row
length-mask i h =
    let row : (length (mask i) == 64) ≡ true =
      &&-left _ _ (test_of_each mask_row 32 mask_table i h) in
    ground arith

meets-mask : (i j : ℕ) → i < 32 → j < 32 → meets (mask i) (mask j) ≡ (i == j)
unfolding mask_row
meets-mask i j h k = eq_of_eqb _ _ (
    test_of_each (λ m. eqb (meets (mask i) (mask m)) (i == m)) 32
      (&&-right _ _ (test_of_each mask_row 32 mask_table i h)) j k)

bit_mask-mask : (i : ℕ) → i < 32 → bit_mask i ≡ some (mask i)
unfolding mask
bit_mask-mask i h = ground arith

meets-or_bits :
    (w a b : List Bool) → length w ≡ length a → meets (or_bits w a) b ≡ (meets w b || meets a b)
unfolding meets or_bits
meets-or_bits [] [] b e = refl
meets-or_bits [] (x ∷ a) b e = absurd (omega arith)
meets-or_bits (x ∷ w) [] b e = absurd (omega arith)
meets-or_bits (x ∷ w) (y ∷ a) [] e = refl
meets-or_bits (x ∷ w) (y ∷ a) (z ∷ b) e = ground (arith, meets-or_bits w a b)

meets-and_not_bits_apart :
    (w a b : List Bool)
    → length w ≡ length a
    → meets a b ≡ false
    → meets (and_not_bits w a) b ≡ meets w b
unfolding meets and_not_bits
meets-and_not_bits_apart [] [] b e h = refl
meets-and_not_bits_apart [] (x ∷ a) b e h = absurd (omega arith)
meets-and_not_bits_apart (x ∷ w) [] b e h = absurd (omega arith)
meets-and_not_bits_apart (x ∷ w) (y ∷ a) [] e h = refl
meets-and_not_bits_apart (x ∷ w) (y ∷ a) (z ∷ b) e h =
    ground (arith, meets-and_not_bits_apart w a b)

meets-and_not_bits_self :
    (w a : List Bool) → length w ≡ length a → meets (and_not_bits w a) a ≡ false
unfolding meets and_not_bits
meets-and_not_bits_self [] [] e = refl
meets-and_not_bits_self [] (x ∷ a) e = absurd (omega arith)
meets-and_not_bits_self (x ∷ w) [] e = absurd (omega arith)
meets-and_not_bits_self (x ∷ w) (y ∷ a) e = ground (arith, meets-and_not_bits_self w a)

length-or_bits : (w a : List Bool) → length w ≡ length a → length (or_bits w a) ≡ length w
unfolding or_bits
length-or_bits [] a e = refl
length-or_bits (x ∷ w) [] e = refl
length-or_bits (x ∷ w) (y ∷ a) e = ground (arith, length-or_bits w a)

length-and_not_bits : (w a : List Bool) → length w ≡ length a → length (and_not_bits w a) ≡ length w
unfolding and_not_bits
length-and_not_bits [] a e = refl
length-and_not_bits (x ∷ w) [] e = refl
length-and_not_bits (x ∷ w) (y ∷ a) e = ground (arith, length-and_not_bits w a)

-- For descriptors up to 31, `set_file_open` opens the one, leaves the others as they were, and
-- keeps the width of the map.
pub file_is_open-set_file_open :
    (fd : ℕ) (p : Process)
    → fd < 32
    → length p.open_fds ≡ 64
    → (p' : Process) × (set_file_open fd p ≡ some (true, p'))
      × (length p'.open_fds ≡ 64)
      × ((j : ℕ) → j < 32 → file_is_open j p' ≡ (if fd == j then some true else file_is_open j p))
unfolding set_file_open file_is_open
file_is_open-set_file_open fd p h w = (
  record p { open_fds = or_bits p.open_fds (mask fd) },
  ground (arith, bit_mask-mask fd h),
  length-or_bits p.open_fds (mask fd) (w ∙ sym (length-mask fd h)) ∙ w,
  λ j k. ground (
    arith,
    bit_mask-mask j k,
    meets-mask fd j h k,
    meets-or_bits p.open_fds (mask fd) (mask j) (w ∙ sym (length-mask fd h)),
  ),
)

-- For descriptors up to 31, `set_file_closed` closes the one, leaves the others as they were, and
-- keeps the width of the map.
pub file_is_open-set_file_closed :
    (fd : ℕ) (p : Process)
    → fd < 32
    → length p.open_fds ≡ 64
    → (p' : Process) × (set_file_closed fd p ≡ some (true, p'))
      × (length p'.open_fds ≡ 64)
      × ((j : ℕ) → j < 32 → file_is_open j p' ≡ (if fd == j then some false else file_is_open j p))
unfolding set_file_closed file_is_open
file_is_open-set_file_closed fd p h w = (
  record p { open_fds = and_not_bits p.open_fds (mask fd) },
  ground (arith, bit_mask-mask fd h),
  length-and_not_bits p.open_fds (mask fd) (w ∙ sym (length-mask fd h)) ∙ w,
  λ j k. closed j k,
)
  where
    closed :
        (j : ℕ)
        → j < 32
        → file_is_open j (record p { open_fds = and_not_bits p.open_fds (mask fd) })
          ≡ (if fd == j then some false else file_is_open j p)
    closed j k = elim (Bool-cases (fd == j)) [
      | inl same ↦ ground (
        arith,
        bit_mask-mask j k,
        meets-and_not_bits_self p.open_fds (mask fd) (w ∙ sym (length-mask fd h)),
      )
      | inr apart ↦ ground (
        arith,
        bit_mask-mask j k,
        meets-mask fd j h k,
        meets-and_not_bits_apart p.open_fds (mask fd) (mask j) (w ∙ sym (length-mask fd h)),
      )
    ]

-- For the upper half of the descriptors below MAX_FDS all three functions shift an `int` by its
-- width or more, which is undefined.
pub descriptors_from_32 :
    (fd : ℕ) (p : Process)
    → 32 ≤ fd
    → fd < max_fds
    → (set_file_open fd p ≡ none) × (set_file_closed fd p ≡ none) × (file_is_open fd p ≡ none)
unfolding set_file_open set_file_closed file_is_open
descriptors_from_32 fd p h k = (ground arith, ground arith, ground arith)
