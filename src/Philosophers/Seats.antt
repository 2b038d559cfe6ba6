-- ===== src/Philosophers/Seats.antt =====
-- The neighbours at the table of Kernel/philo.c: LEFT and RIGHT go round.
use tpe.Base.{ℕ, ◌+◌, ◌-◌, ◌%◌, ◌<◌, ◌≡◌, ◌∙◌, ap, ◌==◌, if◌then◌else◌, arith, inl, inr, Bool-cases}
use native.Mathlib.Nat.{mod-eq_of_lt, mod_self, add-mod_right}
use tpe.Philosophers.{left, right}

same_seats : (n : ℕ) → 0 < n → (if n == 0 then 1 else n) ≡ n
same_seats n h = ground arith

pub left_if : (i n : ℕ) → i < n → left i n ≡ (if i == 0 then n - 1 else i - 1)
unfolding left
left_if i n h = rw (same_seats n (omega arith)) (elim (Bool-cases (i == 0)) [
  | inl e ↦
      let first : i ≡ 0 = ground arith in
      rw e (ap (λ m. m % n) {x = i + n - 1} {y = n - 1} (omega arith) ∙ mod-eq_of_lt (omega arith))
  | inr e ↦
      let later : 0 < i = ground arith in
      rw e (
        ap (λ m. m % n) {x = i + n - 1} {y = (i - 1) + n} (omega arith)
        ∙ add-mod_right (i - 1) n
        ∙ mod-eq_of_lt (omega arith))
])

pub right_if : (i n : ℕ) → i < n → right i n ≡ (if i + 1 == n then 0 else i + 1)
unfolding right
right_if i n h = rw (same_seats n (omega arith)) (elim (Bool-cases (i + 1 == n)) [
  | inl e ↦ let last : i + 1 ≡ n = ground arith in rw e (ap (λ m. m % n) last ∙ mod_self n)
  | inr e ↦ rw e (mod-eq_of_lt (ground arith))
])

pub left_in : (i n : ℕ) → i < n → left i n < n
left_in i n h = let e = left_if i n h in ground (arith, e)

pub right_in : (i n : ℕ) → i < n → right i n < n
right_in i n h = let e = right_if i n h in ground (arith, e)

pub left-right : (i n : ℕ) → i < n → left (right i n) n ≡ i
left-right i n h =
    let e = right_if i n h in let f = left_if (right i n) n (right_in i n h) in ground (arith, e, f)

pub right-left : (i n : ℕ) → i < n → right (left i n) n ≡ i
right-left i n h =
    let e = left_if i n h in let f = right_if (left i n) n (left_in i n h) in ground (arith, e, f)
