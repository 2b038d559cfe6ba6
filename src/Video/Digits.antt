-- ===== src/Video/Digits.antt =====
-- The digits that `print_num` of Kernel/videoDriver.c prints are those of `itoa` of Kernel/lib.c.
use tpe.Base.{
  ℕ, zero, suc, ◌+◌, ◌/◌, ◌%◌, ◌^◌, ◌<◌, ◌≡◌, refl, ◌∙◌, sym, ap, true, false, some, List, [], ◌∷◌,
  ◌++◌, ◌==◌, ltb, length, arith, inl, inr, Bool-cases, lt→ltb,
}
use mathlib.Core.List.{append_assoc, append-nil}
use tpe.Base.Int.{ℤ, pos, negsuc, pos_part, neg_part}
use tpe.Numbers.{digit, digits_loop, convert, itoa}
use tpe.Numbers.Reverse.{rev, reverse_digits-rev}
use tpe.Numbers.RoundTrip.{limit, round_left}
use tpe.Video.Text.{count_loop, count_digits, number_loop, number_text}

-- Both loops take the same rounds.
digits-number_loop :
    (n v k : ℕ)
    → v < limit n
    → 0 < n
    → (ds : List ℕ) × (digits_loop digit n v 10 ≡ some ds)
      × (count_loop n v k + 1 ≡ k + length ds)
      × ((str : List ℕ) → number_loop (length ds) v str ≡ rev ds ++ str)
unfolding digits_loop count_loop number_loop rev
digits-number_loop zero v k h lt = absurd (omega arith)
digits-number_loop (suc n) v k h lt = elim (Bool-cases (v / 10 == 0)) [
  | inl last ↦
      let none_left : v / 10 ≡ 0 = ground arith in
      let same : digit (v % 10) ≡ v % 10 + 48 = ground arith in
      (
        digit (v % 10) ∷ [],
        rw last refl,
        (let stop : ltb 0 (v / 10) ≡ false = ground arith in rw stop refl),
        λ str. ap (λ c. c ∷ str) (sym same),
      )
  | inr more ↦
      let (ds, e, count, same) =
        digits-number_loop n (v / 10) (k + 1) (omega arith)
          (round_left n (v / 10) (omega arith) (ground arith)) in
      let same_digit : digit (v % 10) ≡ v % 10 + 48 = ground arith in
      (
        digit (v % 10) ∷ ds,
        rw (more, e) refl,
        (let on : ltb 0 (v / 10) ≡ true = ground arith in rw on (omega (arith, count))),
        λ str.
            same ((v % 10 + 48) ∷ str)
            ∙ ap (λ c. rev ds ++ (c ∷ str)) (sym same_digit)
            ∙ sym (append_assoc (rev ds) (digit (v % 10) ∷ []) str),
      )
]

-- The text of a number that `itoa` writes too.
digits_text :
    (v : ℕ)
    → v < 2 ^ 31
    → (ds : List ℕ) × (convert digit v 10 ≡ some ds) × (number_loop (count_digits v) v [] ≡ ds)
unfolding convert count_digits
digits_text v small =
    let (ds, e, count, same) = digits-number_loop 32 v 1 (omega arith) (omega arith) in
    (
      rev ds,
      rw e (ap some (reverse_digits-rev ds)),
      ap (λ n. number_loop n v []) {x = count_loop 32 v 1} {y = length ds} (omega (arith, count))
          ∙ same []
          ∙ append-nil (rev ds),
    )

-- `print_num` prints the text that `itoa` gives for the number in base 10, for every `int` but the
-- least.
pub number_text-itoa :
    (v : ℤ)
    → pos_part v < 2 ^ 31
    → neg_part v < 2 ^ 31
    → itoa v 10 ≡ some (number_text v, length (number_text v))
unfolding itoa number_text
number_text-itoa (pos v) h k = let (ds, e, same) = digits_text v h in rw (e, same) refl
number_text-itoa (negsuc m) h k =
    let (ds, e, same) = digits_text (m + 1) (omega arith) in
    let fits : ltb (m + 1) (2 ^ 31) ≡ true = lt→ltb (m + 1) (2 ^ 31) (omega arith) in
    rw (fits, e, same) (ap (λ n. some (45 ∷ ds, n)) (omega arith))
