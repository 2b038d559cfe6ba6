-- ===== src/Numbers/Reverse.antt =====
-- The loop of Kernel/lib.c that reverses the digits in place.
use tpe.Base.{
  ℕ, zero, suc, ◌+◌, ◌-◌, ◌*◌, ◌<◌, ◌≡◌, refl, ◌∙◌, sym, ap, inl, inr, List, [], ◌∷◌, ◌++◌, ◌==◌,
  ltb, leb, true, ◌&&◌, if◌then◌else◌, length, get_or, set, arith, Bool-cases, length-set,
  get_or-set_self, get_or-set_ne, ltb→lt, tabulate_ext, tabulate-length,
}
use tpe.Numbers.{swap, swap_loop, reverse_digits}

get_or-swap :
    (str : List ℕ) (i j p : ℕ)
    → i < j
    → j < length str
    → get_or (swap str i j) p 0
      ≡ (if p == i then get_or str j 0 else if p == j then get_or str i 0 else get_or str p 0)
get_or-swap str i j p lt room = elim (Bool-cases (j == p)) [
  | inl last ↦
      let at : j ≡ p = ground arith in
      rw (← at) (
        get_or-set_self (set str i (get_or str j 0)) j (get_or str i 0) 0
          (omega (arith, length-set str i (get_or str j 0)))
        ∙ ground arith)
  | inr other ↦
      get_or-set_ne (set str i (get_or str j 0)) j p (get_or str i 0) 0 (ground arith)
      ∙ elim (Bool-cases (i == p)) [
        | inl first ↦
            let at : i ≡ p = ground arith in
            rw (← at) (get_or-set_self str i (get_or str j 0) 0 (omega arith) ∙ ground arith)
        | inr inner ↦ get_or-set_ne str i p (get_or str j 0) 0 (ground arith) ∙ ground arith
      ]
]

length-swap_loop : (n : ℕ) (str : List ℕ) (i j : ℕ) → length (swap_loop n str i j) ≡ length str
unfolding swap_loop
length-swap_loop zero str i j = refl
length-swap_loop (suc n) str i j = ground (
  arith,
  length-swap_loop n (swap str i j) (i + 1) (j - 1),
  length-set str i (get_or str j 0),
  length-set (set str i (get_or str j 0)) j (get_or str i 0),
)

-- Between the two places, each character goes to the place opposite.
swap_loop-opposite :
    (n : ℕ) (str : List ℕ) (i j p : ℕ)
    → j < i + 2 * n + 1
    → j < length str
    → get_or (swap_loop n str i j) p 0
      ≡ (if leb i p && leb p j then get_or str (i + j - p) 0 else get_or str p 0)
unfolding swap_loop
swap_loop-opposite zero str i j p fuel room = elim (Bool-cases (leb i p && leb p j)) [
  | inl in_it ↦ rw in_it (ap (λ q. get_or str q 0) {x = p} {y = i + j - p} (ground arith))
  | inr out ↦ rw out
]
swap_loop-opposite (suc n) str i j p fuel room = elim (Bool-cases (ltb i j)) [
  | inl lt ↦ rw lt (
      swap_loop-opposite n (swap str i j) (i + 1) (j - 1) p (ground arith) (
        ground (
          arith,
          length-set str i (get_or str j 0),
          length-set (set str i (get_or str j 0)) j (get_or str i 0),
        ))
      ∙ swapped lt)
  | inr ge ↦ rw ge (elim (Bool-cases (leb i p && leb p j)) [
    | inl in_it ↦ rw in_it (ap (λ q. get_or str q 0) {x = p} {y = i + j - p} (ground arith))
    | inr out ↦ rw out
  ])
]
  where
    swapped :
        ltb i j ≡ true
        → (if leb (i + 1) p && leb p (j - 1)
            then get_or (swap str i j) (i + 1 + (j - 1) - p) 0
            else get_or (swap str i j) p 0)
          ≡ (if leb i p && leb p j then get_or str (i + j - p) 0 else get_or str p 0)
    swapped lt = ground (
      arith,
      get_or-swap str i j p (ltb→lt i j lt) room,
      get_or-swap str i j (i + 1 + (j - 1) - p) (ltb→lt i j lt) room,
    )

-- The list backwards.
unfoldable pub rev : List ℕ → List ℕ
rev [] = []
rev (c ∷ str) = rev str ++ (c ∷ [])

snoc-length : (xs : List ℕ) (c : ℕ) → length (xs ++ (c ∷ [])) ≡ length xs + 1
snoc-length [] c = omega arith
snoc-length (x ∷ xs) c = omega (arith, snoc-length xs c)

get_or-snoc :
    (xs : List ℕ) (c i : ℕ)
    → get_or (xs ++ (c ∷ [])) i 0
      ≡ (if ltb i (length xs) then get_or xs i 0 else if i == length xs then c else 0)
get_or-snoc [] c zero = refl
get_or-snoc [] c (suc i) = ground arith
get_or-snoc (x ∷ xs) c zero = ground arith
get_or-snoc (x ∷ xs) c (suc i) = ground (arith, get_or-snoc xs c i)

pub length-rev : (xs : List ℕ) → length (rev xs) ≡ length xs
unfolding rev
length-rev [] = refl
length-rev (x ∷ xs) = omega (arith, snoc-length (rev xs) x, length-rev xs)

get_or-rev :
    (xs : List ℕ) (i : ℕ) → i < length xs → get_or (rev xs) i 0 ≡ get_or xs (length xs - 1 - i) 0
unfolding rev
get_or-rev [] i h = absurd (omega arith)
get_or-rev (x ∷ xs) i h = elim (Bool-cases (ltb i (length xs))) [
  | inl lt ↦
      get_or-snoc (rev xs) x i
      ∙ ground (arith, length-rev xs)
      ∙ get_or-rev xs i (ltb→lt i (length xs) lt)
      ∙ ap (λ k. get_or (x ∷ xs) k 0) {x = suc (length xs - 1 - i)} {y = length (x ∷ xs) - 1 - i}
          (ground arith)
  | inr ge ↦
      let at : i ≡ length xs = ground arith in
      get_or-snoc (rev xs) x i
      ∙ ground (arith, length-rev xs)
      ∙ ap (λ k. get_or (x ∷ xs) k 0) {x = 0} {y = length (x ∷ xs) - 1 - i} (omega arith)
]

-- The swaps reverse the string.
pub reverse_digits-rev : (str : List ℕ) → reverse_digits str ≡ rev str
unfolding reverse_digits rev swap_loop
reverse_digits-rev [] = refl
reverse_digits-rev (c ∷ str) =
    let n = length (c ∷ str) in
    let out = swap_loop n (c ∷ str) 0 (n - 1) in
    sym (tabulate-length n out 0 (length-swap_loop n (c ∷ str) 0 (n - 1)))
    ∙ tabulate_ext n (λ i. get_or out i 0) (λ i. get_or (rev (c ∷ str)) i 0)
        (λ i h.
          swap_loop-opposite n (c ∷ str) 0 (n - 1) i (omega arith) (omega arith)
          ∙ ground arith
          ∙ sym (get_or-rev (c ∷ str) i h))
    ∙ tabulate-length n (rev (c ∷ str)) 0 (length-rev (c ∷ str))
