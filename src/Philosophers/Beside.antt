-- ===== src/Philosophers/Beside.antt =====
-- What a change of one mood at the table of Kernel/philo.c does to the hungry whose neighbours eat.
use tpe.Base.{
  ℕ, ◌<◌, ◌≡◌, ◌⊎◌, refl, ◌∙◌, sym, ap, ap₂, Bool, true, false, ◌&&◌, ◌||◌, not, ◌==◌, arith, inl,
  inr, Bool-cases,
}
use mathlib.Core.Path.{subst}
use tpe.Philosophers.{
  Mood, thinking, eating, is_hungry, is_eating, Table, left, right, at, can_eat, test,
}
use tpe.Philosophers.Seats.{left-right, right-left}
use tpe.Philosophers.Apart.{at_same, at_other, clash}

abbrev pub beside : ℕ → ℕ → (ℕ → Mood) → Bool
beside i n mood = is_eating (mood (left i n)) || is_eating (mood (right i n))

-- A neighbour of each hungry philosopher eats.
abbrev pub Waits : ℕ → (ℕ → Mood) → Type 0
Waits n mood = (j : ℕ) → j < n → is_hungry (mood j) ≡ true → beside j n mood ≡ true

-- All but the philosopher at `x` and the one at `y` wait for a neighbour.
abbrev pub But : ℕ → ℕ → ℕ → (ℕ → Mood) → Type 0
But x y n mood =
    (j : ℕ)
    → j < n
    → (j == x) ≡ false
    → (j == y) ≡ false
    → is_hungry (mood j) ≡ true
    → beside j n mood ≡ true

-- A change of mood that ends no meal.
unfoldable pub Goes : ℕ → (ℕ → Mood) → Mood → Type 0
Goes i mood st = (is_eating (mood i) ≡ false) ⊎ (is_eating st ≡ true)

eats-keeps :
    (i k : ℕ) (mood : ℕ → Mood) (st : Mood)
    → Goes i mood st
    → is_eating (mood k) ≡ true
    → is_eating (at i st mood k) ≡ true
unfolding Goes
eats-keeps i k mood st h e = elim (Bool-cases (k == i)) [
  | inl same ↦ elim h [
    | inl idle ↦
        let seat : k ≡ i = ground (arith, same) in
        absurd (clash e (ap (λ m. is_eating (mood m)) seat ∙ idle))
    | inr eats ↦ ap is_eating (at_same i k st mood same) ∙ eats
  ]
  | inr other ↦ ap is_eating (at_other i k st mood other) ∙ e
]

pub beside-keeps :
    (i n j : ℕ) (mood : ℕ → Mood) (st : Mood)
    → Goes i mood st
    → beside j n mood ≡ true
    → beside j n (at i st mood) ≡ true
beside-keeps i n j mood st h e = elim (Bool-cases (is_eating (mood (left j n)))) [
  | inl l ↦ let l' = eats-keeps i (left j n) mood st h l in rw l' refl
  | inr l ↦
      let r : is_eating (mood (right j n)) ≡ true = ground (arith, e, l) in
      let r' = eats-keeps i (right j n) mood st h r in ground (arith, r')
]

-- Whoever is set to a mood other than hungry waits for nobody.
pub But-idle :
    (n i : ℕ) (mood : ℕ → Mood) (st : Mood)
    → Goes i mood st
    → is_hungry st ≡ false
    → Waits n mood
    → Waits n (at i st mood)
But-idle n i mood st h idle w j lt hung = elim (Bool-cases (j == i)) [
  | inl e ↦ absurd (clash hung (ap is_hungry (at_same i j st mood e) ∙ idle))
  | inr e ↦
      beside-keeps i n j mood st h (w j lt (ap is_hungry (sym (at_other i j st mood e)) ∙ hung))
]

pub But-test :
    (x y : ℕ) (t : Table)
    → But x y t.philosopher_count t.mood
    → But y y t.philosopher_count (test x t).mood
unfolding test Goes
But-test x y t but = elim (Bool-cases (can_eat x t)) [
  | inl e ↦ rw e (λ j lt a b hung. elim (Bool-cases (j == x)) [
    | inl same ↦ absurd (clash hung (ap is_hungry (at_same x j eating t.mood same)))
    | inr other ↦
        beside-keeps x t.philosopher_count j t.mood eating (inr refl)
          (but j lt other b (ap is_hungry (sym (at_other x j eating t.mood other)) ∙ hung))
  ])
  | inr e ↦ rw e (λ j lt a b hung. elim (Bool-cases (j == x)) [
    | inl same ↦
        let seat : j ≡ x = ground (arith, same) in
        subst (λ k. beside k t.philosopher_count t.mood ≡ true) (sym seat)
          (stuck x t e (ap (λ k. is_hungry (t.mood k)) (sym seat) ∙ hung))
    | inr other ↦ but j lt other b hung
  ])
]
  where
    three : (a b c : Bool) → (a && not b && not c) ≡ false → a ≡ true → (b || c) ≡ true
    three a b c h k = ground (arith, h, k)

    stuck :
        (x : ℕ) (t : Table)
        → can_eat x t ≡ false
        → is_hungry (t.mood x) ≡ true
        → beside x t.philosopher_count t.mood ≡ true
    stuck x t e h = three _ _ _ e h

-- The end of a meal leaves all but the neighbours waiting.
pub But-thinking :
    (n i : ℕ) (mood : ℕ → Mood)
    → i < n
    → Waits n mood
    → But (left i n) (right i n) n (at i thinking mood)
But-thinking n i mood h w j lt a b hung = elim (Bool-cases (j == i)) [
  | inl e ↦ absurd (clash hung (ap is_hungry (at_same i j thinking mood e)))
  | inr e ↦
      let waits = w j lt (ap is_hungry (sym (at_other i j thinking mood e)) ∙ hung) in
      let from_left : right (left j n) n ≡ j = right-left j n lt in
      let from_right : left (right j n) n ≡ j = left-right j n lt in
      let l : (left j n == i) ≡ false = seat_apart (left j n) i j (λ k. right k n) from_left b in
      let r : (right j n == i) ≡ false = seat_apart (right j n) i j (λ k. left k n) from_right a in
      ap₂ (λ x y. is_eating x || is_eating y) (at_other i (left j n) thinking mood l)
        (at_other i (right j n) thinking mood r)
      ∙ waits
]
  where
    seat_apart : (k i j : ℕ) (f : ℕ → ℕ) → f k ≡ j → (j == f i) ≡ false → (k == i) ≡ false
    seat_apart k i j f e h = elim (Bool-cases (k == i)) [
      | inl same ↦
          let seat : k ≡ i = ground (arith, same) in
          let same' : j ≡ f i = sym e ∙ ap f seat in absurd (ground (arith, same', h))
      | inr other ↦ other
    ]

pub But-Waits : (n : ℕ) (mood : ℕ → Mood) → But n n n mood → Waits n mood
But-Waits n mood but j lt hung = but j lt (ground arith) (ground arith) hung
