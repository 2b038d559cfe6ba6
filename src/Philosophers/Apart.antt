-- ===== src/Philosophers/Apart.antt =====
-- Philosophers of Kernel/philo.c who eat are apart: what a change of one mood, a new seat and an empty
-- one do to that.
use tpe.Base.{
  ℕ, ◌+◌, ◌<◌, ◌≡◌, refl, ◌∙◌, sym, ap, ap₂, Bool, true, false, ◌&&◌, ◌==◌, arith, inl, inr,
  Bool-cases,
}
use tpe.Philosophers.{Mood, thinking, eating, is_eating, left, right, at}
use tpe.Philosophers.Seats.{left_if, right_if, left-right}

-- A philosopher who eats has no other who eats to the right.
abbrev pub Apart : ℕ → (ℕ → Mood) → Type 0
Apart n mood =
    (j : ℕ)
    → j < n
    → is_eating (mood j) ≡ true
    → is_eating (mood (right j n)) ≡ true
    → right j n ≡ j

pub clash : {b : Bool} → b ≡ true → b ≡ false → ⊥
clash h k = absurd (ground (arith, h, k))

-- The mood at the seat that changes, and at another.
pub at_same : {A : Type 0} (i j : ℕ) (v : A) (f : ℕ → A) → (j == i) ≡ true → at i v f j ≡ v
at_same i j v f e = rw e refl

pub at_other : {A : Type 0} (i j : ℕ) (v : A) (f : ℕ → A) → (j == i) ≡ false → at i v f j ≡ f j
at_other i j v f e = rw e refl

pub Apart-eating :
    (n i : ℕ) (mood : ℕ → Mood)
    → i < n
    → Apart n mood
    → is_eating (mood (left i n)) ≡ false
    → is_eating (mood (right i n)) ≡ false
    → Apart n (at i eating mood)
Apart-eating n i mood h apart l r j lt here there = elim (Bool-cases (right j n == i)) [
  | inl f ↦
      let back : right j n ≡ i = ground arith in
      elim (Bool-cases (j == i)) [
        | inl e ↦ ground (arith, back)
        | inr e ↦
            let seat : left i n ≡ j = ap (λ k. left k n) (sym back) ∙ left-right j n lt in
            absurd (
              clash (ap is_eating (sym (at_other i j eating mood e)) ∙ here)
                (ap (λ k. is_eating (mood k)) (sym seat) ∙ l))
      ]
  | inr f ↦
      let there' : is_eating (mood (right j n)) ≡ true =
        ap is_eating (sym (at_other i (right j n) eating mood f)) ∙ there in
      elim (Bool-cases (j == i)) [
        | inl e ↦
            let same : j ≡ i = ground arith in
            absurd (clash there' (ap (λ k. is_eating (mood (right k n))) same ∙ r))
        | inr e ↦ apart j lt (ap is_eating (sym (at_other i j eating mood e)) ∙ here) there'
      ]
]

-- A philosopher who does not eat is apart from all.
pub Apart-idle :
    (n i : ℕ) (mood : ℕ → Mood) (st : Mood)
    → is_eating st ≡ false
    → Apart n mood
    → Apart n (at i st mood)
Apart-idle n i mood st idle apart j lt here there = elim (Bool-cases (j == i)) [
  | inl e ↦ absurd (clash here (ap is_eating (at_same i j st mood e) ∙ idle))
  | inr e ↦ elim (Bool-cases (right j n == i)) [
    | inl f ↦ absurd (clash there (ap is_eating (at_same i (right j n) st mood f) ∙ idle))
    | inr f ↦
        apart j lt (ap is_eating (sym (at_other i j st mood e)) ∙ here)
          (ap is_eating (sym (at_other i (right j n) st mood f)) ∙ there)
  ]
]

-- The last seat is left by one whose neighbours do not both eat.
pub Apart-leave :
    (n : ℕ) (mood : ℕ → Mood)
    → Apart (n + 1) mood
    → (is_eating (mood (left n (n + 1))) && is_eating (mood (right n (n + 1)))) ≡ false
    → Apart n mood
Apart-leave n mood apart free j lt here there =
    let new = right_if j n lt in
    let old = right_if j (n + 1) (omega arith) in
    let l = left_if n (n + 1) (omega arith) in
    let r = right_if n (n + 1) (omega arith) in
    elim (Bool-cases (j + 1 == n)) [
      | inl e ↦
          let seat : left n (n + 1) ≡ j = ground (arith, l, e) in
          let round : right n (n + 1) ≡ right j n = ground (arith, r, new, e) in
          absurd (
            clash
              (ap₂ (λ a b. is_eating (mood a) && is_eating (mood b)) seat round
                ∙ ap₂ ◌&&◌ here there)
              free)
      | inr e ↦
          let same : right j (n + 1) ≡ right j n = ground (arith, old, new, e) in
          sym same ∙ apart j (omega arith) here (ap (λ k. is_eating (mood k)) same ∙ there)
    ]

pub Apart-add : (n : ℕ) (mood : ℕ → Mood) → Apart n mood → Apart (n + 1) (at n thinking mood)
Apart-add n mood apart j lt here there =
    let new = right_if j (n + 1) lt in
    elim (Bool-cases (j == n)) [
      | inl e ↦ absurd (clash here (ap is_eating (at_same n j thinking mood e)))
      | inr e ↦ elim (Bool-cases (right j (n + 1) == n)) [
        | inl f ↦ absurd (clash there (ap is_eating (at_same n (right j (n + 1)) thinking mood f)))
        | inr f ↦
            let old = right_if j n (ground (arith, e)) in
            let same : right j (n + 1) ≡ right j n = ground (arith, old, new, e, f) in
            same
            ∙ apart j (ground (arith, e)) (ap is_eating (sym (at_other n j thinking mood e)) ∙ here)
                (ap (λ k. is_eating (mood k)) (sym same)
                  ∙ ap is_eating (sym (at_other n (right j (n + 1)) thinking mood f))
                  ∙ there)
      ]
    ]
