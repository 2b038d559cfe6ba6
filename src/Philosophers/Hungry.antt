-- ===== src/Philosophers/Hungry.antt =====
-- At the table of Kernel/philo.c a philosopher who is hungry waits for a neighbour who eats, as long
-- as nobody is added.
use tpe.Base.{
  ℕ, ◌+◌, ◌-◌, ◌≤◌, ◌<◌, ◌≡◌, refl, ◌∙◌, sym, ap, true, false, ◌==◌, ltb, arith, inl, inr,
  Bool-cases,
}
use mathlib.Core.Path.{subst}
use tpe.Philosophers.{
  add_philosopher, max_philosophers, Mood, thinking, hungry, dying, is_hungry, is_eating, Table,
  left, right, set_state, test, take_forks, offer, put_forks, must_wait, leave, should_die,
  wake_dying, remove_philosopher,
}
use tpe.Philosophers.Seats.{left_if, right_if}
use tpe.Philosophers.Safety.{
  same-count, Step, Reachable, Safe, Reachable-Safe, takes, puts, dies, wakes, adds, removes,
}
use tpe.Philosophers.Apart.{at_same, at_other, clash}
use tpe.Philosophers.Beside.{
  beside, Waits, But, Goes, beside-keeps, But-idle, But-test, But-thinking, But-Waits,
}

-- The last seat, whose philosopher does not eat, is left.
Waits-leave :
    (n : ℕ) (mood : ℕ → Mood) → is_eating (mood n) ≡ false → Waits (n + 1) mood → Waits n mood
Waits-leave n mood idle w j lt hung =
    let waits = w j (omega arith) hung in
    let l = left_if j n lt in
    let l' = left_if j (n + 1) (omega arith) in
    let r = right_if j n lt in
    let r' = right_if j (n + 1) (omega arith) in
    elim (Bool-cases (is_eating (mood (left j (n + 1))))) [
      | inl e ↦ elim (Bool-cases (j == 0)) [
        | inl first ↦
            let seat : left j (n + 1) ≡ n = ground (arith, l', first) in
            absurd (clash e (ap (λ k. is_eating (mood k)) seat ∙ idle))
        | inr later ↦
            let seat : left j n ≡ left j (n + 1) = ground (arith, l, l', later) in
            let e' : is_eating (mood (left j n)) ≡ true = ap (λ k. is_eating (mood k)) seat ∙ e in
            rw e' refl
      ]
      | inr e ↦
          let f : is_eating (mood (right j (n + 1))) ≡ true = ground (arith, waits, e) in
          elim (Bool-cases (j + 1 == n)) [
            | inl end ↦
                let seat : right j (n + 1) ≡ n = ground (arith, r', end) in
                absurd (clash f (ap (λ k. is_eating (mood k)) seat ∙ idle))
            | inr inner ↦
                let seat : right j n ≡ right j (n + 1) = ground (arith, r, r', inner) in
                let f' : is_eating (mood (right j n)) ≡ true =
                  ap (λ k. is_eating (mood k)) seat ∙ f in
                ground (arith, f')
          ]
    ]

module _ (t : Table) (i : ℕ) (h : i < t.philosopher_count)
    (w : Waits t.philosopher_count t.mood) where
  leave-Waits :
      i + 1 ≡ t.philosopher_count
      → is_eating (t.mood i) ≡ false
      → Waits (leave i t).philosopher_count (leave i t).mood
  leave-Waits last idle =
      let mood : ℕ → Mood = t.mood in
      let fewer : i ≡ t.philosopher_count - 1 = omega arith in
      subst (λ m. Waits m mood) fewer
        (Waits-leave i mood idle (subst (λ m. Waits m mood) (sym last) w))

  take_forks-Waits :
      t.mood i ≡ thinking → Waits (take_forks i t).philosopher_count (take_forks i t).mood
  unfolding take_forks Goes
  take_forks-Waits e =
      let t' : Table = set_state i hungry t in
      let n : ℕ = t.philosopher_count in
      let idle : is_eating (t.mood i) ≡ false = ap is_eating e in
      let but : But i n n t'.mood = λ j lt a b hung.
        beside-keeps i n j t.mood hungry (inl idle)
          (w j lt (ap is_hungry (sym (at_other i j hungry t.mood a)) ∙ hung)) in
      subst (λ m. Waits m (test i t').mood) (sym (same-count t' i))
        (But-Waits n (test i t').mood (But-test i n t' but))

  put_forks-Waits : Waits (put_forks i t).philosopher_count (put_forks i t).mood
  unfolding put_forks
  put_forks-Waits =
      let n : ℕ = t.philosopher_count in
      let t' : Table = set_state i thinking t in
      let t'' : Table = offer (left i n) t' in
      let same : t''.philosopher_count ≡ n = same-count t' (left i n) in
      let first = But-test (left i n) (right i n) t' (But-thinking n i t.mood h w) in
      let but : But (right i n) n t''.philosopher_count t''.mood = λ j lt a b hung.
        subst (λ m. beside j m t''.mood ≡ true) (sym same)
          (first j (omega (arith, lt, same)) a a hung) in
      let second = But-test (right i n) n t'' but in
      subst (λ m. Waits m (test (right i n) t'').mood) (sym (same-count t'' (right i n)))
        (λ j lt hung.
          let off : (j == n) ≡ false = ground (arith, lt, same) in second j lt off off hung)

module _ (t : Table) (i : ℕ) (h : i < t.philosopher_count) (w : Waits t.philosopher_count t.mood)
    (last : t.die i ≡ true → i + 1 ≡ t.philosopher_count) where
  should_die-Waits :
      t.mood i ≡ thinking → Waits (should_die i t).philosopher_count (should_die i t).mood
  unfolding should_die Goes
  should_die-Waits e =
      let marked : Table = set_state i dying t in
      let w' = But-idle t.philosopher_count i t.mood dying (inl (ap is_eating e)) refl w in
      elim (Bool-cases (t.die i)) [
        | inl d ↦ elim (Bool-cases (must_wait i marked)) [
          | inl f ↦ rw (d, f) w'
          | inr f ↦
              rw (d, f)
                (leave-Waits marked i h w' (last d) (
                  let self : (i == i) ≡ true = ground arith in
                  ap is_eating (at_same i i dying t.mood self)))
        ]
        | inr d ↦ rw d w
      ]

  wake_dying-Waits :
      t.mood i ≡ dying
      → t.die i ≡ true
      → Waits (wake_dying i t).philosopher_count (wake_dying i t).mood
  unfolding wake_dying
  wake_dying-Waits e d = elim (Bool-cases (must_wait i t)) [
    | inl f ↦ rw f w
    | inr f ↦ rw f (leave-Waits t i h w (last d) (ap is_eating e))
  ]

add_philosopher-Waits :
    (t : Table)
    → (add_philosopher t).philosopher_count ≤ t.philosopher_count
    → Waits t.philosopher_count t.mood
    → Waits (add_philosopher t).philosopher_count (add_philosopher t).mood
unfolding add_philosopher
add_philosopher-Waits t few w = elim (Bool-cases (ltb t.philosopher_count max_philosophers)) [
  | inl e ↦ absurd (grows t e few)
  | inr e ↦ rw e w
]
  where
    grows :
        (t : Table)
        → ltb t.philosopher_count max_philosophers ≡ true
        → (add_philosopher t).philosopher_count ≤ t.philosopher_count
        → ⊥
    grows t e few = absurd (ground (arith, e, few))

remove_philosopher-Waits :
    (t : Table)
    → Waits t.philosopher_count t.mood
    → Waits (remove_philosopher t).philosopher_count (remove_philosopher t).mood
unfolding remove_philosopher
remove_philosopher-Waits t w = elim (Bool-cases (ltb 0 t.philosopher_count)) [
  | inl e ↦ rw e w
  | inr e ↦ rw e w
]

Step-Waits :
    {t t' : Table}
    → Safe t
    → Step t t'
    → t'.philosopher_count ≤ t.philosopher_count
    → Waits t.philosopher_count t.mood
    → Waits t'.philosopher_count t'.mood
Step-Waits s (takes t i h e) few w = take_forks-Waits t i h w e
Step-Waits s (puts t i h e) few w = put_forks-Waits t i h w
Step-Waits s (dies t i h e) few w = should_die-Waits t i h w (s.last_dies i h) e
Step-Waits s (wakes t i h e m) few w = wake_dying-Waits t i h w (s.last_dies i h) e m
Step-Waits s (adds t un) few w = add_philosopher-Waits t few w
Step-Waits s (removes t un) few w = remove_philosopher-Waits t w

-- In a state that the processes reach and in which a neighbour of every hungry philosopher eats, it
-- is so again after any step that does not make the table larger.
pub Waits-kept :
    (t t' : Table)
    → Reachable t
    → Step t t'
    → t'.philosopher_count ≤ t.philosopher_count
    → Waits t.philosopher_count t.mood
    → Waits t'.philosopher_count t'.mood
Waits-kept t t' r st few w = Step-Waits (Reachable-Safe t r) st few w
