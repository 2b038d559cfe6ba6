-- ===== src/Philosophers/Safety.antt =====
-- No two neighbours at the table of Kernel/philo.c eat at once, in every state that the processes
-- reach.
use tpe.Base.{
  ℕ, ◌+◌, ◌-◌, ◌<◌, ◌≡◌, refl, ◌∙◌, sym, ap, Bool, true, false, ◌&&◌, not, ◌==◌, ltb, arith, inl,
  inr, Bool-cases,
}
use mathlib.Core.Path.{subst}
use tpe.Philosophers.{
  Mood, thinking, hungry, eating, dying, is_eating, Table, left, right, set_state, can_eat, test,
  take_forks, offer, put_forks, must_wait, leave, should_die, wake_dying, max_philosophers,
  add_philosopher, remove_philosopher,
}
use tpe.Philosophers.Seats.{left_in, right_in}
use tpe.Philosophers.Apart.{
  Apart, Apart-eating, Apart-idle, Apart-leave, Apart-add, at_same, at_other, clash,
}

-- No philosopher is marked to die.
abbrev pub Unmarked : Table → Type 0
Unmarked t = (i : ℕ) → i < t.philosopher_count → t.die i ≡ false

-- The sections that the processes run while they hold `critical_m`, one after the other. Philosophers
-- are added and removed by one process, which waits for the end of a removal.
pub data Step : Table → Table → Type 0 where
  takes :
      (t : Table) (i : ℕ) → i < t.philosopher_count → t.mood i ≡ thinking → Step t (take_forks i t)
  puts : (t : Table) (i : ℕ) → i < t.philosopher_count → t.mood i ≡ eating → Step t (put_forks i t)
  dies :
      (t : Table) (i : ℕ) → i < t.philosopher_count → t.mood i ≡ thinking → Step t (should_die i t)
  wakes :
      (t : Table) (i : ℕ)
      → i < t.philosopher_count
      → t.mood i ≡ dying
      → t.die i ≡ true
      → Step t (wake_dying i t)
  adds : (t : Table) → Unmarked t → Step t (add_philosopher t)
  removes : (t : Table) → Unmarked t → Step t (remove_philosopher t)

pub data Reachable : Table → Type 0 where
  start : (t : Table) → t.philosopher_count ≡ 0 → Reachable t
  step : (t t' : Table) → Reachable t → Step t t' → Reachable t'

-- Only the last philosopher is marked.
pub record Safe (t : Table) : Type 0 where
  pub apart : Apart t.philosopher_count t.mood
  pub last_dies : (i : ℕ) → i < t.philosopher_count → t.die i ≡ true → i + 1 ≡ t.philosopher_count

idle-Safe :
    (t : Table) (i : ℕ) (st : Mood) → is_eating st ≡ false → Safe t → Safe (set_state i st t)
idle-Safe t i st idle s = record {
  apart = Apart-idle t.philosopher_count i t.mood st idle s.apart;
  last_dies = s.last_dies;
}

negated : (b : Bool) → not b ≡ true → b ≡ false
negated b h = ground (arith, h)

both : (a b c : Bool) → (a && b && c) ≡ true → (a ≡ true) × (b ≡ true) × (c ≡ true)
both true true true h = (refl, refl, refl)
both true true false h = (refl, refl, h)
both true false c h = (refl, h, absurd (clash h refl))
both false b c h = (h, absurd (clash h refl), absurd (clash h refl))

test-Safe : (t : Table) (i : ℕ) → i < t.philosopher_count → Safe t → Safe (test i t)
unfolding test
test-Safe t i h s = elim (Bool-cases (can_eat i t)) [
  | inl e ↦
      let (is, l, r) = both _ _ _ e in
      rw e (record {
        apart = Apart-eating t.philosopher_count i t.mood h s.apart (negated _ l) (negated _ r);
        last_dies = s.last_dies;
      })
  | inr e ↦ rw e s
]

pub same-count : (t : Table) (i : ℕ) → (test i t).philosopher_count ≡ t.philosopher_count
unfolding test
same-count t i = elim (Bool-cases (can_eat i t)) [ inl e ↦ rw e refl | inr e ↦ rw e refl ]

offer-Safe : (t : Table) (i : ℕ) → i < t.philosopher_count → Safe t → Safe (offer i t)
offer-Safe t i h s =
    let s' = test-Safe t i h s in record { apart = s'.apart; last_dies = s'.last_dies }

put_forks-Safe : (t : Table) (i : ℕ) → i < t.philosopher_count → Safe t → Safe (put_forks i t)
unfolding put_forks
put_forks-Safe t i h s =
    let n : ℕ = t.philosopher_count in
    let t' : Table = set_state i thinking t in
    let same = same-count t' (left i n) in
    let r = right_in i n h in
    offer-Safe (offer (left i n) t') (right i n) (omega (arith, same, r))
      (offer-Safe t' (left i n) (left_in i n h) (idle-Safe t i thinking refl s))

-- The last philosopher leaves while not both neighbours eat.
leave-Safe :
    (n : ℕ) (t : Table)
    → t.philosopher_count ≡ n + 1
    → must_wait n t ≡ false
    → Safe t
    → Safe (leave n t)
unfolding must_wait
leave-Safe n t e free s =
    let mood : ℕ → Mood = t.mood in
    let fewer : n ≡ t.philosopher_count - 1 = omega arith in
    record {
      apart =
          subst (λ m. Apart m mood) fewer
            (Apart-leave n mood (subst (λ m. Apart m mood) e s.apart) (
              ap (λ m. is_eating (mood (left n m)) && is_eating (mood (right n m))) (sym e)
              ∙ free));
      last_dies = λ i lt marked. elim (Bool-cases (i == n)) [
        | inl same ↦ absurd (clash marked (at_same n i false t.die same))
        | inr other ↦
            let last =
              s.last_dies i (omega arith) (sym (at_other n i false t.die other) ∙ marked) in
            absurd (omega (arith, last, lt, e))
      ];
    }

should_die-Safe : (t : Table) (i : ℕ) → i < t.philosopher_count → Safe t → Safe (should_die i t)
unfolding should_die
should_die-Safe t i h s = elim (Bool-cases (t.die i)) [
  | inl e ↦
      let s' = idle-Safe t i dying refl s in
      elim (Bool-cases (must_wait i (set_state i dying t))) [
        | inl f ↦ rw (e, f) s'
        | inr f ↦ rw (e, f) (leave-Safe i (set_state i dying t) (sym (s.last_dies i h e)) f s')
      ]
  | inr e ↦ rw e s
]

wake_dying-Safe :
    (t : Table) (i : ℕ) → i < t.philosopher_count → t.die i ≡ true → Safe t → Safe (wake_dying i t)
unfolding wake_dying
wake_dying-Safe t i h e s = elim (Bool-cases (must_wait i t)) [
  | inl f ↦ rw f s
  | inr f ↦ rw f (leave-Safe i t (sym (s.last_dies i h e)) f s)
]

add_philosopher-Safe : (t : Table) → Unmarked t → Safe t → Safe (add_philosopher t)
unfolding add_philosopher
add_philosopher-Safe t un s =
    let n : ℕ = t.philosopher_count in
    elim (Bool-cases (ltb n max_philosophers)) [
      | inl e ↦ rw e (record {
        apart = Apart-add n t.mood s.apart;
        last_dies = λ i lt marked. elim (Bool-cases (i == n)) [
          | inl same ↦ absurd (clash marked (at_same n i false t.die same))
          | inr other ↦ absurd (
              clash (sym (at_other n i false t.die other) ∙ marked)
                (un i (ground (arith, other, lt))))
        ];
      })
      | inr e ↦ rw e s
    ]

remove_philosopher-Safe : (t : Table) → Unmarked t → Safe t → Safe (remove_philosopher t)
unfolding remove_philosopher
remove_philosopher-Safe t un s =
    let n : ℕ = t.philosopher_count in
    elim (Bool-cases (ltb 0 n)) [
      | inl e ↦ rw e (record {
        apart = s.apart;
        last_dies = λ i lt marked. elim (Bool-cases (i == n - 1)) [
          | inl same ↦ ground (arith, same, lt)
          | inr other ↦
              absurd (clash (sym (at_other (n - 1) i true t.die other) ∙ marked) (un i lt))
        ];
      })
      | inr e ↦ rw e s
    ]

Step-Safe : (t t' : Table) → Step t t' → Safe t → Safe t'
unfolding take_forks
Step-Safe _ _ (takes t i h e) s = test-Safe (set_state i hungry t) i h (idle-Safe t i hungry refl s)
Step-Safe _ _ (puts t i h e) s = put_forks-Safe t i h s
Step-Safe _ _ (dies t i h e) s = should_die-Safe t i h s
Step-Safe _ _ (wakes t i h e m) s = wake_dying-Safe t i h m s
Step-Safe _ _ (adds t un) s = add_philosopher-Safe t un s
Step-Safe _ _ (removes t un) s = remove_philosopher-Safe t un s

-- In every state that the processes reach from an empty table, whatever the order in which they run,
-- a philosopher who eats has no other philosopher who eats next to it.
pub Reachable-Safe : (t : Table) → Reachable t → Safe t
Reachable-Safe _ (start t e) = record {
  apart = λ j lt here there. absurd (omega (arith, lt, e));
  last_dies = λ i lt marked. absurd (omega (arith, lt, e));
}
Reachable-Safe _ (step t t' r st) = Step-Safe t t' st (Reachable-Safe t r)
