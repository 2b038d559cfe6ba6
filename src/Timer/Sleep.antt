-- ===== src/Timer/Sleep.antt =====
-- `sleep` of Kernel/timer.c puts the current process in front of the list.
use tpe.Links.{Chain, Chain-at_field, Distinct, NotIn}
use tpe.Base.{
  ℕ, ◌/◌, ◌^◌, ◌≤◌, ◌<◌, ◌≡◌, ◌≢◌, refl, ap, true, false, List, [], ◌∷◌, ◌++◌, ◌==◌, arith,
}
use tpe.Timer.{
  Pause, assign_quantum, block_process, yield_process, Sleepers, create_sleep_process,
  add_sleep_process, sleep,
}
use tpe.Timer.Sleeping.{Asleep, Asleep-at_field}

-- The outcome of a call that sleeps.
pub record Slept (page p wait_ticks : ℕ) (nodes : List ℕ) (s : Sleepers) (r : ℕ × Sleepers)
    : Type 0 where
  pub returned : r.0 ≡ 1
  pub chain : Chain r.1.next r.1.sleeping_processes (page ∷ nodes)
  pub distinct : Distinct (page ∷ nodes)
  pub asleep : Asleep r.1.ticks (page ∷ nodes)
  pub waits : r.1.ticks page ≡ wait_ticks
  pub same_process : r.1.process page ≡ p
  pub pauses : r.1.pauses ≡ s.pauses ++ (assign_quantum ∷ block_process p ∷ yield_process ∷ [])

three :
    (l : List Pause) (a b c : Pause)
    → ((l ++ (a ∷ [])) ++ (b ∷ [])) ++ (c ∷ []) ≡ l ++ (a ∷ b ∷ c ∷ [])
three [] a b c = refl
three (x ∷ l) a b c = ap (λ m. x ∷ m) (three l a b c)

-- A sleep of at least 55 milliseconds with a page that is no node puts a node for the process in front
-- of the list, with a tick for every 55 milliseconds; the nodes stay distinct, each with a tick left. The
-- calls made are one of `assign_quantum`, then the block of the process, then the yield, and the result
-- is 1.
pub sleep-Slept :
    (milliseconds page p : ℕ) (nodes : List ℕ) (s : Sleepers)
    → 55 ≤ milliseconds
    → milliseconds < 2 ^ 64
    → page ≢ 0
    → NotIn page nodes
    → Chain s.next s.sleeping_processes nodes
    → Distinct nodes
    → Asleep s.ticks nodes
    → Slept page p (milliseconds / 55) nodes s (sleep milliseconds page p s)
unfolding sleep add_sleep_process create_sleep_process
sleep-Slept milliseconds page p nodes s long fits present apart c d asleep =
    let some_ticks : (milliseconds / 55 == 0) ≡ false = ground arith in
    let self : (page == page) ≡ true = ground arith in
    rw some_ticks (record {
      returned = refl;
      chain = (
        refl,
        present,
        rw self
            (Chain-at_field page s.sleeping_processes s.next s.sleeping_processes nodes apart c),
      );
      distinct = (apart, d);
      asleep = (
        rw self (omega arith),
        rw self (omega arith),
        Asleep-at_field page (milliseconds / 55) s.ticks nodes apart asleep,
      );
      waits = rw self refl;
      same_process = rw self refl;
      pauses = rw self (three s.pauses assign_quantum (block_process p) yield_process);
    })
