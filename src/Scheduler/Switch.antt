-- ===== src/Scheduler/Switch.antt =====
-- `next_process` of Kernel/processManager.c: when a timer tick changes the process, and to which.
use tpe.Base.{
  ℕ, ◌<◌, ◌≡◌, ◌≢◌, ◌⊎◌, refl, sym, ◌∙◌, ap, inl, inr, true, false, List, ◌==◌, length, arith,
  Bool-cases,
}
use tpe.Base.Int.{ℤ, is_positive, dec}
use tpe.Process.{nonnull, is_blocked_process, is_delete_process}
use tpe.Kernel.{locked, unlocked, Node, Kernel, ok, get_current_process, at_node, unset_superlock}
use tpe.Mutex.{Ops}
use tpe.Scheduler.{
  quantum_size, unassign_quantum, set_rsp_process, get_rsp_process, switch_process, tick,
  next_process,
}
use tpe.Scheduler.Ring.{
  next_of, blocked_at, deleted_at, Reaches, last_passed, Reaches-same, set_next_current-Reaches,
}

quantum_now :
    (k : Kernel) → ((unassign_quantum k).nodes k.current).quantum ≡ dec (k.nodes k.current).quantum
quantum_now k = ground arith

tick-left :
    (ops : Ops) (n rsp : ℕ) (k : Kernel)
    → is_positive (dec (k.nodes k.current).quantum) ≡ true
    → tick ops n rsp k ≡ ok rsp (unassign_quantum k)
unfolding tick
tick-left ops n rsp k e = rw (quantum_now k, e)

tick-closed :
    (ops : Ops) (n rsp : ℕ) (k : Kernel)
    → is_positive (dec (k.nodes k.current).quantum) ≡ false
    → k.superlock ≡ locked
    → tick ops n rsp k ≡ ok rsp (unassign_quantum k)
unfolding tick
tick-closed ops n rsp k e closed =
    let held : (k.superlock == locked) ≡ true = ground arith in
    rw (quantum_now k, e, held)
      (ap (λ s. ok rsp (record (unassign_quantum k) { superlock = s })) (sym closed))

tick-open :
    (ops : Ops) (n rsp : ℕ) (k : Kernel)
    → is_positive (dec (k.nodes k.current).quantum) ≡ false
    → k.superlock ≡ unlocked
    → tick ops n rsp k
      ≡ switch_process ops n rsp (record (unassign_quantum k) { superlock = locked })
unfolding tick
tick-open ops n rsp k e up = rw (quantum_now k, e, up)

next_process-tick :
    (ops : Ops) (n rsp : ℕ) (k : Kernel)
    → k.current ≢ 0
    → next_process ops n rsp k ≡ tick ops n rsp k
unfolding next_process
next_process-tick ops n rsp k some_node =
    let not_null : (k.current == 0) ≡ false = ground arith in rw not_null

-- A tick only takes one off the quantum of the current process while some of it is left, or while
-- the superlock is closed: the process goes on with its stack pointer.
pub next_process-keeps :
    (ops : Ops) (n rsp : ℕ) (k : Kernel)
    → k.current ≢ 0
    → (is_positive (dec (k.nodes k.current).quantum) ≡ true) ⊎ (k.superlock ≡ locked)
    → next_process ops n rsp k ≡ ok rsp (unassign_quantum k)
next_process-keeps ops n rsp k some_node h =
    next_process-tick ops n rsp k some_node
    ∙ elim (Bool-cases (is_positive (dec (k.nodes k.current).quantum))) [
      | inl e ↦ tick-left ops n rsp k e
      | inr e ↦ tick-closed ops n rsp k e (ground arith)
    ]

-- The kernel when the walk round the ring begins.
abbrev pub leaving : ℕ → Kernel → Kernel
leaving rsp k =
    let k1 : Kernel = record (unassign_quantum k) { superlock = locked } in
    let k2 : Kernel = at_node (λ m. record m { quantum = quantum_size }) k1.current k1 in
    let k3 : Kernel = set_rsp_process (get_current_process k2) rsp k2 in
    record k3 { prev = k3.current; current = (k3.nodes k3.current).next }

-- What the walk reads is the same in two kernels.
abbrev Alike : Kernel → Kernel → Type 0
Alike k k' =
    (q : ℕ)
    → (next_of k' q ≡ next_of k q)
      × (blocked_at k' q ≡ blocked_at k q)
      × (deleted_at k' q ≡ deleted_at k q)

at_node-Alike :
    (v : Node → ℤ) (p : ℕ) (k : Kernel) → Alike k (at_node (λ n. record n { quantum = v n }) p k)
at_node-Alike v p k q = (
  ground arith,
  ap (λ r. is_blocked_process r k.processes) (ground arith),
  ap (λ r. is_delete_process r k.processes) (ground arith),
)

set_rsp_process-Alike : (p rsp : ℕ) (k : Kernel) → Alike k (set_rsp_process p rsp k)
unfolding set_rsp_process is_blocked_process is_delete_process
set_rsp_process-Alike p rsp k q = elim (Bool-cases (nonnull p)) [
  | inl h ↦ rw h (refl, ground arith, ground arith)
  | inr h ↦ rw h (refl, refl, refl)
]

Alike-trans : (k k' k'' : Kernel) → Alike k k' → Alike k' k'' → Alike k k''
Alike-trans k k' k'' a b q = ((b q).0 ∙ (a q).0, (b q).1 ∙ (a q).1, (b q).2 ∙ (a q).2)

leaving-Alike : (rsp : ℕ) (k : Kernel) → Alike k (leaving rsp k)
leaving-Alike rsp k =
    let k1 : Kernel = record (unassign_quantum k) { superlock = locked } in
    let k2 : Kernel = at_node (λ m. record m { quantum = quantum_size }) k1.current k1 in
    Alike-trans k k2 (leaving rsp k)
      (Alike-trans k k1 k2 (at_node-Alike (λ n. dec n.quantum) k.current k)
        (at_node-Alike (λ n. quantum_size) k1.current k1))
      (set_rsp_process-Alike (get_current_process k2) rsp k2)

switch_process-Reaches :
    (ops : Ops) (n rsp target : ℕ) (passed : List ℕ) (k : Kernel)
    → length passed < n
    → Reaches (leaving rsp k) (leaving rsp k).current passed target
    → switch_process ops n rsp (record (unassign_quantum k) { superlock = locked })
      ≡ ok
          (get_rsp_process ((leaving rsp k).nodes target).p (leaving rsp k))
          (record (leaving rsp k) {
            prev = last_passed (leaving rsp k).prev passed;
            current = target;
            superlock = unlocked;
          })
unfolding switch_process unset_superlock get_rsp_process
switch_process-Reaches ops n rsp target passed k fuel r =
    rw (set_next_current-Reaches ops passed n target (leaving rsp k) fuel r)

leaving-current :
    (rsp : ℕ) (k : Kernel)
    → ((leaving rsp k).prev ≡ k.current) × ((leaving rsp k).current ≡ next_of k k.current)
unfolding set_rsp_process
leaving-current rsp k =
    let k1 : Kernel = record (unassign_quantum k) { superlock = locked } in
    let k2 : Kernel = at_node (λ m. record m { quantum = quantum_size }) k1.current k1 in
    elim (Bool-cases (nonnull (get_current_process k2))) [
      | inl h ↦ rw h (refl, ground arith)
      | inr h ↦ rw h (refl, ground arith)
    ]

pub next_process-leaving :
    (ops : Ops) (n rsp target : ℕ) (passed : List ℕ) (k : Kernel)
    → k.current ≢ 0
    → is_positive (dec (k.nodes k.current).quantum) ≡ false
    → k.superlock ≡ unlocked
    → length passed < n
    → Reaches k (next_of k k.current) passed target
    → next_process ops n rsp k
      ≡ ok
          (get_rsp_process ((leaving rsp k).nodes target).p (leaving rsp k))
          (record (leaving rsp k) {
            prev = last_passed k.current passed;
            current = target;
            superlock = unlocked;
          })
next_process-leaving ops n rsp target passed k some_node e up fuel r =
    next_process-tick ops n rsp k some_node
    ∙ tick-open ops n rsp k e up
    ∙ switch_process-Reaches ops n rsp target passed k fuel (
        rw (leaving-current rsp k).1 (
          Reaches-same k (leaving rsp k) (leaving-Alike rsp k) (next_of k k.current) passed target
            r))
    ∙ ap
        (λ before.
          ok (get_rsp_process ((leaving rsp k).nodes target).p (leaving rsp k))
            (record (leaving rsp k) {
              prev = last_passed before passed;
              current = target;
              superlock = unlocked;
            }))
        (leaving-current rsp k).0
