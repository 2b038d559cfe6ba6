-- ===== src/Scheduler/Resume.antt =====
-- `next_process` of Kernel/processManager.c: the state after a switch, and the stack pointer that is given.
use tpe.Base.{
  ℕ, ◌<◌, ◌≡◌, ◌≢◌, refl, sym, ◌∙◌, ap, false, List, ◌==◌, length, arith, lt→ltb, if◌then◌else◌,
}
use tpe.Base.Int.{is_positive, dec}
use mathlib.Core.Path.{subst}
use tpe.Process.{Process, modify}
use tpe.Kernel.{locked, unlocked, Node, Kernel, ok, get_current_process, at_node}
use tpe.Mutex.{Ops}
use tpe.Scheduler.{quantum_size, unassign_quantum, set_rsp_process, get_rsp_process, next_process}
use tpe.Scheduler.Ring.{next_of, Reaches, last_passed}
use tpe.Scheduler.Switch.{leaving, next_process-leaving}

-- Two kernels that differ in their nodes, their processes, the place in the ring and the superlock only.
abbrev pub Same : Kernel → Kernel → Type 0
Same k k' = k' ≡ record k {
  nodes = k'.nodes;
  processes = k'.processes;
  current = k'.current;
  prev = k'.prev;
  superlock = k'.superlock;
}

set_rsp_process-some :
    (p rsp : ℕ) (k : Kernel)
    → 0 < p
    → set_rsp_process p rsp k
      ≡ record k { processes = modify (λ q. record q { rsp = rsp }) p k.processes }
unfolding set_rsp_process
set_rsp_process-some p rsp k h = rw (lt→ltb 0 p h) refl

-- The kernel `k'` after a switch from `k` with the stack pointer `rsp`, and the stack pointer given.
pub record Switched (rsp target : ℕ) (passed : List ℕ) (k : Kernel) (given : ℕ) (k' : Kernel)
    : Type 0 where
  pub resumed :
      (k.nodes target).p ≢ get_current_process k → given ≡ (k.processes (k.nodes target).p).rsp
  pub alone : (k.nodes target).p ≡ get_current_process k → given ≡ rsp
  pub kept :
      k'.processes (get_current_process k)
      ≡ record (k.processes (get_current_process k)) { rsp = rsp }
  pub other_processes : (p : ℕ) → p ≢ get_current_process k → k'.processes p ≡ k.processes p
  pub renewed : k'.nodes k.current ≡ record (k.nodes k.current) { quantum = quantum_size }
  pub other_nodes : (q : ℕ) → q ≢ k.current → k'.nodes q ≡ k.nodes q
  pub current : k'.current ≡ target
  pub prev : k'.prev ≡ last_passed k.current passed
  pub superlock : k'.superlock ≡ unlocked
  pub nothing_else : Same k k'

module _ (rsp : ℕ) (k : Kernel) (some_process : 0 < get_current_process k) where
  leaving-kept :
      (leaving rsp k).processes (get_current_process k)
      ≡ record (k.processes (get_current_process k)) { rsp = rsp }
  unfolding set_rsp_process
  leaving-kept = ground arith

  leaving-other : (p : ℕ) → p ≢ get_current_process k → (leaving rsp k).processes p ≡ k.processes p
  unfolding set_rsp_process
  leaving-other p ne = ground arith

  leaving-rest : Same k (leaving rsp k)
  leaving-rest =
      let k1 : Kernel = record (unassign_quantum k) { superlock = locked } in
      let k2 : Kernel = at_node (λ m. record m { quantum = quantum_size }) k1.current k1 in
      let some_one : 0 < get_current_process k2 = ground (arith, some_process) in
      subst (λ l. Same k (record l { prev = l.current; current = (l.nodes l.current).next }))
        (sym (set_rsp_process-some (get_current_process k2) rsp k2 some_one)) refl

  leaving-nodes :
      (q : ℕ)
      → (leaving rsp k).nodes q
        ≡ (if q == k.current then record (k.nodes q) { quantum = quantum_size } else k.nodes q)
  unfolding set_rsp_process
  leaving-nodes q = ground arith

-- A tick that ends the quantum of the current process, with the superlock open and from the node
-- behind the current one a way past blocked processes to one that can run, neither of the two processes
-- NULL, and the rounds enough. The stack pointer is kept in the current process, and
-- nothing else of it nor any other process changes; its node gets a new quantum, and no other node
-- changes; the ring moves to the node reached with the one in front of it as `prev`; the superlock is open.
-- The result is the stack pointer that the process there has, or the one just kept when it is the same
-- process. Nothing else changes.
pub next_process-Switched :
    (ops : Ops) (n rsp target : ℕ) (passed : List ℕ) (k : Kernel)
    → k.current ≢ 0
    → 0 < get_current_process k
    → 0 < (k.nodes target).p
    → is_positive (dec (k.nodes k.current).quantum) ≡ false
    → k.superlock ≡ unlocked
    → length passed < n
    → Reaches k (next_of k k.current) passed target
    → (given : ℕ) × (k' : Kernel) × (next_process ops n rsp k ≡ ok given k')
      × Switched rsp target passed k given k'
unfolding get_rsp_process
next_process-Switched ops n rsp target passed k some_node here there e up fuel r =
    let l : Kernel = leaving rsp k in
    let k' : Kernel = record l {
      prev = last_passed k.current passed;
      current = target;
      superlock = unlocked;
    } in
    let same : (l.nodes target).p ≡ (k.nodes target).p =
      ap (λ (m : Node). m.p) (leaving-nodes rsp k here target) ∙ ground arith in
    let reads : get_rsp_process (l.nodes target).p l ≡ (l.processes (k.nodes target).p).rsp =
      rw (same, lt→ltb 0 (k.nodes target).p there) refl in
    (
      get_rsp_process (l.nodes target).p l,
      k',
      next_process-leaving ops n rsp target passed k some_node e up fuel r,
      record {
        resumed = λ ne.
            reads ∙ ap (λ (p : Process). p.rsp) (leaving-other rsp k here (k.nodes target).p ne);
        alone = λ eq.
            reads
            ∙ ap (λ p. (l.processes p).rsp) eq
            ∙ ap (λ (p : Process). p.rsp) (leaving-kept rsp k here);
        kept = leaving-kept rsp k here;
        other_processes = λ p ne. leaving-other rsp k here p ne;
        renewed = leaving-nodes rsp k here k.current ∙ ground arith;
        other_nodes = λ q ne. leaving-nodes rsp k here q ∙ ground (arith, ne);
        current = refl;
        prev = refl;
        superlock = refl;
        nothing_else =
            ap
              (λ (m : Kernel). record m {
                prev = last_passed k.current passed;
                current = target;
                superlock = unlocked;
              })
              (leaving-rest rsp k here);
      },
    )
