-- ===== src/Scheduler.antt =====
-- Kernel/processManager.c: the ring of processes and the choice of the next one at a timer tick. The
-- superlock's functions and `yield_process` are in Kernel. Quanta are integers without bounds.
pub mod Ring
pub mod Switch
pub mod Resume
mod Tests
use tpe.Base.{ℕ, zero, suc, Bool, ◌||◌, ◌==◌, if◌then◌else◌}
use tpe.Base.Int.{ℤ, pos, inc, dec, is_positive}
use tpe.Process.{modify, nonnull, is_blocked_process, is_delete_process}
use tpe.Kernel.{
  locked, unlocked, Node, Kernel, Result, ok, yielded, out_of_fuel, fault, M, pure, ◌>>=◌, ◌>>◌,
  get, update, at_node, get_current_process, set_superlock, unset_superlock,
}
use tpe.Mutex.{Ops, get_page, store_page}
use tpe.ProcessTable.{destroy_process}

abbrev pub quantum_size : ℤ
quantum_size = pos 1

abbrev pub assign_quantum : Kernel → Kernel
assign_quantum k = at_node (λ n. record n { quantum = inc n.quantum }) k.current k

abbrev pub unassign_quantum : Kernel → Kernel
unassign_quantum k = at_node (λ n. record n { quantum = dec n.quantum }) k.current k

-- `set_rsp_process`
unfoldable pub set_rsp_process : ℕ → ℕ → Kernel → Kernel
set_rsp_process p rsp k =
    if nonnull p
    then record k { processes = modify (λ q. record q { rsp = rsp }) p k.processes }
    else k

-- `get_rsp_process`
unfoldable pub get_rsp_process : ℕ → Kernel → ℕ
get_rsp_process p k = if nonnull p then (k.processes p).rsp else 18446744073709551615

module _ (ops : Ops) where
  -- The round of `set_next_current` for a current process that cannot run.
  unfoldable pub pass_current : M (Unit {0})
  pass_current = do
    k ← get
    let next = (k.nodes k.current).next
    if is_delete_process (get_current_process k) k.processes
        then (do
          update (λ k. at_node (λ n. record n { next = next }) k.prev k)
          k ← get
          destroy_process ops (get_current_process k)
          k ← get
          store_page ops k.current
          pure tt)
        else update (λ k. record k { prev = k.current })
    update (λ k. record k { current = next })

  -- The loop with at most `n` rounds.
  unfoldable pub set_next_current : ℕ → M (Unit {0})
  set_next_current zero = λ _. out_of_fuel
  set_next_current (suc n) =
      let rest = set_next_current n in
      do
        k ← get
        if is_blocked_process (get_current_process k) k.processes
              || is_delete_process (get_current_process k) k.processes
            then (do pass_current; rest)
            else pure tt

  -- The part of `next_process` that changes the current process, with the test of the superlock
  -- passed and so the superlock closed.
  unfoldable pub switch_process : ℕ → ℕ → M ℕ
  switch_process n current_rsp = do
    update (λ k. at_node (λ m. record m { quantum = quantum_size }) k.current k)
    update (λ k. set_rsp_process (get_current_process k) current_rsp k)
    update (λ k. record k { prev = k.current; current = (k.nodes k.current).next })
    set_next_current n
    unset_superlock
    k ← get
    pure (get_rsp_process (get_current_process k) k)

  -- `next_process`, after `current == NULL` was tested.
  unfoldable pub tick : ℕ → ℕ → M ℕ
  tick n current_rsp = do
    update unassign_quantum
    k ← get
    if is_positive (k.nodes k.current).quantum then pure current_rsp else (do
      update (λ k. record k { superlock = locked })
      if k.superlock == locked then pure current_rsp else switch_process n current_rsp)

  unfoldable pub next_process : ℕ → ℕ → M ℕ
  next_process n current_rsp = do
    k ← get
    if k.current == 0 then pure current_rsp else tick n current_rsp

  -- The branches of `add_process` for the new node.
  unfoldable pub link_node : ℕ → Kernel → Kernel
  link_node new_node k =
      if k.current == 0
      then record (at_node (λ n. record n { next = new_node }) new_node k) {
        current = new_node;
        prev = new_node;
      }
      else at_node (λ n. record n { next = new_node }) k.current
          (at_node (λ n. record n { next = (k.nodes k.current).next }) new_node k)

  unfoldable pub add_process : ℕ → M (Unit {0})
  add_process p = do
    new_node ← get_page ops
    update (at_node (λ n. record n { p = p; quantum = quantum_size }) new_node)
    set_superlock
    update (link_node new_node)
    unset_superlock

  -- `end_process` up to the change to the next process, whose stack pointer is the result.
  unfoldable pub end_process : ℕ → M ℕ
  end_process rounds = do
    set_superlock
    k ← get
    let n = k.current
    destroy_process ops (k.nodes n).p
    update (λ k. at_node (λ m. record m { next = (k.nodes k.current).next }) k.prev k)
    update (λ k. record k { current = (k.nodes k.current).next })
    set_next_current rounds
    unset_superlock
    store_page ops n
    update assign_quantum
    k ← get
    pure (get_rsp_process (get_current_process k) k)
