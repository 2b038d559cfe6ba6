-- ===== src/ProcessTable.antt =====
-- Kernel/process.c: the table of processes and the process in the foreground. The operations run
-- over the mutex operations at some depth of calls (see Mutex).
pub mod Insert
mod Tests
use tpe.Base.{
  ℕ, zero, suc, ◌+◌, ◌-◌, ◌%◌, ◌^◌, Bool, ◌&&◌, not, Option, none, some, List, [], ◌∷◌, ◌==◌, ltb,
  if◌then◌else◌,
}
use tpe.Base.Int.{ℤ, pos, negsuc}
use tpe.Allocator.{max_processes, StackAllocator, pop_stack_page, push_stack_page}
use tpe.Process.{Process, Store, modify, nonnull, is_delete_process, unblock_foreground_process}
use tpe.Kernel.{
  Kernel, Result, ok, yielded, out_of_fuel, fault, M, pure, ◌>>=◌, ◌>>◌, get, update,
  get_current_process,
}
use tpe.Mutex.{Ops, store_page}

-- A write to `process_table[pid]`.
abbrev pub at_pid : ℕ → ℕ → Kernel → Kernel
at_pid pid p k = record k { process_table = λ j. if j == pid then p else k.process_table j }

-- The loop of `insert_process` at `i` with `n` rounds left: the first free entry.
unfoldable pub free_entry : ℕ → ℕ → (ℕ → ℕ) → Option ℕ
free_entry zero i table = none
free_entry (suc n) i table =
    let rest = free_entry n (i + 1) table in if table i == 0 then some i else rest

-- The loop of `get_current_pids`: the pids of the entries, without the -1 that ends them.
unfoldable pub collect_pids : ℕ → ℕ → ℕ → Kernel → List ℕ
collect_pids zero i processes_left k = []
collect_pids (suc n) i zero k = []
collect_pids (suc n) i (suc processes_left) k =
    let rest = collect_pids n (i + 1) (suc processes_left) k in
    let rest' = collect_pids n (i + 1) processes_left k in
    if k.process_table i == 0 then rest else ((k.processes (k.process_table i)).pid ∷ rest')

-- `pid` is a `uint64_t`; the result is 0 for NULL.
unfoldable pub get_process_by_pid : ℕ → Kernel → ℕ
get_process_by_pid pid k =
    if ltb pid max_processes
      && nonnull (k.process_table pid)
      && not (is_delete_process (k.process_table pid) k.processes)
    then k.process_table pid
    else 0

unfoldable pub set_foreground_force_process : ℕ → Kernel → Kernel
set_foreground_force_process p k =
    if nonnull p && not ((k.processes p).pid == 0)
    then record k { foreground = p; processes = unblock_foreground_process p k.processes }
    else k

unfoldable pub set_foreground_process : ℕ → Kernel → Kernel
set_foreground_process p k =
    if k.foreground == get_current_process k then set_foreground_force_process p k else k

module _ (ops : Ops) where
  lock_table : M ℤ
  lock_table = do k ← get; ops.lock k.table_mutex_key

  unlock_table : M ℤ
  unlock_table = do k ← get; ops.unlock k.table_mutex_key

  -- The branches of `insert_process` after its loop.
  insert_at : ℕ → Option ℕ → M ℤ
  unfolding unlock_table
  insert_at p (some i) = do
    update (λ k. record k { n_processes = (k.n_processes + 1) % 2 ^ 64 })
    update (λ k. record k { processes = modify (λ q. record q { pid = i }) p k.processes })
    update (at_pid i p)
    unlock_table
    pure (pos i)
  insert_at p none = do unlock_table; pure (negsuc 0)

  unfoldable pub insert_process : ℕ → M ℤ
  unfolding lock_table insert_at
  insert_process p = do
    lock_table
    k ← get
    insert_at p (free_entry max_processes 0 k.process_table)

  unfoldable pub get_current_pids : M (List ℕ)
  unfolding lock_table unlock_table
  get_current_pids = do
    lock_table
    k ← get
    let pids = collect_pids max_processes 0 k.n_processes k
    unlock_table
    pure pids

  -- `get_stack_page`
  unfoldable pub got_stack_page : Option (ℕ × StackAllocator) → M ℕ
  got_stack_page (some (page, a)) = do
    update (λ k. record k { stack_allocator = a })
    k ← get
    ops.unlock k.stack_memory_mutex_key
    pure page
  got_stack_page none = do k ← get; ops.unlock k.stack_memory_mutex_key; pure 0

  unfoldable pub get_stack_page : M ℕ
  get_stack_page = do
    k ← get
    ops.lock k.stack_memory_mutex_key
    k ← get
    got_stack_page (pop_stack_page k.stack_allocator)

  -- `store_stack_page`
  unfoldable pub stored_stack_page : Option StackAllocator → M ℕ
  stored_stack_page (some a) = do
    update (λ k. record k { stack_allocator = a })
    k ← get
    ops.unlock k.stack_memory_mutex_key
    pure 1
  stored_stack_page none = do k ← get; ops.unlock k.stack_memory_mutex_key; pure 0

  unfoldable pub store_stack_page : ℕ → M ℕ
  store_stack_page address = do
    k ← get
    ops.lock k.stack_memory_mutex_key
    k ← get
    stored_stack_page (push_stack_page k.stack_allocator address)

  -- The loop of `free_data_pages` over the array's rest.
  unfoldable pub free_data_pages : ℕ → List ℕ → M (Unit {0})
  free_data_pages p [] = pure tt
  free_data_pages p (page ∷ pages) =
      let rest = free_data_pages p pages in
      do
        k ← get
        if (k.processes p).n_data_page == 0 then pure tt else if page == 0 then rest else (do
          store_page ops page
          update (λ k. record k {
            processes = modify (λ q. record q { n_data_page = q.n_data_page - 1 }) p k.processes;
          })
          rest)

  -- `destroy_process` of a process that is not NULL. The foreground is read after the pages are
  -- freed, the entry of the parent when it is needed.
  unfoldable pub destroy_nonnull : ℕ → M (Unit {0})
  unfolding lock_table unlock_table
  destroy_nonnull p = do
    lock_table
    update (λ k. record k { n_processes = (k.n_processes + (2 ^ 64 - 1)) % 2 ^ 64 })
    k ← get
    free_data_pages p (k.processes p).data_page
    update (λ k.
        if k.foreground == p
        then set_foreground_process (k.process_table (k.processes p).ppid) k
        else k)
    update (λ k. at_pid (k.processes p).pid 0 k)
    unlock_table
    k ← get
    store_stack_page (k.processes p).stack_page
    store_page ops p
    pure tt

  unfoldable pub destroy_process : ℕ → M (Unit {0})
  destroy_process p = if nonnull p then destroy_nonnull p else pure tt
