-- ===== src/Mutex.antt =====
-- Kernel/kernelMutex.c, with the page allocator's calls of Kernel/memoryAllocator.c and the queue's
-- of Kernel/queueADT.c through which a mutex operation goes. `mutex_lock` puts the process in a
-- queue, which takes a page, which locks the mutex of the allocator; so the operations call one
-- another, and are given on fuel, the depth of such calls.
pub mod Lock
pub mod Pages
pub mod Wait
pub mod Drain
pub mod HandOver
pub mod Contended
pub mod Open
pub mod Names
pub mod Close
mod Tests
use tpe.Base.{
  ℕ, zero, suc, ◌+◌, ◌-◌, Bool, true, false, ◌&&◌, not, Option, none, some, List, [], ◌∷◌, ◌++◌,
  ◌==◌, ltb, if◌then◌else◌, length,
}
use tpe.Base.Int.{ℤ, pos, negsuc}
use tpe.Allocator.{Allocator, pop_page, push_page}
use tpe.Process.{is_delete_process, block_process, unblock_process, nonnull}
use tpe.Kernel.{
  give_time, get_current_process, locked, unlocked, open_state, closed_state, not_open_error, Queue,
  Mutex, Kernel, Result, ok, yielded, out_of_fuel, M, pure, ◌>>=◌, ◌>>◌, get, put, update,
  set_superlock, unset_superlock, set_mutex,
}

abbrev pub max_mutexes : ℕ
max_mutexes = 128

-- `is_open`; a negative key has no mutex.
unfoldable pub is_open : ℤ → Kernel → Bool
is_open (pos key) k = ltb key max_mutexes && ((k.open_mutexes key).state == open_state)
is_open (negsuc n) k = false

-- The index of an open mutex.
abbrev pub index : ℤ → ℕ
index (pos key) = key
index (negsuc n) = 0

-- The exchange of asm/test_lock.asm on `m->locked`: the old value, which is the test's result.
pub test_lock : ℕ → M ℕ
unfolding set_mutex
test_lock key = do
  k ← get
  set_mutex key (λ m. record m { lock = locked })
  pure ((k.open_mutexes key).lock)

-- `yield_process`: the current process gives the processor away.
abbrev yield_process : M ℤ
yield_process k = yielded (give_time k)

-- The two operations at one depth of calls.
pub record Ops : Type 0 where
  pub lock : ℤ → M ℤ
  pub unlock : ℤ → M ℤ

module _ (ops : Ops) where
  -- The branches of `get_page`, on what the stack of free pages gives.
  pub got_page : Option (ℕ × Allocator) → M ℕ
  got_page (some (page, a)) = do
    update (λ k. record k { allocator = a })
    k ← get
    ops.unlock k.memory_mutex_key
    pure page
  got_page none = do k ← get; ops.lock k.memory_mutex_key; pure 0

  -- `get_page` as the operations at the next depth make it.
  pub get_page : M ℕ
  unfolding got_page
  get_page = do k ← get; ops.lock k.memory_mutex_key; k ← get; got_page (pop_page k.allocator)

  -- The branches of `store_page`.
  pub stored_page : Option Allocator → M ℕ
  stored_page (some a) = do
    update (λ k. record k { allocator = a })
    k ← get
    ops.unlock k.memory_mutex_key
    pure 1
  stored_page none = do k ← get; ops.unlock k.memory_mutex_key; pure 0

  pub store_page : ℕ → M ℕ
  unfolding stored_page
  store_page address = do
    k ← get
    ops.lock k.memory_mutex_key
    k ← get
    stored_page (push_page k.allocator address)

  -- `enqueue(m->process_queue, p)`: the new node is put last.
  pub queue_process : ℕ → ℕ → M (Unit {0})
  unfolding get_page set_mutex
  queue_process key p = do
    new_node ← get_page
    set_mutex key (λ m. record m { process_queue = m.process_queue ++ ((new_node, p) ∷ []) })

  -- `dequeue` at a queue: the node is unlinked before its page is given back.
  unlink : ℕ → Queue → M ℕ
  unfolding store_page set_mutex
  unlink key [] = pure 0
  unlink key ((node, p) ∷ rest) = do
    set_mutex key (λ m. record m { process_queue = rest })
    store_page node
    pure p

  -- `dequeue(m->process_queue)`
  pub dequeue_process : ℕ → M ℕ
  unfolding unlink
  dequeue_process key = do k ← get; unlink key ((k.open_mutexes key).process_queue)

  -- `while (is_delete_process(p)) p = dequeue_process(m);`, with a bound on the rounds: one for the
  -- process at hand, one for each in the queue, and one for NULL.
  pub skip_deleted : ℕ → ℕ → ℕ → M ℕ
  skip_deleted key zero p = λ _. out_of_fuel
  skip_deleted key (suc n) p =
      let rest = dequeue_process key >>= skip_deleted key n in
      do k ← get; if is_delete_process p k.processes then rest else pure p

  lock_open : ℕ → M ℤ
  unfolding queue_process test_lock set_superlock unset_superlock
  lock_open key = do
    set_superlock
    k ← get
    let p = get_current_process k
    free ← test_lock key
    if free == 0
        then (do
          queue_process key p
          update (λ k. record k { processes = block_process p k.processes })
          unset_superlock
          yield_process)
        else (do unset_superlock; pure (pos 1))

  pub lock_body : ℤ → M ℤ
  unfolding lock_open
  lock_body key = do k ← get; if is_open key k then lock_open (index key) else pure not_open_error

  unlock_open : ℕ → M ℤ
  unfolding dequeue_process skip_deleted set_superlock unset_superlock set_mutex
  unlock_open key = do
    set_superlock
    p ← dequeue_process key
    k ← get
    p ← skip_deleted key (suc (suc (length ((k.open_mutexes key).process_queue)))) p
    set_mutex key (λ m. record m { lock = unlocked })
    if nonnull p
        then (do
          update (λ k. record k { processes = unblock_process p k.processes })
          set_mutex key (λ m. record m { lock = locked }))
        else pure tt
    unset_superlock
    pure (pos 1)

  pub unlock_body : ℤ → M ℤ
  unfolding unlock_open
  unlock_body key = do
    k ← get
    if is_open key k then unlock_open (index key) else pure not_open_error

-- The operations with calls nested at most as deep as the fuel.
pub mutex_ops : ℕ → Ops
mutex_ops zero = record { lock = λ _ _. out_of_fuel; unlock = λ _ _. out_of_fuel }
mutex_ops (suc n) =
    let ops = mutex_ops n in record { lock = lock_body ops; unlock = unlock_body ops }

unfoldable pub mutex_lock : ℕ → ℤ → M ℤ
mutex_lock n = (mutex_ops n).lock

unfoldable pub mutex_unlock : ℕ → ℤ → M ℤ
mutex_unlock n = (mutex_ops n).unlock
