-- ===== src/CondVariable/Signal.antt =====
-- `cond_signal` of Kernel/condVariable.c: whom a signal wakes.
use tpe.Base.{ℕ, suc, ◌<◌, ◌≡◌, ◌≢◌, refl, ◌∙◌, ap, true, [], ◌∷◌, arith, lt→ltb}
use tpe.Base.Int.{pos}
use tpe.Allocator.{Allocator}
use tpe.Process.{unblock_process}
use tpe.Kernel.{locked, unlocked, Queue, Kernel, ok}
use tpe.Mutex.{is_open, mutex_lock, mutex_unlock}
use tpe.Mutex.Lock.{with_lock, mutex_lock-free, mutex_unlock-empty}
use tpe.Mutex.Pages.{Calm, with_allocator, store_page-Calm, at_key_back}
use tpe.CondVariable.{
  cond_is_open, at_cond, cond_unlink, sync_dequeue, cond_signal_open, cond_signal,
}

-- The lock of the queue is an open mutex that is free and awaited by no one.
pub record QueueCalm (key lock : ℕ) (k : Kernel) : Type 0 where
  pub is_key : (k.open_conds key).lock_queue ≡ pos lock
  pub is_up : is_open (pos lock) k ≡ true
  pub free : (k.open_mutexes lock).lock ≡ unlocked
  pub no_one : (k.open_mutexes lock).process_queue ≡ []

-- The kernel after the first node was unlinked with the lock held, and that with its page given back.
abbrev unlinked : ℕ → ℕ → Queue → Kernel → Kernel
unlinked key lock rest k =
    at_cond (λ c. record c { process_queue = rest }) key (with_lock locked lock k)

unlinked-Calm :
    (mem key lock : ℕ) (rest : Queue) (k : Kernel)
    → lock ≢ mem
    → Calm mem k
    → Calm mem (unlinked key lock rest k)
unfolding is_open
unlinked-Calm mem key lock rest k ne calm = record {
  key = calm.key;
  is_up = ground (arith, calm.is_up);
  free = ground (arith, calm.free);
  no_one = ground (arith, calm.no_one);
}

module _ (n mem key lock node p : ℕ) (rest : Queue) (k : Kernel) (ne : lock ≢ mem)
    (calm : Calm mem k) (quiet : QueueCalm key lock k) where
  queue_taken :
      mutex_lock (suc n) (k.open_conds key).lock_queue k ≡ ok (pos 1) (with_lock locked lock k)
  queue_taken =
      ap (λ m. mutex_lock (suc n) m k) quiet.is_key
      ∙ mutex_lock-free n lock k quiet.is_up quiet.free

  -- The kernel after `sync_dequeue`.
  abbrev dequeued : Allocator → Kernel
  dequeued a = record (at_cond (λ c. record c { process_queue = rest }) key k) {
    allocator = a;
    superlock = unlocked;
  }

  queue_given :
      (a : Allocator)
      → mutex_unlock
          (suc n)
          ((with_allocator a (unlinked key lock rest k)).open_conds key).lock_queue
          (with_allocator a (unlinked key lock rest k))
        ≡ ok (pos 1) (dequeued a)
  unfolding is_open
  queue_given a =
      let k' : Kernel = with_allocator a (unlinked key lock rest k) in
      ap (λ m. mutex_unlock (suc n) m k') {y = pos lock} (ground (arith, quiet.is_key))
      ∙ mutex_unlock-empty n lock k' (ground (arith, quiet.is_up)) (ground (arith, quiet.no_one))
      ∙ ap (λ ms. ok (pos 1) (record (dequeued a) { open_mutexes = ms }))
          (at_key_back k.open_mutexes lock quiet.free)

  sync_dequeue-cons :
      (k.open_conds key).process_queue ≡ (node, p) ∷ rest
      → (a : Allocator) × (sync_dequeue (suc n) key k ≡ ok p (dequeued a))
  unfolding sync_dequeue cond_unlink
  sync_dequeue-cons e =
      let (r, a, stored) =
        store_page-Calm n mem (unlinked key lock rest k) (unlinked-Calm mem key lock rest k ne calm)
          node in
      (a, rw (queue_taken, e, stored, queue_given a))

  -- `cond_signal` of an open condition variable that a process awaits, while the allocator and the
  -- lock of the queue, which is not the allocator's, are free and awaited by no one: the first
  -- process of the queue leaves it and is unblocked, and no mutex changes.
  pub cond_signal-cons :
      cond_is_open (pos key) k ≡ true
      → (k.open_conds key).process_queue ≡ (node, p) ∷ rest
      → 0 < p
      → (k' : Kernel) × (cond_signal (suc n) (pos key) k ≡ ok (pos 1) k')
        × (k'.processes ≡ unblock_process p k.processes)
        × ((k'.open_conds key).process_queue ≡ rest)
        × (k'.open_mutexes ≡ k.open_mutexes)
  unfolding cond_signal cond_signal_open
  cond_signal-cons up e some_p =
      let (a, taken) = sync_dequeue-cons e in
      (
        record (dequeued a) { processes = unblock_process p k.processes },
        rw (up, taken, lt→ltb 0 p some_p) refl,
        refl,
        ground arith,
        refl,
      )
