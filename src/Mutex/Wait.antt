-- ===== src/Mutex/Wait.antt =====
-- `mutex_lock` of Kernel/kernelMutex.c on a mutex that another process holds.
use tpe.Base.{ℕ, suc, ◌≡◌, ◌≢◌, refl, true, arith, [], ◌∷◌, ◌++◌, some}
use tpe.Base.Int.{pos}
use tpe.Allocator.{Allocator, pop_page}
use tpe.Process.{block_process}
use tpe.Kernel.{
  give_time, get_current_process, locked, unlocked, Kernel, ok, yielded, at_key, set_superlock,
  unset_superlock, set_mutex,
}
use tpe.Mutex.{is_open, mutex_ops, mutex_lock, lock_body, lock_open, test_lock, queue_process}
use tpe.Mutex.Pages.{Calm, get_page-Calm}

-- The state after `enqueue`: `a` is the stack of free pages without the new node's page.
abbrev pub with_waiter : ℕ → ℕ → ℕ → Allocator → Kernel → Kernel
with_waiter key node p a k = record k {
  superlock = unlocked;
  allocator = a;
  open_mutexes =
      at_key (λ m. record m { process_queue = m.process_queue ++ ((node, p) ∷ []) }) key
        k.open_mutexes;
}

-- Taking the page of the node goes through the allocator's mutex, and that opens the superlock: when
-- `queue_process` returns in a mutex operation that has closed it, it is open, so the process can
-- be switched before it is blocked.
pub queue_process-superlock :
    (n mem key p page : ℕ) (a : Allocator) (k : Kernel)
    → Calm mem k
    → k.superlock ≡ locked
    → pop_page k.allocator ≡ some (page, a)
    → queue_process (mutex_ops (suc n)) key p k ≡ ok tt (with_waiter key page p a k)
unfolding queue_process set_mutex
queue_process-superlock n mem key p page a k calm closed e =
    rw (get_page-Calm n mem k calm page a e)

-- The state in which the test of the lock leaves a kernel.
abbrev tested : ℕ → Kernel → Kernel
tested key k = record k {
  superlock = locked;
  open_mutexes = at_key (λ m. record m { lock = locked }) key k.open_mutexes;
}

tested-Calm : (mem key : ℕ) (k : Kernel) → key ≢ mem → Calm mem k → Calm mem (tested key k)
unfolding is_open
tested-Calm mem key k ne calm = record {
  key = calm.key;
  is_up = ground (arith, calm.is_up);
  free = ground (arith, calm.free);
  no_one = ground (arith, calm.no_one);
}

-- On a mutex that is held, and while no process is in the allocator and a page is left, the caller
-- is put last in the queue, is blocked, and gives the processor away, its time going to the next
-- node of the ring; the mutex stays held and the superlock is open. No other mutex and no other
-- process changes.
pub mutex_lock-held :
    (n mem key page : ℕ) (a : Allocator) (k : Kernel)
    → is_open (pos key) k ≡ true
    → (k.open_mutexes key).lock ≡ locked
    → key ≢ mem
    → Calm mem k
    → pop_page k.allocator ≡ some (page, a)
    → mutex_lock (suc (suc n)) (pos key) k
      ≡ yielded (
          give_time (record (with_waiter key page (get_current_process k) a (tested key k)) {
            processes = block_process (get_current_process k) k.processes;
          }))
unfolding mutex_lock mutex_ops lock_body lock_open test_lock set_superlock unset_superlock set_mutex
mutex_lock-held n mem key page a k h e ne calm left = rw (
  h,
  e,
  queue_process-superlock n mem key (get_current_process k) page a (tested key k)
      (tested-Calm mem key k ne calm) refl left,
)
