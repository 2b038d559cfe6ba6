-- ===== src/Mutex/HandOver.antt =====
-- `mutex_unlock` of Kernel/kernelMutex.c: who gets the mutex next.
use mathlib.Core.Path.{fun_ext}
use tpe.Base.{
  ℕ, suc, ◌≡◌, ◌≢◌, refl, ap, true, if◌then◌else◌, arith, [], ◌∷◌, length, inl, inr, Bool-cases,
}
use tpe.Base.Int.{pos}
use tpe.Process.{unblock_process, nonnull}
use tpe.Kernel.{
  locked, unlocked, Queue, Mutex, Kernel, ok, at_key, set_superlock, unset_superlock, set_mutex,
}
use tpe.Mutex.{
  is_open, mutex_ops, mutex_unlock, unlock_body, unlock_open, dequeue_process, skip_deleted,
}
use tpe.Mutex.Pages.{Calm}
use tpe.Mutex.Drain.{
  Drained, Drained-trans, Drained-Calm, Drained-same, awake, dequeue_process-cons,
  dequeue_process-nil, skip_deleted-null, skip_deleted-awake,
}

-- `k'` is the kernel after an unlock of `key` in which the process `p`, or NULL, is next.
pub record HandedOver (k : Kernel) (key p : ℕ) (queue : Queue) (k' : Kernel) : Type 0 where
  pub superlock : k'.superlock ≡ unlocked
  pub lock : (k'.open_mutexes key).lock ≡ (if nonnull p then locked else unlocked)
  pub left : (k'.open_mutexes key).process_queue ≡ queue
  pub state : (k'.open_mutexes key).state ≡ (k.open_mutexes key).state
  pub processes : k'.processes ≡ (if nonnull p then unblock_process p k.processes else k.processes)
  pub others : (j : ℕ) → j ≢ key → k'.open_mutexes j ≡ k.open_mutexes j

-- The last part of `mutex_unlock`, for the process `q`.
abbrev given_to : ℕ → ℕ → Kernel → Kernel
given_to key q k = record k {
  superlock = unlocked;
  open_mutexes =
      at_key (λ m. record m { lock = if nonnull q then locked else unlocked }) key k.open_mutexes;
  processes = if nonnull q then unblock_process q k.processes else k.processes;
}

at_key_twice :
    (key : ℕ) (ms : ℕ → Mutex)
    → at_key
        (λ m. record m { lock = locked })
        key
        (at_key (λ m. record m { lock = unlocked }) key ms)
      ≡ at_key (λ m. record m { lock = locked }) key ms
at_key_twice key ms = fun_ext λ j. ground arith

unlock_open-given_to :
    (n key p q : ℕ) (k k1 k2 : Kernel)
    → is_open (pos key) k ≡ true
    → dequeue_process (mutex_ops n) key (record k { superlock = locked }) ≡ ok p k1
    → skip_deleted (mutex_ops n) key (suc (suc (length (k1.open_mutexes key).process_queue))) p k1
      ≡ ok q k2
    → mutex_unlock (suc n) (pos key) k ≡ ok (pos 1) (given_to key q k2)
unfolding mutex_unlock mutex_ops unlock_body unlock_open set_superlock unset_superlock set_mutex
unlock_open-given_to n key p q k k1 k2 up taken skipped =
    rw (up, taken, skipped)
      (elim (Bool-cases (nonnull q)) [
        | inl h ↦ rw (h, at_key_twice key k2.open_mutexes)
        | inr h ↦ rw h
      ])

given_to-HandedOver :
    (key q : ℕ) (queue : Queue) (k k2 : Kernel)
    → Drained (record k { superlock = locked }) key queue k2
    → HandedOver k key q queue (given_to key q k2)
given_to-HandedOver key q queue k k2 d = record {
  superlock = refl;
  lock = ground arith;
  left = ground (arith, d.left);
  state = ground (arith, d.state);
  processes = ap (λ s. if nonnull q then unblock_process q s else s) d.processes;
  others = λ j off. ground (arith, d.others j off);
}

module _ (n mem key : ℕ) (k : Kernel) (up : is_open (pos key) k ≡ true) (ne : key ≢ mem)
    (calm : Calm mem k) where
  closed : Kernel
  closed = record k { superlock = locked }

  closed-Calm : Calm mem closed
  unfolding is_open closed
  closed-Calm = record {
    key = calm.key;
    is_up = calm.is_up;
    free = calm.free;
    no_one = calm.no_one;
  }

  unlock_queue :
      (queue : Queue)
      → (k.open_mutexes key).process_queue ≡ queue
      → (k' : Kernel) × (mutex_unlock (suc (suc n)) (pos key) k ≡ ok (pos 1) k')
        × HandedOver k key (awake k.processes queue).0 (awake k.processes queue).1 k'
  unfolding closed awake
  unlock_queue [] e = (
    given_to key 0 closed,
    unlock_open-given_to (suc n) key 0 0 k closed closed up
        (dequeue_process-nil n mem key ne closed e) (skip_deleted-null n mem key ne _ closed),
    given_to-HandedOver key 0 [] k closed (Drained-same closed key [] e),
  )
  unlock_queue ((node, p) ∷ rest) e =
      let (k1, taken, d) = dequeue_process-cons n mem key ne node p rest closed closed-Calm e in
      let (k2, skipped, d') =
        skip_deleted-awake n mem key ne rest
          (suc (suc (length (k1.open_mutexes key).process_queue))) node p k.processes k1 d.processes
          (Drained-Calm ne d closed-Calm) d.left
          (omega (arith, ap (λ (q : Queue). length q) d.left)) in
      (
        given_to key (awake k.processes ((node, p) ∷ rest)).0 k2,
        unlock_open-given_to (suc n) key p _ k k1 k2 up taken skipped,
        given_to-HandedOver key _ _ k k2 (Drained-trans d d'),
      )

-- `mutex_unlock` of an open mutex that is not the allocator's, while no process is in the allocator:
-- the first process of the queue that is not to be deleted is unblocked, and the mutex stays held
-- for it; those in front of it are dropped. If there is none, the mutex is free. No other mutex
-- and no other process changes, and the superlock is open.
pub mutex_unlock-HandedOver :
    (n mem key : ℕ) (k : Kernel)
    → is_open (pos key) k ≡ true
    → key ≢ mem
    → Calm mem k
    → (k' : Kernel) × (mutex_unlock (suc (suc n)) (pos key) k ≡ ok (pos 1) k')
      × HandedOver k key
          (awake k.processes (k.open_mutexes key).process_queue).0
          (awake k.processes (k.open_mutexes key).process_queue).1
          k'
mutex_unlock-HandedOver n mem key k up ne calm =
    unlock_queue n mem key k up ne calm (k.open_mutexes key).process_queue refl
