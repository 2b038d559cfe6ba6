-- ===== src/Mutex/Lock.antt =====
-- `mutex_lock` of Kernel/kernelMutex.c on a mutex that is free, and on a key that is not open.
use tpe.Base.{ℕ, suc, ◌≡◌, true, false, []}
use tpe.Base.Int.{ℤ, pos}
use tpe.Kernel.{
  locked, unlocked, not_open_error, Kernel, ok, at_key, set_superlock, unset_superlock, set_mutex,
}
use tpe.Process.{is_delete_process}
use tpe.Mutex.{
  is_open, mutex_ops, mutex_lock, mutex_unlock, lock_body, unlock_body, lock_open, unlock_open,
  test_lock, dequeue_process, skip_deleted,
}

-- A key that is not open: nothing happens.
pub mutex_lock-closed :
    (n : ℕ) (key : ℤ) (k : Kernel)
    → is_open key k ≡ false
    → mutex_lock (suc n) key k ≡ ok not_open_error k
unfolding mutex_lock mutex_ops lock_body
mutex_lock-closed n key k h = rw h

pub mutex_unlock-closed :
    (n : ℕ) (key : ℤ) (k : Kernel)
    → is_open key k ≡ false
    → mutex_unlock (suc n) key k ≡ ok not_open_error k
unfolding mutex_unlock mutex_ops unlock_body
mutex_unlock-closed n key k h = rw h

abbrev pub with_lock : ℕ → ℕ → Kernel → Kernel
with_lock v key k = record k {
  superlock = unlocked;
  open_mutexes = at_key (λ m. record m { lock = v }) key k.open_mutexes;
}

-- On a free mutex the caller takes it and goes on.
pub mutex_lock-free :
    (n key : ℕ) (k : Kernel)
    → is_open (pos key) k ≡ true
    → (k.open_mutexes key).lock ≡ unlocked
    → mutex_lock (suc n) (pos key) k ≡ ok (pos 1) (with_lock locked key k)
unfolding mutex_lock mutex_ops lock_body lock_open test_lock set_superlock unset_superlock set_mutex
mutex_lock-free n key k h e = rw (h, e)

-- With no process in its queue the mutex is free after the unlock.
pub mutex_unlock-empty :
    (n key : ℕ) (k : Kernel)
    → is_open (pos key) k ≡ true
    → (k.open_mutexes key).process_queue ≡ []
    → mutex_unlock (suc n) (pos key) k ≡ ok (pos 1) (with_lock unlocked key k)
unfolding mutex_unlock mutex_ops unlock_body unlock_open dequeue_process skip_deleted set_superlock
    unset_superlock set_mutex is_delete_process
mutex_unlock-empty n key k h e = rw (h, e)
