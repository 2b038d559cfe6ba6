-- ===== src/Fifo/Held.antt =====
-- The mutex of a fifo of Kernel/fifo.c, taken and given back.
use tpe.Base.{ℕ, suc, ◌≡◌, ◌≢◌, refl, ◌∙◌, ap, true, [], arith}
use tpe.Base.Int.{pos}
use tpe.Kernel.{Mutex, at_key, locked, unlocked, ok}
use tpe.Mutex.{mutex_ops, is_open, mutex_lock, mutex_unlock}
use tpe.Mutex.Lock.{with_lock, mutex_lock-free, mutex_unlock-empty}
use tpe.Mutex.Pages.{Calm}
use tpe.Fifo.{System, returned, lock, unlock}

-- The mutex of the fifo is open and free, awaited by no one and not the allocator's, and no process
-- is in the allocator.
pub record IsFree (mem fm key : ℕ) (s : System) : Type 0 where
  pub mutex_key : (s.open_fifos key).fifo_mutex_key ≡ pos fm
  pub mutex_up : is_open (pos fm) s.kernel ≡ true
  pub mutex_free : (s.kernel.open_mutexes fm).lock ≡ unlocked
  pub no_one : (s.kernel.open_mutexes fm).process_queue ≡ []
  pub apart : fm ≢ mem
  pub calm : Calm mem s.kernel

module _ (n mem fm key : ℕ) (s : System) (i : IsFree mem fm key s) where
  -- While the mutex of the fifo is held.
  abbrev pub taken : System
  taken = record s { kernel = with_lock locked fm s.kernel }

  pub taken-Calm : Calm mem taken.kernel
  unfolding is_open
  taken-Calm =
      let same : at_key (λ m. record m { lock = locked }) fm s.kernel.open_mutexes mem
          ≡ s.kernel.open_mutexes mem =
        ground (arith, i.apart) in
      record {
        key = i.calm.key;
        is_up = rw same i.calm.is_up;
        free = rw same i.calm.free;
        no_one = rw same i.calm.no_one;
      }

  pub locks : lock (mutex_ops (suc n)) (s.open_fifos key).fifo_mutex_key s ≡ returned (pos 1) taken
  unfolding lock mutex_lock
  locks =
      let ran : (mutex_ops (suc n)).lock (pos fm) s.kernel
          ≡ ok (pos 1) (with_lock locked fm s.kernel) =
        mutex_lock-free n fm s.kernel i.mutex_up i.mutex_free in
      rw (i.mutex_key, ran) refl

  pub unlocks :
      (t : System)
      → t.kernel.open_mutexes ≡ taken.kernel.open_mutexes
      → (t.open_fifos key).fifo_mutex_key ≡ pos fm
      → unlock (mutex_ops (suc n)) (t.open_fifos key).fifo_mutex_key t
        ≡ returned (pos 1) (record t { kernel = with_lock unlocked fm t.kernel })
  unfolding unlock mutex_unlock is_open
  unlocks t same e =
      let ran : (mutex_ops (suc n)).unlock (pos fm) t.kernel
          ≡ ok (pos 1) (with_lock unlocked fm t.kernel) =
        mutex_unlock-empty n fm t.kernel (ground (arith, same, i.mutex_up))
          (ap (λ (ms : ℕ → Mutex). (ms fm).process_queue) same ∙ ground (arith, i.no_one)) in
      rw (e, ran) refl
