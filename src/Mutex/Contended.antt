-- ===== src/Mutex/Contended.antt =====
-- `mutex_lock` of Kernel/kernelMutex.c on the allocator's own mutex while another process holds it.
use tpe.Base.{ℕ, zero, suc, ◌≡◌, refl, ◌∙◌, ap, true, arith, none}
use tpe.Base.Int.{pos}
use tpe.Kernel.{
  locked, unlocked, Kernel, out_of_fuel, at_key, set_superlock, unset_superlock, set_mutex,
}
use tpe.Allocator.{pop_page}
use tpe.Mutex.Lock.{with_lock, mutex_lock-free}
use tpe.Mutex.{
  is_open, mutex_ops, mutex_lock, lock_body, lock_open, test_lock, queue_process, get_page,
  got_page,
}

-- The mutex of the allocator is open and held.
pub record Held (mem : ℕ) (k : Kernel) : Type 0 where
  pub key : k.memory_mutex_key ≡ pos mem
  pub is_up : is_open (pos mem) k ≡ true
  pub held : (k.open_mutexes mem).lock ≡ locked

abbrev tested : ℕ → Kernel → Kernel
tested key k = record k {
  superlock = locked;
  open_mutexes = at_key (λ m. record m { lock = locked }) key k.open_mutexes;
}

tested-Held : (mem : ℕ) (k : Kernel) → Held mem k → Held mem (tested mem k)
unfolding is_open
tested-Held mem k h = record { key = h.key; is_up = ground (arith, h.is_up); held = ground arith }

mutex_lock-nested :
    (n mem : ℕ) (k : Kernel)
    → Held mem k
    → mutex_lock n k.memory_mutex_key (tested mem k) ≡ out_of_fuel
    → mutex_lock (suc n) (pos mem) k ≡ out_of_fuel
unfolding mutex_lock mutex_ops lock_body lock_open test_lock set_superlock unset_superlock set_mutex
    queue_process get_page
mutex_lock-nested n mem k h inner = rw (h.is_up, h.held, inner)

-- However deep the calls may nest, `mutex_lock` on the allocator's mutex does not come to an end
-- while that mutex is held: to queue the caller it takes a page, for which it locks the same mutex.
pub mutex_lock-endless :
    (n mem : ℕ) (k : Kernel) → Held mem k → mutex_lock n k.memory_mutex_key k ≡ out_of_fuel
unfolding mutex_lock mutex_ops
mutex_lock-endless zero mem k h = refl
mutex_lock-endless (suc n) mem k h =
    ap (λ key. mutex_lock (suc n) key k) h.key
    ∙ mutex_lock-nested n mem k h (mutex_lock-endless n mem (tested mem k) (tested-Held mem k h))

with_lock-Held :
    (mem : ℕ) (k : Kernel)
    → k.memory_mutex_key ≡ pos mem
    → is_open (pos mem) k ≡ true
    → Held mem (with_lock locked mem k)
unfolding is_open
with_lock-Held mem k key up = record { key = key; is_up = ground arith; held = ground arith }

-- When no page is left, and the allocator's mutex is open and free, `get_page` does not come to an
-- end either: it locks that mutex a second time where it should unlock it, and so waits for itself.
pub get_page-exhausted :
    (n mem : ℕ) (k : Kernel)
    → k.memory_mutex_key ≡ pos mem
    → is_open (pos mem) k ≡ true
    → (k.open_mutexes mem).lock ≡ unlocked
    → pop_page k.allocator ≡ none
    → get_page (mutex_ops n) k ≡ out_of_fuel
unfolding get_page got_page mutex_lock mutex_ops
get_page-exhausted zero mem k key up free empty = refl
get_page-exhausted (suc n) mem k key up free empty = rw (
  ap (λ m. mutex_lock (suc n) m k) key ∙ mutex_lock-free n mem k up free,
  empty,
  mutex_lock-endless (suc n) mem (with_lock locked mem k) (with_lock-Held mem k key up),
)
