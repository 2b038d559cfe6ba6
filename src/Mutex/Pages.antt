-- ===== src/Mutex/Pages.antt =====
-- `get_page` and `store_page` of Kernel/memoryAllocator.c inside a mutex operation, while no other
-- process is in the allocator.
use mathlib.Core.Path.{fun_ext}
use tpe.Base.{ℕ, suc, ◌≡◌, ◌∙◌, ap, true, arith, [], some, inl, inr, Option-cases}
use tpe.Base.Int.{pos}
use tpe.Allocator.{Allocator, pop_page, push_page}
use tpe.Kernel.{locked, unlocked, Mutex, Kernel, ok, at_key}
use tpe.Mutex.{
  is_open, mutex_ops, mutex_lock, mutex_unlock, get_page, got_page, store_page, stored_page,
}
use tpe.Mutex.Lock.{with_lock, mutex_lock-free, mutex_unlock-empty}

-- The mutex of the allocator is open, free and awaited by no one.
pub record Calm (mem : ℕ) (k : Kernel) : Type 0 where
  pub key : k.memory_mutex_key ≡ pos mem
  pub is_up : is_open (pos mem) k ≡ true
  pub free : (k.open_mutexes mem).lock ≡ unlocked
  pub no_one : (k.open_mutexes mem).process_queue ≡ []

-- A mutex that is taken and given back is as it was.
pub at_key_back :
    (ms : ℕ → Mutex) (mem : ℕ)
    → (ms mem).lock ≡ unlocked
    → at_key
        (λ m. record m { lock = unlocked })
        mem
        (at_key (λ m. record m { lock = locked }) mem ms)
      ≡ ms
at_key_back ms mem e = fun_ext λ j. ground arith

abbrev pub with_allocator : Allocator → Kernel → Kernel
with_allocator a k = record k { allocator = a; superlock = unlocked }

module _ (n mem : ℕ) (k : Kernel) (calm : Calm mem k) where
  taken : (mutex_ops (suc n)).lock k.memory_mutex_key k ≡ ok (pos 1) (with_lock locked mem k)
  unfolding mutex_lock
  taken =
      ap (λ key. mutex_lock (suc n) key k) calm.key ∙ mutex_lock-free n mem k calm.is_up calm.free

  -- The state between the lock and the unlock, with the stack of free pages changed.
  abbrev inside : Allocator → Kernel
  inside a = record (with_lock locked mem k) { allocator = a }

  inside-is_open : (a : Allocator) → is_open (pos mem) (inside a) ≡ true
  unfolding is_open
  inside-is_open a = ground (arith, calm.is_up)

  inside-no_one : (a : Allocator) → ((inside a).open_mutexes mem).process_queue ≡ []
  inside-no_one a = ground (arith, calm.no_one)

  given :
      (a : Allocator)
      → (mutex_ops (suc n)).unlock k.memory_mutex_key (inside a) ≡ ok (pos 1) (with_allocator a k)
  unfolding mutex_unlock
  given a =
      ap (λ key. mutex_unlock (suc n) key (inside a)) calm.key
      ∙ mutex_unlock-empty n mem (inside a) (inside-is_open a) (inside-no_one a)
      ∙ ap (λ ms. ok (pos 1) (record (with_allocator a k) { open_mutexes = ms }))
          (at_key_back k.open_mutexes mem calm.free)

  -- `get_page` takes the page, leaves the mutex as it found it, and leaves the superlock open.
  pub get_page-Calm :
      (page : ℕ) (a : Allocator)
      → pop_page k.allocator ≡ some (page, a)
      → get_page (mutex_ops (suc n)) k ≡ ok page (with_allocator a k)
  unfolding get_page got_page
  get_page-Calm page a e = rw (taken, e, given a)

  -- `store_page` gives the page back in the same way; when no page is out it changes nothing.
  pub store_page-Calm :
      (address : ℕ)
      → (r : ℕ) × (a : Allocator) × (store_page (mutex_ops (suc n)) address k
          ≡ ok r (with_allocator a k))
  unfolding store_page stored_page
  store_page-Calm address = elim (Option-cases (push_page k.allocator address)) [
    | inl e ↦ (0, k.allocator, rw (taken, e, given k.allocator))
    | inr (a, e) ↦ (1, a, rw (taken, e, given a))
  ]

  -- The same when the stack that the page is pushed on is known.
  pub store_page-some :
      (address : ℕ) (a : Allocator)
      → push_page k.allocator address ≡ some a
      → store_page (mutex_ops (suc n)) address k ≡ ok 1 (with_allocator a k)
  unfolding store_page stored_page
  store_page-some address a e = rw (taken, e, given a)
