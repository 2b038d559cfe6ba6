-- ===== src/Mutex/Close.antt =====
-- `mutex_close` and `get_mutexes_info` of Kernel/kernelMutex.c.
use tpe.Base.{ℕ, zero, suc, ◌<◌, ◌≡◌, ◌≢◌, refl, sym, ◌∙◌, ap, true, false, [], ◌∷◌, length, arith}
use tpe.Base.Int.{pos}
use tpe.Process.{Store, unblock_process}
use tpe.Kernel.{locked, unlocked, closed_state, Queue, Kernel, Result, ok, at_key, set_mutex}
use tpe.Mutex.{is_open, mutex_ops, dequeue_process}
use tpe.Mutex.Pages.{Calm, with_allocator, store_page-Calm}
use tpe.Mutex.Drain.{Drained-Calm, dequeue_process-cons}
use tpe.Mutex.Open.{lock_array, unlock_array, release_all, close_open, close_body, mutex_close}

-- The processes after all in a queue are unblocked, first one first.
unfoldable pub wake_all : Queue → Store → Store
wake_all [] s = s
wake_all ((node, p) ∷ rest) s = wake_all rest (unblock_process p s)

-- `k'` is `k` with the processes `s` and an empty queue at `key`, but for the stack of free pages and
-- the superlock.
pub record Released (k : Kernel) (key : ℕ) (s : Store) (k' : Kernel) : Type 0 where
  pub processes : k'.processes ≡ s
  pub left : (k'.open_mutexes key).process_queue ≡ []
  pub others : (j : ℕ) → j ≢ key → k'.open_mutexes j ≡ k.open_mutexes j
  pub memory : k'.memory_mutex_key ≡ k.memory_mutex_key

abbrev woken : ℕ → Kernel → Kernel
woken p k = record k { processes = unblock_process p k.processes }

woken-Calm : {mem : ℕ} (p : ℕ) {k : Kernel} → Calm mem k → Calm mem (woken p k)
unfolding is_open
woken-Calm p calm = record {
  key = calm.key;
  is_up = calm.is_up;
  free = calm.free;
  no_one = calm.no_one;
}

module _ (n mem key : ℕ) (ne : key ≢ mem) where
  release_all-turn :
      (m node p : ℕ) (rest : Queue) (k k1 : Kernel) {r : Result (Unit {0})}
      → (k.open_mutexes key).process_queue ≡ (node, p) ∷ rest
      → dequeue_process (mutex_ops (suc n)) key k ≡ ok p k1
      → release_all (mutex_ops (suc n)) key m (woken p k1) ≡ r
      → release_all (mutex_ops (suc n)) key (suc m) k ≡ r
  unfolding release_all
  release_all-turn m node p rest k k1 e taken h = rw (e, taken) h

  release_all-stop :
      (m : ℕ) (k : Kernel)
      → (k.open_mutexes key).process_queue ≡ []
      → release_all (mutex_ops (suc n)) key (suc m) k ≡ ok tt k
  unfolding release_all
  release_all-stop m k e = rw e

  release_all-Released :
      (queue : Queue) (m : ℕ) (k : Kernel)
      → Calm mem k
      → (k.open_mutexes key).process_queue ≡ queue
      → length queue < m
      → (k' : Kernel) × (release_all (mutex_ops (suc n)) key m k ≡ ok tt k')
        × Released k key (wake_all queue k.processes) k'
  unfolding wake_all
  release_all-Released queue zero k calm e fuel = absurd (omega arith)
  release_all-Released [] (suc m) k calm e fuel = (
    k,
    release_all-stop m k e,
    record { processes = refl; left = e; others = λ j off. refl; memory = refl },
  )
  release_all-Released ((node, p) ∷ queue) (suc m) k calm e fuel =
      let (k1, taken, d) = dequeue_process-cons n mem key ne node p queue k calm e in
      let (k2, rest, r) =
        release_all-Released queue m (woken p k1) (woken-Calm p (Drained-Calm ne d calm)) d.left
          (omega arith) in
      (
        k2,
        release_all-turn m node p queue k k1 e taken rest,
        record {
          processes = r.processes ∙ ap (λ s. wake_all queue (unblock_process p s)) d.processes;
          left = r.left;
          others = λ j off. r.others j off ∙ d.others j off;
          memory = r.memory ∙ d.memory;
        },
      )

-- `k'` is the kernel after the mutex `key` was closed.
pub record Closed (k : Kernel) (key : ℕ) (k' : Kernel) : Type 0 where
  pub down : is_open (pos key) k' ≡ false
  pub left : (k'.open_mutexes key).process_queue ≡ []
  pub processes : k'.processes ≡ wake_all (k.open_mutexes key).process_queue k.processes
  pub others : (j : ℕ) → j ≢ key → k'.open_mutexes j ≡ k.open_mutexes j
  pub array : k'.array_mutex ≡ unlocked

abbrev shut : ℕ → Kernel → Kernel
shut key k = record k {
  open_mutexes = at_key (λ m. record m { state = closed_state }) key k.open_mutexes;
}

shut-Calm :
    {mem key : ℕ} {s : Store} (k k' : Kernel)
    → key ≢ mem
    → Calm mem k
    → Released k key s k'
    → Calm mem (shut key k')
unfolding is_open
shut-Calm {mem} {key} k k' ne calm r =
    let same = r.others mem (λ e. ne (sym e)) in
    record {
      key = r.memory ∙ calm.key;
      is_up = ground (arith, same, calm.is_up);
      free = ground (arith, same, calm.free);
      no_one = ground (arith, same, calm.no_one);
    }

close_open-Closed :
    (n mem key : ℕ) (k : Kernel)
    → key ≢ mem
    → Calm mem k
    → (k' : Kernel) × (close_open (mutex_ops (suc n)) key k ≡ ok (pos 1) k') × Closed k key k'
unfolding close_open set_mutex unlock_array is_open
close_open-Closed n mem key k ne calm =
    let queue = (k.open_mutexes key).process_queue in
    let (k1, out, r) =
      release_all-Released n mem key ne queue (suc (length queue)) k calm refl (omega arith) in
    let (v, a, stored) =
      store_page-Calm n mem (shut key k1) (shut-Calm k k1 ne calm r)
        ((shut key k1).open_mutexes key).queue_page in
    (
      record (with_allocator a (shut key k1)) { array_mutex = unlocked },
      rw (out, stored) refl,
      record {
        down = ground arith;
        left = ground (arith, r.left);
        processes = r.processes;
        others = λ j off. ground (arith, r.others j off);
        array = refl;
      },
    )

-- `mutex_close` of an open mutex that is not the allocator's, while the array and the allocator are
-- free: the mutex is closed, its queue is empty, every process that waited in it is unblocked,
-- first one first, no other mutex changes, and the array is free again.
pub mutex_close-Closed :
    (n mem key : ℕ) (k : Kernel)
    → k.array_mutex ≡ unlocked
    → is_open (pos key) k ≡ true
    → key ≢ mem
    → Calm mem k
    → (k' : Kernel) × (mutex_close (suc n) (pos key) k ≡ ok (pos 1) k') × Closed k key k'
unfolding mutex_close close_body lock_array is_open
mutex_close-Closed n mem key k free up ne calm =
    let inner : Kernel = record k { array_mutex = locked } in
    let (k', e, c) =
      close_open-Closed n mem key inner ne
        (record { key = calm.key; is_up = calm.is_up; free = calm.free; no_one = calm.no_one }) in
    (
      k',
      rw (free, up) e,
      record {
        down = c.down;
        left = c.left;
        processes = c.processes;
        others = c.others;
        array = c.array;
      },
    )
