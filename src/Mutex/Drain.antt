-- ===== src/Mutex/Drain.antt =====
-- Taking processes out of the queue of a mutex, in `mutex_unlock` of Kernel/kernelMutex.c.
use tpe.Base.{
  ℕ, zero, suc, ◌+◌, ◌<◌, ◌≡◌, ◌≢◌, refl, sym, ◌∙◌, ap, true, false, if◌then◌else◌, arith, [], ◌∷◌,
  length, inl, inr, Bool-cases,
}
use tpe.Allocator.{Allocator}
use tpe.Process.{Store, is_delete_process}
use tpe.Kernel.{Queue, Kernel, Result, ok, at_key, set_mutex}
use tpe.Mutex.{is_open, mutex_ops, unlink, dequeue_process, skip_deleted, store_page}
use tpe.Mutex.Pages.{Calm, with_allocator, store_page-Calm}

-- `k'` is `k` but for the queue of one mutex, the stack of free pages and the superlock.
pub record Drained (k : Kernel) (key : ℕ) (queue : Queue) (k' : Kernel) : Type 0 where
  pub processes : k'.processes ≡ k.processes
  pub current : k'.current ≡ k.current
  pub memory : k'.memory_mutex_key ≡ k.memory_mutex_key
  pub left : (k'.open_mutexes key).process_queue ≡ queue
  pub lock : (k'.open_mutexes key).lock ≡ (k.open_mutexes key).lock
  pub state : (k'.open_mutexes key).state ≡ (k.open_mutexes key).state
  pub others : (j : ℕ) → j ≢ key → k'.open_mutexes j ≡ k.open_mutexes j

pub Drained-trans :
    {k k' k'' : Kernel} {key : ℕ} {queue queue' : Queue}
    → Drained k key queue k'
    → Drained k' key queue' k''
    → Drained k key queue' k''
Drained-trans d e = record {
  processes = e.processes ∙ d.processes;
  current = e.current ∙ d.current;
  memory = e.memory ∙ d.memory;
  left = e.left;
  lock = e.lock ∙ d.lock;
  state = e.state ∙ d.state;
  others = λ j ne. e.others j ne ∙ d.others j ne;
}

pub Drained-Calm :
    {k k' : Kernel} {key mem : ℕ} {queue : Queue}
    → key ≢ mem
    → Drained k key queue k'
    → Calm mem k
    → Calm mem k'
unfolding is_open
Drained-Calm {mem} ne d calm =
    let same = d.others mem (λ e. ne (sym e)) in
    record {
      key = d.memory ∙ calm.key;
      is_up = rw same calm.is_up;
      free = rw same calm.free;
      no_one = rw same calm.no_one;
    }

abbrev unlinked : ℕ → Queue → Kernel → Kernel
unlinked key rest k = record k {
  open_mutexes = at_key (λ m. record m { process_queue = rest }) key k.open_mutexes;
}

unlinked-Drained : (key : ℕ) (rest : Queue) (k : Kernel) → Drained k key rest (unlinked key rest k)
unlinked-Drained key rest k = record {
  processes = refl;
  current = refl;
  memory = refl;
  left = ground arith;
  lock = ground arith;
  state = ground arith;
  others = λ j off. ground arith;
}

-- Giving a page back leaves the queue as it is.
with_allocator-Drained :
    {k k' : Kernel} {key : ℕ} {queue : Queue} (a : Allocator)
    → Drained k key queue k'
    → Drained k key queue (with_allocator a k')
with_allocator-Drained a d = record {
  processes = d.processes;
  current = d.current;
  memory = d.memory;
  left = d.left;
  lock = d.lock;
  state = d.state;
  others = d.others;
}

pub Drained-same :
    (k : Kernel) (key : ℕ) (queue : Queue)
    → (k.open_mutexes key).process_queue ≡ queue
    → Drained k key queue k
Drained-same k key queue e = record {
  processes = refl;
  current = refl;
  memory = refl;
  left = e;
  lock = refl;
  state = refl;
  others = λ j off. refl;
}

-- Who is next in a queue, and the queue behind: the first process that is not to be deleted, or NULL.
unfoldable pub awake : Store → Queue → ℕ × Queue
awake s [] = (0, [])
awake s ((node, p) ∷ rest) = if is_delete_process p s then awake s rest else (p, rest)

module _ (n mem key : ℕ) (ne : key ≢ mem) where
  -- `dequeue` of a queue that is not empty gives the first process.
  pub dequeue_process-cons :
      (node p : ℕ) (rest : Queue) (k : Kernel)
      → Calm mem k
      → (k.open_mutexes key).process_queue ≡ (node, p) ∷ rest
      → (k' : Kernel) × (dequeue_process (mutex_ops (suc n)) key k ≡ ok p k')
        × Drained k key rest k'
  unfolding dequeue_process unlink set_mutex
  dequeue_process-cons node p rest k calm e =
      let d = unlinked-Drained key rest k in
      let (r, a, stored) =
        store_page-Calm n mem (unlinked key rest k) (Drained-Calm ne d calm) node in
      (
        with_allocator a (unlinked key rest k),
        rw e (after_store r a stored),
        with_allocator-Drained a d,
      )
    where
      after_store :
          (r : ℕ) (a : Allocator)
          → store_page (mutex_ops (suc n)) node (unlinked key rest k)
            ≡ ok r (with_allocator a (unlinked key rest k))
          → unlink (mutex_ops (suc n)) key ((node, p) ∷ rest) k
            ≡ ok p (with_allocator a (unlinked key rest k))
      after_store r a stored = rw stored

  pub dequeue_process-nil :
      (k : Kernel)
      → (k.open_mutexes key).process_queue ≡ []
      → dequeue_process (mutex_ops (suc n)) key k ≡ ok 0 k
  unfolding dequeue_process unlink
  dequeue_process-nil k e = rw e

  -- One turn of the loop that skips the processes to be deleted.
  skip_deleted-stop :
      (m p : ℕ) (k : Kernel)
      → is_delete_process p k.processes ≡ false
      → skip_deleted (mutex_ops (suc n)) key (suc m) p k ≡ ok p k
  unfolding skip_deleted
  skip_deleted-stop m p k h = rw h

  skip_deleted-turn :
      (m p q : ℕ) (k k' : Kernel) {r : Result ℕ}
      → is_delete_process p k.processes ≡ true
      → dequeue_process (mutex_ops (suc n)) key k ≡ ok q k'
      → skip_deleted (mutex_ops (suc n)) key m q k' ≡ r
      → skip_deleted (mutex_ops (suc n)) key (suc m) p k ≡ r
  unfolding skip_deleted
  skip_deleted-turn m p q k k' h e f = rw (h, e) f

  pub skip_deleted-null :
      (m : ℕ) (k : Kernel) → skip_deleted (mutex_ops (suc n)) key (suc m) 0 k ≡ ok 0 k
  unfolding is_delete_process
  skip_deleted-null m k = skip_deleted-stop m 0 k refl

  -- The loop, started with the process `p` taken from in front of the queue.
  pub skip_deleted-awake :
      (queue : Queue) (m node p : ℕ) (s : Store) (k : Kernel)
      → k.processes ≡ s
      → Calm mem k
      → (k.open_mutexes key).process_queue ≡ queue
      → length queue + 1 < m
      → (k' : Kernel) × (skip_deleted (mutex_ops (suc n)) key m p k
          ≡ ok (awake s ((node, p) ∷ queue)).0 k')
        × Drained k key (awake s ((node, p) ∷ queue)).1 k'
  unfolding awake
  skip_deleted-awake queue zero node p s k same calm e fuel = absurd (omega arith)
  skip_deleted-awake queue (suc zero) node p s k same calm e fuel = absurd (omega arith)
  skip_deleted-awake [] (suc (suc m)) node p s k same calm e fuel =
      elim (Bool-cases (is_delete_process p s)) [
        | inl h ↦ rw h (
          k,
          skip_deleted-turn (suc m) p 0 k k (ap (is_delete_process p) same ∙ h)
              (dequeue_process-nil k e) (skip_deleted-null m k),
          Drained-same k key [] e,
        )
        | inr h ↦ rw h (
          k,
          skip_deleted-stop (suc m) p k (ap (is_delete_process p) same ∙ h),
          Drained-same k key [] e,
        )
      ]
  skip_deleted-awake ((node', p') ∷ queue) (suc (suc m)) node p s k same calm e fuel =
      elim (Bool-cases (is_delete_process p s)) [
        | inl h ↦
            let (k1, taken, d) = dequeue_process-cons node' p' queue k calm e in
            let (k2, rest, d') =
              skip_deleted-awake queue (suc m) node' p' s k1 (d.processes ∙ same)
                (Drained-Calm ne d calm) d.left (omega arith) in
            rw h (
              k2,
              skip_deleted-turn (suc m) p p' k k1 (ap (is_delete_process p) same ∙ h) taken rest,
              Drained-trans d d',
            )
        | inr h ↦ rw h (
          k,
          skip_deleted-stop (suc m) p k (ap (is_delete_process p) same ∙ h),
          Drained-same k key ((node', p') ∷ queue) e,
        )
      ]
