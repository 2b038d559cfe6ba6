-- ===== src/Fifo/Close.antt =====
-- `release_readers` and `fifo_close` of Kernel/fifo.c: what becomes of the processes that wait.
use tpe.Base.{
  ℕ, zero, suc, ◌<◌, ◌≡◌, ◌≢◌, refl, ◌∙◌, ap, true, false, some, [], ◌∷◌, ◌==◌, ltb, ◌&&◌, length,
  arith,
}
use tpe.Base.Int.{pos}
use tpe.Process.{Store, unblock_process}
use tpe.Allocator.{Allocator}
use tpe.Kernel.{Queue, Mutex, at_key, ok, locked, unlocked, open_state, closed_state}
use tpe.Mutex.{mutex_ops, is_open, mutex_lock, mutex_unlock}
use tpe.Mutex.Lock.{with_lock, mutex_lock-free, mutex_unlock-empty}
use tpe.Mutex.Pages.{Calm, with_allocator, store_page-Calm}
use tpe.Fifo.{
  max_fifos, Fifo, System, ReadRequest, returned, at_fifo, fifo_is_open, lock, unlock,
  fifo_not_open_error,
}
use tpe.Fifo.Readers.{release_readers}
use tpe.Fifo.Transfer.{fifo_read_end}
use tpe.Fifo.Files.{fifo_close}
use tpe.Fifo.Serve.{Alike, Alike-trans}
use tpe.Fifo.Round.{released, wake_reader-released, self, Calm-Alike}

-- The processes after those of all requests were unblocked, first one first.
abbrev pub all_woken : (ℕ → ReadRequest) → Queue → Store → Store
all_woken requests [] p = p
all_woken requests ((node, r) ∷ queue) p =
    all_woken requests queue (unblock_process (requests r).reader_p p)

record Released (key : ℕ) (queue : Queue) (s s' : System) : Type 0 where
  pub nobody : (s'.open_fifos key).read_queue ≡ []
  pub processes : s'.kernel.processes ≡ all_woken s.requests queue s.kernel.processes
  pub requests : s'.requests ≡ s.requests
  pub alike : Alike key s s'

released-Alike :
    (key r : ℕ) (rest : Queue) (a : Allocator) (s : System) → Alike key s (released key r rest a s)
released-Alike key r rest a s = record {
  mutexes = refl;
  memory = refl;
  state = rw (self key) refl;
  mutex = rw (self key) refl;
  others = λ j ne. rw ne refl;
  array_lock = refl;
}

module _ (n mem key : ℕ) where
  release_readers-Released :
      (fuel : ℕ) (queue : Queue) (s : System)
      → length queue < fuel
      → Calm mem s.kernel
      → (s.open_fifos key).read_queue ≡ queue
      → (s' : System) × (release_readers (mutex_ops (suc n)) key fuel s ≡ returned tt s')
        × Released key queue s s'
  unfolding release_readers
  release_readers-Released zero queue s h calm e = absurd (omega arith)
  release_readers-Released (suc fuel) [] s h calm e = (
    s,
    rw e refl,
    record {
      nobody = e;
      processes = refl;
      requests = refl;
      alike = record {
        mutexes = refl;
        memory = refl;
        state = refl;
        mutex = refl;
        others = λ j ne. refl;
        array_lock = refl;
      };
    },
  )
  release_readers-Released (suc fuel) ((node, r) ∷ rest) s h calm e =
      let (a, woke) = wake_reader-released n mem key node r rest s calm e in
      let like : Alike key s (released key r rest a s) = released-Alike key r rest a s in
      let (s', ran, more) =
        release_readers-Released fuel rest (released key r rest a s) (omega arith)
          (Calm-Alike mem key s (released key r rest a s) like calm) (rw (self key) refl) in
      (
        s',
        rw (e, woke) ran,
        record {
          nobody = more.nobody;
          processes = more.processes;
          requests = more.requests;
          alike = Alike-trans key s (released key r rest a s) s' like more.alike;
        },
      )

-- The mutex of the array of fifos is open and free, awaited by no one and not the allocator's, and
-- no process is in the allocator.
pub record CanClose (mem al : ℕ) (s : System) : Type 0 where
  pub array_key : s.fifo_array_lock ≡ pos al
  pub array_up : is_open (pos al) s.kernel ≡ true
  pub array_free : (s.kernel.open_mutexes al).lock ≡ unlocked
  pub no_one : (s.kernel.open_mutexes al).process_queue ≡ []
  pub apart : al ≢ mem
  pub calm : Calm mem s.kernel

closed_is_no_open : (key : ℕ) → (ltb key max_fifos && (closed_state == open_state)) ≡ false
closed_is_no_open key = ground arith

-- The fifo is closed.
pub record Closed (n al key : ℕ) (queue : Queue) (s s' : System) : Type 0 where
  pub now_closed : (s'.open_fifos key).state ≡ closed_state
  pub nobody : (s'.open_fifos key).read_queue ≡ []
  pub woken_up : s'.kernel.processes ≡ all_woken s.requests queue s.kernel.processes
  pub told :
      (t : System)
      → t.open_fifos key ≡ s'.open_fifos key
      → (r : ℕ) → fifo_read_end (mutex_ops n) (pos key) r t ≡ returned fifo_not_open_error t
  pub array_free : (s'.kernel.open_mutexes al).lock ≡ unlocked
  pub other_fifos : (j : ℕ) → (j == key) ≡ false → s'.open_fifos j ≡ s.open_fifos j

module _ (n mem al key : ℕ) (s : System) (c : CanClose mem al s) where
  abbrev taken : System
  taken = record s { kernel = with_lock locked al s.kernel }

  taken-Calm : Calm mem taken.kernel
  unfolding is_open
  taken-Calm =
      let same : at_key (λ m. record m { lock = locked }) al s.kernel.open_mutexes mem
          ≡ s.kernel.open_mutexes mem =
        ground (arith, c.apart) in
      record {
        key = c.calm.key;
        is_up = rw same c.calm.is_up;
        free = rw same c.calm.free;
        no_one = rw same c.calm.no_one;
      }

  locks : lock (mutex_ops (suc n)) s.fifo_array_lock s ≡ returned (pos 1) taken
  unfolding lock mutex_lock
  locks =
      let ran = mutex_lock-free n al s.kernel c.array_up c.array_free in rw (c.array_key, ran) refl

  unlocks :
      (t : System)
      → t.kernel.open_mutexes ≡ taken.kernel.open_mutexes
      → unlock (mutex_ops (suc n)) s.fifo_array_lock t
        ≡ returned (pos 1) (record t { kernel = with_lock unlocked al t.kernel })
  unfolding unlock mutex_unlock is_open
  unlocks t same =
      let ran : (mutex_ops (suc n)).unlock (pos al) t.kernel
          ≡ ok (pos 1) (with_lock unlocked al t.kernel) =
        mutex_unlock-empty n al t.kernel (ground (arith, same, c.array_up))
          (ap (λ (ms : ℕ → Mutex). (ms al).process_queue) same ∙ ground (arith, c.no_one)) in
      rw (c.array_key, ran) refl

  -- The fifo closed, before the array is freed.
  abbrev shut : Allocator → System → System
  shut a t =
      at_fifo (λ f. record f { state = closed_state }) key
        (record t { kernel = with_allocator a t.kernel })

  abbrev ended : Allocator → System → System
  ended a t = record (shut a t) { kernel = with_lock unlocked al (shut a t).kernel }

  ended-told :
      (a : Allocator) (t later : System)
      → later.open_fifos key ≡ (ended a t).open_fifos key
      → (r : ℕ)
      → fifo_read_end (mutex_ops (suc n)) (pos key) r later ≡ returned fifo_not_open_error later
  unfolding fifo_read_end fifo_is_open
  ended-told a t later e r =
      let shut_there : (later.open_fifos key).state ≡ closed_state =
        ap (λ (f : Fifo). f.state) e ∙ rw (self key) refl in
      rw (shut_there, closed_is_no_open key) refl

  -- `fifo_close` of an open fifo, while the array of fifos is free and no process is in the allocator,
  -- returns 1. The fifo is closed and no one waits in it: every process that waited to read is
  -- unblocked, first one first, and a read that goes on in any later state that has the fifo as it was
  -- left, before it is opened again, ends with FIFO_NOT_OPEN_ERROR. No other fifo has changed, and the
  -- array is free.
  pub fifo_close-Closed :
      (queue : Queue)
      → (s.open_fifos key).read_queue ≡ queue
      → fifo_is_open (pos key) s ≡ some true
      → (s' : System) × (fifo_close (mutex_ops (suc n)) (pos key) s ≡ returned (pos 1) s')
        × Closed (suc n) al key queue s s'
  unfolding fifo_close fifo_is_open
  fifo_close-Closed queue e up =
      let (t, ran, v) =
        release_readers-Released n mem key (suc (length queue)) queue taken (omega arith) taken-Calm
          e in
      let (res, a, stored) =
        store_page-Calm n mem t.kernel (Calm-Alike mem key taken t v.alike taken-Calm)
          (s.open_fifos key).queue_page in
      (
        ended a t,
        rw
            (
              locks,
              up,
              ap (λ (q : Queue). length q) e,
              ran,
              stored,
              unlocks (shut a t) v.alike.mutexes,
            )
            refl,
        record {
          now_closed = rw (self key) refl;
          nobody = rw (self key) v.nobody;
          woken_up = v.processes;
          told = λ later e r. ended-told a t later e r;
          array_free = ground arith;
          other_fifos = λ j ne. rw ne (v.alike.others j ne);
        },
      )
