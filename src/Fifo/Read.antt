-- ===== src/Fifo/Read.antt =====
-- `fifo_read` of Kernel/fifo.c on a fifo that has nothing to read yet.
use tpe.Base.{
  ℕ, suc, ◌<◌, ◌≡◌, ◌⊎◌, refl, ap, inl, inr, true, false, some, List, [], ◌∷◌, ◌++◌, ◌==◌, length,
  arith,
}
use tpe.Base.Int.{pos}
use tpe.Allocator.{Allocator, pop_page}
use tpe.Process.{block_process}
use tpe.Kernel.{Queue, unlocked, give_time}
use tpe.Mutex.{mutex_ops, is_open}
use tpe.Mutex.Lock.{with_lock}
use tpe.Mutex.Pages.{with_allocator, get_page-Calm}
use tpe.Fifo.{System, ReadRequest, returned, yielding, at_fifo, at_request, current_process}
use tpe.Fifo.Readers.{try_read, enqueue_reader}
use tpe.Fifo.Transfer.{create_read_request, fifo_read}
use tpe.Fifo.Held.{IsFree, taken, taken-Calm, locks, unlocks}
use tpe.Fifo.Write.{IsIdle, positive}

-- The request that a reader leaves.
abbrev pub request_for : ℕ → ℕ → List ℕ → ℕ → ℕ → ReadRequest → ReadRequest
request_for key buffer_at buffer bytes p q = record q {
  bytes = bytes;
  buffer_at = buffer_at;
  buffer = buffer;
  f = key;
  reader_p = p;
}

-- The process waits last in the queue, with its request at `r`.
pub record Waits (key fm node r : ℕ) (request : ReadRequest) (queue : Queue) (s s' : System)
    : Type 0 where
  pub last : (s'.open_fifos key).read_queue ≡ queue ++ ((node, r) ∷ [])
  pub request_left : s'.requests r ≡ request
  pub other_requests : (q : ℕ) → (q == r) ≡ false → s'.requests q ≡ s.requests q
  pub blocked : s'.kernel.processes ≡ block_process (current_process s) s.kernel.processes
  pub same_bytes : (s'.open_fifos key).c_buffer ≡ (s.open_fifos key).c_buffer
  pub free : (s'.kernel.open_mutexes fm).lock ≡ unlocked
  pub other_fifos : (j : ℕ) → (j == key) ≡ false → s'.open_fifos j ≡ s.open_fifos j

module _ (n mem fm key : ℕ) (queue : Queue) (s : System) (i : IsIdle mem fm key queue s)
    (r node : ℕ) (a1 a2 : Allocator) (first : pop_page s.kernel.allocator ≡ some (r, a1))
    (second : pop_page a1 ≡ some (node, a2)) (buffer_at : ℕ) (buffer : List ℕ) (bytes : ℕ) where
  abbrev request : ReadRequest
  request = request_for key buffer_at buffer bytes (current_process s) (s.requests r)

  -- With the request made.
  abbrev asked : System
  asked =
      at_request (request_for key buffer_at buffer bytes (current_process s)) r
        (record s { kernel = with_allocator a1 s.kernel })

  asks : create_read_request (mutex_ops (suc n)) key buffer_at buffer bytes s ≡ returned r asked
  unfolding create_read_request
  asks = rw (get_page-Calm n mem s.kernel i.free.calm r a1 first) refl

  asked-IsFree : IsFree mem fm key asked
  unfolding is_open
  asked-IsFree = record {
    mutex_key = i.free.mutex_key;
    mutex_up = i.free.mutex_up;
    mutex_free = i.free.mutex_free;
    no_one = i.free.no_one;
    apart = i.free.apart;
    calm = record {
      key = i.free.calm.key;
      is_up = i.free.calm.is_up;
      free = i.free.calm.free;
      no_one = i.free.calm.no_one;
    };
  }

  abbrev held : System
  held = taken n mem fm key asked asked-IsFree

  -- With the request in the queue.
  abbrev queued : System
  queued =
      at_fifo (λ f. record f { read_queue = f.read_queue ++ ((node, r) ∷ []) }) key
        (record held { kernel = with_allocator a2 held.kernel })

  enqueues : enqueue_reader (mutex_ops (suc n)) key r held ≡ returned tt queued
  unfolding enqueue_reader
  enqueues =
      rw
        (get_page-Calm n mem held.kernel (taken-Calm n mem fm key asked asked-IsFree) node a2
          second)
        refl

  here : (r == r) ≡ true
  here = ground arith

  there : (key == key) ≡ true
  there = ground arith

  tries : (s.open_fifos key).c_buffer.buf_fill ≡ 0 → try_read r held ≡ returned false held
  unfolding try_read
  tries none_left = rw (here, none_left) refl

  -- The process after the queueing.
  abbrev asleep : System
  asleep = record queued {
    kernel = give_time (record (with_lock unlocked fm queued.kernel) {
      processes = block_process (current_process s) s.kernel.processes;
    });
  }

  waits_from :
      (first_reader : List (ℕ × ℕ))
      → (s.open_fifos key).read_queue ≡ first_reader
      → 0 < bytes
      → ((s.open_fifos key).c_buffer.buf_fill ≡ 0) ⊎ (0 < length first_reader)
      → fifo_read (mutex_ops (suc n)) (pos key) buffer_at buffer (pos bytes) s ≡ yielding asleep
  unfolding fifo_read
  waits_from [] e some_byte (inl none_left) =
      rw
        (
          i.is_up,
          positive bytes some_byte,
          asks,
          locks n mem fm key asked asked-IsFree,
          e,
          tries none_left,
          enqueues,
          unlocks n mem fm key asked asked-IsFree queued refl (rw there i.free.mutex_key),
          here,
        )
        refl
  waits_from [] e some_byte (inr h) = absurd (omega arith)
  waits_from (q ∷ others) e some_byte h =
      rw
        (
          i.is_up,
          positive bytes some_byte,
          asks,
          locks n mem fm key asked asked-IsFree,
          e,
          enqueues,
          unlocks n mem fm key asked asked-IsFree queued refl (rw there i.free.mutex_key),
          here,
        )
        refl

  -- A read of at least one byte from an idle fifo that holds none, or that others wait for, while two
  -- pages are left, does not return: the process waits last in the queue of readers with its request,
  -- which asks for what it wants, is blocked, and gives the processor away. The bytes of the fifo, the
  -- other requests and the other fifos are as before, and its mutex is free.
  pub fifo_read-Waits :
      0 < bytes
      → ((s.open_fifos key).c_buffer.buf_fill ≡ 0) ⊎ (0 < length queue)
      → (s' : System) × (fifo_read (mutex_ops (suc n)) (pos key) buffer_at buffer (pos bytes) s
          ≡ yielding s')
        × Waits key fm node r
            (request_for key buffer_at buffer bytes (current_process s) (s.requests r))
            queue
            s
            s'
  fifo_read-Waits some_byte why = (
    asleep,
    waits_from queue i.readers some_byte why,
    record {
      last = rw there (ap (λ (q : Queue). q ++ ((node, r) ∷ [])) i.readers);
      request_left = rw here refl;
      other_requests = λ q ne. rw ne refl;
      blocked = refl;
      same_bytes = rw there refl;
      free = ground arith;
      other_fifos = λ j ne. rw ne refl;
    },
  )
