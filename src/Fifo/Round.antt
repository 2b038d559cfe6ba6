-- ===== src/Fifo/Round.antt =====
-- One round of `send_to_readers` of Kernel/fifo.c.
use tpe.Base.{
  ℕ, zero, suc, ◌<◌, ◌≡◌, refl, ◌∙◌, ap, ap₂, true, false, some, List, [], ◌∷◌, ◌++◌, ◌==◌, length,
  take, drop, min, arith, lt→ltb, length-tabulate,
}
use tpe.CircularBuffer.{CircularBuffer, read_circular_buffer}
use tpe.CircularBuffer.Inv.{contents}
use tpe.Process.{unblock_process}
use tpe.Allocator.{Allocator}
use tpe.Kernel.{Queue}
use tpe.Mutex.{mutex_ops, is_open}
use tpe.Mutex.Pages.{Calm, with_allocator, store_page-Calm}
use tpe.Fifo.{System, returned, at_fifo, at_request, with_processes}
use tpe.Fifo.Readers.{try_read, dequeue_reader, wake_reader, first_can_read, send_to_readers}
use tpe.Fifo.Serve.{Ready, Alike}

pub length-contents : (c : CircularBuffer) → length (contents c) ≡ c.buf_fill
unfolding contents
length-contents c = length-tabulate c.buf_fill _

pub take-min : (n m : ℕ) (xs : List ℕ) → length xs ≡ m → take (min n m) xs ≡ take n xs
take-min zero m xs h = ap (λ k. take k xs) {x = min zero m} {y = zero} (omega arith)
take-min (suc n) m [] h = ap (λ k. take k []) {x = min (suc n) m} {y = zero} (omega (arith, h))
take-min (suc n) zero (x ∷ xs) h = absurd (omega arith)
take-min (suc n) (suc m) (x ∷ xs) h =
    ap (λ k. take k (x ∷ xs)) {x = min (suc n) (suc m)} {y = suc (min n m)} (omega arith)
    ∙ ap (λ l. x ∷ l) (take-min n m xs (omega arith))

pub drop-min : (n m : ℕ) (xs : List ℕ) → length xs ≡ m → drop (min n m) xs ≡ drop n xs
drop-min zero m xs h = ap (λ k. drop k xs) {x = min zero m} {y = zero} (omega arith)
drop-min (suc n) m [] h = ap (λ k. drop k []) {x = min (suc n) m} {y = zero} (omega (arith, h))
drop-min (suc n) zero (x ∷ xs) h = absurd (omega arith)
drop-min (suc n) (suc m) (x ∷ xs) h =
    ap (λ k. drop k (x ∷ xs)) {x = min (suc n) (suc m)} {y = suc (min n m)} (omega arith)
    ∙ drop-min n m xs (omega arith)

-- The state after `try_read` has read.
abbrev pub read_by : ℕ → ℕ → CircularBuffer → ℕ → List ℕ → System → System
read_by key r c n out s =
    at_request (λ q. record q { bytes_read = n; buffer = out }) r
      (at_fifo (λ f. record f { c_buffer = c }) key s)

-- The state after the request in front has left the queue and its process is unblocked.
abbrev pub released : ℕ → ℕ → Queue → Allocator → System → System
released key r rest a s =
    with_processes (unblock_process (s.requests r).reader_p)
      (record (at_fifo (λ f. record f { read_queue = rest }) key s) {
        kernel = with_allocator a s.kernel;
      })

module _ (n mem key : ℕ) where
  pub wake_reader-released :
      (node r : ℕ) (rest : Queue) (s : System)
      → Calm mem s.kernel
      → (s.open_fifos key).read_queue ≡ (node, r) ∷ rest
      → (a : Allocator) × (wake_reader (mutex_ops (suc n)) key s
          ≡ returned tt (released key r rest a s))
  unfolding wake_reader dequeue_reader
  wake_reader-released node r rest s calm e =
      let (res, a, ran) = store_page-Calm n mem s.kernel calm node in (a, rw (e, ran) refl)

  pub try_read-read_by :
      (r : ℕ) (s : System) (c : CircularBuffer) (m : ℕ) (out : List ℕ)
      → (s.requests r).f ≡ key
      → 0 < (s.open_fifos key).c_buffer.buf_fill
      → read_circular_buffer
          (s.open_fifos key).c_buffer
          (s.requests r).buffer_at
          (s.requests r).buffer
          (s.requests r).bytes
        ≡ some (m, out, c)
      → try_read r s ≡ returned true (read_by key r c m out s)
  unfolding try_read
  try_read-read_by r s c m out f filled ran =
      rw (f, lt→ltb 0 (s.open_fifos key).c_buffer.buf_fill filled, ran) refl

  -- With nothing to read, or no one to read it, the loop ends at once.
  pub send_to_readers-empty :
      (fuel : ℕ) (queue : Queue) (s : System)
      → (s.open_fifos key).read_queue ≡ queue
      → Ready key s.requests queue
      → (s.open_fifos key).c_buffer.buf_fill ≡ 0
      → send_to_readers (mutex_ops (suc n)) key (suc fuel) s ≡ returned tt s
  unfolding send_to_readers first_can_read try_read
  send_to_readers-empty fuel [] s e ready none_left = rw e refl
  send_to_readers-empty fuel ((node, r) ∷ queue) s e ready none_left =
      rw (e, ready.0, none_left) refl

  pub send_to_readers-nobody :
      (fuel : ℕ) (s : System)
      → (s.open_fifos key).read_queue ≡ []
      → send_to_readers (mutex_ops (suc n)) key (suc fuel) s ≡ returned tt s
  unfolding send_to_readers first_can_read
  send_to_readers-nobody fuel s e = rw e refl

  -- A round that serves the request in front.
  pub send_to_readers-round :
      (fuel node r : ℕ) (rest : Queue) (s : System) (s1 s2 : System)
      → (s.open_fifos key).read_queue ≡ (node, r) ∷ rest
      → try_read r s ≡ returned true s1
      → wake_reader (mutex_ops (suc n)) key s1 ≡ returned tt s2
      → send_to_readers (mutex_ops (suc n)) key (suc fuel) s
        ≡ send_to_readers (mutex_ops (suc n)) key fuel s2
  unfolding send_to_readers first_can_read
  send_to_readers-round fuel node r rest s s1 s2 e reads wakes = rw (e, reads, wakes) refl

-- What a round does that gives the reader `g` and leaves the buffer `c`.
pub record Round (key r : ℕ) (rest : Queue) (c : CircularBuffer) (g : List ℕ) (s s' : System)
    : Type 0 where
  pub reader : s'.requests r ≡ record (s.requests r) {
    bytes_read = length g;
    buffer = g ++ drop (length g) (s.requests r).buffer;
  }
  pub other : (q : ℕ) → (q == r) ≡ false → s'.requests q ≡ s.requests q
  pub queue : (s'.open_fifos key).read_queue ≡ rest
  pub buffer : (s'.open_fifos key).c_buffer ≡ c
  pub processes : s'.kernel.processes ≡ unblock_process (s.requests r).reader_p s.kernel.processes
  pub alike : Alike key s s'

pub self : (a : ℕ) → (a == a) ≡ true
self a = ground arith

pub released-Round :
    (key r : ℕ) (rest : Queue) (a : Allocator) (c : CircularBuffer) (m : ℕ) (out g : List ℕ)
    (s : System)
    → m ≡ length g
    → out ≡ g ++ drop (length g) (s.requests r).buffer
    → Round key r rest c g s (released key r rest a (read_by key r c m out s))
released-Round key r rest a c m out g s e f = record {
  reader = rw (self r) (ap₂ (λ n b. record (s.requests r) { bytes_read = n; buffer = b }) e f);
  other = λ q ne. rw ne refl;
  queue = rw (self key) refl;
  buffer = rw (self key) refl;
  processes = rw (self r) refl;
  alike = record {
    mutexes = refl;
    memory = refl;
    state = rw (self key) refl;
    mutex = rw (self key) refl;
    others = λ j ne. rw ne refl;
    array_lock = refl;
  };
}

pub Calm-Alike :
    (mem key : ℕ) (s s' : System) → Alike key s s' → Calm mem s.kernel → Calm mem s'.kernel
unfolding is_open
Calm-Alike mem key s s' a calm = record {
  key = a.memory ∙ calm.key;
  is_up = rw a.mutexes calm.is_up;
  free = rw a.mutexes calm.free;
  no_one = rw a.mutexes calm.no_one;
}
