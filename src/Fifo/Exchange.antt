-- ===== src/Fifo/Exchange.antt =====
-- A process that reads from an empty fifo of Kernel/fifo.c, and a later one that writes to it.
use mathlib.Core.Path.{subst}
use tpe.Base.{
  ℕ, suc, ◌-◌, ◌^◌, ◌≤◌, ◌<◌, ◌≡◌, refl, ◌∙◌, ap, ap₂, true, some, List, [], ◌∷◌, ◌++◌, length,
  take, drop, min, arith, length-take,
}
use tpe.Base.Int.{pos}
use tpe.CircularBuffer.{buf_size}
use tpe.CircularBuffer.Inv.{IsValid, contents}
use tpe.Process.{unblock_process}
use tpe.Mutex.{mutex_ops}
use tpe.Fifo.{System, ReadRequest, returned, fifo_is_open, current_process}
use tpe.Fifo.Transfer.{fifo_write}
use tpe.Fifo.Serve.{Delivered, woken, sizes, serve}
use tpe.Fifo.Held.{IsFree}
use tpe.Fifo.Round.{length-contents}
use tpe.Fifo.Write.{IsIdle, fifo_write-Written}
use tpe.Fifo.Read.{Waits}

serve-one :
    (new : List ℕ) (m : ℕ) → 0 < length new → serve new (m ∷ []) ≡ (take m new ∷ [], drop m new)
unfolding serve
serve-one [] m h = absurd (omega arith)
serve-one (b ∷ new) m h = refl

nothing_held : (xs : List ℕ) → length xs ≡ 0 → xs ≡ []
nothing_held [] h = refl
nothing_held (x ∷ xs) h = absurd (omega arith)

take_not_empty :
    (bytes : ℕ) (source : List ℕ)
    → 0 < bytes
    → min bytes buf_size ≤ length source
    → 0 < length (take (min bytes buf_size) source)
take_not_empty bytes source some_byte enough =
    omega (arith, length-take (min bytes buf_size) source)

-- In a state `t` a process waits alone in an empty fifo, since it read in the state `s`; its request
-- and the fifo are as it left them.
pub record Alone (mem fm key node r : ℕ) (request : ReadRequest) (s t : System) : Type 0 where
  pub waited :
      (s' : System) × Waits key fm node r request [] s s'
      × (t.open_fifos key ≡ s'.open_fifos key)
      × (t.requests r ≡ s'.requests r)
  pub empty : (s.open_fifos key).c_buffer.buf_fill ≡ 0
  pub valid : IsValid (s.open_fifos key).c_buffer
  pub is_up : fifo_is_open (pos key) t ≡ some true
  pub free : IsFree mem fm key t
  pub for_it : request.f ≡ key
  pub some_byte : 0 < request.bytes
  pub room : request.bytes ≤ length request.buffer

module _ (mem fm key node r : ℕ) (request : ReadRequest) (s t : System)
    (a : Alone mem fm key node r request s t) where
  its_request : t.requests r ≡ request
  its_request = let (s', w, f, q) = a.waited in q ∙ w.request_left

  its_buffer : (t.open_fifos key).c_buffer ≡ (s.open_fifos key).c_buffer
  its_buffer =
      let (s', w, f, q) = a.waited in ap (λ (x : tpe.Fifo.Fifo). x.c_buffer) f ∙ w.same_bytes

  its_readers : (t.open_fifos key).read_queue ≡ (node, r) ∷ []
  its_readers = let (s', w, f, q) = a.waited in ap (λ (x : tpe.Fifo.Fifo). x.read_queue) f ∙ w.last

  t-IsIdle : IsIdle mem fm key ((node, r) ∷ []) t
  t-IsIdle = record {
    is_up = a.is_up;
    free = a.free;
    valid = rw its_buffer a.valid;
    readers = its_readers;
    ready = rw its_request (a.for_it, a.some_byte, a.room, tt);
    distinct = (tt, tt);
  }

-- What the process that waited finds when it runs again: its request has the bytes `new` that it
-- asked for, or all of them, and the fifo has the rest.
pub record Received (key r : ℕ) (request : ReadRequest) (new : List ℕ) (t t' : System)
    : Type 0 where
  pub got : t'.requests r ≡ record request {
    bytes_read = length (take request.bytes new);
    buffer = take request.bytes new ++ drop (length (take request.bytes new)) request.buffer;
  }
  pub rest_held : contents (t'.open_fifos key).c_buffer ≡ drop request.bytes new
  pub nobody : (t'.open_fifos key).read_queue ≡ []
  pub woken_up : t'.kernel.processes ≡ unblock_process request.reader_p t.kernel.processes

-- When a process waits alone in an empty fifo, with a request that has room for what it wants, a
-- later write of at least one byte returns the least of the count and BUF_SIZE. So many bytes of the
-- source have come into the fifo; the first of them, as many as the reader wants or all, are in its
-- array with their number, in their order, the fifo holds the others, and the reader is unblocked.
pub fifo_write-Received :
    (n mem fm key node r : ℕ) (request : ReadRequest) (s t : System) (source_at : ℕ)
    (source : List ℕ) (bytes : ℕ)
    → Alone mem fm key node r request s t
    → 0 < bytes
    → bytes < 2 ^ 31
    → min bytes buf_size ≤ length source
    → (t' : System) × (fifo_write (mutex_ops (suc n)) (pos key) source_at source (pos bytes) t
        ≡ returned (pos (min bytes buf_size)) t')
      × Received key r request (take (min bytes buf_size) source) t t'
fifo_write-Received n mem fm key node r request s t source_at source bytes a some_byte small
      enough =
    let q : tpe.Kernel.Queue = (node, r) ∷ [] in
    let new : List ℕ = take (min bytes buf_size) source in
    let fill : (t.open_fifos key).c_buffer.buf_fill ≡ 0 =
      ap (λ (x : tpe.CircularBuffer.CircularBuffer). x.buf_fill)
        (its_buffer mem fm key node r request s t a)
      ∙ a.empty in
    let count : min bytes (buf_size - (t.open_fifos key).c_buffer.buf_fill) ≡ min bytes buf_size =
      ap (λ f. min bytes (buf_size - f)) fill in
    let same : t.requests r ≡ request = its_request mem fm key node r request s t a in
    let held : contents (t.open_fifos key).c_buffer ≡ [] =
      nothing_held (contents (t.open_fifos key).c_buffer)
        (length-contents (t.open_fifos key).c_buffer ∙ fill) in
    let (t', given, left, ran, w) =
      fifo_write-Written n mem fm key q t source_at source bytes
        (t-IsIdle mem fm key node r request s t a) some_byte (omega (arith, fill))
        (omega (arith, fill)) (omega (arith, count)) in
    let served : serve
          (contents (t.open_fifos key).c_buffer
            ++ take (min bytes (buf_size - (t.open_fifos key).c_buffer.buf_fill)) source)
          (sizes t.requests q)
        ≡ (take request.bytes new ∷ [], drop request.bytes new) =
      ap₂ serve (ap₂ (λ (x : List ℕ) m. x ++ take m source) held count)
        (ap (λ (x : ReadRequest). x.bytes ∷ []) same)
      ∙ serve-one new request.bytes (take_not_empty bytes source some_byte enough) in
    let all_given : given ≡ take request.bytes new ∷ [] = w.shares ∙ ap (λ x. x.0) served in
    let delivered = subst (λ g. Delivered t.requests t'.requests q g) all_given w.delivered in
    (
      t',
      ran ∙ ap (λ m. returned (pos m) t') count,
      record {
        got =
            delivered.0
            ∙ ap
                (λ (x : ReadRequest). record x {
                  bytes_read = length (take request.bytes new);
                  buffer =
                      take request.bytes new ++ drop (length (take request.bytes new)) x.buffer;
                })
                same;
        rest_held = w.remaining ∙ w.rest_left ∙ ap (λ x. x.1) served;
        nobody = w.waiting ∙ ap (λ (g : List (List ℕ)). drop (length g) q) all_given;
        woken_up =
            w.woken_up
            ∙ ap (λ g. woken t.requests q g t.kernel.processes) all_given
            ∙ ap (λ (x : ReadRequest). unblock_process x.reader_p t.kernel.processes) same;
      },
    )
