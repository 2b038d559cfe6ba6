-- ===== src/Fifo/Write.antt =====
-- `fifo_write` of Kernel/fifo.c: what becomes of the bytes that are written.
use mathlib.Core.List.{append_assoc}
use tpe.Base.{
  ℕ, zero, suc, ◌+◌, ◌-◌, ◌^◌, ◌≤◌, ◌<◌, ◌≡◌, ◌⊎◌, refl, ◌∙◌, ap, inl, inr, true, false, some, List,
  [], ◌∷◌, ◌++◌, ◌==◌, length, take, drop, min, arith,
}
use tpe.Base.Int.{pos, is_positive}
use tpe.Links.{Distinct}
use tpe.CircularBuffer.{CircularBuffer, buf_size}
use tpe.CircularBuffer.Inv.{IsValid, contents}
use tpe.CircularBuffer.Write.{write_circular_buffer-Wrote}
use tpe.Kernel.{Queue, unlocked}
use tpe.Mutex.{mutex_ops}
use tpe.Mutex.Lock.{with_lock}
use tpe.Fifo.{System, ReadRequest, returned, at_fifo, fifo_is_open}
use tpe.Fifo.Held.{IsFree, taken, taken-Calm, locks, unlocks}
use tpe.Fifo.Transfer.{fifo_write}
use tpe.Fifo.Serve.{requests_of, sizes, serve, Ready, Delivered, woken}
use tpe.Fifo.Send.{send_to_readers-Served}

abbrev pub concat : List (List ℕ) → List ℕ
concat [] = []
concat (g ∷ given) = g ++ concat given

take-drop : (n : ℕ) (xs : List ℕ) → take n xs ++ drop n xs ≡ xs
take-drop zero xs = refl
take-drop (suc n) [] = refl
take-drop (suc n) (x ∷ xs) = ap (λ l. x ∷ l) (take-drop n xs)

-- No byte is lost, made or moved past another.
pub serve-concat :
    (bytes wanted : List ℕ) → concat (serve bytes wanted).0 ++ (serve bytes wanted).1 ≡ bytes
unfolding serve
serve-concat bytes [] = refl
serve-concat [] (n ∷ wanted) = refl
serve-concat (b ∷ bytes) (n ∷ wanted) =
    append_assoc (take n (b ∷ bytes)) (concat (serve (drop n (b ∷ bytes)) wanted).0) _
    ∙ ap (λ l. take n (b ∷ bytes) ++ l) (serve-concat (drop n (b ∷ bytes)) wanted)
    ∙ take-drop n (b ∷ bytes)

-- Bytes are left only when everyone was served.
pub serve-all :
    (bytes wanted : List ℕ)
    → ((serve bytes wanted).1 ≡ []) ⊎ (length (serve bytes wanted).0 ≡ length wanted)
unfolding serve
serve-all bytes [] = inr refl
serve-all [] (n ∷ wanted) = inl refl
serve-all (b ∷ bytes) (n ∷ wanted) = elim (serve-all (drop n (b ∷ bytes)) wanted) [
  | inl none_left ↦ inl none_left
  | inr all ↦ inr (ap suc all)
]

-- The outcome of a write of `new` to the fifo, for the queue of its readers.
pub record Written (key fm : ℕ) (s : System) (queue : Queue) (new : List ℕ) (given : List (List ℕ))
    (left : List ℕ) (s' : System) : Type 0 where
  pub shares :
      given ≡ (serve (contents (s.open_fifos key).c_buffer ++ new) (sizes s.requests queue)).0
  pub rest_left :
      left ≡ (serve (contents (s.open_fifos key).c_buffer ++ new) (sizes s.requests queue)).1
  pub all_bytes : concat given ++ left ≡ contents (s.open_fifos key).c_buffer ++ new
  pub delivered : Delivered s.requests s'.requests queue given
  pub woken_up : s'.kernel.processes ≡ woken s.requests queue given s.kernel.processes
  pub valid : IsValid (s'.open_fifos key).c_buffer
  pub remaining : contents (s'.open_fifos key).c_buffer ≡ left
  pub waiting : (s'.open_fifos key).read_queue ≡ drop (length given) queue
  pub idle : (left ≡ []) ⊎ ((s'.open_fifos key).read_queue ≡ [])
  pub free : (s'.kernel.open_mutexes fm).lock ≡ unlocked
  pub other_fifos : (j : ℕ) → (j == key) ≡ false → s'.open_fifos j ≡ s.open_fifos j

length-sizes :
    (requests : ℕ → ReadRequest) (queue : Queue) → length (sizes requests queue) ≡ length queue
length-sizes requests [] = refl
length-sizes requests ((node, r) ∷ queue) = ap suc (length-sizes requests queue)

drop-all {ℓ} : {A : Type ℓ} (n : ℕ) (xs : List A) → n ≡ length xs → drop n xs ≡ []
drop-all zero [] h = refl
drop-all zero (x ∷ xs) h = absurd (omega arith)
drop-all (suc n) [] h = refl
drop-all (suc n) (x ∷ xs) h = drop-all n xs (omega arith)

-- What a fifo is before a write: it is open, its mutex is free, the buffer is valid, and the readers
-- have room for what they want.
pub record IsIdle (mem fm key : ℕ) (queue : Queue) (s : System) : Type 0 where
  pub is_up : fifo_is_open (pos key) s ≡ some true
  pub free : IsFree mem fm key s
  pub valid : IsValid (s.open_fifos key).c_buffer
  pub readers : (s.open_fifos key).read_queue ≡ queue
  pub ready : Ready key s.requests queue
  pub distinct : Distinct (requests_of queue)

pub positive : (bytes : ℕ) → 0 < bytes → is_positive (pos bytes) ≡ true
positive zero h = absurd (omega arith)
positive (suc bytes) h = refl

-- A write to an idle fifo with a free slot, of at least one byte and with as many source bytes as are
-- taken, returns the least of the count and the free slots. These bytes join those held, and go to
-- the readers in front, each of which gets what it wanted or all that is left and is unblocked in its
-- turn; no byte is lost, and bytes stay in the fifo only when no one waits. The mutex of the fifo is
-- free and no other fifo has changed.
pub fifo_write-Written :
    (n mem fm key : ℕ) (queue : Queue) (s : System) (source_at : ℕ) (source : List ℕ) (bytes : ℕ)
    → IsIdle mem fm key queue s
    → 0 < bytes
    → (s.open_fifos key).c_buffer.buf_fill + bytes < 2 ^ 31
    → (s.open_fifos key).c_buffer.buf_fill < buf_size
    → min bytes (buf_size - (s.open_fifos key).c_buffer.buf_fill) ≤ length source
    → (s' : System) × (given : List (List ℕ)) × (left : List ℕ) × (fifo_write
          (mutex_ops (suc n))
          (pos key)
          source_at
          source
          (pos bytes)
          s
        ≡ returned (pos (min bytes (buf_size - (s.open_fifos key).c_buffer.buf_fill))) s')
      × Written key fm s queue
          (take (min bytes (buf_size - (s.open_fifos key).c_buffer.buf_fill)) source)
          given
          left
          s'
unfolding fifo_write
fifo_write-Written n mem fm key queue s source_at source bytes i some_byte small room enough =
    let old : CircularBuffer = (s.open_fifos key).c_buffer in
    let count : ℕ = min bytes (buf_size - old.buf_fill) in
    let held : List ℕ = contents old ++ take count source in
    let wanted : List ℕ = sizes s.requests queue in
    let (c, wrote, w) =
      write_circular_buffer-Wrote old source_at source bytes i.valid small some_byte room enough in
    let t : System = at_fifo (λ f. record f { c_buffer = c }) key (taken n mem fm key s i.free) in
    let there : (key == key) ≡ true = ground arith in
    let (u, sent, v) =
      send_to_readers-Served n mem key (suc (length queue)) queue t held (omega arith)
        (taken-Calm n mem fm key s i.free) (rw there w.valid) (rw there i.readers) i.ready
        i.distinct (rw there w.appended) in
    let mutex : (u.open_fifos key).fifo_mutex_key ≡ pos fm =
      v.alike.mutex ∙ (rw there i.free.mutex_key) in
    let given : List (List ℕ) = (serve held wanted).0 in
    let left : List ℕ = (serve held wanted).1 in
    (
      record u { kernel = with_lock unlocked fm u.kernel },
      given,
      left,
      rw
          (
            i.is_up,
            positive bytes some_byte,
            locks n mem fm key s i.free,
            wrote,
            ap (λ (q : Queue). length q) i.readers,
            sent,
            unlocks n mem fm key s i.free u v.alike.mutexes mutex,
          )
          refl,
      record {
        shares = refl;
        rest_left = refl;
        all_bytes = serve-concat held wanted;
        delivered = v.delivered;
        woken_up = v.processes;
        valid = v.valid;
        remaining = v.remaining;
        waiting = v.waiting;
        idle = elim (serve-all held wanted) [
          | inl none_left ↦ inl none_left
          | inr all ↦
              inr (v.waiting ∙ drop-all (length given) queue (all ∙ length-sizes s.requests queue))
        ];
        free = ground arith;
        other_fifos = λ j ne. v.alike.others j ne ∙ (rw ne refl);
      },
    )
