-- ===== src/Fifo/Serve.antt =====
-- `send_to_readers` of Kernel/fifo.c: who reads what from the fifo.
use mathlib.Core.Path.{subst}
use tpe.Base.{
  ℕ, ◌≤◌, ◌<◌, ◌≡◌, refl, sym, ◌∙◌, ap, ap₂, false, List, [], ◌∷◌, ◌++◌, ◌==◌, length, take, drop,
}
use tpe.Links.{NotIn}
use tpe.CircularBuffer.Inv.{IsValid, contents}
use tpe.Process.{Store, unblock_process}
use tpe.Kernel.{Queue}
use tpe.Fifo.{System, ReadRequest}

-- The requests of a queue, first one first.
abbrev pub requests_of : Queue → List ℕ
requests_of [] = []
requests_of ((node, r) ∷ queue) = r ∷ requests_of queue

-- How many bytes each wants.
abbrev pub sizes : (ℕ → ReadRequest) → Queue → List ℕ
sizes requests [] = []
sizes requests ((node, r) ∷ queue) = (requests r).bytes ∷ sizes requests queue

-- What readers who want so many bytes get of `bytes`, one after the other while there are any, and
-- what is left.
unfoldable pub serve : List ℕ → List ℕ → List (List ℕ) × List ℕ
serve bytes [] = ([], bytes)
serve [] (n ∷ wanted) = ([], [])
serve (b ∷ bytes) (n ∷ wanted) =
    let rest = serve (drop n (b ∷ bytes)) wanted in (take n (b ∷ bytes) ∷ rest.0, rest.1)

-- Each request of the queue is for this fifo, wants a byte at least and has room for what it wants.
abbrev pub Ready : ℕ → (ℕ → ReadRequest) → Queue → Type 0
Ready key requests [] = Unit {0}
Ready key requests ((node, r) ∷ queue) =
    ((requests r).f ≡ key)
    × (0 < (requests r).bytes)
    × ((requests r).bytes ≤ length (requests r).buffer)
    × Ready key requests queue

-- The requests in front have been given their bytes.
abbrev pub Delivered : (before after : ℕ → ReadRequest) → Queue → List (List ℕ) → Type 0
Delivered before after queue [] = Unit {0}
Delivered before after [] (g ∷ given) = ⊥
Delivered before after ((node, r) ∷ queue) (g ∷ given) =
    (after r ≡ record (before r) {
      bytes_read = length g;
      buffer = g ++ drop (length g) (before r).buffer;
    })
    × Delivered before after queue given

-- The processes after those of the requests in front, one for each of `given`, were unblocked.
abbrev pub woken : (ℕ → ReadRequest) → Queue → List (List ℕ) → Store → Store
woken requests queue [] p = p
woken requests [] (g ∷ given) p = p
woken requests ((node, r) ∷ queue) (g ∷ given) p =
    woken requests queue given (unblock_process (requests r).reader_p p)

-- Two memories that have the same requests of the queue.
abbrev pub Agree : (before after : ℕ → ReadRequest) → Queue → Type 0
Agree before after [] = Unit {0}
Agree before after ((node, r) ∷ queue) = (after r ≡ before r) × Agree before after queue

module _ (before after : ℕ → ReadRequest) where
  pub Agree-NotIn :
      (r : ℕ) (queue : Queue)
      → ((q : ℕ) → (q == r) ≡ false → after q ≡ before q)
      → NotIn r (requests_of queue)
      → Agree before after queue
  Agree-NotIn r [] same out = tt
  Agree-NotIn r ((node, q) ∷ queue) same out = (same q out.0, Agree-NotIn r queue same out.1)

  pub Agree-sizes :
      (queue : Queue) → Agree before after queue → sizes after queue ≡ sizes before queue
  Agree-sizes [] h = refl
  Agree-sizes ((node, r) ∷ queue) h =
      ap₂ ◌∷◌ (ap (λ (q : ReadRequest). q.bytes) h.0) (Agree-sizes queue h.1)

  pub Agree-Ready :
      (key : ℕ) (queue : Queue)
      → Agree before after queue
      → Ready key before queue
      → Ready key after queue
  Agree-Ready key [] h k = tt
  Agree-Ready key ((node, r) ∷ queue) h k =
      let more = Agree-Ready key queue h.1 k.3 in
      subst
        (λ (q : ReadRequest).
          (q.f ≡ key) × (0 < q.bytes) × (q.bytes ≤ length q.buffer) × Ready key after queue)
        (sym h.0) (k.0, k.1, k.2, more)

  pub Agree-woken :
      (queue : Queue) (given : List (List ℕ)) (p : Store)
      → Agree before after queue
      → woken after queue given p ≡ woken before queue given p
  Agree-woken queue [] p h = refl
  Agree-woken [] (g ∷ given) p h = refl
  Agree-woken ((node, r) ∷ queue) (g ∷ given) p h =
      Agree-woken queue given (unblock_process (after r).reader_p p) h.1
      ∙ ap (λ (q : ReadRequest). woken before queue given (unblock_process q.reader_p p)) h.0

  pub Agree-Delivered :
      (last : ℕ → ReadRequest) (queue : Queue) (given : List (List ℕ))
      → Agree before after queue
      → Delivered after last queue given
      → Delivered before last queue given
  Agree-Delivered last queue [] h d = tt
  Agree-Delivered last [] (g ∷ given) h d = d
  Agree-Delivered last ((node, r) ∷ queue) (g ∷ given) h d = (
    d.0
        ∙ ap
            (λ (q : ReadRequest). record q {
              bytes_read = length g;
              buffer = g ++ drop (length g) q.buffer;
            })
            h.0,
    Agree-Delivered last queue given h.1 d.1,
  )

-- All that a round of the loop leaves alone.
pub record Alike (key : ℕ) (s s' : System) : Type 0 where
  pub mutexes : s'.kernel.open_mutexes ≡ s.kernel.open_mutexes
  pub memory : s'.kernel.memory_mutex_key ≡ s.kernel.memory_mutex_key
  pub state : (s'.open_fifos key).state ≡ (s.open_fifos key).state
  pub mutex : (s'.open_fifos key).fifo_mutex_key ≡ (s.open_fifos key).fifo_mutex_key
  pub others : (j : ℕ) → (j == key) ≡ false → s'.open_fifos j ≡ s.open_fifos j
  pub array_lock : s'.fifo_array_lock ≡ s.fifo_array_lock

pub Alike-trans : (key : ℕ) (s t u : System) → Alike key s t → Alike key t u → Alike key s u
Alike-trans key s t u a b = record {
  mutexes = b.mutexes ∙ a.mutexes;
  memory = b.memory ∙ a.memory;
  state = b.state ∙ a.state;
  mutex = b.mutex ∙ a.mutex;
  others = λ j ne. b.others j ne ∙ a.others j ne;
  array_lock = b.array_lock ∙ a.array_lock;
}

pub record Served (key : ℕ) (s : System) (queue : Queue) (given : List (List ℕ)) (left : List ℕ)
    (s' : System) : Type 0 where
  pub valid : IsValid (s'.open_fifos key).c_buffer
  pub remaining : contents (s'.open_fifos key).c_buffer ≡ left
  pub waiting : (s'.open_fifos key).read_queue ≡ drop (length given) queue
  pub delivered : Delivered s.requests s'.requests queue given
  pub processes : s'.kernel.processes ≡ woken s.requests queue given s.kernel.processes
  pub untouched : (r : ℕ) → NotIn r (requests_of queue) → s'.requests r ≡ s.requests r
  pub alike : Alike key s s'
