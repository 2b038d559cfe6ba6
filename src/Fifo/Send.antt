-- ===== src/Fifo/Send.antt =====
-- All rounds of `send_to_readers` of Kernel/fifo.c.
use mathlib.Core.Path.{subst}
use tpe.Base.{
  ℕ, zero, suc, ◌<◌, ◌≡◌, refl, sym, ◌∙◌, ap, ap₂, List, [], ◌∷◌, ◌++◌, length, take, drop, min,
  arith, length-take,
}
use tpe.Links.{NotIn, Distinct, flip}
use tpe.CircularBuffer.{CircularBuffer}
use tpe.CircularBuffer.Inv.{IsValid, contents}
use tpe.CircularBuffer.Read.{read_circular_buffer-Read}
use tpe.Kernel.{Queue}
use tpe.Mutex.{mutex_ops}
use tpe.Mutex.Pages.{Calm}
use tpe.Fifo.{System, returned}
use tpe.Fifo.Readers.{send_to_readers}
use tpe.Fifo.Serve.{
  requests_of, sizes, serve, Ready, woken, Agree, Agree-NotIn, Agree-sizes, Agree-Ready,
  Agree-woken, Agree-Delivered, Alike-trans, Served,
}
use tpe.Fifo.Round.{
  length-contents, take-min, drop-min, read_by, released, wake_reader-released, try_read-read_by,
  send_to_readers-empty, send_to_readers-nobody, send_to_readers-round, Round, self, released-Round,
  Calm-Alike,
}

module _ (n mem key : ℕ) where
  -- One reader is served.
  serve_first :
      (fuel node r : ℕ) (rest : Queue) (s : System)
      → Calm mem s.kernel
      → IsValid (s.open_fifos key).c_buffer
      → (s.open_fifos key).read_queue ≡ (node, r) ∷ rest
      → Ready key s.requests ((node, r) ∷ rest)
      → 0 < (s.open_fifos key).c_buffer.buf_fill
      → (s' : System) × (c : CircularBuffer) × (send_to_readers (mutex_ops (suc n)) key (suc fuel) s
          ≡ send_to_readers (mutex_ops (suc n)) key fuel s')
        × Round key r rest c (take (s.requests r).bytes (contents (s.open_fifos key).c_buffer)) s s'
        × IsValid c
        × (contents c ≡ drop (s.requests r).bytes (contents (s.open_fifos key).c_buffer))
  serve_first fuel node r rest s calm valid e ready filled =
      let old : CircularBuffer = (s.open_fifos key).c_buffer in
      let wanted : ℕ = (s.requests r).bytes in
      let (out, c, ran, done) =
        read_circular_buffer-Read old (s.requests r).buffer_at (s.requests r).buffer wanted valid
          ready.1 filled (omega (arith, ready.2)) in
      let taken : take (min wanted old.buf_fill) (contents old) ≡ take wanted (contents old) =
        take-min wanted old.buf_fill (contents old) (length-contents old) in
      let size : min wanted old.buf_fill ≡ length (take wanted (contents old)) =
        omega (arith, length-take {0} wanted (contents old), length-contents old) in
      let s1 : System = read_by key r c (min wanted old.buf_fill) out s in
      let (a, wakes) = wake_reader-released n mem key node r rest s1 calm (rw (self key) e) in
      (
        released key r rest a s1,
        c,
        send_to_readers-round n mem key fuel node r rest s s1 (released key r rest a s1) e
            (try_read-read_by n mem key r s c (min wanted old.buf_fill) out ready.0 filled ran)
            wakes,
        released-Round key r rest a c (min wanted old.buf_fill) out (take wanted (contents old)) s
            size (done.given ∙ ap₂ ◌++◌ taken (ap (λ k. drop k (s.requests r).buffer) size)),
        done.valid,
        done.left ∙ drop-min wanted old.buf_fill (contents old) (length-contents old),
      )

  nothing_Served :
      (queue : Queue) (s : System)
      → IsValid (s.open_fifos key).c_buffer
      → (s.open_fifos key).read_queue ≡ queue
      → (left : List ℕ) → contents (s.open_fifos key).c_buffer ≡ left
      → Served key s queue [] left s
  nothing_Served queue s valid e left f = record {
    valid = valid;
    remaining = f;
    waiting = e;
    delivered = tt;
    processes = refl;
    untouched = λ r out. refl;
    alike = record {
      mutexes = refl;
      memory = refl;
      state = refl;
      mutex = refl;
      others = λ j ne. refl;
      array_lock = refl;
    };
  }

  -- A round, and then the others.
  Round-Served :
      (node r : ℕ) (rest : Queue) (c : CircularBuffer) (g : List ℕ) (given : List (List ℕ))
      (left : List ℕ) (s t s' : System)
      → NotIn r (requests_of rest)
      → Round key r rest c g s t
      → Served key t rest given left s'
      → Served key s ((node, r) ∷ rest) (g ∷ given) left s'
  Round-Served node r rest c g given left s t s' out one more =
      let agree : Agree s.requests t.requests rest =
        Agree-NotIn s.requests t.requests r rest one.other out in
      record {
        valid = more.valid;
        remaining = more.remaining;
        waiting = more.waiting;
        delivered = (
          more.untouched r out ∙ one.reader,
          Agree-Delivered s.requests t.requests s'.requests rest given agree more.delivered,
        );
        processes =
            more.processes
            ∙ Agree-woken s.requests t.requests rest given t.kernel.processes agree
            ∙ ap (woken s.requests rest given) one.processes;
        untouched = λ q away. more.untouched q away.1 ∙ one.other q (flip r q away.0);
        alike = Alike-trans key s t s' one.alike more.alike;
      }

  -- The loop ends within a round for each reader and one more. The bytes of the fifo have been given
  -- to the readers in front, each as many as it wanted or all that were left, until there were none
  -- or no one; these readers are out of the queue and their processes unblocked, in their order. The
  -- others wait on, no request of another queue and no other fifo has changed, and no mutex.
  pub send_to_readers-Served :
      (fuel : ℕ) (queue : Queue) (s : System) (bytes : List ℕ)
      → length queue < fuel
      → Calm mem s.kernel
      → IsValid (s.open_fifos key).c_buffer
      → (s.open_fifos key).read_queue ≡ queue
      → Ready key s.requests queue
      → Distinct (requests_of queue)
      → contents (s.open_fifos key).c_buffer ≡ bytes
      → (s' : System) × (send_to_readers (mutex_ops (suc n)) key fuel s ≡ returned tt s')
        × Served key s queue
            (serve bytes (sizes s.requests queue)).0
            (serve bytes (sizes s.requests queue)).1
            s'
  unfolding serve
  send_to_readers-Served zero queue s bytes h calm valid e ready apart held = absurd (omega arith)
  send_to_readers-Served (suc fuel) [] s bytes h calm valid e ready apart held =
      (s, send_to_readers-nobody n mem key fuel s e, nothing_Served [] s valid e bytes held)
  send_to_readers-Served (suc fuel) ((node, r) ∷ rest) s [] h calm valid e ready apart held = (
    s,
    send_to_readers-empty n mem key fuel ((node, r) ∷ rest) s e ready
        (sym (length-contents (s.open_fifos key).c_buffer) ∙ ap length held),
    nothing_Served ((node, r) ∷ rest) s valid e [] held,
  )
  send_to_readers-Served (suc fuel) ((node, r) ∷ rest) s (b ∷ bytes) h calm valid e ready apart
        held =
      let filled : 0 < (s.open_fifos key).c_buffer.buf_fill =
        omega (
          arith,
          ap (λ (l : List ℕ). length l) held,
          length-contents (s.open_fifos key).c_buffer,
        ) in
      let (t, c, ran, one, valid', left) =
        serve_first fuel node r rest s calm valid e ready filled in
      let one' : Round key r rest c (take (s.requests r).bytes (b ∷ bytes)) s t =
        subst (λ l. Round key r rest c (take (s.requests r).bytes l) s t) held one in
      let agree : Agree s.requests t.requests rest =
        Agree-NotIn s.requests t.requests r rest one.other apart.0 in
      let (s', ran', more) =
        send_to_readers-Served fuel rest t (drop (s.requests r).bytes (b ∷ bytes)) (omega arith)
          (Calm-Alike mem key s t one.alike calm) (rw one.buffer valid') one.queue
          (Agree-Ready s.requests t.requests key rest agree ready.3) apart.1
          (ap contents one.buffer ∙ left ∙ ap (drop (s.requests r).bytes) held) in
      (
        s',
        ran ∙ ran',
        Round-Served node r rest c (take (s.requests r).bytes (b ∷ bytes)) _ _ s t s' apart.0 one' (
            subst
              (λ l.
                Served key t rest (serve (drop (s.requests r).bytes (b ∷ bytes)) l).0
                  (serve (drop (s.requests r).bytes (b ∷ bytes)) l).1 s')
              (Agree-sizes s.requests t.requests rest agree) more),
      )
