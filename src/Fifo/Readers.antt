-- ===== src/Fifo/Readers.antt =====
-- Kernel/fifo.c: the queue of the processes that wait to read from a fifo.
use tpe.Base.{ℕ, zero, suc, Bool, true, false, [], ◌∷◌, ◌++◌, ltb, if◌then◌else◌}
use tpe.Process.{unblock_process}
use tpe.Kernel.{Queue}
use tpe.Mutex.{Ops, get_page, store_page}
use tpe.Mutex.Open.{is_empty}
use tpe.CircularBuffer.{read_circular_buffer}
use tpe.Fifo.{
  fuel_out, F, pure, ◌>>=◌, ◌>>◌, get, update, lift, known, at_fifo, at_request, with_processes,
}

-- `try_read`; the result is 1 when it could read.
unfoldable pub try_read : ℕ → F Bool
try_read r = do
  s ← get
  if ltb 0 ((s.open_fifos (s.requests r).f).c_buffer).buf_fill
      then (do
        (bytes_read, buffer, c_buffer) ← known (
            read_circular_buffer (s.open_fifos (s.requests r).f).c_buffer (s.requests r).buffer_at
              (s.requests r).buffer (s.requests r).bytes)
        update (at_fifo (λ f. record f { c_buffer = c_buffer }) (s.requests r).f)
        update (at_request (λ q. record q { bytes_read = bytes_read; buffer = buffer }) r)
        pure true)
      else pure false

module _ (ops : Ops) where
  -- `dequeue(read_queue)`: the request in front; NULL when there is none.
  unlink_reader : ℕ → Queue → F ℕ
  unlink_reader key [] = pure 0
  unlink_reader key ((node, r) ∷ rest) = do
    update (at_fifo (λ f. record f { read_queue = rest }) key)
    lift (store_page ops node)
    pure r

  unfoldable pub dequeue_reader : ℕ → F ℕ
  unfolding unlink_reader
  dequeue_reader key = do s ← get; unlink_reader key (s.open_fifos key).read_queue

  -- `enqueue(f->read_queue, r)`
  unfoldable pub enqueue_reader : ℕ → ℕ → F (Unit {0})
  enqueue_reader key r = do
    new_node ← lift (get_page ops)
    update (at_fifo (λ f. record f { read_queue = f.read_queue ++ ((new_node, r) ∷ []) }) key)

  -- `unblock_process(dequeue(q)->reader_p)`
  unfoldable pub wake_reader : ℕ → F (Unit {0})
  wake_reader key = do
    r ← dequeue_reader key
    s ← get
    update (with_processes (unblock_process (s.requests r).reader_p))

  -- `!is_empty(read_queue) && try_read(peek(read_queue))`
  unfoldable pub first_can_read : Queue → F Bool
  first_can_read [] = pure false
  first_can_read ((node, r) ∷ rest) = try_read r

  -- The loop of `send_to_readers` with a bound on its rounds.
  unfoldable pub send_to_readers : ℕ → ℕ → F (Unit {0})
  send_to_readers key zero = λ _. fuel_out
  send_to_readers key (suc n) =
      let rest = wake_reader key >> send_to_readers key n in
      do
        s ← get
        could_read ← first_can_read (s.open_fifos key).read_queue
        if could_read then rest else pure tt

  -- The loop of `release_readers` with a bound on its rounds.
  unfoldable pub release_readers : ℕ → ℕ → F (Unit {0})
  release_readers key zero = λ _. fuel_out
  release_readers key (suc n) =
      let rest = wake_reader key >> release_readers key n in
      do s ← get; if is_empty (s.open_fifos key).read_queue then pure tt else rest
