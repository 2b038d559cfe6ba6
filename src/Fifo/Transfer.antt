-- ===== src/Fifo/Transfer.antt =====
-- Kernel/fifo.c: writing to a fifo and reading from it.
use tpe.Base.{ℕ, suc, Bool, true, false, ◌&&◌, List, if◌then◌else◌, length}
use tpe.Base.Int.{ℤ, pos, is_positive}
use tpe.Process.{block_process}
use tpe.Kernel.{give_time}
use tpe.Mutex.{Ops, get_page, store_page}
use tpe.Mutex.Open.{is_empty}
use tpe.CircularBuffer.{write_circular_buffer}
use tpe.Fifo.{
  yielding, F, pure, ◌>>=◌, ◌>>◌, get, update, lift, known, at_fifo, at_request, with_processes,
  current_process, fifo_is_open, index, lock, unlock, fifo_not_open_error,
}
use tpe.Fifo.Readers.{try_read, enqueue_reader, send_to_readers}

module _ (ops : Ops) where
  -- `fifo_write` of the array `source` that lies at `source_at`; `bytes` is the `int`.
  write_open : ℕ → ℕ → List ℕ → ℕ → F ℤ
  write_open key source_at source bytes = do
    s ← get
    lock ops (s.open_fifos key).fifo_mutex_key
    s ← get
    (write_bytes, c) ←
        known (write_circular_buffer (s.open_fifos key).c_buffer source_at source bytes)
    update (at_fifo (λ f. record f { c_buffer = c }) key)
    send_to_readers ops key (suc (length (s.open_fifos key).read_queue))
    s ← get
    unlock ops (s.open_fifos key).fifo_mutex_key
    pure (pos write_bytes)

  unfoldable pub fifo_write : ℤ → ℕ → List ℕ → ℤ → F ℤ
  unfolding write_open
  fifo_write key source_at source bytes = do
    s ← get
    is_up ← known (fifo_is_open key s)
    if is_up && is_positive bytes
        then write_open (index key) source_at source (index bytes)
        else (if is_positive bytes then pure fifo_not_open_error else pure (pos 0))

  -- `create_read_request`
  unfoldable pub create_read_request : ℕ → ℕ → List ℕ → ℕ → F ℕ
  create_read_request key buffer_at buffer bytes = do
    r ← lift (get_page ops)
    s ← get
    update (
        at_request
          (λ q. record q {
            bytes = bytes;
            buffer_at = buffer_at;
            buffer = buffer;
            f = key;
            reader_p = current_process s;
          })
          r)
    pure r

  -- What `fifo_read` does when it has read, at once or when it runs again.
  unfoldable pub fifo_read_end : ℤ → ℕ → F ℤ
  fifo_read_end key r = do
    s ← get
    is_up ← known (fifo_is_open key s)
    if is_up
        then (do lift (store_page ops r); pure (pos (s.requests r).bytes_read))
        else pure fifo_not_open_error

  -- The two branches of `fifo_read` on `could_read`.
  read_or_wait : ℤ → ℕ → Bool → F ℤ
  read_or_wait key r true = do
    s ← get
    unlock ops (s.open_fifos (index key)).fifo_mutex_key
    fifo_read_end key r
  read_or_wait key r false = do
    enqueue_reader ops (index key) r
    s ← get
    unlock ops (s.open_fifos (index key)).fifo_mutex_key
    s ← get
    update (with_processes (block_process (s.requests r).reader_p))
    λ s. yielding (record s { kernel = give_time s.kernel })

  read_open : ℤ → ℕ → List ℕ → ℕ → F ℤ
  unfolding read_or_wait
  read_open key buffer_at buffer bytes = do
    r ← create_read_request (index key) buffer_at buffer bytes
    s ← get
    lock ops (s.open_fifos (index key)).fifo_mutex_key
    s ← get
    could_read ← if is_empty (s.open_fifos (index key)).read_queue then try_read r else pure false
    read_or_wait key r could_read

  unfoldable pub fifo_read : ℤ → ℕ → List ℕ → ℤ → F ℤ
  unfolding read_open
  fifo_read key buffer_at buffer bytes = do
    s ← get
    is_up ← known (fifo_is_open key s)
    if is_up && is_positive bytes
        then read_open key buffer_at buffer (index bytes)
        else pure (pos 0)
