-- ===== src/Fifo/Files.antt =====
-- Kernel/fifo.c: opening and closing fifos, and the list of the open ones.
use tpe.Base.{ℕ, zero, suc, ◌+◌, List, [], ◌∷◌, ◌==◌, ltb, if◌then◌else◌, length, codes}
use tpe.Base.Int.{ℤ, pos}
use tpe.Process.{modify, set_file_open}
use tpe.Kernel.{open_state, closed_state}
use tpe.Mutex.{Ops, get_page, store_page}
use tpe.Mutex.Open.{is_zero, Slot, named, unused, full, open_body}
use tpe.CircularBuffer.{create_circular_buffer}
use tpe.Strings.{strcmp}
use tpe.Fifo.{
  System, Fifo, faulty, F, pure, ◌>>=◌, ◌>>◌, get, update, lift, known, at_fifo, with_processes,
  current_process, fifo_is_open, index, lock, unlock, max_fifos, fifo_name_len, file_descriptors,
  fifo_not_open_error, max_fifos_open_error,
}
use tpe.Fifo.Readers.{release_readers}

-- The loop of `fifo_open` at `k` with `n` rounds left.
unfoldable pub find_fifo : List ℕ → ℕ → ℕ → System → Slot
find_fifo name zero k s = full
find_fifo name (suc n) k s =
    let rest = find_fifo name n (k + 1) s in
    if (s.open_fifos k).state == open_state
    then if is_zero (strcmp name (s.open_fifos k).name) then named k else rest
    else unused k

-- `set_file_open(get_current_process(), k)`
unfoldable pub open_file : ℕ → F (Unit {0})
open_file k = do
  s ← get
  (done, p) ← known (set_file_open k (s.kernel.processes (current_process s)))
  update (with_processes (modify (λ _. p) (current_process s)))

-- The loop of `get_fifos_info`: the names and the descriptors.
unfoldable pub fifo_info_loop : ℕ → ℕ → System → List (List ℕ × ℕ)
fifo_info_loop zero i s = []
fifo_info_loop (suc n) i s =
    let rest = fifo_info_loop n (i + 1) s in
    if (s.open_fifos i).state == open_state
    then ((s.open_fifos i).name, i + file_descriptors) ∷ rest
    else rest

module _ (ops : Ops) where
  unfoldable pub initialize_fifo_mutex : F (Unit {0})
  initialize_fifo_mutex = do
    key ← lift (open_body ops (codes "__FIFO_ARRAY_MUTEX__"))
    update (λ s. record s { fifo_array_lock = key })

  -- The guarded part of `fifo_close`; the queue is empty when it is destroyed.
  close_fifo : ℕ → F ℤ
  close_fifo key = do
    s ← get
    release_readers ops key (suc (length (s.open_fifos key).read_queue))
    lift (store_page ops (s.open_fifos key).queue_page)
    update (at_fifo (λ f. record f { state = closed_state }) key)
    unlock ops s.fifo_array_lock
    pure (pos 1)

  unfoldable pub fifo_close : ℤ → F ℤ
  unfolding close_fifo
  fifo_close key = do
    s ← get
    lock ops s.fifo_array_lock
    s ← get
    is_up ← known (fifo_is_open key s)
    if is_up
        then close_fifo (index key)
        else (do unlock ops s.fifo_array_lock; pure fifo_not_open_error)

  unfoldable pub get_fifos_info : F (List (List ℕ × ℕ))
  get_fifos_info = do
    s ← get
    lock ops s.fifo_array_lock
    s ← get
    unlock ops s.fifo_array_lock
    pure (fifo_info_loop max_fifos 0 s)

  -- The array of a new fifo's buffer holds what the stack held.
  module _ (junk : List ℕ) where
    unfoldable pub create_new_fifo : ℕ → List ℕ → F Fifo
    create_new_fifo k name =
        if ltb (length name) fifo_name_len
        then (do
          key ← lift (open_body ops name)
          q ← lift (get_page ops)
          s ← get
          pure (record {
            name = name;
            c_buffer = create_circular_buffer (s.open_fifos k).c_buffer.address junk;
            state = open_state;
            fifo_mutex_key = key;
            read_queue = [];
            queue_page = q;
          }))
        else λ _. faulty

    -- The rest of `fifo_open` after its loop.
    open_fifo_at : List ℕ → Slot → F ℤ
    open_fifo_at name (named k) = do
      open_file k
      s ← get
      unlock ops s.fifo_array_lock
      pure (pos k)
    open_fifo_at name full = do s ← get; unlock ops s.fifo_array_lock; pure max_fifos_open_error
    open_fifo_at name (unused k) = do
      f ← create_new_fifo k name
      update (at_fifo (λ _. f) k)
      s ← get
      unlock ops s.fifo_array_lock
      open_file k
      pure (pos k)

    unfoldable pub fifo_open : List ℕ → F ℤ
    unfolding open_fifo_at
    fifo_open name = do
      s ← get
      lock ops s.fifo_array_lock
      s ← get
      open_fifo_at name (find_fifo name max_fifos 0 s)
