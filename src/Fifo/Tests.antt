-- ===== src/Fifo/Tests.antt =====
-- The theorems on Kernel/fifo.c at a kernel with an open fifo.
use tpe.Base.{
  ℕ, ◌-◌, ◌≡◌, refl, inl, true, false, some, List, [], ◌∷◌, replicate, min, take, ◌==◌, arith,
  if◌then◌else◌,
}
use tpe.Base.Int.{pos}
use tpe.Process.{block_process, Status, Store, file_is_open, bit_mask, meets}
use tpe.Links.{Distinct}
use tpe.CircularBuffer.{CircularBuffer, buf_size}
use tpe.CircularBuffer.Inv.{IsValid, contents}
use tpe.Allocator.{Allocator, pop_page}
use tpe.Kernel.{Kernel, Queue, open_state}
use tpe.Sample.{sample, process_in}
use tpe.Mutex.{mutex_ops, is_open}
use tpe.Mutex.Pages.{Calm}
use tpe.Fifo.{System, Fifo, ReadRequest, returned, yielding, fifo_is_open, current_process}
use tpe.Fifo.Readers.{send_to_readers}
use tpe.Fifo.Transfer.{fifo_write, fifo_read}
use tpe.Fifo.Serve.{Served, Ready, sizes, serve, requests_of}
use tpe.Fifo.Send.{send_to_readers-Served}
use tpe.Fifo.Held.{IsFree}
use tpe.Fifo.Write.{IsIdle, Written, fifo_write-Written}
use tpe.Fifo.Read.{Waits, request_for, fifo_read-Waits}
use tpe.Fifo.Exchange.{Alone, Received, fifo_write-Received}
use tpe.Fifo.Close.{CanClose, Closed, fifo_close-Closed}
use tpe.Fifo.Files.{fifo_close}

-- Every process has the fifo 0 open.
abbrev processes : Store
processes p = record (process_in (if p == 0x800 then Status.blocked else Status.ready) 9) {
  open_fds = true ∷ replicate 63 false;
}

abbrev kernel : Kernel
kernel = record sample { processes = processes }

-- Nothing is held, and the next byte goes to the last place.
abbrev empty : CircularBuffer
empty = record {
  address = 0x600000;
  buffer = replicate 1024 7;
  free_slot = 1023;
  current = 1023;
  buf_fill = 0;
}

empty-IsValid : IsValid empty
empty-IsValid = record { size = refl; current_in = omega arith; fill_in = omega arith; slot = refl }

-- Four bytes are held, the last two at the start of the array.
abbrev four_held : CircularBuffer
four_held = record empty { free_slot = 2; current = 1022; buf_fill = 4 }

four_held-IsValid : IsValid four_held
four_held-IsValid = record {
  size = refl;
  current_in = omega arith;
  fill_in = omega arith;
  slot = refl;
}

abbrev fifo : Queue → CircularBuffer → Fifo
fifo queue c = record {
  name = 97 ∷ [];
  c_buffer = c;
  state = open_state;
  fifo_mutex_key = pos 5;
  read_queue = queue;
  queue_page = 0x512000;
}

-- A request for three bytes at each page.
abbrev request : ℕ → ReadRequest
request r = record {
  bytes = 3;
  bytes_read = 0;
  buffer_at = 0x700000;
  buffer = 0 ∷ 0 ∷ 0 ∷ 0 ∷ [];
  f = 0;
  reader_p = 0x800;
}

abbrev system : Queue → System
system queue = record {
  kernel = kernel;
  open_fifos = λ key. fifo queue empty;
  requests = request;
  fifo_array_lock = pos 6;
}

abbrev readers : Queue
readers = (0x505000, 0x506000) ∷ (0x507000, 0x508000) ∷ []

abbrev to_send : System
to_send = record (system readers) { open_fifos = λ key. fifo readers four_held }

calm : Calm 0 kernel
unfolding is_open
calm = record { key = refl; is_up = refl; free = refl; no_one = refl }

system-IsFree : (queue : Queue) → IsFree 0 5 0 (system queue)
unfolding is_open
system-IsFree queue = record {
  mutex_key = refl;
  mutex_up = refl;
  mutex_free = refl;
  no_one = refl;
  apart = omega arith;
  calm = calm;
}

zero_open : fifo_is_open (pos 0) (system readers) ≡ some true
unfolding fifo_is_open file_is_open bit_mask meets
zero_open = refl

zero_open_empty : fifo_is_open (pos 0) (system []) ≡ some true
unfolding fifo_is_open file_is_open bit_mask meets
zero_open_empty = refl

waiting-Ready : Ready 0 request readers
waiting-Ready = (refl, omega arith, omega arith, (refl, omega arith, omega arith, tt))

waiting-Distinct : Distinct (requests_of readers)
waiting-Distinct = ((refl, tt), (tt, tt))

readers-IsIdle : IsIdle 0 5 0 readers (system readers)
readers-IsIdle = record {
  is_up = zero_open;
  free = system-IsFree readers;
  valid = empty-IsValid;
  readers = refl;
  ready = waiting-Ready;
  distinct = waiting-Distinct;
}

-- Four bytes for two readers who want three each.
fifo_write-Written_example :
    (s' : System) × (given : List (List ℕ)) × (left : List ℕ) × (fifo_write
        (mutex_ops 1)
        (pos 0)
        0x710000
        (1 ∷ 2 ∷ 3 ∷ 4 ∷ [])
        (pos 4)
        (system readers)
      ≡ returned (pos (min 4 (buf_size - 0))) s')
    × Written 0 5 (system readers) readers (1 ∷ 2 ∷ 3 ∷ 4 ∷ []) given left s'
fifo_write-Written_example =
    fifo_write-Written 0 0 5 0 readers (system readers) 0x710000 (1 ∷ 2 ∷ 3 ∷ 4 ∷ []) 4
      readers-IsIdle (omega arith) (omega arith) (omega arith) (omega arith)

nobody-IsIdle : IsIdle 0 5 0 [] (system [])
nobody-IsIdle = record {
  is_up = zero_open_empty;
  free = system-IsFree [];
  valid = empty-IsValid;
  readers = refl;
  ready = tt;
  distinct = tt;
}

abbrev one_taken : Allocator
one_taken = record sample.allocator { current_index = 3 }

abbrev two_taken : Allocator
two_taken = record sample.allocator { current_index = 4 }

first_page : pop_page kernel.allocator ≡ some (0x503000, one_taken)
unfolding pop_page
first_page = refl

second_page : pop_page one_taken ≡ some (0x504000, two_taken)
unfolding pop_page
second_page = refl

fifo_read-Waits_example :
    (s' : System) × (fifo_read (mutex_ops 1) (pos 0) 0x720000 (0 ∷ 0 ∷ 0 ∷ []) (pos 3) (system [])
      ≡ yielding s')
    × Waits 0 5 0x504000 0x503000
        (request_for 0 0x720000 (0 ∷ 0 ∷ 0 ∷ []) 3 (current_process (system [])) (request 0x503000))
        []
        (system [])
        s'
fifo_read-Waits_example =
    fifo_read-Waits 0 0 5 0 [] (system []) nobody-IsIdle 0x503000 0x504000 one_taken two_taken
      first_page second_page 0x720000 (0 ∷ 0 ∷ 0 ∷ []) 3 (omega arith) (inl refl)

send_to_readers-Served_example :
    (s' : System) × (send_to_readers (mutex_ops 1) 0 3 to_send ≡ returned tt s')
    × Served 0 to_send readers
        (serve (contents four_held) (sizes request readers)).0
        (serve (contents four_held) (sizes request readers)).1
        s'
send_to_readers-Served_example =
    send_to_readers-Served 0 0 0 3 readers to_send (contents four_held) (omega arith) calm
      four_held-IsValid refl waiting-Ready waiting-Distinct refl

abbrev reading : ReadRequest
reading = request_for 0 0x720000 (0 ∷ 0 ∷ 0 ∷ []) 3 0x900 (request 0x503000)

-- After the read of 0x900.
abbrev after_read : System
after_read = record (system []) {
  kernel = record kernel { processes = block_process 0x900 processes };
  open_fifos = λ key. if key == 0 then fifo ((0x504000, 0x503000) ∷ []) empty else fifo [] empty;
  requests = λ r. if r == 0x503000 then reading else request r;
}

-- 0xA00 runs.
abbrev writing : System
writing = record after_read { kernel = record after_read.kernel { current = 0x522000 } }

writing_open : fifo_is_open (pos 0) writing ≡ some true
unfolding fifo_is_open file_is_open bit_mask meets block_process
writing_open = refl

writing-IsFree : IsFree 0 5 0 writing
unfolding is_open
writing-IsFree = record {
  mutex_key = refl;
  mutex_up = refl;
  mutex_free = refl;
  no_one = refl;
  apart = omega arith;
  calm = record { key = refl; is_up = refl; free = refl; no_one = refl };
}

reader-Waits : Waits 0 5 0x504000 0x503000 reading [] (system []) after_read
reader-Waits = record {
  last = refl;
  request_left = refl;
  other_requests = λ q ne. rw ne refl;
  blocked = refl;
  same_bytes = refl;
  free = refl;
  other_fifos = λ j ne. rw ne refl;
}

reader-Alone : Alone 0 5 0 0x504000 0x503000 reading (system []) writing
reader-Alone = record {
  waited = (after_read, reader-Waits, refl, refl);
  empty = refl;
  valid = empty-IsValid;
  is_up = writing_open;
  free = writing-IsFree;
  for_it = refl;
  some_byte = omega arith;
  room = omega arith;
}

fifo_write-Received_example :
    (t' : System) × (fifo_write (mutex_ops 1) (pos 0) 0x710000 (1 ∷ 2 ∷ 3 ∷ 4 ∷ []) (pos 4) writing
      ≡ returned (pos (min 4 buf_size)) t')
    × Received 0 0x503000 reading (take (min 4 buf_size) (1 ∷ 2 ∷ 3 ∷ 4 ∷ [])) writing t'
fifo_write-Received_example =
    fifo_write-Received 0 0 5 0 0x504000 0x503000 reading (system []) writing 0x710000
      (1 ∷ 2 ∷ 3 ∷ 4 ∷ []) 4 reader-Alone (omega arith) (omega arith) (omega arith)

readers-CanClose : CanClose 0 6 (system readers)
unfolding is_open
readers-CanClose = record {
  array_key = refl;
  array_up = refl;
  array_free = refl;
  no_one = refl;
  apart = omega arith;
  calm = calm;
}

fifo_close-Closed_example :
    (s' : System) × (fifo_close (mutex_ops 1) (pos 0) (system readers) ≡ returned (pos 1) s')
    × Closed 1 6 0 readers (system readers) s'
fifo_close-Closed_example =
    fifo_close-Closed 0 0 6 0 (system readers) readers-CanClose readers refl zero_open
