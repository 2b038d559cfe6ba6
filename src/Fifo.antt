-- ===== src/Fifo.antt =====
-- Kernel/fifo.c: fifos between processes, with the processes that wait to read. The functions run over
-- the mutexes and the allocator of Mutex at some depth of calls; the buffer of a fifo is that of
-- CircularBuffer. A step ends when its process returns or gives the processor away.
pub mod Readers
pub mod Transfer
pub mod Files
pub mod Serve
pub mod Round
pub mod Send
pub mod Held
pub mod Write
pub mod Read
pub mod Close
pub mod Exchange
mod Tests
use tpe.Base.{
  ℕ, zero, suc, ◌+◌, Bool, true, false, ◌&&◌, Option, none, some, List, [], ◌∷◌, ◌++◌, ◌==◌, ltb,
  if◌then◌else◌, length,
}
use tpe.Base.Int.{ℤ, pos, negsuc, is_positive}
use tpe.CircularBuffer.{CircularBuffer}
use tpe.Strings.{strcmp}
use tpe.Process.{Process, modify, block_process, unblock_process, set_file_open, file_is_open}
use tpe.Kernel.{
  Kernel, Queue, Result, ok, yielded, out_of_fuel, fault, M, get_current_process, give_time,
  open_state, closed_state,
}
use tpe.Mutex.{Ops, get_page, store_page}
use tpe.Mutex.Open.{is_zero, is_empty, Slot, named, unused, full, open_body}

abbrev pub max_fifos : ℕ
max_fifos = 128

abbrev pub fifo_name_len : ℕ
fifo_name_len = 64

abbrev pub file_descriptors : ℕ
file_descriptors = 3

abbrev pub fifo_not_open_error : ℤ
fifo_not_open_error = negsuc 0

abbrev pub max_fifos_open_error : ℤ
max_fifos_open_error = negsuc 1

-- `fifo`. The queue of readers is the list of its nodes, each with the address of a request.
pub record Fifo : Type 0 where
  pub name : List ℕ
  pub c_buffer : CircularBuffer
  pub state : ℕ
  pub fifo_mutex_key : ℤ
  pub read_queue : Queue
  pub queue_page : ℕ

-- `read_request`. `buffer` is the reader's array, which lies at `buffer_at`; `f` is the index of the
-- fifo.
pub record ReadRequest : Type 0 where
  pub bytes : ℕ
  pub bytes_read : ℕ
  pub buffer_at : ℕ
  pub buffer : List ℕ
  pub f : ℕ
  pub reader_p : ℕ

pub record System : Type 0 where
  pub kernel : Kernel
  pub open_fifos : ℕ → Fifo
  pub requests : ℕ → ReadRequest
  pub fifo_array_lock : ℤ

pub data Outcome (A : Type 0) : Type 0 where
  returned : A → System → Outcome A
  yielding : System → Outcome A
  fuel_out : Outcome A
  faulty : Outcome A

abbrev pub F : Type 0 → Type 0
F A = System → Outcome A

abbrev pub pure : {A : Type 0} → A → F A
pure a s = returned a s

abbrev pub and_then : {A B : Type 0} → Outcome A → (A → F B) → Outcome B
and_then (returned a s) f = f a s
and_then (yielding s) f = yielding s
and_then fuel_out f = fuel_out
and_then faulty f = faulty

infixl 5 ◌>>=◌ ◌>>◌
abbrev pub ◌>>=◌ : {A B : Type 0} → F A → (A → F B) → F B
◌>>=◌ m f s = and_then (m s) f

abbrev pub ◌>>◌ : {A B : Type 0} → F A → F B → F B
m >> n = m >>= λ _. n

abbrev pub get : F System
get s = returned s s

abbrev pub update : (System → System) → F (Unit {0})
update f s = returned tt (f s)

-- A step of the kernel.
abbrev pub lifted : {A : Type 0} → System → Result A → Outcome A
lifted s (ok a k) = returned a (record s { kernel = k })
lifted s (yielded k) = yielding (record s { kernel = k })
lifted s out_of_fuel = fuel_out
lifted s fault = faulty

abbrev pub lift : {A : Type 0} → M A → F A
lift m s = lifted s (m s.kernel)

-- A result, or an access that the model has no value for.
abbrev pub known : {A : Type 0} → Option A → F A
known none s = faulty
known (some a) s = returned a s

-- A write to `open_fifos[key]`, to a request, and to the processes.
abbrev pub at_fifo : (Fifo → Fifo) → ℕ → System → System
at_fifo g key s = record s {
  open_fifos = λ j. if j == key then g (s.open_fifos j) else s.open_fifos j;
}

abbrev pub at_request : (ReadRequest → ReadRequest) → ℕ → System → System
at_request g r s = record s { requests = λ q. if q == r then g (s.requests q) else s.requests q }

abbrev pub with_processes : (tpe.Process.Store → tpe.Process.Store) → System → System
with_processes g s = record s { kernel = record s.kernel { processes = g s.kernel.processes } }

abbrev pub current_process : System → ℕ
current_process s = get_current_process s.kernel

-- `is_open`; a negative index is outside the array.
unfoldable pub fifo_is_open : ℤ → System → Option Bool
fifo_is_open (negsuc n) s = none
fifo_is_open (pos key) s =
    if ltb key max_fifos && ((s.open_fifos key).state == open_state)
    then file_is_open key (s.kernel.processes (current_process s))
    else some false

abbrev pub index : ℤ → ℕ
index (pos key) = key
index (negsuc n) = 0

module _ (ops : Ops) where
  unfoldable pub lock : ℤ → F ℤ
  lock key = lift (ops.lock key)

  unfoldable pub unlock : ℤ → F ℤ
  unlock key = lift (ops.unlock key)
