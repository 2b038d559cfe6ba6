-- ===== src/Sample.antt =====
-- A kernel with three processes in the ring, for the tests.
use tpe.Base.{ℕ, ◌+◌, [], ◌∷◌, ◌==◌, if◌then◌else◌}
use tpe.Base.Int.{pos}
use tpe.Process.{Process, Status, Store}
use tpe.Kernel.{unlocked, open_state, Mutex, Node, Kernel}

abbrev pub process_in : Status → ℕ → Process
process_in st pid = record {
  st = st;
  name = [];
  entry_point = 0;
  rsp = 0x600000 + pid;
  stack_page = 0;
  n_data_page = 0;
  data_page = [];
  pid = pid;
  ppid = 0;
  open_fds = [];
}

-- The process at 0x800 waits, the others are ready.
abbrev pub store : Store
store p = if p == 0x800 then process_in Status.blocked 8 else process_in Status.ready 9

abbrev pub node : ℕ → ℕ → Node
node p next = record { quantum = pos 1; p = p; next = next }

-- 0x900 runs, then come 0x800 and 0xA00.
abbrev pub ring : ℕ → Node
ring q =
    if q == 0x520000
    then node 0x900 0x521000
    else if q == 0x521000
    then node 0x800 0x522000
    else node 0xA00 0x520000

abbrev pub free_mutex : Mutex
free_mutex = record {
  name = [];
  lock = unlocked;
  state = open_state;
  process_queue = [];
  queue_page = 0x510000;
}

-- The pids 0 and 1 are taken.
abbrev pub sample : Kernel
sample = record {
  superlock = unlocked;
  current = 0x520000;
  prev = 0x522000;
  nodes = ring;
  process_table = λ pid. if pid == 0 then 0x900 else if pid == 1 then 0x800 else 0;
  foreground = 0x900;
  n_processes = 2;
  table_mutex_key = pos 2;
  stack_allocator = record { stack_pages_stack = []; current_stack_index = 0 };
  stack_memory_mutex_key = pos 1;
  processes = store;
  open_mutexes = λ key. free_mutex;
  array_mutex = unlocked;
  allocator = record { pages_stack = 1 ∷ 2 ∷ 3 ∷ 4 ∷ []; current_index = 2 };
  memory_mutex_key = pos 0;
  open_conds = λ key. record {
    name = [];
    state = open_state;
    lock_queue = pos 3;
    process_queue = (0x501000, 0x800) ∷ (0x502000, 0xA00) ∷ [];
    queue_page = 0x511000;
  };
  array_lock = pos 4;
}
