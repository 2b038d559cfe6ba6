-- ===== src/Kernel.antt =====
-- The state that the kernel's components share, and the steps of one process through it. A function
-- that the source calls runs until it returns or until it yields the processor
-- (Kernel/processManager.c: `yield_process`); what follows a yield runs when the process is scheduled
-- again, and is no part of the step.
use tpe.Base.{ℕ, List, ◌==◌, if◌then◌else◌}
use tpe.Base.Int.{ℤ, inc, pos}
use tpe.Process.{Store}
use tpe.Allocator.{Allocator, StackAllocator}

-- LOCKED and UNLOCKED of defs.h, OPEN and CLOSED of kernelMutex.h.
abbrev pub locked : ℕ
locked = 0

abbrev pub unlocked : ℕ
unlocked = 1

abbrev pub open_state : ℕ
open_state = 1

abbrev pub closed_state : ℕ
closed_state = 0

abbrev pub not_open_error : ℤ
not_open_error = ℤ.negsuc 0

-- A queue of Kernel/queueADT.c as the list of its nodes, first one first: the page that holds the
-- node, and its element, the address of a process.
abbrev pub Queue : Type 0
Queue = List (ℕ × ℕ)

-- `mutex` of Kernel/kernelMutex.c. The queue is given by its nodes and by the page of its own
-- structure.
pub record Mutex : Type 0 where
  pub name : List ℕ
  pub lock : ℕ
  pub state : ℕ
  pub process_queue : Queue
  pub queue_page : ℕ

-- `list_node` of Kernel/processManager.c.
pub record Node : Type 0 where
  pub quantum : ℤ
  pub p : ℕ
  pub next : ℕ

-- `cond_variable` of Kernel/condVariable.c; the queue as in `Mutex`.
pub record CondVariable : Type 0 where
  pub name : List ℕ
  pub state : ℕ
  pub lock_queue : ℤ
  pub process_queue : Queue
  pub queue_page : ℕ

-- A table or a memory of structures is a function of the index or the address, NULL is 0. `current`
-- and `prev` are addresses of nodes.
pub record Kernel : Type 0 where
  pub superlock : ℕ
  pub current : ℕ
  pub prev : ℕ
  pub nodes : ℕ → Node
  pub process_table : ℕ → ℕ
  pub foreground : ℕ
  pub n_processes : ℕ
  pub table_mutex_key : ℤ
  pub stack_allocator : StackAllocator
  pub stack_memory_mutex_key : ℤ
  pub processes : Store
  pub open_mutexes : ℕ → Mutex
  pub array_mutex : ℕ
  pub allocator : Allocator
  pub memory_mutex_key : ℤ
  pub open_conds : ℕ → CondVariable
  pub array_lock : ℤ

-- `get_current_process` of Kernel/processManager.c.
abbrev pub get_current_process : Kernel → ℕ
get_current_process k = (k.nodes k.current).p

-- A write to the node at `p`.
abbrev pub at_node : (Node → Node) → ℕ → Kernel → Kernel
at_node f p k = record k { nodes = λ q. if q == p then f (k.nodes q) else k.nodes q }

-- `yield_process` of Kernel/processManager.c up to the interrupt.
abbrev pub give_time : Kernel → Kernel
give_time k =
    at_node (λ n. record n { quantum = pos 0 }) k.current
      (at_node (λ n. record n { quantum = inc n.quantum }) (k.nodes k.current).next k)

pub data Result (A : Type 0) : Type 0 where
  ok : A → Kernel → Result A
  yielded : Kernel → Result A
  out_of_fuel : Result A
  fault : Result A

abbrev pub M : Type 0 → Type 0
M A = Kernel → Result A

abbrev pub pure : {A : Type 0} → A → M A
pure a k = ok a k

abbrev pub and_then : {A B : Type 0} → Result A → (A → M B) → Result B
and_then (ok a k) f = f a k
and_then (yielded k) f = yielded k
and_then out_of_fuel f = out_of_fuel
and_then fault f = fault

infixl 5 ◌>>=◌ ◌>>◌
abbrev pub ◌>>=◌ : {A B : Type 0} → M A → (A → M B) → M B
◌>>=◌ m f k = and_then (m k) f

abbrev pub ◌>>◌ : {A B : Type 0} → M A → M B → M B
m >> n = m >>= λ _. n

abbrev pub get : M Kernel
get k = ok k k

abbrev pub put : Kernel → M (Unit {0})
put k _ = ok tt k

abbrev pub update : (Kernel → Kernel) → M (Unit {0})
update f k = ok tt (f k)

-- `set_superlock` and `unset_superlock` of Kernel/processManager.c.
unfoldable pub set_superlock : M (Unit {0})
set_superlock = update (λ k. record k { superlock = locked })

unfoldable pub unset_superlock : M (Unit {0})
unset_superlock = update (λ k. record k { superlock = unlocked })

-- A write to `open_mutexes[key]`.
abbrev pub at_key : (Mutex → Mutex) → ℕ → (ℕ → Mutex) → ℕ → Mutex
at_key f key ms j = if j == key then f (ms j) else ms j

unfoldable pub set_mutex : ℕ → (Mutex → Mutex) → M (Unit {0})
set_mutex key f = update (λ k. record k { open_mutexes = at_key f key k.open_mutexes })
