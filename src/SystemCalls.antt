-- ===== src/SystemCalls.antt =====
-- Kernel/systemCalls.c: the table of the system calls, its look-up, and the descriptors. A pointer that a
-- call is given is an address; what the calls do is in the children.
pub mod Processes
pub mod Pages
pub mod Io
pub mod Kill
pub mod Free
mod Tests
use tpe.Base.{
  ℕ, ◌+◌, ◌-◌, ◌%◌, ◌^◌, ◌&&◌, Option, none, some, List, [], ◌∷◌, ltb, leb, if◌then◌else◌, length,
  get_elem?, ◌>>=◌,
}
use tpe.Base.Int.{ℤ, pos, negsuc}
use tpe.Fifo.{file_descriptors}

-- STDOUT, STDIN and STDERR.
abbrev pub stdout : ℕ
stdout = 0

abbrev pub stdin : ℕ
stdin = 1

abbrev pub stderr : ℕ
stderr = 2

-- A 64 bit value passed as an `int`.
unfoldable pub to_int : ℕ → ℤ
to_int n = if ltb (n % 2 ^ 32) (2 ^ 31) then pos (n % 2 ^ 32) else negsuc (2 ^ 32 - 1 - n % 2 ^ 32)

-- An `int` as an `unsigned int`.
unfoldable pub to_unsigned : ℤ → ℕ
to_unsigned (pos n) = n % 2 ^ 32
to_unsigned (negsuc n) = (2 ^ 32 - 1 - n % 2 ^ 32) % 2 ^ 32

unfoldable pub fifo_to_fds : ℤ → ℕ
unfolding to_unsigned
fifo_to_fds key = (to_unsigned key + file_descriptors) % 2 ^ 32

unfoldable pub fds_to_fifo : ℕ → ℤ
unfolding to_int
fds_to_fifo fds = to_int (fds % 2 ^ 32 + 2 ^ 32 - file_descriptors)

-- The calls `sys_...` with their arguments.
pub data Call : Type 0 where
  read : ℕ → ℕ → ℕ → Call
  write : ℕ → ℕ → ℕ → Call
  time : ℕ → Call
  paint : ℕ → ℕ → ℕ → Call
  wait : ℕ → Call
  screen_res : ℕ → Call
  text_space : ℕ → Call
  malloc : ℕ → Call
  free : ℕ → Call
  data_address_of : Call
  set_char_color : ℕ → ℕ → ℕ → Call
  set_bg_color : ℕ → ℕ → ℕ → Call
  exec : ℕ → ℕ → ℕ → Call
  end : Call
  yield : Call
  mutex_op : ℕ → Call
  mutex_cl : ℕ → Call
  mutex_lock : ℕ → Call
  mutex_unlock : ℕ → Call
  set_foreground : ℕ → Call
  fifo_op : ℕ → Call
  fifo_cl : ℕ → Call
  kill : ℕ → Call
  pid : Call
  ppid : Call
  process_info : ℕ → ℕ → Call
  cond_open : ℕ → Call
  cond_wait : ℤ → ℤ → Call
  cond_signal : ℤ → Call
  cond_broadcast : ℤ → Call
  cond_close : ℤ → Call
  get_pids : ℕ → Call
  get_conds_info : ℕ → Call
  get_mutexes_info : ℕ → Call
  get_fifos_info : ℕ → Call

-- The wrappers, which drop the arguments that a call does not take and cast the others.
abbrev pub zero_of : Call → ℕ → ℕ → ℕ → Call
zero_of c a b d = c

abbrev pub one_of : (ℕ → Call) → ℕ → ℕ → ℕ → Call
one_of c a b d = c a

abbrev pub two_of : (ℕ → ℕ → Call) → ℕ → ℕ → ℕ → Call
two_of c a b d = c a b

abbrev pub int_of : (ℤ → Call) → ℕ → ℕ → ℕ → Call
int_of c a b d = c (to_int a)

abbrev pub ints_of : (ℤ → ℤ → Call) → ℕ → ℕ → ℕ → Call
ints_of c a b d = c (to_int a) (to_int b)

-- `syscalls`; the first three are reserved.
unfoldable pub syscalls : List (Option (ℕ → ℕ → ℕ → Call))
syscalls =
    none
    ∷ none
    ∷ none
    ∷ some read
    ∷ some write
    ∷ some (one_of time)
    ∷ some paint
    ∷ some (one_of wait)
    ∷ some (one_of screen_res)
    ∷ some (one_of text_space)
    ∷ some (one_of malloc)
    ∷ some (one_of free)
    ∷ some (zero_of data_address_of)
    ∷ some set_char_color
    ∷ some set_bg_color
    ∷ some exec
    ∷ some (zero_of end)
    ∷ some (zero_of yield)
    ∷ some (one_of mutex_op)
    ∷ some (one_of mutex_cl)
    ∷ some (one_of mutex_lock)
    ∷ some (one_of mutex_unlock)
    ∷ some (one_of set_foreground)
    ∷ some (one_of fifo_op)
    ∷ some (one_of fifo_cl)
    ∷ some (one_of kill)
    ∷ some (zero_of pid)
    ∷ some (zero_of ppid)
    ∷ some (two_of process_info)
    ∷ some (one_of cond_open)
    ∷ some (ints_of cond_wait)
    ∷ some (int_of cond_signal)
    ∷ some (int_of cond_broadcast)
    ∷ some (int_of cond_close)
    ∷ some (one_of get_pids)
    ∷ some (one_of get_conds_info)
    ∷ some (one_of get_mutexes_info)
    ∷ some (one_of get_fifos_info)
    ∷ []

-- SYS_SIZE
abbrev pub sys_size : ℕ
sys_size = 38

-- `syscallDispatcher`: the call that is made; with none the result is 0.
unfoldable pub syscall_dispatcher : (rax rbx rdx rcx : ℕ) → Option Call
syscall_dispatcher rax rbx rdx rcx =
    if ltb rax sys_size && leb 3 rax
    then (get_elem? syscalls rax >>= λ entry. entry >>= λ call. some (call rbx rcx rdx))
    else none
