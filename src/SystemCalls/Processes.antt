-- ===== src/SystemCalls/Processes.antt =====
-- Kernel/systemCalls.c: the calls on processes, mutexes, condition variables and fifos.
use tpe.Base.{ℕ, ◌-◌, ◌^◌, Bool, ◌||◌, List, ◌==◌, if◌then◌else◌}
use tpe.Base.Int.{ℤ, pos, negsuc}
use tpe.Process.{kill_process}
use tpe.ProcessTable.{get_process_by_pid, set_foreground_process, get_current_pids}
use tpe.Kernel.{Kernel, M, pure, ◌>>=◌, yielded, give_time, get_current_process}
use tpe.Mutex.{Ops, lock_body, unlock_body}
use tpe.Mutex.Open.{open_body, close_body, get_mutexes_info, MutexInfo}
use tpe.CondVariable.{cond_open, cond_wait, cond_signal, cond_broadcast, cond_close}
use tpe.Fifo.{System, F, lift}
use tpe.Fifo.Files.{fifo_open, fifo_close, get_fifos_info}
use tpe.SystemCalls.{to_int, fifo_to_fds, fds_to_fifo}

-- An `int` as the `uint64_t` that is returned.
unfoldable pub extended : ℤ → ℕ
extended (pos n) = n
extended (negsuc n) = 2 ^ 64 - 1 - n

abbrev returns : M ℤ → M ℕ
returns m = do r ← m; pure (extended r)

abbrev bit : Bool → ℕ
bit b = if b then 1 else 0

-- INIT and SHELL.
abbrev pub init_pid : ℕ
init_pid = 0

abbrev pub shell_pid : ℕ
shell_pid = 1

unfoldable pub sys_kill : ℕ → Kernel → ℕ × Kernel
sys_kill pid k = if (pid == init_pid) || (pid == shell_pid) then (0, k) else (
  bit (kill_process (get_process_by_pid pid k) k.processes).0,
  record k { processes = (kill_process (get_process_by_pid pid k) k.processes).1 },
)

unfoldable pub sys_set_foreground : ℕ → Kernel → ℕ × Kernel
sys_set_foreground pid k =
    if get_process_by_pid pid k == 0
    then (0, k)
    else (1, set_foreground_process (get_process_by_pid pid k) k)

-- `pid_process` and `ppid_process` of Kernel/process.c; -1 for NULL.
unfoldable pub pid_process : ℕ → Kernel → ℕ
pid_process p k = if p == 0 then 2 ^ 64 - 1 else (k.processes p).pid

unfoldable pub ppid_process : ℕ → Kernel → ℕ
ppid_process p k = if p == 0 then 2 ^ 64 - 1 else (k.processes p).ppid

unfoldable pub sys_pid : Kernel → ℕ
sys_pid k = pid_process (get_current_process k) k

unfoldable pub sys_ppid : Kernel → ℕ
sys_ppid k = ppid_process (get_current_process k) k

-- Up to the yield.
unfoldable pub sys_yield : M ℕ
sys_yield k = yielded (give_time k)

-- The calls on condition variables nest at most `n` deep.
module _ (n : ℕ) where
  unfoldable pub sys_cond_open : List ℕ → M ℕ
  sys_cond_open name = returns (cond_open n name)

  unfoldable pub sys_cond_wait : ℤ → ℤ → M ℕ
  sys_cond_wait cond_key lock_key = returns (cond_wait n cond_key lock_key)

  unfoldable pub sys_cond_signal : ℤ → M ℕ
  sys_cond_signal key = returns (cond_signal n key)

  unfoldable pub sys_cond_broadcast : ℤ → M ℕ
  sys_cond_broadcast key = returns (cond_broadcast n key)

  unfoldable pub sys_cond_close : ℤ → M ℕ
  sys_cond_close key = returns (cond_close n key)

module _ (ops : Ops) where
  unfoldable pub sys_mutex_op : List ℕ → M ℕ
  sys_mutex_op name = returns (open_body ops name)

  unfoldable pub sys_mutex_cl : ℕ → M ℕ
  sys_mutex_cl key = returns (close_body ops (to_int key))

  unfoldable pub sys_mutex_lock : ℕ → M ℕ
  sys_mutex_lock key = returns (lock_body ops (to_int key))

  unfoldable pub sys_mutex_unlock : ℕ → M ℕ
  sys_mutex_unlock key = returns (unlock_body ops (to_int key))

  -- The pids, without the -1 that ends them.
  unfoldable pub sys_get_pids : M (List ℕ)
  sys_get_pids = get_current_pids ops

  unfoldable pub sys_get_mutexes_info : M (List MutexInfo)
  sys_get_mutexes_info = get_mutexes_info

  unfoldable pub sys_get_fifos_info : F (List (List ℕ × ℕ))
  sys_get_fifos_info = get_fifos_info ops

  unfoldable pub sys_fifo_op : (junk : List ℕ) → List ℕ → F ℕ
  sys_fifo_op junk name =
      tpe.Fifo.◌>>=◌ (fifo_open ops junk name) (λ key. tpe.Fifo.pure (fifo_to_fds key))

  unfoldable pub sys_fifo_cl : ℕ → F ℕ
  sys_fifo_cl fds =
      tpe.Fifo.◌>>=◌ (fifo_close ops (fds_to_fifo fds)) (λ r. tpe.Fifo.pure (extended r))
