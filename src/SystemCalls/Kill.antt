-- ===== src/SystemCalls/Kill.antt =====
-- `sys_kill` of Kernel/systemCalls.c: which processes it reaches.
use tpe.Base.{
  ℕ, ◌<◌, ◌≡◌, ◌≢◌, ◌⊎◌, refl, inl, inr, true, false, ◌==◌, arith, ltb, Bool-cases, ◌&&◌, ◌||◌, not,
}
use tpe.Allocator.{max_processes}
use tpe.Process.{nonnull, kill_process, is_delete_process}
use tpe.ProcessTable.{get_process_by_pid}
use tpe.Kernel.{Kernel}
use tpe.SystemCalls.Processes.{sys_kill}

-- A call that has marked the process of the table, if it is no process that is protected.
pub record Killed (pid : ℕ) (k : Kernel) : Type 0 where
  pub result : (sys_kill pid k).0 ≡ 1
  pub no_init : 1 < pid
  pub was_alive : is_delete_process (k.process_table pid) k.processes ≡ false
  pub marked :
      ((k.processes (k.process_table pid)).pid < 2)
      ⊎ (is_delete_process (k.process_table pid) (sys_kill pid k).1.processes ≡ true)

get_process_by_pid-cases :
    (pid : ℕ) (k : Kernel)
    → (get_process_by_pid pid k ≡ 0)
      ⊎ ((get_process_by_pid pid k ≡ k.process_table pid)
          × (0 < k.process_table pid)
          × (is_delete_process (k.process_table pid) k.processes ≡ false))
unfolding get_process_by_pid
get_process_by_pid-cases pid k =
    elim (Bool-cases (
      ltb pid max_processes
      && nonnull (k.process_table pid)
      && not (is_delete_process (k.process_table pid) k.processes))) [
        | inl e ↦ inr (rw e refl, ground (arith, e), ground (arith, e))
        | inr e ↦ inl (rw e refl)
      ]

module _ (pid : ℕ) (k : Kernel) where
  guarded :
      ((pid == 0) || (pid == 1)) ≡ true
      → ((sys_kill pid k).0 ≡ 0) × ((sys_kill pid k).1.processes ≡ k.processes)
  unfolding sys_kill
  guarded e = rw e (refl, refl)

  nobody :
      ((pid == 0) || (pid == 1)) ≡ false
      → get_process_by_pid pid k ≡ 0
      → ((sys_kill pid k).0 ≡ 0) × ((sys_kill pid k).1.processes ≡ k.processes)
  unfolding sys_kill kill_process
  nobody e z = rw (e, z) (refl, refl)

  somebody :
      ((pid == 0) || (pid == 1)) ≡ false
      → get_process_by_pid pid k ≡ k.process_table pid
      → 0 < k.process_table pid
      → is_delete_process (k.process_table pid) k.processes ≡ false
      → Killed pid k
  unfolding sys_kill kill_process is_delete_process
  somebody e same some_one alive = record {
    result = rw (e, same) (ground arith);
    no_init = ground (arith, e);
    was_alive = alive;
    marked = elim (Bool-cases (ltb (k.processes (k.process_table pid)).pid 2)) [
      | inl low ↦ inl (ground (arith, low))
      | inr high ↦ inr (rw (e, same) (ground (arith, high)))
    ];
  }

-- For every pid, `sys_kill` changes no process that has the pid of INIT or SHELL, and none but that of
-- the table's entry. Either it returns 1, the pid is another one and its process was not marked for
-- deletion, and is now unless it is protected; or it returns 0 and changes nothing.
pub sys_kill-Killed :
    (pid : ℕ) (k : Kernel)
    → ((q : ℕ) → (k.processes q).pid < 2 → (sys_kill pid k).1.processes q ≡ k.processes q)
      × ((q : ℕ) → q ≢ k.process_table pid → (sys_kill pid k).1.processes q ≡ k.processes q)
      × (Killed pid k ⊎ (((sys_kill pid k).0 ≡ 0) × ((sys_kill pid k).1.processes ≡ k.processes)))
unfolding sys_kill kill_process get_process_by_pid is_delete_process
sys_kill-Killed pid k = (λ q h. ground arith, λ q h. ground arith, either)
  where
    either :
        Killed pid k ⊎ (((sys_kill pid k).0 ≡ 0) × ((sys_kill pid k).1.processes ≡ k.processes))
    either = elim (Bool-cases ((pid == 0) || (pid == 1))) [
      | inl e ↦ inr (guarded pid k e)
      | inr e ↦ elim (get_process_by_pid-cases pid k) [
        | inl z ↦ inr (nobody pid k e z)
        | inr (same, some_one, alive) ↦ inl (somebody pid k e same some_one alive)
      ]
    ]
