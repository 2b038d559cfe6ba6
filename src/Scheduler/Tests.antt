-- ===== src/Scheduler/Tests.antt =====
-- The theorem on Kernel/processManager.c at a ring of three processes.
use tpe.Base.{ℕ, ◌≡◌, refl, [], ◌∷◌, arith}
use tpe.Process.{is_blocked_process, is_delete_process}
use tpe.Kernel.{Kernel, ok}
use tpe.Mutex.{mutex_ops}
use tpe.Sample.{sample}
use tpe.Scheduler.{next_process}
use tpe.Scheduler.Ring.{Reaches}
use tpe.Scheduler.Resume.{Switched, next_process-Switched}

-- From the node behind the current one past the blocked process.
past_blocked : Reaches sample 0x521000 (0x521000 ∷ []) 0x522000
unfolding is_blocked_process is_delete_process
past_blocked = (refl, refl, refl, (refl, refl, refl))

next_process-Switched_example :
    (given : ℕ) × (k' : Kernel) × (next_process (mutex_ops 2) 3 0x7FF sample ≡ ok given k')
    × Switched 0x7FF 0x522000 (0x521000 ∷ []) sample given k'
next_process-Switched_example =
    next_process-Switched (mutex_ops 2) 3 0x7FF 0x522000 (0x521000 ∷ []) sample (omega arith)
      (omega arith) (omega arith) refl refl (omega arith) past_blocked
