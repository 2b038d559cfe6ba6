-- ===== src/SystemCalls/Tests.antt =====
-- The theorems on Kernel/systemCalls.c at a kernel with three processes.
use tpe.Base.{ℕ, ◌<◌, ◌≡◌, ◌≢◌, ◌⊎◌, refl, ◌∷◌, ◌==◌, replicate, arith, if◌then◌else◌}
use tpe.Allocator.{page_address}
use tpe.Process.{Status, Store}
use tpe.Process.Pages.{IsValid, used, occurrences}
use tpe.Kernel.{Kernel, ok, unlocked, get_current_process}
use tpe.Sample.{sample, process_in}
use tpe.Mutex.{mutex_ops, is_open}
use tpe.SystemCalls.Processes.{sys_kill}
use tpe.SystemCalls.Pages.{sys_malloc, sys_free}
use tpe.SystemCalls.Kill.{Killed, sys_kill-Killed}
use tpe.SystemCalls.Free.{CanTake, sys_free-sys_malloc}

-- Every process has one page.
abbrev processes : Store
processes p = record (process_in Status.ready p) {
  n_data_page = 1;
  data_page = 0x501000 ∷ replicate 63 0;
}

-- The process at 0xA00 has pid 2.
abbrev kernel : Kernel
kernel = record sample {
  processes = processes;
  process_table =
      λ pid. if pid == 0 then 0x900 else if pid == 1 then 0x800 else if pid == 2 then 0xA00 else 0;
}

sys_kill-Killed_example :
    ((q : ℕ)
      → (kernel.processes q).pid < 2
      → (sys_kill 2 kernel).1.processes q ≡ kernel.processes q)
    × ((q : ℕ)
        → q ≢ kernel.process_table 2
        → (sys_kill 2 kernel).1.processes q ≡ kernel.processes q)
    × (Killed 2 kernel
        ⊎ (((sys_kill 2 kernel).0 ≡ 0) × ((sys_kill 2 kernel).1.processes ≡ kernel.processes)))
sys_kill-Killed_example = sys_kill-Killed 2 kernel

kernel-CanTake : CanTake 0 3 kernel
unfolding is_open
kernel-CanTake = record {
  calm = record { key = refl; is_up = refl; free = refl; no_one = refl };
  index_in = omega arith;
  next = refl;
  number_in = omega arith;
}

process-IsValid : IsValid (kernel.processes (get_current_process kernel))
unfolding used
process-IsValid = record { size = refl; counted = refl }

not_recorded :
    occurrences (page_address 3) (kernel.processes (get_current_process kernel)).data_page ≡ 0
unfolding occurrences
not_recorded = refl

sys_free-sys_malloc_example :
    (k' : Kernel) × (sys_malloc (mutex_ops 1) 100 kernel ≡ ok (page_address 3) k')
    × (sys_free (mutex_ops 1) (page_address 3) k' ≡ ok 1 (record kernel { superlock = unlocked }))
sys_free-sys_malloc_example =
    sys_free-sys_malloc 0 0 100 3 kernel kernel-CanTake process-IsValid (omega arith) not_recorded
