-- ===== src/ProcessTable/Tests.antt =====
-- The theorem on `insert_process` of Kernel/process.c at a table with two processes.
use tpe.Base.{ℕ, ◌<◌, ◌≡◌, ◌≢◌, refl, false, none, arith}
use tpe.Base.Int.{pos, negsuc}
use tpe.Process.{is_delete_process}
use tpe.Kernel.{unlocked, Kernel, ok}
use tpe.Mutex.{is_open, mutex_ops}
use tpe.Sample.{sample}
use tpe.ProcessTable.{free_entry, get_process_by_pid, insert_process}
use tpe.ProcessTable.Insert.{TableCalm, entered, insert_process-none, insert_process-entered}

sample-TableCalm : TableCalm 2 sample
unfolding is_open
sample-TableCalm = record { is_key = refl; is_up = refl; free = refl; no_one = refl }

-- The first free pid is 2.
first_free : (q : ℕ) → q < 2 → sample.process_table q ≢ 0
first_free q h = ground arith

alive : is_delete_process 0xA00 sample.processes ≡ false
unfolding is_delete_process
alive = refl

insert_process-entered_example :
    (insert_process (mutex_ops 1) 0xA00 sample ≡ ok (pos 2) (entered 0xA00 2 sample))
    × (get_process_by_pid 2 (entered 0xA00 2 sample) ≡ 0xA00)
    × ((j : ℕ) → j ≢ 2 → (entered 0xA00 2 sample).process_table j ≡ sample.process_table j)
insert_process-entered_example =
    insert_process-entered 0 2 0xA00 2 sample sample-TableCalm (omega arith) refl first_free
      (omega arith) alive

-- Every pid is taken.
abbrev crowd : Kernel
crowd = record sample { process_table = λ pid. 0x900; n_processes = 128 }

crowd-TableCalm : TableCalm 2 crowd
unfolding is_open
crowd-TableCalm = record { is_key = refl; is_up = refl; free = refl; no_one = refl }

none_free : free_entry 128 0 crowd.process_table ≡ none
unfolding free_entry
none_free = refl

insert_process-none_example :
    insert_process (mutex_ops 1) 0xA00 crowd ≡ ok (negsuc 0) (record crowd { superlock = unlocked })
insert_process-none_example = insert_process-none 0 2 crowd crowd-TableCalm 0xA00 none_free
