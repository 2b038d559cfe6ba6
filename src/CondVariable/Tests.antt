-- ===== src/CondVariable/Tests.antt =====
-- The theorem on `cond_signal` of Kernel/condVariable.c at two waiting processes.
use tpe.Base.{◌≡◌, refl, true, [], ◌∷◌, arith}
use tpe.Base.Int.{pos}
use tpe.Process.{unblock_process}
use tpe.Kernel.{Kernel, ok}
use tpe.Mutex.{is_open}
use tpe.Mutex.Pages.{Calm}
use tpe.Sample.{sample}
use tpe.CondVariable.{cond_is_open, cond_signal}
use tpe.CondVariable.Signal.{QueueCalm, cond_signal-cons}

sample-Calm : Calm 0 sample
unfolding is_open
sample-Calm = record { key = refl; is_up = refl; free = refl; no_one = refl }

sample-QueueCalm : QueueCalm 1 3 sample
unfolding is_open
sample-QueueCalm = record { is_key = refl; is_up = refl; free = refl; no_one = refl }

cond_one_open : cond_is_open (pos 1) sample ≡ true
unfolding cond_is_open
cond_one_open = refl

cond_signal-cons_example :
    (k' : Kernel) × (cond_signal 1 (pos 1) sample ≡ ok (pos 1) k')
    × (k'.processes ≡ unblock_process 0x800 sample.processes)
    × ((k'.open_conds 1).process_queue ≡ (0x502000, 0xA00) ∷ [])
    × (k'.open_mutexes ≡ sample.open_mutexes)
cond_signal-cons_example =
    cond_signal-cons 0 0 1 3 0x501000 0x800 ((0x502000, 0xA00) ∷ []) sample (omega arith)
      sample-Calm sample-QueueCalm cond_one_open refl (omega arith)
