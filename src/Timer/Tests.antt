-- ===== src/Timer/Tests.antt =====
-- The theorems on Kernel/timer.c at a list of two sleeping processes.
use tpe.Links.{Chain, Distinct}
use tpe.Base.{
  ℕ, ◌+◌, ◌≡◌, ◌≢◌, refl, some, List, [], ◌∷◌, ◌==◌, false, if◌then◌else◌, length, arith,
}
use tpe.Timer.{Sleepers, timer_handler, sleep}
use tpe.Timer.Sleeping.{Asleep}
use tpe.Timer.Round.{Handled}
use tpe.Timer.Handler.{timer_handler-Handled}
use tpe.Timer.Sleep.{Slept, sleep-Slept}

-- The node at 4096 has its last tick, the one at 8192 has three.
abbrev sleepers : Sleepers
sleepers = record {
  sleeping_processes = 4096;
  ticks = λ a. if a == 4096 then 1 else 3;
  next = λ a. if a == 4096 then 8192 else 0;
  process = λ a. a + 8;
  unblocked = [];
  pauses = [];
  stored = [];
}

abbrev nodes : List ℕ
nodes = 4096 ∷ 8192 ∷ []

apart : (a b : ℕ) → (a == b) ≡ false → a ≢ b
apart a b h e = absurd (ground (arith, h, e))

nodes-Chain : Chain sleepers.next sleepers.sleeping_processes nodes
nodes-Chain = (refl, apart 4096 0 refl, (refl, apart 8192 0 refl, refl))

nodes-Distinct : Distinct nodes
nodes-Distinct = ((refl, tt), (tt, tt))

nodes-Asleep : Asleep sleepers.ticks nodes
nodes-Asleep = (omega arith, omega arith, (omega arith, omega arith, tt))

timer_handler-Handled_example :
    (s' : Sleepers) × (timer_handler (length nodes) sleepers ≡ some s')
    × Handled 0 nodes sleepers s'
timer_handler-Handled_example =
    timer_handler-Handled nodes sleepers nodes-Chain nodes-Distinct nodes-Asleep

sleep-Slept_example : Slept 12288 5 18 nodes sleepers (sleep 1000 12288 5 sleepers)
sleep-Slept_example =
    sleep-Slept 1000 12288 5 nodes sleepers (omega arith) (omega arith) (apart 12288 0 refl)
      (refl, (refl, tt)) nodes-Chain nodes-Distinct nodes-Asleep
