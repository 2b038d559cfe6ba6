-- ===== src/Scheduler/Ring.antt =====
-- The walk of Kernel/processManager.c round the ring, past the processes that cannot run.
use tpe.Base.{ℕ, zero, suc, ◌<◌, ◌≡◌, ◌∙◌, ap, Bool, true, false, List, [], ◌∷◌, length, arith}
use tpe.Process.{is_blocked_process, is_delete_process}
use tpe.Kernel.{Kernel, ok}
use tpe.Mutex.{Ops}
use tpe.Scheduler.{pass_current, set_next_current}

-- What the walk reads of a node: its successor, and whether its process is blocked or to be deleted.
abbrev pub next_of : Kernel → ℕ → ℕ
next_of k q = (k.nodes q).next

abbrev pub blocked_at : Kernel → ℕ → Bool
blocked_at k q = is_blocked_process (k.nodes q).p k.processes

abbrev pub deleted_at : Kernel → ℕ → Bool
deleted_at k q = is_delete_process (k.nodes q).p k.processes

-- From `start` the ring goes through the nodes listed, whose processes are blocked and not to be
-- deleted, to the node `target`, whose process can run.
abbrev pub Reaches : Kernel → ℕ → List ℕ → ℕ → Type 0
Reaches k start [] target =
    (start ≡ target) × (blocked_at k start ≡ false) × (deleted_at k start ≡ false)
Reaches k start (q ∷ passed) target =
    (start ≡ q)
    × (blocked_at k start ≡ true)
    × (deleted_at k start ≡ false)
    × Reaches k (next_of k start) passed target

-- The node in front of the target, `before` if none is passed.
abbrev pub last_passed : ℕ → List ℕ → ℕ
last_passed before [] = before
last_passed before (q ∷ passed) = last_passed q passed

-- Only the successors and the states count.
pub Reaches-same :
    (k k' : Kernel)
    → ((q : ℕ)
        → (next_of k' q ≡ next_of k q)
          × (blocked_at k' q ≡ blocked_at k q)
          × (deleted_at k' q ≡ deleted_at k q))
    → (start : ℕ) (passed : List ℕ) (target : ℕ) → Reaches k start passed target
    → Reaches k' start passed target
Reaches-same k k' same start [] target (e, b, d) = (e, (same start).1 ∙ b, (same start).2 ∙ d)
Reaches-same k k' same start (q ∷ passed) target (e, b, d, r) = (
  e,
  (same start).1 ∙ b,
  (same start).2 ∙ d,
  rw (same start).0 (Reaches-same k k' same (next_of k start) passed target r),
)

pass_current-blocked :
    (ops : Ops) (k : Kernel)
    → deleted_at k k.current ≡ false
    → pass_current ops k ≡ ok tt (record k { prev = k.current; current = next_of k k.current })
unfolding pass_current
pass_current-blocked ops k d = rw d

set_next_current-round :
    (ops : Ops) (n : ℕ) (k : Kernel)
    → blocked_at k k.current ≡ true
    → deleted_at k k.current ≡ false
    → set_next_current ops (suc n) k
      ≡ set_next_current ops n (record k { prev = k.current; current = next_of k k.current })
unfolding set_next_current
set_next_current-round ops n k b d = rw (b, pass_current-blocked ops k d)

set_next_current-stop :
    (ops : Ops) (n : ℕ) (k : Kernel)
    → blocked_at k k.current ≡ false
    → deleted_at k k.current ≡ false
    → set_next_current ops (suc n) k ≡ ok tt k
unfolding set_next_current
set_next_current-stop ops n k b d = rw (b, d)

-- The loop ends at the target, with as many rounds as nodes passed and one more.
pub set_next_current-Reaches :
    (ops : Ops) (passed : List ℕ) (n target : ℕ) (k : Kernel)
    → length passed < n
    → Reaches k k.current passed target
    → set_next_current ops n k
      ≡ ok tt (record k { prev = last_passed k.prev passed; current = target })
set_next_current-Reaches ops passed zero target k fuel r = absurd (omega arith)
set_next_current-Reaches ops [] (suc n) target k fuel (e, b, d) =
    set_next_current-stop ops n k b d ∙ ap (λ c. ok tt (record k { current = c })) e
set_next_current-Reaches ops (q ∷ passed) (suc n) target k fuel (e, b, d, r) =
    set_next_current-round ops n k b d
    ∙ set_next_current-Reaches ops passed n target
        (record k { prev = k.current; current = next_of k k.current }) (omega arith) r
    ∙ ap (λ c. ok tt (record k { prev = last_passed c passed; current = target })) e
