-- ===== src/QueueNodes/Tests.antt =====
-- The theorems on Kernel/queueADT.c at a queue of two elements.
use tpe.Base.{ℕ, ◌≡◌, ◌≢◌, refl, [], ◌∷◌, ◌==◌, false, if◌then◌else◌, arith}
use tpe.QueueNodes.{Heap, enqueue}
use tpe.QueueNodes.Held.{Holds}
use tpe.QueueNodes.Operations.{enqueue-Holds}

apart : (a b : ℕ) → (a == b) ≡ false → a ≢ b
apart a b h e = absurd (ground (arith, h, e))

-- The queue at 4096 has its nodes at 8192 and 12288.
abbrev heap : Heap
heap = record {
  elem = λ a. if a == 8192 then 5 else 7;
  next = λ a. if a == 8192 then 12288 else 0;
  first = λ q. 8192;
  last = λ q. 12288;
  stored = [];
}

heap-Holds : Holds 4096 (8192 ∷ 12288 ∷ []) (5 ∷ 7 ∷ []) heap
heap-Holds = record {
  chain = (refl, apart 8192 0 refl, (refl, apart 12288 0 refl, refl));
  last = refl;
  distinct = ((refl, tt), (tt, tt));
  elems = refl;
}

enqueue-Holds_example :
    Holds 4096 (8192 ∷ 12288 ∷ 16384 ∷ []) (5 ∷ 7 ∷ 9 ∷ []) (enqueue 4096 9 16384 heap)
enqueue-Holds_example =
    enqueue-Holds 4096 9 16384 (8192 ∷ 12288 ∷ []) (5 ∷ 7 ∷ []) heap (apart 4096 0 refl)
      (apart 16384 0 refl) (refl, (refl, tt)) heap-Holds
