-- ===== src/Memory/Fill.antt =====
-- What `memset` of Kernel/lib.c leaves in the block.
use tpe.Base.{
  ℕ, zero, suc, ◌≤◌, ◌<◌, ◌%◌, ◌≡◌, refl, ◌∙◌, inl, inr, some, List, length, get_or, set, arith,
  length-set, get_or-set_self, get_or-set_ne, lt→ltb, ltb, Bool-cases, ltb→lt,
}
use tpe.Memory.{memset_loop, memset}

memset_loop-fills :
    (dst : List ℕ) (v n : ℕ)
    → n ≤ length dst
    → (out : List ℕ) × (memset_loop dst v n ≡ some out)
      × (length out ≡ length dst)
      × ((j : ℕ) → j < n → get_or out j 0 ≡ v)
      × ((j : ℕ) → n ≤ j → get_or out j 0 ≡ get_or dst j 0)
unfolding memset_loop
memset_loop-fills dst v zero h = (dst, refl, refl, λ j lt. absurd (omega arith), λ j le. refl)
memset_loop-fills dst v (suc n) h =
    let (out, e, same, filled, kept) =
      memset_loop-fills (set dst n v) v n (omega (arith, length-set dst n v)) in
    (
      out,
      rw (lt→ltb n (length dst) h) e,
      same ∙ length-set dst n v,
      (λ j lt. elim (Bool-cases (ltb j n)) [
        | inl below ↦ filled j (ltb→lt j n below)
        | inr top ↦
            let at : n ≡ j = ground arith in
            rw (← at) (kept n (omega arith) ∙ get_or-set_self dst n v 0 h)
      ]),
      λ j le. kept j (omega arith) ∙ get_or-set_ne dst n j v 0 (omega arith),
    )

-- `memset` fills the first `length` bytes of the block with the low byte of `c`, leaves the rest
-- alone, and does not fault when they lie inside the block.
pub memset-fills :
    (dst : List ℕ) (c n : ℕ)
    → n ≤ length dst
    → (out : List ℕ) × (memset dst c n ≡ some out)
      × (length out ≡ length dst)
      × ((j : ℕ) → j < n → get_or out j 0 ≡ c % 256)
      × ((j : ℕ) → n ≤ j → get_or out j 0 ≡ get_or dst j 0)
unfolding memset
memset-fills dst c n h = memset_loop-fills dst (c % 256) n h
