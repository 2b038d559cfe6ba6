-- ===== src/Memory/Overrun.antt =====
-- The copies of Kernel/lib.c that do not fit, and the size of what they leave.
use tpe.Base.{
  ℕ, zero, suc, ◌+◌, ◌*◌, ◌/◌, ◌≤◌, ◌<◌, ◌≡◌, ◌∙◌, inl, inr, none, some, List, ltb, length,
  get_elem?, set, arith, Bool-cases, Option-cases, ltb→lt, length-set,
}
use tpe.Memory.{copy_bytes, copy_word, copy_words, memcpy}

-- A byte loop that would leave the destination faults: it writes up to the end and then past it.
pub copy_bytes-overrun :
    (dst : List ℕ) (d : ℕ) (src : List ℕ) (s n : ℕ)
    → d ≤ length dst
    → length dst < d + n
    → copy_bytes dst d src s n ≡ none
unfolding copy_bytes
copy_bytes-overrun dst d src s zero hd far = absurd (omega arith)
copy_bytes-overrun dst d src s (suc n) hd far = elim (Option-cases (get_elem? src s)) [
  | inl e ↦ rw e
  | inr (v, e) ↦ rw e (elim (Bool-cases (ltb d (length dst))) [
    | inl lt ↦ rw lt (
        copy_bytes-overrun (set dst d v) (d + 1) src (s + 1) n
          (omega (arith, length-set dst d v, ltb→lt d (length dst) lt))
          (omega (arith, length-set dst d v)))
    | inr ge ↦ rw ge
  ])
]

copy_word_room :
    (dst : List ℕ) (d : ℕ) (src : List ℕ) (s : ℕ) {out : List ℕ}
    → copy_word dst d src s ≡ some out
    → (d + 3 < length dst) × (length out ≡ length dst)
unfolding copy_word
copy_word_room dst d src s h = grind (arith, length-set)

copy_words-overrun :
    (dst : List ℕ) (d : ℕ) (src : List ℕ) (s n : ℕ)
    → d ≤ length dst
    → length dst < d + 4 * n
    → copy_words dst d src s n ≡ none
unfolding copy_words
copy_words-overrun dst d src s zero hd far = absurd (omega arith)
copy_words-overrun dst d src s (suc n) hd far = elim (Option-cases (copy_word dst d src s)) [
  | inl e ↦ rw e
  | inr (dst', e) ↦ rw e (
      let (room, same) = copy_word_room dst d src s e in
      copy_words-overrun dst' (d + 4) src (s + 4) n (omega arith) (omega arith))
]

-- A `memcpy` whose length does not fit behind index `d` of the destination writes outside it.
pub memcpy-overrun :
    (dst_at src_at : ℕ) (dst : List ℕ) (d : ℕ) (src : List ℕ) (s n : ℕ)
    → d ≤ length dst
    → length dst < d + n
    → memcpy dst_at src_at dst d src s n ≡ none
unfolding memcpy
memcpy-overrun dst_at src_at dst d src s n hd far =
    ground (arith, copy_words-overrun dst d src s (n / 4), copy_bytes-overrun dst d src s n)

length-copy_bytes :
    (dst : List ℕ) (d : ℕ) (src : List ℕ) (s n : ℕ) (out : List ℕ)
    → copy_bytes dst d src s n ≡ some out
    → length out ≡ length dst
unfolding copy_bytes
length-copy_bytes dst d src s zero out h = cc
length-copy_bytes dst d src s (suc n) out h = elim (Option-cases (get_elem? src s)) [
  | inl e ↦ cc
  | inr (v, e) ↦
      ground (arith, length-set dst d v, length-copy_bytes (set dst d v) (d + 1) src (s + 1) n out)
]

length-copy_words :
    (dst : List ℕ) (d : ℕ) (src : List ℕ) (s n : ℕ) (out : List ℕ)
    → copy_words dst d src s n ≡ some out
    → length out ≡ length dst
unfolding copy_words
length-copy_words dst d src s zero out h = ground arith
length-copy_words dst d src s (suc n) out h = elim (Option-cases (copy_word dst d src s)) [
  | inl e ↦ cc
  | inr (dst', e) ↦
      let h' = rw e at h in
      length-copy_words dst' (d + 4) src (s + 4) n out h' ∙ (copy_word_room dst d src s e).1
]

-- A `memcpy` that does not fault keeps the size of the destination.
pub length-memcpy :
    (dst_at src_at : ℕ) (dst : List ℕ) (d : ℕ) (src : List ℕ) (s n : ℕ) (out : List ℕ)
    → memcpy dst_at src_at dst d src s n ≡ some out
    → length out ≡ length dst
unfolding memcpy
length-memcpy dst_at src_at dst d src s n out h =
    ground (arith, length-copy_words dst d src s (n / 4) out, length-copy_bytes dst d src s n out)
