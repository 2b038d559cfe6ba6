-- ===== src/CircularBuffer/Slots.antt =====
-- The copies into and out of the array of a circular buffer, by the place counted from their start.
use tpe.Base.{
  ℕ, ◌+◌, ◌-◌, ◌%◌, ◌^◌, ◌≤◌, ◌<◌, ◌≡◌, ◌∙◌, sym, ap, inl, inr, true, false, Option, some, List,
  length, get_or, arith, ltb, Bool-cases, ltb→lt,
}
use tpe.Memory.{memcpy}
use tpe.Memory.Copy.{Copied, memcpy-Copied}
use tpe.CircularBuffer.{CircularBuffer, buf_size, copy_in, copy_out, sub_size}
use tpe.CircularBuffer.Inv.{at}

-- `out` is `buffer` with the `n` places from index `aux` on, round the end, replaced by `source`.
pub record CopiedIn (buffer : List ℕ) (aux n : ℕ) (source out : List ℕ) : Type 0 where
  pub same_length : length out ≡ length buffer
  pub written : (j : ℕ) → j < n → at out aux j ≡ get_or source j 0
  pub kept : (j : ℕ) → n ≤ j → j < buf_size → at out aux j ≡ at buffer aux j

at-eq : (b : List ℕ) (start i k : ℕ) → (start + i) % buf_size ≡ k → at b start i ≡ get_or b k 0
at-eq b start i k e = ap (λ m. get_or b m 0) e

-- One copy that does not go round.
straight-CopiedIn :
    (buffer : List ℕ) (aux n : ℕ) (source out : List ℕ)
    → aux + n ≤ buf_size
    → Copied buffer aux source 0 n out
    → CopiedIn buffer aux n source out
straight-CopiedIn buffer aux n source out fits copied = record {
  same_length = copied.same_length;
  written = λ j h.
      at-eq out aux j (aux + j) (omega arith)
      ∙ (copied.inside j h ∙ ap (λ k. get_or source k 0) {x = 0 + j} {y = j} (omega arith));
  kept = λ j h lt. elim (Bool-cases (ltb (aux + j) buf_size)) [
    | inl low ↦ copied.after ((aux + j) % buf_size) (omega (arith, ltb→lt _ _ low))
    | inr high ↦ copied.before ((aux + j) % buf_size) (ground arith)
  ];
}

-- A copy up to the end of the array, and one from its start on.
round-CopiedIn :
    (buffer : List ℕ) (aux n : ℕ) (source mid out : List ℕ)
    → aux < buf_size
    → n ≤ buf_size
    → buf_size ≤ aux + n
    → Copied buffer aux source 0 (buf_size - aux) mid
    → Copied mid 0 source (buf_size - aux) (n - (buf_size - aux)) out
    → CopiedIn buffer aux n source out
round-CopiedIn buffer aux n source mid out aux_in n_in round first second = record {
  same_length = second.same_length ∙ first.same_length;
  written = λ j h. elim (Bool-cases (ltb (aux + j) buf_size)) [
    | inl low ↦
        let below : aux + j < buf_size = ltb→lt _ _ low in
        at-eq out aux j (aux + j) (omega arith)
        ∙ (second.after (aux + j) (omega arith)
            ∙ (first.inside j (omega arith)
                ∙ ap (λ k. get_or source k 0) {x = 0 + j} {y = j} (omega arith)))
    | inr high ↦
        let above : buf_size ≤ aux + j = ground arith in
        at-eq out aux j (0 + (aux + j - buf_size)) (omega arith)
        ∙ (second.inside (aux + j - buf_size) (omega arith)
            ∙ ap (λ k. get_or source k 0) {x = buf_size - aux + (aux + j - buf_size)} {y = j}
                (omega arith))
  ];
  kept = λ j h lt.
      let k : (aux + j) % buf_size ≡ aux + j - buf_size = omega arith in
      at-eq out aux j (aux + j - buf_size) k
      ∙ (second.after (aux + j - buf_size) (omega arith)
          ∙ (first.before (aux + j - buf_size) (omega arith)
              ∙ sym (at-eq buffer aux j (aux + j - buf_size) k)));
}

sub_size-eq : (a b : ℕ) → b ≤ a → a < 2 ^ 64 → sub_size a b ≡ a - b
sub_size-eq a b h k = omega arith

module _ (c : CircularBuffer) (source_at : ℕ) (source : List ℕ) (n aux : ℕ)
    (size : length c.buffer ≡ buf_size) (aux_in : aux < buf_size) (some_byte : 0 < n)
    (n_in : n ≤ buf_size) (enough : n ≤ length source) where
  copy_in_straight :
      ltb aux ((aux + n) % buf_size) ≡ true
      → (out : List ℕ) × (copy_in c source_at source n aux ((aux + n) % buf_size) ≡ some out)
        × CopiedIn c.buffer aux n source out
  unfolding copy_in
  copy_in_straight lt =
      let lt' : aux < (aux + n) % buf_size = ltb→lt _ _ lt in
      let (out, e, copied) =
        memcpy-Copied c.address source_at c.buffer aux source 0 n (omega arith) (omega arith) in
      (out, rw lt e, straight-CopiedIn c.buffer aux n source out (omega arith) copied)

  copy_in_steps :
      (mid : List ℕ) {r : Option (List ℕ)}
      → ltb aux ((aux + n) % buf_size) ≡ false
      → memcpy c.address source_at c.buffer aux source 0 (buf_size - aux) ≡ some mid
      → memcpy c.address source_at mid 0 source (buf_size - aux) (n - (buf_size - aux)) ≡ r
      → copy_in c source_at source n aux ((aux + n) % buf_size) ≡ r
  unfolding copy_in
  copy_in_steps mid ge e e' =
      let ge' : (aux + n) % buf_size ≤ aux = ground arith in
      let second = sub_size-eq n (buf_size - aux) (omega arith) (omega arith) in
      rw (ge, e) (ap (λ k. memcpy c.address source_at mid 0 source (buf_size - aux) k) second ∙ e')

  copy_in_round :
      ltb aux ((aux + n) % buf_size) ≡ false
      → (out : List ℕ) × (copy_in c source_at source n aux ((aux + n) % buf_size) ≡ some out)
        × CopiedIn c.buffer aux n source out
  copy_in_round ge =
      let ge' : (aux + n) % buf_size ≤ aux = ground arith in
      let (mid, e, copied) =
        memcpy-Copied c.address source_at c.buffer aux source 0 (buf_size - aux) (omega arith)
          (omega arith) in
      let (out, e', copied') =
        memcpy-Copied c.address source_at mid 0 source (buf_size - aux) (n - (buf_size - aux))
          (omega (arith, copied.same_length)) (omega arith) in
      (
        out,
        copy_in_steps mid ge e e',
        round-CopiedIn c.buffer aux n source mid out (omega arith) (omega arith) (omega arith)
            copied copied',
      )

  -- The `n` bytes are stored, wherever the copy begins.
  pub copy_in-CopiedIn :
      (out : List ℕ) × (copy_in c source_at source n aux ((aux + n) % buf_size) ≡ some out)
      × CopiedIn c.buffer aux n source out
  copy_in-CopiedIn = elim (Bool-cases (ltb aux ((aux + n) % buf_size))) [
    | inl lt ↦ copy_in_straight lt
    | inr ge ↦ copy_in_round ge
  ]

-- `out` is `dest` with its first `n` bytes replaced by those from index `aux` of the array on, round
-- its end.
pub record CopiedOut (buffer : List ℕ) (aux n : ℕ) (dest out : List ℕ) : Type 0 where
  pub same_length : length out ≡ length dest
  pub fetched : (j : ℕ) → j < n → get_or out j 0 ≡ at buffer aux j
  pub kept : (j : ℕ) → n ≤ j → get_or out j 0 ≡ get_or dest j 0

straight-CopiedOut :
    (buffer : List ℕ) (aux n : ℕ) (dest out : List ℕ)
    → aux + n ≤ buf_size
    → Copied dest 0 buffer aux n out
    → CopiedOut buffer aux n dest out
straight-CopiedOut buffer aux n dest out fits copied = record {
  same_length = copied.same_length;
  fetched = λ j h.
      ap (λ k. get_or out k 0) {x = j} {y = 0 + j} (omega arith)
      ∙ (copied.inside j h ∙ sym (at-eq buffer aux j (aux + j) (omega arith)));
  kept = λ j h. copied.after j (omega arith);
}

round-CopiedOut :
    (buffer : List ℕ) (aux n : ℕ) (dest mid out : List ℕ)
    → aux < buf_size
    → n ≤ buf_size
    → buf_size ≤ aux + n
    → Copied dest 0 buffer aux (buf_size - aux) mid
    → Copied mid (buf_size - aux) buffer 0 (n - (buf_size - aux)) out
    → CopiedOut buffer aux n dest out
round-CopiedOut buffer aux n dest mid out aux_in n_in round first second = record {
  same_length = second.same_length ∙ first.same_length;
  fetched = λ j h. elim (Bool-cases (ltb (aux + j) buf_size)) [
    | inl low ↦
        let below : aux + j < buf_size = ltb→lt _ _ low in
        second.before j (omega arith)
        ∙ (ap (λ k. get_or mid k 0) {x = j} {y = 0 + j} (omega arith)
            ∙ (first.inside j (omega arith) ∙ sym (at-eq buffer aux j (aux + j) (omega arith))))
    | inr high ↦
        let above : buf_size ≤ aux + j = ground arith in
        ap (λ k. get_or out k 0) {x = j} {y = buf_size - aux + (aux + j - buf_size)} (omega arith)
        ∙ (second.inside (aux + j - buf_size) (omega arith)
            ∙ sym (at-eq buffer aux j (0 + (aux + j - buf_size)) (omega arith)))
  ];
  kept = λ j h. second.after j (omega arith) ∙ first.after j (omega arith);
}

module _ (c : CircularBuffer) (dest_at : ℕ) (dest : List ℕ) (n aux : ℕ)
    (size : length c.buffer ≡ buf_size) (aux_in : aux < buf_size) (some_byte : 0 < n)
    (n_in : n ≤ buf_size) (enough : n ≤ length dest) where
  copy_out_steps :
      (mid : List ℕ) {r : Option (List ℕ)}
      → ltb aux ((aux + n) % buf_size) ≡ false
      → memcpy dest_at c.address dest 0 c.buffer aux (buf_size - aux) ≡ some mid
      → memcpy dest_at c.address mid (buf_size - aux) c.buffer 0 (n - (buf_size - aux)) ≡ r
      → copy_out c dest_at dest n aux ((aux + n) % buf_size) ≡ r
  unfolding copy_out
  copy_out_steps mid ge e e' =
      let ge' : (aux + n) % buf_size ≤ aux = ground arith in
      let second = sub_size-eq n (buf_size - aux) (omega arith) (omega arith) in
      rw (ge, e) (ap (λ k. memcpy dest_at c.address mid (buf_size - aux) c.buffer 0 k) second ∙ e')

  copy_out_straight :
      ltb aux ((aux + n) % buf_size) ≡ true
      → (out : List ℕ) × (copy_out c dest_at dest n aux ((aux + n) % buf_size) ≡ some out)
        × CopiedOut c.buffer aux n dest out
  unfolding copy_out
  copy_out_straight lt =
      let lt' : aux < (aux + n) % buf_size = ltb→lt _ _ lt in
      let (out, e, copied) =
        memcpy-Copied dest_at c.address dest 0 c.buffer aux n (omega arith) (omega arith) in
      (out, rw lt e, straight-CopiedOut c.buffer aux n dest out (omega arith) copied)

  copy_out_round :
      ltb aux ((aux + n) % buf_size) ≡ false
      → (out : List ℕ) × (copy_out c dest_at dest n aux ((aux + n) % buf_size) ≡ some out)
        × CopiedOut c.buffer aux n dest out
  copy_out_round ge =
      let ge' : (aux + n) % buf_size ≤ aux = ground arith in
      let (mid, e, copied) =
        memcpy-Copied dest_at c.address dest 0 c.buffer aux (buf_size - aux) (omega arith)
          (omega arith) in
      let (out, e', copied') =
        memcpy-Copied dest_at c.address mid (buf_size - aux) c.buffer 0 (n - (buf_size - aux))
          (omega (arith, copied.same_length)) (omega arith) in
      (
        out,
        copy_out_steps mid ge e e',
        round-CopiedOut c.buffer aux n dest mid out (omega arith) (omega arith) (omega arith) copied
            copied',
      )

  -- The `n` bytes are fetched, wherever the copy begins.
  pub copy_out-CopiedOut :
      (out : List ℕ) × (copy_out c dest_at dest n aux ((aux + n) % buf_size) ≡ some out)
      × CopiedOut c.buffer aux n dest out
  copy_out-CopiedOut = elim (Bool-cases (ltb aux ((aux + n) % buf_size))) [
    | inl lt ↦ copy_out_straight lt
    | inr ge ↦ copy_out_round ge
  ]
