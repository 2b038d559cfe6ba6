-- ===== src/CircularBuffer/Write.antt =====
-- `write_circular_buffer` of Kernel/fifo.c appends to the contents what fits; on a full buffer it
-- copies out of bounds.
use tpe.Base.{
  ℕ, ◌+◌, ◌-◌, ◌%◌, ◌^◌, ◌≤◌, ◌<◌, ◌≡◌, refl, ◌∙◌, ap, ap₂, inl, inr, none, some, List, ◌++◌,
  length, get_or, take, arith, Option-cases, le→ltb, tabulate, tabulate_ext, tabulate-add,
  tabulate-get_or, min,
}
use tpe.Memory.{memcpy}
use tpe.Memory.Overrun.{memcpy-overrun, length-memcpy}
use tpe.CircularBuffer.{CircularBuffer, buf_size, copy_in, write_count, write_circular_buffer}
use tpe.CircularBuffer.Inv.{IsValid, at, contents}
use tpe.CircularBuffer.Slots.{CopiedIn, copy_in-CopiedIn}

module _ (c : CircularBuffer) (v : IsValid c) (bytes : ℕ)
    (small : c.buf_fill + bytes < 2 ^ 31) where
  -- The count is the least of what is asked and what is free.
  pub write_count-min : write_count c bytes ≡ min bytes (buf_size - c.buf_fill)
  write_count-min = ground arith

-- The bytes of the array after a copy to the free slot: those held, then the source.
contents-copy_in :
    (c : CircularBuffer) (v : IsValid c) (n : ℕ) (source out : List ℕ)
    → c.buf_fill + n ≤ buf_size
    → n ≤ length source
    → CopiedIn c.buffer c.free_slot n source out
    → tabulate (c.buf_fill + n) (at out c.current) ≡ contents c ++ take n source
unfolding contents
contents-copy_in c v n source out fits enough copied =
    tabulate-add c.buf_fill n (at out c.current)
    ∙ ap₂ ◌++◌ (tabulate_ext c.buf_fill _ _ old)
        (tabulate_ext n _ (λ j. get_or source j 0) new ∙ tabulate-get_or n source 0 enough)
  where
    same_place :
        (i j : ℕ)
        → (c.current + i) % buf_size ≡ (c.free_slot + j) % buf_size
        → (b : List ℕ) → at b c.current i ≡ at b c.free_slot j
    same_place i j e b = ap (λ k. get_or b k 0) e

    old : (i : ℕ) → i < c.buf_fill → at out c.current i ≡ at c.buffer c.current i
    old i h =
        let e : (c.current + i) % buf_size
            ≡ (c.free_slot + (buf_size - c.buf_fill + i)) % buf_size =
          omega arith in
        same_place i (buf_size - c.buf_fill + i) e out
        ∙ copied.kept (buf_size - c.buf_fill + i) (omega arith) (omega arith)
        ∙ ap (λ k. get_or c.buffer k 0)
            (let e' : (c.free_slot + (buf_size - c.buf_fill + i)) % buf_size
                  ≡ (c.current + i) % buf_size =
                omega arith in
              e')

    new : (j : ℕ) → j < n → at out c.current (c.buf_fill + j) ≡ get_or source j 0
    new j h = same_place (c.buf_fill + j) j (omega arith) out ∙ copied.written j h

module _ (c : CircularBuffer) (source_at : ℕ) (source : List ℕ) (bytes n : ℕ)
    (count : write_count c bytes ≡ n) where
  write_copied :
      (out : List ℕ)
      → copy_in c source_at source n c.free_slot ((c.free_slot + n) % buf_size) ≡ some out
      → write_circular_buffer c source_at source bytes
        ≡ some (
          n,
          record c {
            buffer = out;
            free_slot = (c.free_slot + n) % buf_size;
            buf_fill = c.buf_fill + n;
          },
        )
  unfolding write_circular_buffer
  write_copied out e = rw (count, e)

  write_fault :
      copy_in c source_at source n c.free_slot ((c.free_slot + n) % buf_size) ≡ none
      → write_circular_buffer c source_at source bytes ≡ none
  unfolding write_circular_buffer
  write_fault e = rw (count, e)

copy_in-zero :
    (c : CircularBuffer) (source_at : ℕ) (source : List ℕ) (aux free_slot : ℕ)
    → length c.buffer ≡ buf_size
    → aux < buf_size
    → free_slot ≡ aux
    → copy_in c source_at source 0 aux free_slot ≡ none
unfolding copy_in
copy_in-zero c source_at source aux free_slot size aux_in same =
    rw (le→ltb aux free_slot (omega arith))
      (elim (Option-cases (memcpy c.address source_at c.buffer aux source 0 (buf_size - aux))) [
        | inl e ↦ rw e
        | inr (mid, e) ↦ rw e (
            memcpy-overrun c.address source_at mid 0 source (buf_size - aux) _ (omega arith) (
              omega (
                arith,
                length-memcpy c.address source_at c.buffer aux source 0 (buf_size - aux) mid e,
              )))
      ])

-- The outcome of a write of `n` bytes of `source` to `c`.
pub record Wrote (c : CircularBuffer) (source : List ℕ) (n : ℕ) (c' : CircularBuffer) : Type 0 where
  pub valid : IsValid c'
  pub fill : c'.buf_fill ≡ c.buf_fill + n
  pub appended : contents c' ≡ contents c ++ take n source

module _ (c : CircularBuffer) (source_at : ℕ) (source : List ℕ) (bytes : ℕ) (v : IsValid c)
    (small : c.buf_fill + bytes < 2 ^ 31) (some_byte : 0 < bytes) where
  moved_in :
      (n : ℕ) (out : List ℕ)
      → c.buf_fill + n ≤ buf_size
      → n ≤ length source
      → CopiedIn c.buffer c.free_slot n source out
      → Wrote c source n (record c {
        buffer = out;
        free_slot = (c.free_slot + n) % buf_size;
        buf_fill = c.buf_fill + n;
      })
  unfolding contents
  moved_in n out fits enough copied = record {
    valid = omega (arith, copied.same_length);
    fill = refl;
    appended = contents-copy_in c v n source out fits enough copied;
  }

  -- A write to a valid buffer with a free slot, of at least one byte and with as many source bytes
  -- as are taken, does not fault. It returns the least of `bytes` and the number of free slots,
  -- appends that many bytes of the source, in order, to the contents, and keeps the invariant.
  pub write_circular_buffer-Wrote :
      c.buf_fill < buf_size
      → min bytes (buf_size - c.buf_fill) ≤ length source
      → (c' : CircularBuffer) × (write_circular_buffer c source_at source bytes
          ≡ some (min bytes (buf_size - c.buf_fill), c'))
        × Wrote c source (min bytes (buf_size - c.buf_fill)) c'
  write_circular_buffer-Wrote room enough =
      let n : ℕ = min bytes (buf_size - c.buf_fill) in
      let (out, e, copied) =
        copy_in-CopiedIn c source_at source n c.free_slot (omega arith) (omega arith) (omega arith)
          (omega arith) (omega arith) in
      (
        record c {
          buffer = out;
          free_slot = (c.free_slot + n) % buf_size;
          buf_fill = c.buf_fill + n;
        },
        write_copied c source_at source bytes n (write_count-min c v bytes small) out e,
        moved_in n out (omega arith) (omega arith) copied,
      )

  -- On a full buffer the write is no empty one: `memcpy` is called with the distance to the end
  -- of the array, and then with a negative length, which leaves the array.
  pub write_circular_buffer-full :
      c.buf_fill ≡ buf_size → write_circular_buffer c source_at source bytes ≡ none
  write_circular_buffer-full full =
      write_fault c source_at source bytes 0 (write_count-min c v bytes small ∙ (omega arith))
        (copy_in-zero c source_at source c.free_slot _ v.size (omega arith) (omega arith))
