-- ===== src/CircularBuffer/Read.antt =====
-- `read_circular_buffer` of Kernel/fifo.c takes bytes from the front of the contents.
use tpe.Base.{
  ℕ, ◌+◌, ◌-◌, ◌%◌, ◌≤◌, ◌<◌, ◌≡◌, refl, ◌∙◌, sym, ap, ap₂, some, List, ◌++◌, length, get_or, take,
  drop, arith, ltb, if◌then◌else◌, tabulate_ext, tabulate-add, take-tabulate, drop-tabulate,
  tabulate-length, tabulate-drop, min,
}
use tpe.CircularBuffer.{CircularBuffer, buf_size, copy_out, read_circular_buffer}
use tpe.CircularBuffer.Inv.{IsValid, at, contents}
use tpe.CircularBuffer.Slots.{CopiedOut, copy_out-CopiedOut}

-- The outcome of a read of `n` bytes of `c` into `dest`.
pub record Read (c : CircularBuffer) (dest : List ℕ) (n : ℕ) (out : List ℕ) (c' : CircularBuffer)
    : Type 0 where
  pub valid : IsValid c'
  pub fill : c'.buf_fill ≡ c.buf_fill - n
  pub given : out ≡ take n (contents c) ++ drop n dest
  pub left : contents c' ≡ drop n (contents c)

module _ (c : CircularBuffer) (dest_at : ℕ) (dest : List ℕ) (bytes n : ℕ)
    (count : (if ltb c.buf_fill bytes then c.buf_fill else bytes) ≡ n) where
  read_copied :
      (out : List ℕ)
      → copy_out c dest_at dest n c.current ((c.current + n) % buf_size) ≡ some out
      → read_circular_buffer c dest_at dest bytes
        ≡ some
            (n, out, record c { current = (c.current + n) % buf_size; buf_fill = c.buf_fill - n })
  unfolding read_circular_buffer
  read_copied out e = rw (count, e)

module _ (c : CircularBuffer) (v : IsValid c) (dest : List ℕ) (n : ℕ) (fits : n ≤ c.buf_fill)
    (enough : n ≤ length dest) (out : List ℕ)
    (copied : CopiedOut c.buffer c.current n dest out) where
  given_by : out ≡ take n (contents c) ++ drop n dest
  unfolding contents
  given_by =
      sym (tabulate-length (n + (length dest - n)) out 0 (omega (arith, copied.same_length)))
      ∙ tabulate-add n (length dest - n) (λ i. get_or out i 0)
      ∙ ap₂ ◌++◌
          (tabulate_ext n _ (at c.buffer c.current) copied.fetched
            ∙ sym (take-tabulate n c.buf_fill (at c.buffer c.current) fits))
          (tabulate_ext (length dest - n) _ (λ i. get_or dest (n + i) 0)
              (λ i h. copied.kept (n + i) (omega arith))
            ∙ tabulate-drop n (length dest - n) dest 0 (omega arith))

  moved_out :
      Read c dest n out
        (record c { current = (c.current + n) % buf_size; buf_fill = c.buf_fill - n })
  unfolding contents
  moved_out = record {
    valid = omega arith;
    fill = refl;
    given = given_by;
    left =
        tabulate_ext (c.buf_fill - n) _ _ (λ i h. ap (λ k. get_or c.buffer k 0) (place i))
        ∙ sym (drop-tabulate n c.buf_fill (at c.buffer c.current) fits);
  }
    where
      place :
          (i : ℕ) → ((c.current + n) % buf_size + i) % buf_size ≡ (c.current + (n + i)) % buf_size
      place i = omega arith

module _ (c : CircularBuffer) (dest_at : ℕ) (dest : List ℕ) (bytes : ℕ) (v : IsValid c) where
  -- A read of at least one byte from a valid buffer that holds one, into a destination with room
  -- for what is read, does not fault. It returns the least of `bytes` and the number of bytes held,
  -- puts that many bytes from the front of the contents at the start of the destination, changes
  -- nothing else there, drops them from the contents, and keeps the invariant.
  pub read_circular_buffer-Read :
      0 < bytes
      → 0 < c.buf_fill
      → min bytes c.buf_fill ≤ length dest
      → (out : List ℕ) × (c' : CircularBuffer) × (read_circular_buffer c dest_at dest bytes
          ≡ some (min bytes c.buf_fill, out, c'))
        × Read c dest (min bytes c.buf_fill) out c'
  read_circular_buffer-Read some_byte filled enough =
      let n : ℕ = min bytes c.buf_fill in
      let (out, e, copied) =
        copy_out-CopiedOut c dest_at dest n c.current (omega arith) (omega arith) (omega arith)
          (omega arith) (omega arith) in
      (
        out,
        record c { current = (c.current + n) % buf_size; buf_fill = c.buf_fill - n },
        read_copied c dest_at dest bytes n (ground arith) out e,
        moved_out c v dest n (omega arith) (omega arith) out copied,
      )
