-- ===== src/CircularBuffer/Inv.antt =====
-- The representation invariant, and the bytes that a circular buffer of Kernel/fifo.c holds.
use tpe.Base.{ℕ, ◌+◌, ◌%◌, ◌≤◌, ◌<◌, ◌≡◌, List, length, get_or, tabulate, refl, arith, []}
use tpe.CircularBuffer.{CircularBuffer, buf_size, create_circular_buffer}

pub record IsValid (c : CircularBuffer) : Type 0 where
  pub size : length c.buffer ≡ buf_size
  pub current_in : c.current < buf_size
  pub fill_in : c.buf_fill ≤ buf_size
  pub slot : c.free_slot ≡ (c.current + c.buf_fill) % buf_size

-- The byte that stands `i` places behind index `start`, going round at BUF_SIZE.
abbrev pub at : List ℕ → ℕ → ℕ → ℕ
at buffer start i = get_or buffer ((start + i) % buf_size) 0

-- The bytes held, oldest first.
unfoldable pub contents : CircularBuffer → List ℕ
contents c = tabulate c.buf_fill (at c.buffer c.current)

-- A new buffer is valid and holds no byte, whatever its array held before.
pub create_circular_buffer-IsValid :
    (address : ℕ) (junk : List ℕ)
    → length junk ≡ buf_size
    → IsValid (create_circular_buffer address junk)
      × (contents (create_circular_buffer address junk) ≡ [])
unfolding create_circular_buffer contents tabulate
create_circular_buffer-IsValid address junk h = (omega arith, refl)
