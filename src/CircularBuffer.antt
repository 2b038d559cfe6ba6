-- ===== src/CircularBuffer.antt =====
-- The circular buffer of Kernel/fifo.c. The two functions that change it return the new buffer;
-- `none` is an access outside an array (see Memory).
pub mod Inv
pub mod Slots
pub mod Write
pub mod Read
mod Tests
use tpe.Base.{ℕ, ◌+◌, ◌-◌, ◌%◌, ◌^◌, Bool, ◌&&◌, Option, some, List, ltb, if◌then◌else◌, ◌>>=◌}
use tpe.Memory.{memcpy}

abbrev pub buf_size : ℕ
buf_size = 1024

-- `circular_buffer`; `address` is where its array `buffer` lies.
pub record CircularBuffer : Type 0 where
  pub address : ℕ
  pub buffer : List ℕ
  pub free_slot : ℕ
  pub current : ℕ
  pub buf_fill : ℕ

-- The array is not initialised: it holds what it held.
pub create_circular_buffer : ℕ → List ℕ → CircularBuffer
create_circular_buffer address junk = record {
  address = address;
  buffer = junk;
  free_slot = 0;
  current = 0;
  buf_fill = 0;
}

-- The comparison of an `int` bit pattern with BUF_SIZE.
abbrev pub exceeds_buf_size : ℕ → Bool
exceeds_buf_size s = ltb buf_size s && ltb s (2 ^ 31)

-- `a - b` as an `int`, passed on as the `uint64_t` length of `memcpy`.
abbrev pub sub_size : ℕ → ℕ → ℕ
sub_size a b = (a + 2 ^ 64 - b) % 2 ^ 64

-- The number of bytes to write; the sum is an `int`.
abbrev pub write_count : CircularBuffer → ℕ → ℕ
write_count c bytes =
    if exceeds_buf_size ((c.buf_fill + bytes) % 2 ^ 32) then buf_size - c.buf_fill else bytes

-- The two branches of `write_circular_buffer` that copy `n` bytes from index `aux` on.
pub copy_in : CircularBuffer → ℕ → List ℕ → ℕ → ℕ → ℕ → Option (List ℕ)
copy_in c source_at source n aux free_slot =
    if ltb aux free_slot
    then memcpy c.address source_at c.buffer aux source 0 n
    else (let first_bytes = buf_size - aux in
        let second_bytes = sub_size n first_bytes in
        memcpy c.address source_at c.buffer aux source 0 first_bytes >>= λ buffer.
        memcpy c.address source_at buffer 0 source first_bytes second_bytes)

pub write_circular_buffer :
    CircularBuffer → (source_at : ℕ) → List ℕ → ℕ → Option (ℕ × CircularBuffer)
write_circular_buffer c source_at source bytes =
    let write_bytes = write_count c bytes in
    let free_slot = (c.free_slot + write_bytes) % buf_size in
    copy_in c source_at source write_bytes c.free_slot free_slot >>= λ buffer. some (
      write_bytes,
      record c { buffer = buffer; free_slot = free_slot; buf_fill = c.buf_fill + write_bytes },
    )

-- The two branches of `read_circular_buffer` that copy `n` bytes from index `aux` on.
pub copy_out : CircularBuffer → ℕ → List ℕ → ℕ → ℕ → ℕ → Option (List ℕ)
copy_out c dest_at dest n aux current =
    if ltb aux current
    then memcpy dest_at c.address dest 0 c.buffer aux n
    else (let first_bytes = buf_size - aux in
        let second_bytes = sub_size n first_bytes in
        memcpy dest_at c.address dest 0 c.buffer aux first_bytes >>= λ dest'.
        memcpy dest_at c.address dest' first_bytes c.buffer 0 second_bytes)

-- The result is the number of bytes read, the destination and the buffer.
pub read_circular_buffer :
    CircularBuffer → (dest_at : ℕ) → List ℕ → ℕ → Option (ℕ × List ℕ × CircularBuffer)
read_circular_buffer c dest_at dest bytes =
    let read_bytes = if ltb c.buf_fill bytes then c.buf_fill else bytes in
    let current = (c.current + read_bytes) % buf_size in
    copy_out c dest_at dest read_bytes c.current current >>= λ dest'.
    some (read_bytes, dest', record c { current = current; buf_fill = c.buf_fill - read_bytes })
