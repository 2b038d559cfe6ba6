-- ===== src/CircularBuffer/Tests.antt =====
-- The theorems on the circular buffer of Kernel/fifo.c at a buffer near the end of its array.
use tpe.Base.{ℕ, ◌-◌, ◌≡◌, refl, some, none, List, [], ◌∷◌, ◌++◌, replicate, arith, min}
use tpe.CircularBuffer.{CircularBuffer, buf_size, write_circular_buffer, read_circular_buffer}
use tpe.CircularBuffer.Inv.{IsValid}
use tpe.CircularBuffer.Write.{Wrote, write_circular_buffer-Wrote, write_circular_buffer-full}
use tpe.CircularBuffer.Read.{Read, read_circular_buffer-Read}

-- Two bytes are held, and the free slot is the last of the array.
abbrev buffer : CircularBuffer
buffer = record {
  address = 0x600000;
  buffer = replicate 1021 0 ++ (7 ∷ 8 ∷ 0 ∷ []);
  free_slot = 1023;
  current = 1021;
  buf_fill = 2;
}

buffer-IsValid : IsValid buffer
buffer-IsValid = record {
  size = refl;
  current_in = omega arith;
  fill_in = omega arith;
  slot = refl;
}

abbrev full : CircularBuffer
full = record buffer { free_slot = 1021; buf_fill = 1024 }

full-IsValid : IsValid full
full-IsValid = record { size = refl; current_in = omega arith; fill_in = omega arith; slot = refl }

abbrev source : List ℕ
source = 97 ∷ 98 ∷ 99 ∷ 100 ∷ []

-- The bytes go round the end of the array.
write_circular_buffer-Wrote_example :
    (c' : CircularBuffer) × (write_circular_buffer buffer 0x700000 source 4
      ≡ some (min 4 (buf_size - 2), c'))
    × Wrote buffer source (min 4 (buf_size - 2)) c'
write_circular_buffer-Wrote_example =
    write_circular_buffer-Wrote buffer 0x700000 source 4 buffer-IsValid (omega arith) (omega arith)
      (omega arith) (omega arith)

write_circular_buffer-full_example : write_circular_buffer full 0x700000 source 4 ≡ none
write_circular_buffer-full_example =
    write_circular_buffer-full full 0x700000 source 4 full-IsValid (omega arith) (omega arith) refl

read_circular_buffer-Read_example :
    (out : List ℕ) × (c' : CircularBuffer) × (read_circular_buffer buffer 0x700000 source 3
      ≡ some (min 3 2, out, c'))
    × Read buffer source (min 3 2) out c'
read_circular_buffer-Read_example =
    read_circular_buffer-Read buffer 0x700000 source 3 buffer-IsValid (omega arith) (omega arith)
      (omega arith)
