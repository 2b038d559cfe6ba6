-- ===== src/Memory.antt =====
-- Kernel/lib.c: `memset` and `memcpy`. A block of memory is a C array, a list of bytes; a pointer
-- into it is an index. Every access is checked: `none` stands for one outside the array.
pub mod Copy
pub mod Overrun
pub mod Fill
use tpe.Base.{
  ℕ, zero, suc, ◌+◌, ◌*◌, ◌/◌, ◌%◌, ◌≡◌, Bool, true, false, ◌&&◌, Option, none, some, List, ◌==◌,
  ltb, if◌then◌else◌, length, get_elem?, set, ◌>>=◌,
}

-- `dst[d] = v`
abbrev pub put : List ℕ → ℕ → ℕ → Option (List ℕ)
put dst d v = if ltb d (length dst) then some (set dst d v) else none

-- The loop of `memset` writes from the last byte down; `chr` is the value cast to `uint8_t`.
memset_loop : List ℕ → ℕ → ℕ → Option (List ℕ)
memset_loop dst chr zero = some dst
memset_loop dst chr (suc length) = do dst' ← put dst length chr; memset_loop dst' chr length

-- `c` is the bit pattern of the `int32_t`.
pub memset : List ℕ → ℕ → ℕ → Option (List ℕ)
unfolding memset_loop
memset dst c length = memset_loop dst (c % 256) length

-- `for (i = 0; i < length; i++) d[i] = s[i];` over `uint8_t`, `n` rounds left.
pub copy_bytes : List ℕ → ℕ → List ℕ → ℕ → ℕ → Option (List ℕ)
copy_bytes dst d src s zero = some dst
copy_bytes dst d src s (suc n) = do
  v ← get_elem? src s
  dst' ← put dst d v
  copy_bytes dst' (d + 1) src (s + 1) n

-- One `d[i] = s[i]` over `uint32_t`: four bytes are loaded, then four are stored.
copy_word : List ℕ → ℕ → List ℕ → ℕ → Option (List ℕ)
copy_word dst d src s = do
  a ← get_elem? src s
  b ← get_elem? src (s + 1)
  c ← get_elem? src (s + 2)
  e ← get_elem? src (s + 3)
  dst ← put dst d a
  dst ← put dst (d + 1) b
  dst ← put dst (d + 2) c
  put dst (d + 3) e

-- The word loop, `n` words left.
copy_words : List ℕ → ℕ → List ℕ → ℕ → ℕ → Option (List ℕ)
copy_words dst d src s zero = some dst
copy_words dst d src s (suc n) = do
  dst' ← copy_word dst d src s
  copy_words dst' (d + 4) src (s + 4) n

-- `memcpy`, for two arrays that do not overlap: `dst` lies at the address `dst_at` and `src` at
-- `src_at`; `d` and `s` are the indices where the copy begins. `sizeof(uint32_t)` is 4.
pub memcpy : (dst_at src_at : ℕ) → List ℕ → ℕ → List ℕ → ℕ → ℕ → Option (List ℕ)
unfolding copy_bytes copy_word copy_words
memcpy dst_at src_at dst d src s length =
    if ((dst_at + d) % 4 == 0) && ((src_at + s) % 4 == 0) && (length % 4 == 0)
    then copy_words dst d src s (length / 4)
    else copy_bytes dst d src s length
