-- ===== src/Stdio/Buffer.antt =====
-- The buffer of Kernel/stdio.c between the keys and `getchar`. A state has the bytes that successive
-- `sys_read` calls give and those that `putchar` has shown; `none` is a call that waits for a key.
use tpe.Base.{
  ℕ, zero, suc, ◌+◌, ◌-◌, ◌&&◌, ◌||◌, not, Option, none, some, List, [], ◌∷◌, ◌++◌, ◌==◌, ltb,
  if◌then◌else◌, ◌>>=◌, get_or, set,
}

abbrev pub buffer_size : ℕ
buffer_size = 1024

-- `buffer` and `buffi`, the keys to come and what is shown.
pub record Input : Type 0 where
  pub buffer : List ℕ
  pub buffi : ℕ
  pub keys : List ℕ
  pub echo : List ℕ

-- A backspace key on a text of `i` characters.
abbrev pub erase : ℕ → Input → Input
erase i s = if get_or s.buffer (i - 1) 0 == b'\t' then s else record s { echo = s.echo ++ (8 ∷ []) }

-- Another key.
abbrev pub type_key : ℕ → ℕ → Input → Input
type_key c i s = record s { buffer = set s.buffer i c; echo = s.echo ++ (c ∷ []) }

-- The body of the `do` loop for the key `c`: the index and the state.
unfoldable pub fill_step : ℕ → ℕ → Input → ℕ × Input
fill_step c i s =
    if (c == 8) && ltb 0 i
    then (i - 1, erase i s)
    else if not (c == 8)
    then (i + 1, type_key c i s)
    else (i, s)

-- The loop at index `i`.
unfoldable pub fill_loop : List ℕ → ℕ → Input → Option Input
fill_loop [] i s = none
fill_loop (c ∷ keys) i s =
    let next = fill_step c i s in
    let rest = fill_loop keys (next.0) (next.1) in
    if not (c == b'\n') && ltb (next.0) (buffer_size - 1)
    then rest
    else some (record (next.1) { keys = keys })

unfoldable pub fill_buffer : Input → Option Input
fill_buffer s = fill_loop s.keys 0 s

-- The character at `buffi`.
abbrev pub take_char : Input → ℕ × Input
take_char s =
    let c = get_or s.buffer s.buffi 0 in
    (
      c,
      record s { buffi = if (c == b'\n') || (s.buffi + 1 == buffer_size) then 0 else s.buffi + 1 },
    )

unfoldable pub getchar : Input → Option (ℕ × Input)
getchar s = (if s.buffi == 0 then fill_buffer s else some s) >>= λ t. some (take_char t)

-- The characters of `n` calls of `getchar`.
unfoldable pub getchars : ℕ → Input → Option (List ℕ × Input)
getchars zero s = some ([], s)
getchars (suc n) s = getchar s >>= λ r. getchars n (r.1) >>= λ t. some (r.0 ∷ t.0, t.1)
