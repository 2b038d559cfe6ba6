-- ===== src/Shell.antt =====
-- Kernel/shell.c: a round of the shell, from the line that `readline_no_spaces` gives to the call of
-- `execute`. A load in front of the array is `none`.
pub mod Words
pub mod Foreground
pub mod Line
mod Tests
use tpe.Base.{
  ℕ, ◌+◌, ◌-◌, Bool, true, false, Option, none, some, List, [], ◌∷◌, ◌==◌, ltb, if◌then◌else◌,
  length, get_elem?, take, drop, ◌>>=◌,
}
use tpe.Strings.{str_len}

-- What `extract_cmd_name` copies; its result is the length.
unfoldable pub extract_cmd_name : List ℕ → List ℕ
extract_cmd_name [] = []
extract_cmd_name (c ∷ str) = let rest = c ∷ extract_cmd_name str in if c == b' ' then [] else rest

-- The character `k` places in front of index `i` of the array that holds the string.
abbrev pub char_before : List ℕ → ℕ → ℕ → Option ℕ
char_before str i k = if ltb i k then none else get_elem? str (i - k)

-- `check_foreground(str + at)`: the result and the string after the store of the NUL.
unfoldable pub check_foreground : List ℕ → ℕ → Option (Bool × List ℕ)
unfolding str_len
check_foreground str at =
    let len = str_len (drop at str) in
    char_before str (at + len) 1 >>= λ last.
    if last == b'&'
    then (if len == 1
        then some (false, take (at + len - 1) str)
        else (char_before str (at + len) 2 >>= λ second.
            some (if second == b' ' then (false, take (at + len - 2) str) else (true, str))))
    else some (true, str)

-- A call `execute(name, args, foreground)`.
pub record Command : Type 0 where
  pub name : List ℕ
  pub args : List ℕ
  pub foreground : Bool

abbrev pub flag : Bool → ℕ
flag b = if b then 1 else 0

-- A round of the loop of `shell` on the line that was read; an empty line calls nothing.
unfoldable pub shell_round : List ℕ → Option (Option Command)
shell_round [] = some none
shell_round (c ∷ str) =
    let cmd_name = extract_cmd_name (c ∷ str) in
    let name_len = length cmd_name in
    check_foreground (c ∷ str) name_len >>= λ (foreground, line). some (
      some (record {
        name = cmd_name;
        args = drop (name_len + flag (ltb name_len (length line))) line;
        foreground = foreground;
      }))
