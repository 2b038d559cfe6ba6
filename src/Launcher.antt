-- ===== src/Launcher.antt =====
-- Kernel/executer.c: how a program is given its arguments. A page of memory is the array of its
-- first MAX_ARGS pointers and the array of the bytes behind them; a store or a load outside the array
-- is `none`. A pointer is an address, NULL is 0.
pub mod Split
pub mod Built
pub mod Arguments
mod Tests
use tpe.Base.{
  ℕ, zero, suc, ◌+◌, ◌-◌, ◌*◌, Option, none, some, List, [], ◌∷◌, ◌==◌, ltb, if◌then◌else◌, length,
  get_elem?, drop, set, ◌>>=◌,
}
use tpe.Memory.{put}

abbrev pub max_args : ℕ
max_args = 32

abbrev pub page_bytes : ℕ
page_bytes = 0x1000

-- `MAX_ARGS * sizeof(char *)`
abbrev pub strings_offset : ℕ
strings_offset = max_args * 8

pub record Page : Type 0 where
  pub address : ℕ
  pub pointers : List ℕ
  pub strings : List ℕ

-- `arg_strings`
abbrev pub arg_strings : ℕ → ℕ
arg_strings memory = memory + strings_offset

-- The loop of `build_arguments` at the rest of `arg`, for the arrays `arg_strings` and `memory`, in
-- which `arguments[i]` is the pointer 1 + i.
unfoldable pub build_loop :
    (strings_at : ℕ) → List ℕ → (j i ptr : ℕ) → List ℕ → List ℕ → Option (List ℕ × List ℕ)
build_loop strings_at [] j i ptr strings pointers = put strings j 0 >>= λ strings.
    put pointers (1 + i) ptr >>= λ pointers.
    put pointers (1 + (i + 1)) 0 >>= λ pointers. some (strings, pointers)
build_loop strings_at (c ∷ arg) j i ptr strings pointers =
    let split = put strings j 0 >>= λ strings. put pointers (1 + i) ptr >>= λ pointers.
    build_loop strings_at arg (j + 1) (i + 1) (strings_at + j + 1) strings pointers in
    let copy =
      put strings j c >>= λ strings. build_loop strings_at arg (j + 1) i ptr strings pointers in
    if c == b' ' then split else copy

unfoldable pub build_arguments :
    (strings_at : ℕ) → List ℕ → List ℕ → List ℕ → Option (List ℕ × List ℕ)
build_arguments strings_at [] strings pointers =
    put pointers 1 0 >>= λ pointers. some (strings, pointers)
build_arguments strings_at (c ∷ arg) strings pointers =
    build_loop strings_at (c ∷ arg) 0 0 strings_at strings pointers

-- What `execp` puts in the page that `sys_malloc` gives it.
unfoldable pub fill_page : (function : ℕ) → List ℕ → Page → Option Page
fill_page function arg memory = put memory.pointers 0 function >>= λ pointers.
    build_arguments (arg_strings memory.address) arg memory.strings pointers >>= λ (s, p).
    some (record memory { strings = s; pointers = p })

-- `while (argv[argc] != NULL) argc++;`: the pointers before the first NULL.
unfoldable pub argument_pointers : List ℕ → Option (List ℕ)
argument_pointers [] = none
argument_pointers (p ∷ pointers) =
    let rest = argument_pointers pointers in
    if p == 0 then some [] else (rest >>= λ ps. some (p ∷ ps))

-- The call `(*function)(argc, argv)`; `argc` is the length of `argv`.
pub record EntryCall : Type 0 where
  pub function : ℕ
  pub argv : List ℕ

-- `executer` up to the call: the page `params` is copied to the page at `memory`.
unfoldable pub executer : ℕ → Page → Option (EntryCall × Page)
executer memory params =
    let copy : Page = record params { address = memory } in
    get_elem? copy.pointers 0 >>= λ function. argument_pointers (drop 1 copy.pointers) >>= λ argv.
    some (record { function = function; argv = argv }, copy)
