-- ===== src/ModuleLoader.antt =====
-- Kernel/moduleLoader.c, over a memory, and the image that Toolchain/ModulePacker/main.c writes, as the
-- list of its bytes.
pub mod Held
pub mod Packed
mod Tests
use tpe.Base.{
  ℕ, zero, suc, ◌+◌, ◌-◌, ◌*◌, Bool, ◌&&◌, ◌||◌, ◌/◌, ◌%◌, ◌^◌, Option, none, some, List, [], ◌∷◌,
  ◌++◌, ltb, if◌then◌else◌, length, take, drop, ◌>>=◌, codes, leb,
}
use tpe.Console.{Console, nc_print, nc_print_hex, nc_print_dec, nc_newline}

-- `address` is the place that is read next. The memory is given by the byte at each address; the text
-- memory of the console is a memory of its own.
pub record Loading : Type 0 where
  pub address : ℕ
  pub memory : ℕ → ℕ
  pub console : Console

-- The load of a `uint32_t`, the lowest byte first.
abbrev pub word_at : (ℕ → ℕ) → ℕ → ℕ
word_at memory a =
    memory a + 256 * memory (a + 1) + 65536 * memory (a + 2) + 16777216 * memory (a + 3)

abbrev pub read_uint32 : Loading → ℕ × Loading
read_uint32 s = (word_at s.memory s.address, record s { address = s.address + 4 })

-- The lines printed in front of the copy.
unfoldable pub announce : ℕ → ℕ → ℕ → Console → Option Console
announce module_at target size s =
    nc_print_hex module_at (nc_print (codes "  Will copy module at 0x") s) >>= λ s.
    nc_print_hex target (nc_print (codes " to 0x") s) >>= λ s.
    nc_print_dec size (nc_print (codes " (") s) >>= λ s. some (nc_print (codes " bytes)") s)

-- The bytes from `a` on and those from `b` on do not overlap.
abbrev pub disjoint : ℕ → ℕ → ℕ → Bool
disjoint a b size = leb (a + size) b || leb (b + size) a

-- What `memcpy` leaves, for ranges that do not overlap.
unfoldable pub moved : ℕ → ℕ → ℕ → (ℕ → ℕ) → ℕ → ℕ
moved target size source memory a =
    if leb target a && ltb a (target + size) then memory (source + (a - target)) else memory a

-- `memcpy(targetModuleAddress, *module, moduleSize); *module += moduleSize;` A module that overlaps its
-- own target is `none`: what is left there depends on the words that `memcpy` copies.
unfoldable pub copy_module : ℕ → ℕ → Loading → Option Loading
copy_module target size s =
    if disjoint target s.address size
    then some
        (record s { address = s.address + size; memory = moved target size s.address s.memory })
    else none

unfoldable pub load_module : ℕ → Loading → Option Loading
load_module target s =
    let (size, s) = read_uint32 s in
    announce s.address target size s.console >>= λ console.
    copy_module target size (record s { console = console }) >>= λ s.
    nc_newline (nc_print (codes " [Done]") s.console) >>= λ console.
    some (record s { console = console })

-- The loop with `n` modules left, over the rest of the array of addresses.
unfoldable pub load_loop : ℕ → List ℕ → Loading → Option Loading
load_loop zero targets s = some s
load_loop (suc n) [] s = none
load_loop (suc n) (target ∷ targets) s = load_module target s >>= load_loop n targets

-- `moduleCount` is compared with an `int` as an unsigned number.
unfoldable pub load_modules : List ℕ → Loading → Option Loading
load_modules targets s = let (count, s) = read_uint32 s in load_loop count targets s

-- The four bytes that `fwrite` writes for a number of 32 bits.
unfoldable pub word_bytes : ℕ → List ℕ
word_bytes n = (n % 256) ∷ (n / 256 % 256) ∷ (n / 65536 % 256) ∷ (n / 16777216 % 256) ∷ []

-- The loop of `buildImage` over the files behind the kernel.
unfoldable pub write_modules : List (List ℕ) → List ℕ
write_modules [] = []
write_modules (m ∷ modules) = word_bytes (length m) ++ (m ++ write_modules modules)

-- The file that `buildImage` writes, for the contents of the files that it is given.
unfoldable pub build_image : List ℕ → List (List ℕ) → List ℕ
build_image kernel modules = kernel ++ (word_bytes (length modules) ++ write_modules modules)
