-- ===== src/Process.antt =====
-- Kernel/process.c: the process structure and the functions that work on one process. A pointer is
-- an address, NULL is 0, and `Store` says what structure lies at each address; the functions below
-- that take a structure are called with a process that is not NULL.
pub mod Pages
pub mod GiveBack
pub mod Files
pub mod State
mod Tests
use tpe.Base.{
  ℕ, zero, suc, ◌+◌, ◌-◌, ◌%◌, ◌^◌, Bool, true, false, ◌&&◌, ◌||◌, not, Option, none, some, List,
  [], ◌∷◌, ◌++◌, ◌==◌, ltb, leb, if◌then◌else◌, length, get_or, set, replicate, ◌>>=◌,
}

-- `status`; the constants RUNNING to BLOCKED_FOREGROUND of process.h.
pub data Status : Type 0 where
  running ready blocked blocked_read delete blocked_foreground : Status

abbrev pub max_fds : ℕ
max_fds = 64

abbrev pub max_data_pages : ℕ
max_data_pages = 64

-- `struct c_process`. `open_fds` is the bit map, from bit 0 on; `data_page` is the array of page
-- addresses, 0 for NULL.
pub record Process : Type 0 where
  pub st : Status
  pub name : List ℕ
  pub entry_point : ℕ
  pub rsp : ℕ
  pub stack_page : ℕ
  pub n_data_page : ℕ
  pub data_page : List ℕ
  pub pid : ℕ
  pub ppid : ℕ
  pub open_fds : List Bool

abbrev pub Store : Type 0
Store = ℕ → Process

-- A write to the structure at `p`.
abbrev pub modify : (Process → Process) → ℕ → Store → Store
modify f p s q = if q == p then f (s q) else s q

-- `p != NULL`
abbrev pub nonnull : ℕ → Bool
nonnull p = ltb 0 p

abbrev pub is_delete : Status → Bool
is_delete delete = true
is_delete _ = false

abbrev pub is_blocked : Status → Bool
is_blocked blocked = true
is_blocked blocked_read = true
is_blocked blocked_foreground = true
is_blocked _ = false

-- Marks the process for deletion; 0 and 1 are INIT and SHELL. The result is `p != NULL`.
unfoldable pub kill_process : ℕ → Store → Bool × Store
kill_process p s = (
  nonnull p,
  if nonnull p && not ((s p).pid == 1) && not ((s p).pid == 0)
      then modify (λ q. record q { st = delete }) p s
      else s,
)

unfoldable pub is_delete_process : ℕ → Store → Bool
is_delete_process p s = if nonnull p then is_delete (s p).st else false

unfoldable pub is_blocked_process : ℕ → Store → Bool
is_blocked_process p s = if nonnull p then is_blocked (s p).st else true

unfoldable pub block_process : ℕ → Store → Store
block_process p s =
    if nonnull p && not (is_delete (s p).st) then modify (λ q. record q { st = blocked }) p s else s

unfoldable pub unblock_process : ℕ → Store → Store
unblock_process p s =
    if nonnull p && not (is_delete (s p).st) then modify (λ q. record q { st = ready }) p s else s

-- `p->st == BLOCKED_READ`
abbrev pub is_blocked_read : Status → Bool
is_blocked_read blocked_read = true
is_blocked_read _ = false

pub unblock_read_process : ℕ → Store → Store
unfolding unblock_process
unblock_read_process p s = if is_blocked_read (s p).st then unblock_process p s else s

-- These two have no test for DELETE.
pub block_read_process : ℕ → Store → Store
block_read_process p = modify (λ q. record q { st = blocked_read }) p

pub block_foreground_process : ℕ → Store → Store
block_foreground_process p s =
    if nonnull p then modify (λ q. record q { st = blocked_foreground }) p s else s

abbrev pub is_blocked_foreground : Status → Bool
is_blocked_foreground blocked_foreground = true
is_blocked_foreground _ = false

pub unblock_foreground_process : ℕ → Store → Store
unblock_foreground_process p s =
    if nonnull p && is_blocked_foreground (s p).st
    then modify (λ q. record q { st = ready }) p s
    else s

-- The loop of `add_data_page` and of `remove_data_page`: the first index, from `i` on, of the
-- array's rest that holds `page`, or the index behind the array.
pub find_page : ℕ → ℕ → List ℕ → ℕ
find_page page i [] = i
find_page page i (q ∷ pages) = if q == page then i else find_page page (i + 1) pages

pub add_data_page : ℕ → Process → Process
unfolding find_page
add_data_page page p =
    let i = find_page 0 0 p.data_page in
    if ltb i max_data_pages
    then record p { n_data_page = (p.n_data_page + 1) % 2 ^ 64; data_page = set p.data_page i page }
    else p

pub remove_data_page : ℕ → Process → Process
unfolding find_page
remove_data_page page p =
    let i = find_page page 0 p.data_page in
    if ltb i max_data_pages
    then record p {
      n_data_page = (p.n_data_page + (2 ^ 64 - 1)) % 2 ^ 64;
      data_page = set p.data_page i 0;
    }
    else p

pub clean_data_page : Process → Process
clean_data_page p = record p { data_page = replicate max_data_pages 0; n_data_page = 0 }

-- The loop of `data_pages_process` over the array's rest: the pages copied, without the NULL that
-- ends them.
pub collect_pages : List ℕ → ℕ → List ℕ
collect_pages [] pages_left = []
collect_pages (q ∷ pages) zero = []
collect_pages (q ∷ pages) (suc pages_left) =
    if q == 0 then collect_pages pages (suc pages_left) else (q ∷ collect_pages pages pages_left)

pub data_pages_process : Process → List ℕ
unfolding collect_pages
data_pages_process p = collect_pages p.data_page p.n_data_page

-- `1 << fd` is an `int`, extended to the 64 bits of the map: at 31 the sign bit fills the upper half,
-- and a shift by the width or more is undefined.
unfoldable pub bit_mask : ℕ → Option (List Bool)
bit_mask fd =
    if ltb fd 31
    then some (replicate fd false ++ (true ∷ replicate (63 - fd) false))
    else if fd == 31
    then some (replicate 31 false ++ replicate 33 true)
    else none

-- The bitwise operations of two words.
pub or_bits : List Bool → List Bool → List Bool
or_bits [] bs = []
or_bits (a ∷ as') [] = a ∷ as'
or_bits (a ∷ as') (b ∷ bs) = (a || b) ∷ or_bits as' bs

pub and_not_bits : List Bool → List Bool → List Bool
and_not_bits [] bs = []
and_not_bits (a ∷ as') [] = a ∷ as'
and_not_bits (a ∷ as') (b ∷ bs) = (a && not b) ∷ and_not_bits as' bs

-- `(a & b) != 0`
unfoldable pub meets : List Bool → List Bool → Bool
meets [] bs = false
meets (a ∷ as') [] = false
meets (a ∷ as') (b ∷ bs) = (a && b) || meets as' bs

-- `fd` is an `int` that is not negative here; the result is paired with the new structure.
pub set_file_open : ℕ → Process → Option (Bool × Process)
unfolding bit_mask or_bits
set_file_open fd p =
    if leb max_fds fd
    then some (false, p)
    else (bit_mask fd >>= λ m. some (true, record p { open_fds = or_bits p.open_fds m }))

pub set_file_closed : ℕ → Process → Option (Bool × Process)
unfolding bit_mask and_not_bits
set_file_closed fd p =
    if leb max_fds fd
    then some (false, p)
    else (bit_mask fd >>= λ m. some (true, record p { open_fds = and_not_bits p.open_fds m }))

unfoldable pub file_is_open : ℕ → Process → Option Bool
unfolding bit_mask meets
file_is_open fd p =
    if ltb fd max_fds then (bit_mask fd >>= λ m. some (meets p.open_fds m)) else some false
