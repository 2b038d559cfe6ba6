-- ===== src/Keyboard.antt =====
-- Kernel/keyboardDriver.c: the ring of scancodes, the flags of the shift and caps lock keys and the
-- choice of a character. `get_key`, an assembly routine, gives the byte that `store_scancode` takes;
-- what it asks of the processes is a value of the result. Scancodes in the ring are below 128.
pub mod Keymap
pub mod Layout
pub mod Queue
pub mod Stored
pub mod Refinement
mod Tests
use tpe.Base.{
  ℕ, zero, suc, ◌+◌, ◌-◌, ◌%◌, Bool, true, false, ◌&&◌, ◌||◌, not, List, ◌==◌, ltb, leb,
  if◌then◌else◌, get_or, set, replicate,
}
use tpe.Base.Int.{ℤ, pos, negsuc}
use Keymap.{kbdus, shiftkbdus, capskbdus}

abbrev pub buffsize : ℕ
buffsize = 128

pub record Flags : Type 0 where
  pub shift_pressed : Bool
  pub caps_lock_pressed : Bool
  pub caps_lock_pressed_count : ℕ
  pub caps_lock_activated : Bool

-- The static variables; the number of scancodes held is `buff_size`.
pub record Keyboard : Type 0 where
  pub buffer : List ℕ
  pub ret_index : ℕ
  pub store_index : ℕ
  pub buff_size : ℕ
  pub flags : Flags

abbrev pub initial_flags : Flags
initial_flags = record {
  shift_pressed = false;
  caps_lock_pressed = false;
  caps_lock_pressed_count = 0;
  caps_lock_activated = false;
}

abbrev pub initial_keyboard : Keyboard
initial_keyboard = record {
  buffer = replicate buffsize 0;
  ret_index = 0;
  store_index = 0;
  buff_size = 0;
  flags = initial_flags;
}

-- What `store_scancode` calls: it gives the foreground to the parent of the process that has it, or
-- unblocks that process's read.
pub data Call : Type 0 where
  no_call : Call
  set_foreground_force_process : Call
  unblock_read_process : Call

unfoldable pub is_shift_key : ℕ → Bool
is_shift_key k = (k == 54) || (k == 42)

unfoldable pub is_alpha : ℕ → Bool
is_alpha k = (leb 16 k && leb k 25) || (leb 30 k && leb k 38) || (leb 44 k && leb k 50)

-- The case of CAPSLOCK.
abbrev pub press_caps_lock : Flags → Flags
press_caps_lock f =
    let count = f.caps_lock_pressed_count + 1 in
    if count % 2 == 0
    then record f {
      caps_lock_pressed = not f.caps_lock_pressed;
      caps_lock_pressed_count = 0;
      caps_lock_activated = not f.caps_lock_activated;
    }
    else record f { caps_lock_pressed = not f.caps_lock_pressed; caps_lock_pressed_count = count }

unfoldable pub process_key_scan_code : ℕ → Flags → Bool × Flags
process_key_scan_code k f =
    if k == 42
    then (true, record f { shift_pressed = not f.shift_pressed })
    else if k == 54
    then (true, record f { shift_pressed = not f.shift_pressed })
    else if k == 58
    then (true, press_caps_lock f)
    else (false, f)

-- -1 is a key without a character.
unfoldable pub choose_keyboard : ℕ → Flags → ℤ
choose_keyboard k f =
    if get_or kbdus k 0 == 0
    then negsuc 0
    else if f.caps_lock_activated && not f.shift_pressed
    then pos (get_or capskbdus k 0)
    else if not f.caps_lock_activated && f.shift_pressed
    then pos (get_or shiftkbdus k 0)
    else if f.caps_lock_activated && f.shift_pressed
    then pos (if is_alpha k then get_or kbdus k 0 else get_or shiftkbdus k 0)
    else pos (get_or kbdus k 0)

-- `if (store_index == BUFFSIZE) store_index = 0;`
abbrev pub wrapped : Keyboard → Keyboard
wrapped s = if s.store_index == buffsize then record s { store_index = 0 } else s

-- A key is pressed: a key that is no shift or caps lock is stored.
abbrev pub key_pressed : ℕ → Keyboard → (Bool × Flags) → Call × Keyboard
key_pressed k s (true, flags) = (no_call, record s { flags = flags })
key_pressed k s (false, flags) = (
  unblock_read_process,
  record s {
    buffer = set s.buffer s.store_index k;
    store_index = s.store_index + 1;
    buff_size = s.buff_size + 1;
    flags = flags;
  },
)

-- The body for the byte `k` of `get_key`, which is negative as a `char` from 128 on: a key is released.
abbrev pub process_key : ℕ → Keyboard → Call × Keyboard
process_key k s =
    if ltb 0 k && ltb k 128
    then key_pressed k s (process_key_scan_code k s.flags)
    else if leb 128 k
    then (no_call, record s { flags = (process_key_scan_code (k - 128) s.flags).1 })
    else (no_call, s)

unfoldable pub store_scancode : ℕ → Keyboard → Call × Keyboard
store_scancode k s =
    if s.buff_size == buffsize
    then (no_call, s)
    else if k == 1
    then (set_foreground_force_process, s)
    else ((process_key k s).0, wrapped ((process_key k s).1))

unfoldable pub get_char : Keyboard → ℤ × Keyboard
get_char s = if s.buff_size == 0 then (negsuc 0, s) else (
  choose_keyboard (get_or s.buffer s.ret_index 0) s.flags,
  record s {
    ret_index = if s.ret_index + 1 == buffsize then 0 else s.ret_index + 1;
    buff_size = s.buff_size - 1;
  },
)
