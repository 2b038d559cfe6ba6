-- ===== src/Keyboard/Queue.antt =====
-- The specification of Kernel/keyboardDriver.c: a queue of at most BUFFSIZE scancodes, and how a state
-- of the driver stands for one.
use tpe.Base.{
  ℕ, ◌+◌, ◌-◌, ◌%◌, ◌≤◌, ◌<◌, ◌≡◌, Bool, true, false, ◌&&◌, List, [], ◌∷◌, ◌++◌, ◌==◌, ltb, leb,
  if◌then◌else◌, length, get_or, tabulate,
}
use tpe.Base.Int.{ℤ, negsuc}
use tpe.Keyboard.{
  buffsize, Flags, Keyboard, initial_flags, Call, no_call, set_foreground_force_process,
  unblock_read_process, process_key_scan_code, choose_keyboard, store_scancode, get_char,
}

-- The specification: the scancodes that wait, oldest first, and the flags.
pub record KeyQueue : Type 0 where
  pub codes : List ℕ
  pub flags : Flags

abbrev pub empty_queue : KeyQueue
empty_queue = record { codes = []; flags = initial_flags }

abbrev pub key_down : ℕ → KeyQueue → (Bool × Flags) → Call × KeyQueue
key_down k q (true, flags) = (no_call, record q { flags = flags })
key_down k q (false, flags) =
    (unblock_read_process, record { codes = q.codes ++ (k ∷ []); flags = flags })

abbrev pub key_byte : ℕ → KeyQueue → Call × KeyQueue
key_byte k q =
    if ltb 0 k && ltb k 128
    then key_down k q (process_key_scan_code k q.flags)
    else if leb 128 k
    then (no_call, record q { flags = (process_key_scan_code (k - 128) q.flags).1 })
    else (no_call, q)

-- A byte comes from the keyboard: a full queue ignores it.
unfoldable pub push_key : ℕ → KeyQueue → Call × KeyQueue
push_key k q =
    if length q.codes == buffsize
    then (no_call, q)
    else if k == 1
    then (set_foreground_force_process, q)
    else key_byte k q

abbrev pub pop_first : List ℕ → Flags → ℤ × KeyQueue
pop_first [] flags = (negsuc 0, record { codes = []; flags = flags })
pop_first (k ∷ codes) flags = (choose_keyboard k flags, record { codes = codes; flags = flags })

-- The oldest character under the flags of the moment at which it is taken; -1 without one.
unfoldable pub pop_key : KeyQueue → ℤ × KeyQueue
pop_key q = pop_first q.codes q.flags

-- The scancode `i` places behind the oldest.
abbrev pub at : List ℕ → ℕ → ℕ → ℕ
at buffer start i = get_or buffer ((start + i) % buffsize) 0

-- A state of the driver stands for the queue.
pub record Represents (s : Keyboard) (q : KeyQueue) : Type 0 where
  pub size : length s.buffer ≡ buffsize
  pub ret_in : s.ret_index < buffsize
  pub fill_in : s.buff_size ≤ buffsize
  pub slot : s.store_index ≡ (s.ret_index + s.buff_size) % buffsize
  pub same_codes : tabulate s.buff_size (at s.buffer s.ret_index) ≡ q.codes
  pub same_flags : s.flags ≡ q.flags

-- One event: a byte of the keyboard, or a read.
pub data Event : Type 0 where
  scancode : ℕ → Event
  read : Event

pub data Output : Type 0 where
  called : Call → Output
  character : ℤ → Output

abbrev pub keyboard_step : Event → Keyboard → Output × Keyboard
keyboard_step (scancode k) s = (called (store_scancode k s).0, (store_scancode k s).1)
keyboard_step read s = (character (get_char s).0, (get_char s).1)

abbrev pub queue_step : Event → KeyQueue → Output × KeyQueue
queue_step (scancode k) q = (called (push_key k q).0, (push_key k q).1)
queue_step read q = (character (pop_key q).0, (pop_key q).1)

-- The outputs of a sequence of events.
unfoldable pub keyboard_run : List Event → Keyboard → List Output
keyboard_run [] s = []
keyboard_run (e ∷ es) s = (keyboard_step e s).0 ∷ keyboard_run es (keyboard_step e s).1

unfoldable pub queue_run : List Event → KeyQueue → List Output
queue_run [] q = []
queue_run (e ∷ es) q = (queue_step e q).0 ∷ queue_run es (queue_step e q).1
