-- ===== src/Keyboard/Tests.antt =====
-- The theorems on Kernel/keyboardDriver.c at key strokes, and runs.
use tpe.Base.{◌≡◌, refl, true, false, List, [], ◌∷◌}
use tpe.Base.Int.{pos, negsuc}
use tpe.Keyboard.{
  initial_keyboard, no_call, unblock_read_process, choose_keyboard, store_scancode, get_char,
  process_key_scan_code,
}
use tpe.Keyboard.Keymap.{kbdus, shiftkbdus, capskbdus}
use tpe.Keyboard.Layout.{flags_of}
use tpe.Keyboard.Queue.{
  empty_queue, Event, scancode, read, called, character, keyboard_run, queue_run,
}
use tpe.Keyboard.Refinement.{keyboard_run-queue_run}

-- Shift is pressed, then the key of A; a character is taken before shift is released, and after.
abbrev strokes : List Event
strokes = scancode 42 ∷ scancode 30 ∷ read ∷ scancode 30 ∷ scancode 170 ∷ read ∷ read ∷ []

keyboard_run-queue_run_example :
    keyboard_run strokes initial_keyboard ≡ queue_run strokes empty_queue
keyboard_run-queue_run_example = keyboard_run-queue_run strokes

-- The second A is shown in lower case, since shift is released before it is taken.
two_cases :
    keyboard_run strokes initial_keyboard
    ≡ called no_call
      ∷ called unblock_read_process
      ∷ character (pos 65)
      ∷ called unblock_read_process
      ∷ called no_call
      ∷ character (pos 97)
      ∷ character (negsuc 0)
      ∷ []
unfolding keyboard_run store_scancode get_char choose_keyboard process_key_scan_code kbdus
    shiftkbdus
two_cases = refl

-- The keys 41 and 43 change under caps lock.
backquote : choose_keyboard 41 (flags_of false true false 0) ≡ pos 92
unfolding choose_keyboard kbdus capskbdus
backquote = refl
