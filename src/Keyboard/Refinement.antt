-- ===== src/Keyboard/Refinement.antt =====
-- Kernel/keyboardDriver.c refines the queue of scancodes, event by event.
use tpe.Base.{
  ℕ, zero, suc, ◌+◌, ◌-◌, ◌%◌, ◌<◌, ◌≡◌, refl, ◌∙◌, sym, ap, ap₂, true, false, List, [], ◌∷◌, ◌==◌,
  if◌then◌else◌, get_or, tabulate, tabulate_ext, arith, inl, inr, Bool-cases,
}
use tpe.Keyboard.{buffsize, Keyboard, initial_keyboard, choose_keyboard, store_scancode, get_char}
use tpe.Keyboard.Queue.{
  KeyQueue, empty_queue, push_key, pop_key, at, Represents, Event, scancode, read, called,
  character, keyboard_step, queue_step, keyboard_run, queue_run,
}
use tpe.Keyboard.Stored.{same_length, Matches, process_key-Matches}

push_key-Matches :
    (k : ℕ) (s : Keyboard) (q : KeyQueue)
    → Represents s q
    → Matches (store_scancode k s) (push_key k q)
unfolding store_scancode push_key
push_key-Matches k s q r = elim (Bool-cases (s.buff_size == buffsize)) [
  | inl full ↦ rw (same_length s q r, full) (refl, r)
  | inr free ↦ elim (Bool-cases (k == 1)) [
    | inl e ↦ rw (same_length s q r, free, e) (refl, r)
    | inr e ↦
        rw (same_length s q r, free, e)
          (process_key-Matches k s q r (ground (arith, free, r.fill_in)))
  ]
]

-- The queue without its first scancode.
pop-Represents :
    (n : ℕ) (s : Keyboard) (q : KeyQueue)
    → Represents s q
    → s.buff_size ≡ suc n
    → q.codes ≡ at s.buffer s.ret_index 0 ∷ tabulate n (λ i. at s.buffer s.ret_index (i + 1))
unfolding tabulate
pop-Represents n s q r e = sym r.same_codes ∙ ap (λ m. tabulate m (at s.buffer s.ret_index)) e

abbrev taken : Keyboard → Keyboard
taken s = record s {
  ret_index = if s.ret_index + 1 == buffsize then 0 else s.ret_index + 1;
  buff_size = s.buff_size - 1;
}

next_index :
    (start : ℕ)
    → start < buffsize
    → (if start + 1 == buffsize then 0 else start + 1) ≡ (start + 1) % buffsize
next_index start h = ground arith

taken-Represents :
    (n : ℕ) (s : Keyboard) (q : KeyQueue)
    → Represents s q
    → s.buff_size ≡ suc n
    → Represents
        (taken s)
        (record { codes = tabulate n (λ i. at s.buffer s.ret_index (i + 1)); flags = q.flags })
taken-Represents n s q r e =
    let next = next_index s.ret_index r.ret_in in
    record {
      size = r.size;
      ret_in = omega (arith, next);
      fill_in = omega (arith, r.fill_in);
      slot = omega (arith, next, r.slot, e);
      same_codes =
          ap (λ m. tabulate m (at s.buffer (taken s).ret_index)) {x = s.buff_size - 1} {y = n}
            (omega arith)
          ∙ tabulate_ext n _ _ (λ i lt. ap (λ j. get_or s.buffer j 0) (omega (arith, next)));
      same_flags = r.same_flags;
    }

pop_key-at :
    (n : ℕ) (s : Keyboard) (q : KeyQueue)
    → Represents s q
    → s.buff_size ≡ n
    → Matches (get_char s) (pop_key q)
unfolding get_char pop_key tabulate
pop_key-at zero s q r e =
    let none_left : q.codes ≡ [] =
      sym r.same_codes ∙ ap (λ m. tabulate m (at s.buffer s.ret_index)) e in
    let empty : (s.buff_size == 0) ≡ true = ground arith in
    rw (empty, none_left)
      (
        refl,
        record {
          size = r.size;
          ret_in = r.ret_in;
          fill_in = r.fill_in;
          slot = r.slot;
          same_codes = r.same_codes ∙ none_left;
          same_flags = r.same_flags;
        },
      )
pop_key-at (suc n) s q r e =
    let waiting : (s.buff_size == 0) ≡ false = ground arith in
    rw (waiting, pop-Represents n s q r e)
      (
        ap₂ choose_keyboard (ap (λ j. get_or s.buffer j 0) (omega (arith, r.ret_in))) r.same_flags,
        taken-Represents n s q r e,
      )

pop_key-Matches : (s : Keyboard) (q : KeyQueue) → Represents s q → Matches (get_char s) (pop_key q)
pop_key-Matches s q r = pop_key-at s.buff_size s q r refl

step-Matches :
    (e : Event) (s : Keyboard) (q : KeyQueue)
    → Represents s q
    → Matches (keyboard_step e s) (queue_step e q)
step-Matches (scancode k) s q r = let m = push_key-Matches k s q r in (ap called m.0, m.1)
step-Matches read s q r = let m = pop_key-Matches s q r in (ap character m.0, m.1)

run-Represents :
    (es : List Event) (s : Keyboard) (q : KeyQueue)
    → Represents s q
    → keyboard_run es s ≡ queue_run es q
unfolding keyboard_run queue_run
run-Represents [] s q r = refl
run-Represents (e ∷ es) s q r =
    let m = step-Matches e s q r in
    ap₂ ◌∷◌ m.0 (run-Represents es (keyboard_step e s).1 (queue_step e q).1 m.1)

-- From the start on, whatever bytes come from the keyboard and whenever characters are taken, the
-- driver calls and returns what the queue of at most BUFFSIZE scancodes does.
pub keyboard_run-queue_run :
    (es : List Event) → keyboard_run es initial_keyboard ≡ queue_run es empty_queue
unfolding tabulate
keyboard_run-queue_run es = run-Represents es initial_keyboard empty_queue (record {
  size = refl;
  ret_in = omega arith;
  fill_in = omega arith;
  slot = omega arith;
  same_codes = refl;
  same_flags = refl;
})
