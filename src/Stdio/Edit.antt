-- ===== src/Stdio/Edit.antt =====
-- The keys of a line, with the backspaces among them, and the characters that `getchar` of
-- Kernel/stdio.c gives for them: how `fill_buffer` keeps the text.
use tpe.Base.{
  ℕ, ◌+◌, ◌-◌, ◌≤◌, ◌<◌, ◌≡◌, refl, ◌∙◌, ap, true, false, some, List, [], ◌∷◌, ◌++◌, ◌==◌, ltb,
  if◌then◌else◌, length, get_or, set, length-set, get_or-set_self, get_or-set_ne, arith, inl, inr,
  Bool-cases, lt→ltb,
}
use tpe.Stdio.Buffer.{buffer_size, Input, erase, type_key, fill_step, fill_loop}
use tpe.Stdio.Words.{IsLine}

-- The text typed so far as a stack, its last character on top: a backspace takes one off.
abbrev pub edit_key : List ℕ → ℕ → List ℕ
edit_key [] c = if c == 8 then [] else c ∷ []
edit_key (d ∷ text) c = if c == 8 then text else c ∷ d ∷ text

abbrev pub edit : List ℕ → List ℕ → List ℕ
edit text [] = text
edit text (c ∷ keys) = edit (edit_key text c) keys

-- The text never fills the buffer.
abbrev pub Fits : List ℕ → List ℕ → Type 0
Fits text [] = length text < buffer_size - 1
Fits text (c ∷ keys) = (length text < buffer_size - 1) × Fits (edit_key text c) keys

-- The buffer holds the text from its start on.
abbrev pub Stored : List ℕ → List ℕ → Type 0
Stored [] buffer = Unit {0}
Stored (d ∷ text) buffer = (get_or buffer (length text) 0 ≡ d) × Stored text buffer

set-Stored :
    (text buffer : List ℕ) (i c : ℕ)
    → length text ≤ i
    → Stored text buffer
    → Stored text (set buffer i c)
set-Stored [] buffer i c h st = tt
set-Stored (d ∷ text) buffer i c h st = (
  get_or-set_ne buffer i (length text) c 0 (λ e. absurd (omega (arith, e))) ∙ st.0,
  set-Stored text buffer i c (omega arith) st.1,
)

-- The buffer after a key, with its text.
record Typed (text : List ℕ) (s : Input) (r : ℕ × Input) : Type 0 where
  index : r.0 ≡ length text
  size : length r.1.buffer ≡ buffer_size
  stored : Stored text r.1.buffer
  same_buffi : r.1.buffi ≡ s.buffi

type-Typed :
    (text : List ℕ) (c : ℕ) (s : Input)
    → length s.buffer ≡ buffer_size
    → length text < buffer_size
    → Stored text s.buffer
    → Typed (c ∷ text) s (length text + 1, type_key c (length text) s)
type-Typed text c s size room st = record {
  index = omega arith;
  size = length-set s.buffer (length text) c ∙ size;
  stored = (
    get_or-set_self s.buffer (length text) c 0 (omega (arith, size)),
    set-Stored text s.buffer (length text) c (omega arith) st,
  );
  same_buffi = refl;
}

erase-Typed :
    (text : List ℕ) (d : ℕ) (s : Input)
    → length s.buffer ≡ buffer_size
    → Stored (d ∷ text) s.buffer
    → Typed text s (length (d ∷ text) - 1, erase (length (d ∷ text)) s)
erase-Typed text d s size st =
    elim (Bool-cases (get_or s.buffer (length (d ∷ text) - 1) 0 == b'\t')) [
      | inl e ↦ rw e (record { index = omega arith; size = size; stored = st.1; same_buffi = refl })
      | inr e ↦ rw e (record { index = omega arith; size = size; stored = st.1; same_buffi = refl })
    ]

fill_step-Typed :
    (text : List ℕ) (c : ℕ) (s : Input)
    → length s.buffer ≡ buffer_size
    → length text < buffer_size - 1
    → Stored text s.buffer
    → Typed (edit_key text c) s (fill_step c (length text) s)
unfolding fill_step
fill_step-Typed [] c s size room st = elim (Bool-cases (c == 8)) [
  | inl e ↦ rw e (record { index = refl; size = size; stored = tt; same_buffi = refl })
  | inr e ↦ rw e (type-Typed [] c s size (omega arith) tt)
]
fill_step-Typed (d ∷ text) c s size room st = elim (Bool-cases (c == 8)) [
  | inl e ↦
      (let some_text : ltb 0 (length (d ∷ text)) ≡ true = ground arith in
        rw (e, some_text) (erase-Typed text d s size st))
  | inr e ↦ rw e (type-Typed (d ∷ text) c s size (omega arith) st)
]

-- The line is in the buffer, its line feed on top.
pub record Filled (text more : List ℕ) (s t : Input) : Type 0 where
  pub size : length t.buffer ≡ buffer_size
  pub stored : Stored (b'\n' ∷ text) t.buffer
  pub keys_left : t.keys ≡ more
  pub same_buffi : t.buffi ≡ s.buffi

Fits-length : (text keys : List ℕ) → Fits text keys → length text < buffer_size - 1
Fits-length text [] h = h
Fits-length text (c ∷ keys) h = h.0

pub fill_loop-Filled :
    (keys more text : List ℕ) (s : Input)
    → length s.buffer ≡ buffer_size
    → IsLine keys
    → Fits text keys
    → Stored text s.buffer
    → (t : Input) × (fill_loop (keys ++ (b'\n' ∷ more)) (length text) s ≡ some t)
      × Filled (edit text keys) more s t
unfolding fill_loop fill_step
fill_loop-Filled [] more text s size h fits st =
    let typed = type-Typed text b'\n' s size (omega arith) st in
    (
      record (type_key b'\n' (length text) s) { keys = more },
      refl,
      record { size = typed.size; stored = typed.stored; keys_left = refl; same_buffi = refl },
    )
fill_loop-Filled (c ∷ keys) more text s size h fits st =
    let typed = fill_step-Typed text c s size fits.0 st in
    let s' : Input = (fill_step c (length text) s).1 in
    let (t, e, filled) =
      fill_loop-Filled keys more (edit_key text c) s' typed.size h.1 fits.1 typed.stored in
    let room = Fits-length (edit_key text c) keys fits.1 in
    let index = typed.index in
    let other : (c == b'\n') ≡ false = ground (arith, h.0) in
    let below : ltb (fill_step c (length text) s).0 (buffer_size - 1) ≡ true =
      lt→ltb _ _ (omega (arith, room, index)) in
    (
      t,
      rw (other, below) (ap (λ i. fill_loop (keys ++ (b'\n' ∷ more)) i s') index ∙ e),
      record {
        size = filled.size;
        stored = filled.stored;
        keys_left = filled.keys_left;
        same_buffi = filled.same_buffi ∙ typed.same_buffi;
      },
    )
