-- ===== src/Keyboard/Layout.antt =====
-- The tables of Kernel/include/keyboardmap.h under shift and caps lock.
use tpe.Base.{
  ℕ, zero, suc, ◌<◌, ◌≡◌, ◌≢◌, refl, ◌∙◌, ap, Bool, true, false, ◌&&◌, ◌||◌, not, ◌==◌,
  if◌then◌else◌, get_or, arith, inl, inr, Bool-cases,
}
use tpe.Keyboard.Keymap.{kbdus, shiftkbdus, capskbdus}
use tpe.Keyboard.{Flags, is_alpha, choose_keyboard}

abbrev all_below : ℕ → (ℕ → Bool) → Bool
all_below zero p = true
all_below (suc n) p = p n && all_below n p

both : (a b : Bool) → (a && b) ≡ true → (a ≡ true) × (b ≡ true)
both a b h = ground arith

below_true : (n : ℕ) (p : ℕ → Bool) → all_below n p ≡ true → (k : ℕ) → k < n → p k ≡ true
below_true zero p h k lt = absurd (omega arith)
below_true (suc n) p h k lt =
    let (here, rest) = both (p n) (all_below n p) h in
    elim (Bool-cases (k == n)) [
      | inl same ↦ let e : k ≡ n = ground arith in ap p e ∙ here
      | inr other ↦ below_true n p rest k (ground arith)
    ]

abbrev same_case : ℕ → Bool
same_case k =
    (k == 41)
    || (k == 43)
    || (get_or capskbdus k 0 == (if is_alpha k then get_or shiftkbdus k 0 else get_or kbdus k 0))

all_same_case : all_below 128 same_case ≡ true
unfolding is_alpha kbdus shiftkbdus capskbdus
all_same_case = refl

abbrev pub flags_of : Bool → Bool → Bool → ℕ → Flags
flags_of shift caps pressed count = record {
  shift_pressed = shift;
  caps_lock_pressed = pressed;
  caps_lock_pressed_count = count;
  caps_lock_activated = caps;
}

capskbdus_case :
    (k : ℕ)
    → k < 128
    → k ≢ 41
    → k ≢ 43
    → get_or capskbdus k 0 ≡ (if is_alpha k then get_or shiftkbdus k 0 else get_or kbdus k 0)
capskbdus_case k h a b =
    let same = below_true 128 same_case all_same_case k h in ground (arith, same, a, b)

-- For every key but those with the scancodes 41 and 43, caps lock inverts shift where the key is a
-- letter and makes no difference where it is none.
pub choose_keyboard-caps_lock :
    (k : ℕ) (shift pressed : Bool) (count : ℕ)
    → k < 128
    → k ≢ 41
    → k ≢ 43
    → choose_keyboard k (flags_of shift true pressed count)
      ≡ choose_keyboard k (flags_of (if is_alpha k then not shift else shift) false pressed count)
unfolding choose_keyboard
choose_keyboard-caps_lock k false pressed count h a b =
    let same = capskbdus_case k h a b in
    elim (Bool-cases (is_alpha k)) [
      | inl e ↦ ground (arith, same, e)
      | inr e ↦ ground (arith, same, e)
    ]
choose_keyboard-caps_lock k true pressed count h a b = elim (Bool-cases (is_alpha k)) [
  | inl e ↦ rw e refl
  | inr e ↦ rw e refl
]
