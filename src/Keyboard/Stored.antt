-- ===== src/Keyboard/Stored.antt =====
-- A byte of the keyboard at the ring of Kernel/keyboardDriver.c and at the queue it stands for.
use tpe.Base.{
  ℕ, ◌+◌, ◌-◌, ◌%◌, ◌<◌, ◌≡◌, refl, ◌∙◌, sym, ap, ap₂, Bool, true, false, ◌&&◌, [], ◌∷◌, ◌++◌, ◌==◌,
  ltb, leb, if◌then◌else◌, length, get_or, set, tabulate, tabulate_ext, tabulate-add,
  length-tabulate, length-set, get_or-set_self, get_or-set_ne, arith, inl, inr, Bool-cases,
}
use mathlib.Core.Path.{subst}
use tpe.Keyboard.{
  buffsize, Flags, Keyboard, process_key_scan_code, process_key, key_pressed, wrapped,
}
use tpe.Keyboard.Queue.{KeyQueue, key_down, key_byte, at, Represents}

pub same_length : (s : Keyboard) (q : KeyQueue) → Represents s q → length q.codes ≡ s.buff_size
same_length s q r =
    ap length (sym r.same_codes) ∙ length-tabulate s.buff_size (at s.buffer s.ret_index)

-- A scancode stored behind the others.
at-set :
    (s : Keyboard) (q : KeyQueue) (k : ℕ)
    → Represents s q
    → s.buff_size < buffsize
    → tabulate (s.buff_size + 1) (at (set s.buffer s.store_index k) s.ret_index)
      ≡ q.codes ++ (k ∷ [])
unfolding tabulate
at-set s q k r room =
    tabulate-add s.buff_size 1 (at (set s.buffer s.store_index k) s.ret_index)
    ∙ ap₂ ◌++◌
        (tabulate_ext s.buff_size _ _ (λ i lt.
            get_or-set_ne s.buffer s.store_index ((s.ret_index + i) % buffsize) k 0
              (λ e. absurd (omega (arith, r.slot, e, r.ret_in))))
          ∙ r.same_codes)
        (ap (λ c. c ∷ [])
          (ap (λ i. get_or (set s.buffer s.store_index k) i 0) (omega (arith, r.slot))
            ∙ get_or-set_self s.buffer s.store_index k 0 (omega (arith, r.slot, r.size))))

-- The step of both sides has the same output and keeps the relation.
abbrev pub Matches : {A : Type 0} → A × Keyboard → A × KeyQueue → Type 0
Matches x y = (x.0 ≡ y.0) × Represents x.1 y.1

with_flags :
    (s : Keyboard) (q : KeyQueue) (flags flags' : Flags)
    → Represents s q
    → flags ≡ flags'
    → Represents (record s { flags = flags }) (record q { flags = flags' })
with_flags s q flags flags' r e = record {
  size = r.size;
  ret_in = r.ret_in;
  fill_in = r.fill_in;
  slot = r.slot;
  same_codes = r.same_codes;
  same_flags = e;
}

wrapped_same : (s : Keyboard) → s.store_index < buffsize → wrapped s ≡ s
wrapped_same s h = let e : (s.store_index == buffsize) ≡ false = ground arith in rw e refl

abbrev stored : ℕ → Flags → Keyboard → Keyboard
stored k flags s = record {
  buffer = set s.buffer s.store_index k;
  ret_index = s.ret_index;
  store_index = if s.store_index + 1 == buffsize then 0 else s.store_index + 1;
  buff_size = s.buff_size + 1;
  flags = flags;
}

wrapped-stored :
    (k : ℕ) (flags : Flags) (s : Keyboard)
    → wrapped ((key_pressed k s (false, flags)).1) ≡ stored k flags s
wrapped-stored k flags s = elim (Bool-cases (s.store_index + 1 == buffsize)) [
  | inl e ↦ rw e refl
  | inr e ↦ rw e refl
]

stored-Represents :
    (s : Keyboard) (q : KeyQueue) (k : ℕ) (flags flags' : Flags)
    → Represents s q
    → s.buff_size < buffsize
    → flags ≡ flags'
    → Represents (stored k flags s) (record { codes = q.codes ++ (k ∷ []); flags = flags' })
stored-Represents s q k flags flags' r room e = record {
  size = length-set s.buffer s.store_index k ∙ r.size;
  ret_in = r.ret_in;
  fill_in = omega arith;
  slot = ground (arith, r.slot, r.ret_in);
  same_codes = at-set s q k r room;
  same_flags = e;
}

pressed-Matches :
    (k : ℕ) (s : Keyboard) (q : KeyQueue) (p : Bool × Flags)
    → Represents s q
    → s.buff_size < buffsize
    → Matches ((key_pressed k s p).0, wrapped ((key_pressed k s p).1)) (key_down k q p)
pressed-Matches k s q (true, flags) r room = (
  refl,
  subst (λ t. Represents t (record q { flags = flags }))
      (sym (wrapped_same (record s { flags = flags }) (omega (arith, r.slot))))
      (with_flags s q flags flags r refl),
)
pressed-Matches k s q (false, flags) r room = (
  refl,
  subst (λ t. Represents t (record { codes = q.codes ++ (k ∷ []); flags = flags }))
      (sym (wrapped-stored k flags s)) (stored-Represents s q k flags flags r room refl),
)

unwrapped-Represents : (s : Keyboard) (q : KeyQueue) → Represents s q → Represents (wrapped s) q
unwrapped-Represents s q r =
    subst (λ t. Represents t q) (sym (wrapped_same s (omega (arith, r.slot)))) r

pub process_key-Matches :
    (k : ℕ) (s : Keyboard) (q : KeyQueue)
    → Represents s q
    → s.buff_size < buffsize
    → Matches ((process_key k s).0, wrapped ((process_key k s).1)) (key_byte k q)
process_key-Matches k s q r room = elim (Bool-cases (ltb 0 k && ltb k 128)) [
  | inl down ↦
      rw (down, sym r.same_flags) (pressed-Matches k s q (process_key_scan_code k s.flags) r room)
  | inr not_down ↦ elim (Bool-cases (leb 128 k)) [
    | inl up ↦
        rw (not_down, up)
          (
            refl,
            unwrapped-Represents _ _ (
                with_flags s q (process_key_scan_code (k - 128) s.flags).1
                  (process_key_scan_code (k - 128) q.flags).1 r
                  (ap (λ f. (process_key_scan_code (k - 128) f).1) r.same_flags)),
          )
    | inr not_up ↦ rw (not_down, not_up) (refl, unwrapped-Represents s q r)
  ]
]
