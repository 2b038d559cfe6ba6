-- ===== src/Console/NewLine.antt =====
-- `ncNewline` of Kernel/naiveConsole.c ends at the start of the next line.
use mathlib.Core.Path.{subst}
use tpe.Base.{
  ℕ, zero, suc, ◌+◌, ◌-◌, ◌*◌, ◌/◌, ◌%◌, ◌≤◌, ◌<◌, ◌≡◌, refl, sym, ◌∙◌, ap, inl, inr, true, false,
  some, ◌==◌, arith, Bool-cases,
}
use tpe.Console.{Console, video, width, nc_print_char, newline_loop, nc_newline}

-- The places from `k` to `m` hold blanks in `s'`, its cursor is at `m`, and all other bytes are
-- those of `s`.
pub record Blank (s : Console) (k m : ℕ) (s' : Console) : Type 0 where
  pub at_end : s'.current ≡ video + 2 * m
  pub blank : (i : ℕ) → k ≤ i → i < m → s'.memory (video + 2 * i) ≡ b' '
  pub attribute : (i : ℕ) → s'.memory (video + 2 * i + 1) ≡ s.memory (video + 2 * i + 1)
  pub before : (a : ℕ) → a < video + 2 * k → s'.memory a ≡ s.memory a
  pub behind : (a : ℕ) → video + 2 * m ≤ a → s'.memory a ≡ s.memory a

-- A blank more.
Blank-one :
    (s : Console) (k : ℕ) → s.current ≡ video + 2 * k → Blank s k (k + 1) (nc_print_char b' ' s)
unfolding nc_print_char
Blank-one s k e = record {
  at_end = omega arith;
  blank = λ i h l. ground arith;
  attribute = λ i. ground arith;
  before = λ a h. ground arith;
  behind = λ a h. ground arith;
}

Blank-cons :
    (s : Console) (k m : ℕ) (s' : Console)
    → s.current ≡ video + 2 * k
    → k + 1 ≤ m
    → Blank (nc_print_char b' ' s) (k + 1) m s'
    → Blank s k m s'
Blank-cons s k m s' e h b =
    let one : Blank s k (k + 1) (nc_print_char b' ' s) = Blank-one s k e in
    record {
      at_end = b.at_end;
      blank = λ i low high. elim (Bool-cases (i == k)) [
        | inl same ↦
            ap s'.memory {x = video + 2 * i} {y = video + 2 * k} (ground arith)
            ∙ b.before (video + 2 * k) (omega arith)
            ∙ one.blank k (omega arith) (omega arith)
        | inr other ↦ b.blank i (ground arith) high
      ];
      attribute = λ i. b.attribute i ∙ one.attribute i;
      before = λ a l. b.before a (omega arith) ∙ one.before a l;
      behind = λ a l. b.behind a l ∙ one.behind a (omega arith);
    }

-- The start of the line behind place `k`.
abbrev pub next_line : ℕ → ℕ
next_line k = width * (k / width + 1)

module _ (k : ℕ) (s : Console) (e : s.current ≡ video + 2 * k) where
  printed : (nc_print_char b' ' s).current ≡ video + 2 * (k + 1)
  unfolding nc_print_char
  printed = omega arith

  last_test :
      next_line k ≡ k + 1 → (((nc_print_char b' ' s).current - video) % (width * 2) == 0) ≡ true
  last_test h = rw printed (ground arith)

  more_test :
      k + 1 < next_line k → (((nc_print_char b' ' s).current - video) % (width * 2) == 0) ≡ false
  more_test h = rw printed (ground arith)

newline_loop-Blank :
    (n k : ℕ) (s : Console)
    → s.current ≡ video + 2 * k
    → next_line k ≤ k + n
    → (s' : Console) × (newline_loop n s ≡ some s') × Blank s k (next_line k) s'
unfolding newline_loop
newline_loop-Blank zero k s e h = absurd (omega arith)
newline_loop-Blank (suc n) k s e h = elim (Bool-cases (next_line k == (k + 1))) [
  | inl last ↦
      let m : next_line k ≡ k + 1 = ground (arith, last) in
      (
        nc_print_char b' ' s,
        rw (last_test k s e m) refl,
        subst (λ l. Blank s k l (nc_print_char b' ' s)) (sym m) (Blank-one s k e),
      )
  | inr more ↦
      let m : k + 1 < next_line k = ground (arith, more) in
      let same : next_line (k + 1) ≡ next_line k = omega arith in
      let (s', ran, b) =
        newline_loop-Blank n (k + 1) (nc_print_char b' ' s) (printed k s e) (omega arith) in
      (
        s',
        rw (more_test k s e m) ran,
        Blank-cons s k (next_line k) s' e (omega arith)
            (subst (λ l. Blank (nc_print_char b' ' s) (k + 1) l s') same b),
      )
]

-- With the cursor at a place of the console, `ncNewline` ends within as many rounds as a line has
-- places; the rest of the line is blank, the cursor is at the start of the next line, and no other
-- byte has changed.
pub nc_newline-Blank :
    (k : ℕ) (s : Console)
    → s.current ≡ video + 2 * k
    → (s' : Console) × (nc_newline s ≡ some s') × Blank s k (next_line k) s'
unfolding nc_newline
nc_newline-Blank k s e = newline_loop-Blank width k s e (omega arith)
