-- ===== src/Ctype/Classes.antt =====
-- How the classes of Kernel/ctype.c lie to each other.
use tpe.Base.{ℕ, ◌≡◌, Bool, ◌==◌, arith, if◌then◌else◌, ◌+◌}
use tpe.Ctype.{islower, isupper, isdigit, isalpha, isalnum, isprint, iscntrl, isgraph, ispunct}

abbrev pub count : Bool → ℕ
count b = if b then 1 else 0

-- Every code is in exactly one of four classes: control characters, the blank, letters and
-- digits, and punctuation. A letter is a lower or an upper one, never both, and no digit.
pub classes_apart :
    (c : ℕ)
    → (count (iscntrl c) + count (c == 32) + count (isalnum c) + count (ispunct c) ≡ 1)
      × (count (isalnum c) ≡ count (islower c) + count (isupper c) + count (isdigit c))
unfolding islower isupper isdigit isalpha isalnum isprint iscntrl isgraph ispunct
classes_apart c = (ground arith, ground arith)
