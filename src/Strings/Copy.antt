-- ===== src/Strings/Copy.antt =====
-- What the copies of Kernel/strings.c leave in the destination.
use tpe.Base.{
  ℕ, zero, suc, ◌+◌, ◌≤◌, ◌<◌, ◌≡◌, ◌∙◌, ap, none, some, List, [], ◌∷◌, length, get_or, set, arith,
  lt→ltb, le→ltb, length-set, get_or-set_self, get_or-set_ne,
}
use tpe.Strings.{strcpy_loop, strcpy, strcpynto_loop, strcpyto}

-- `out` is `to` with the string `from` and its NUL stored from index `i` on.
pub record Stored (to : List ℕ) (i : ℕ) (from out : List ℕ) : Type 0 where
  pub same_length : length out ≡ length to
  pub inside : (j : ℕ) → j < length from → get_or out (i + j) 0 ≡ get_or from j 0
  pub ended : get_or out (i + length from) 0 ≡ 0
  pub before : (j : ℕ) → j < i → get_or out j 0 ≡ get_or to j 0
  pub after : (j : ℕ) → i + length from < j → get_or out j 0 ≡ get_or to j 0

Stored-nil : (to : List ℕ) (i : ℕ) → i < length to → Stored to i [] (set to i 0)
Stored-nil to i h = record {
  same_length = length-set to i 0;
  inside = λ j lt. absurd (omega arith);
  ended =
      ap (λ k. get_or (set to i 0) k 0) {x = i + 0} {y = i} (omega arith)
      ∙ get_or-set_self to i 0 0 h;
  before = λ j lt. get_or-set_ne to i j 0 0 (omega arith);
  after = λ j lt. get_or-set_ne to i j 0 0 (omega arith);
}

Stored-cons :
    (to : List ℕ) (i c : ℕ) (from out : List ℕ)
    → i < length to
    → Stored (set to i c) (i + 1) from out
    → Stored to i (c ∷ from) out
Stored-cons to i c from out h s = record {
  same_length = s.same_length ∙ length-set to i c;
  inside = chars;
  ended =
      ap (λ k. get_or out k 0) {x = i + suc (length from)} {y = i + 1 + length from} (omega arith)
      ∙ s.ended;
  before = λ j lt. s.before j (omega arith) ∙ get_or-set_ne to i j c 0 (omega arith);
  after = λ j lt. s.after j (omega arith) ∙ get_or-set_ne to i j c 0 (omega arith);
}
  where
    chars : (j : ℕ) → j < suc (length from) → get_or out (i + j) 0 ≡ get_or (c ∷ from) j 0
    chars zero lt =
        ap (λ k. get_or out k 0) {x = i + zero} {y = i} (omega arith)
        ∙ s.before i (omega arith)
        ∙ get_or-set_self to i c 0 h
    chars (suc j) lt =
        ap (λ k. get_or out k 0) {x = i + suc j} {y = i + 1 + j} (omega arith)
        ∙ s.inside j (omega arith)

strcpy_loop-Stored :
    (to : List ℕ) (i : ℕ) (from : List ℕ) (n : ℕ)
    → i + length from < length to
    → (out : List ℕ) × (strcpy_loop to i from n ≡ some (out, n + length from))
      × Stored to i from out
unfolding strcpy_loop
strcpy_loop-Stored to i [] n h = (
  set to i 0,
  rw (lt→ltb i (length to) (omega arith)) (ap (λ k. some (set to i 0, k)) (omega arith)),
  Stored-nil to i (omega arith),
)
strcpy_loop-Stored to i (c ∷ from) n h =
    let (out, e, s) =
      strcpy_loop-Stored (set to i c) (i + 1) from (n + 1) (omega (arith, length-set to i c)) in
    (
      out,
      rw (lt→ltb i (length to) (omega arith)) (e ∙ ap (λ k. some (out, k)) (omega arith)),
      Stored-cons to i c from out (omega arith) s,
    )

-- `strcpy` into an array with room for the string and its NUL stores both, leaves the rest of the
-- array alone, and returns the number of characters.
pub strcpy-Stored :
    (to : List ℕ) (i : ℕ) (from : List ℕ)
    → i + length from < length to
    → (out : List ℕ) × (strcpy to i from ≡ some (out, length from)) × Stored to i from out
unfolding strcpy
strcpy-Stored to i from h =
    let (out, e, s) = strcpy_loop-Stored to i from 0 h in
    (out, e ∙ ap (λ k. some (out, k)) (omega arith), s)

strcpy_loop-overrun :
    (to : List ℕ) (i : ℕ) (from : List ℕ) (n : ℕ)
    → length to ≤ i + length from
    → strcpy_loop to i from n ≡ none
unfolding strcpy_loop
strcpy_loop-overrun to i [] n h = rw (le→ltb i (length to) (omega arith))
strcpy_loop-overrun to i (c ∷ from) n h =
    ground (arith, length-set to i c, strcpy_loop-overrun (set to i c) (i + 1) from (n + 1))

-- `strcpy` has no bound: a string that does not fit with its NUL is written past the array.
pub strcpy-overrun :
    (to : List ℕ) (i : ℕ) (from : List ℕ) → length to ≤ i + length from → strcpy to i from ≡ none
unfolding strcpy
strcpy-overrun to i from h = strcpy_loop-overrun to i from 0 h

-- `strcpyto` copies no character of any string: its bound UINT_MAX is a negative `int`.
pub strcpyto-nothing :
    (to from : List ℕ) (limit : ℕ) → 0 < length to → strcpyto to from limit ≡ some (set to 0 0, 0)
unfolding strcpyto strcpynto_loop
strcpyto-nothing to from limit h = rw (lt→ltb 0 (length to) h)
