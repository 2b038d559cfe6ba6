-- ===== src/Stdio/Words.antt =====
-- `readline_no_spaces` of Kernel/stdio.c keeps the words of a line, and one space between them.
use tpe.Base.{
  ℕ, ◌+◌, ◌%◌, ◌^◌, ◌≤◌, ◌<◌, ◌≡◌, ◌≢◌, refl, sym, ◌∙◌, ap, inl, inr, Bool, true, false, ◌&&◌, some,
  List, [], ◌∷◌, ◌++◌, ◌==◌, ltb, if◌then◌else◌, length, length-append, arith, Bool-cases, lt→ltb,
}
use mathlib.Core.List.{append_assoc, append-nil}
use tpe.Ctype.{isspace}
use tpe.Stdio.{no_spaces_loop, drop_last_space, readline_no_spaces}

-- No character is a line feed.
abbrev pub IsLine : List ℕ → Type 0
IsLine [] = Unit {0}
IsLine (c ∷ str) = (c ≢ b'\n') × IsLine str

-- The words of a line, with `word` begun.
abbrev pub flush : List ℕ → List (List ℕ) → List (List ℕ)
flush [] ws = ws
flush (c ∷ word) ws = (c ∷ word) ∷ ws

unfoldable pub words_from : List ℕ → List ℕ → List (List ℕ)
words_from word [] = flush word []
words_from word (c ∷ str) =
    let over = words_from [] str in
    let on = words_from (word ++ (c ∷ [])) str in if isspace c then flush word over else on

abbrev pub words : List ℕ → List (List ℕ)
words str = words_from [] str

-- No space stands behind a space, nor in front where `space` says that one comes before.
abbrev pub NoDouble : Bool → List ℕ → Type 0
NoDouble space [] = Unit {0}
NoDouble space (c ∷ str) = ((space && isspace c) ≡ false) × NoDouble (isspace c) str

abbrev pub ends_in_space : List ℕ → Bool
ends_in_space [] = false
ends_in_space (c ∷ []) = isspace c
ends_in_space (c ∷ d ∷ str) = ends_in_space (d ∷ str)

-- A string has no space at either end and no two in a row.
pub record IsTidy (str : List ℕ) : Type 0 where
  pub single : NoDouble true str
  pub ended : ends_in_space str ≡ false

-- What the loop keeps of a line.
squeeze : Bool → List ℕ → List ℕ
squeeze space [] = []
squeeze space (c ∷ line) =
    let rest = squeeze (isspace c) line in if space && isspace c then rest else c ∷ rest

no_spaces_loop-squeeze :
    (limit : ℕ) (line rest : List ℕ) (space : Bool) (str : List ℕ)
    → IsLine line
    → length str + length line ≤ limit
    → no_spaces_loop limit (line ++ (b'\n' ∷ rest)) space str
      ≡ some (str ++ squeeze space line, rest)
unfolding no_spaces_loop squeeze
no_spaces_loop-squeeze limit [] rest space str h k = ap (λ s. some (s, rest)) (sym (append-nil str))
no_spaces_loop-squeeze limit (c ∷ line) rest space str h k =
    elim (Bool-cases (space && isspace c)) [
      | inl drop ↦
          rw (newline, inside, drop)
            (no_spaces_loop-squeeze limit line rest (isspace c) str h.1 (omega arith))
      | inr keep ↦
          rw (newline, inside, keep)
            (no_spaces_loop-squeeze limit line rest (isspace c) (str ++ (c ∷ [])) h.1
                (omega (arith, length-append {0} str (c ∷ [])))
              ∙ ap (λ s. some (s, rest)) (append_assoc str (c ∷ []) (squeeze (isspace c) line)))
    ]
  where
    newline : (c == b'\n') ≡ false
    newline = ground (arith, h.0)

    inside : ltb (length str) limit ≡ true
    inside = lt→ltb (length str) limit (omega arith)

squeeze-NoDouble : (space : Bool) (line : List ℕ) → NoDouble space (squeeze space line)
unfolding squeeze
squeeze-NoDouble space [] = tt
squeeze-NoDouble true (c ∷ line) = elim (Bool-cases (isspace c)) [
  | inl e ↦ rw e (squeeze-NoDouble true line)
  | inr e ↦ rw e (e, rw e (squeeze-NoDouble false line))
]
squeeze-NoDouble false (c ∷ line) = (refl, squeeze-NoDouble (isspace c) line)

words_from_space :
    (word : List ℕ) (c : ℕ) (str : List ℕ)
    → isspace c ≡ true
    → words_from word (c ∷ str) ≡ flush word (words_from [] str)
unfolding words_from
words_from_space word c str e = rw e refl

words_from_other :
    (word : List ℕ) (c : ℕ) (str : List ℕ)
    → isspace c ≡ false
    → words_from word (c ∷ str) ≡ words_from (word ++ (c ∷ [])) str
unfolding words_from
words_from_other word c str e = rw e refl

words_from-squeeze :
    (word : List ℕ) (space : Bool) (line : List ℕ)
    → (space ≡ true → word ≡ [])
    → words_from word (squeeze space line) ≡ words_from word line
unfolding squeeze words_from
words_from-squeeze word space [] h = refl
words_from-squeeze word true (c ∷ line) h = elim (Bool-cases (isspace c)) [
  | inl e ↦ rw e (
      words_from-squeeze word true line h
      ∙ ap (λ w. words_from w line) (h refl)
      ∙ ap (λ w. flush w (words_from [] line)) (sym (h refl)))
  | inr e ↦ rw e (
      words_from_other word c (squeeze false line) e
      ∙ words_from-squeeze (word ++ (c ∷ [])) false line (λ no. cc))
]
words_from-squeeze word false (c ∷ line) h = elim (Bool-cases (isspace c)) [
  | inl e ↦ rw e (ap (flush word) (words_from-squeeze [] true line (λ at_start. refl)))
  | inr e ↦ rw e (words_from-squeeze (word ++ (c ∷ [])) false line (λ no. cc))
]

words_from-drop_last_space :
    (word str : List ℕ) → words_from word (drop_last_space str) ≡ words_from word str
unfolding drop_last_space words_from
words_from-drop_last_space word [] = refl
words_from-drop_last_space word (c ∷ []) = elim (Bool-cases (isspace c)) [
  | inl e ↦ rw e refl
  | inr e ↦ rw e (words_from_other word c [] e)
]
words_from-drop_last_space word (c ∷ d ∷ str) = elim (Bool-cases (isspace c)) [
  | inl e ↦ rw e (ap (flush word) (words_from-drop_last_space [] (d ∷ str)))
  | inr e ↦ rw e (words_from-drop_last_space (word ++ (c ∷ [])) (d ∷ str))
]

drop_last_space-NoDouble :
    (space : Bool) (str : List ℕ) → NoDouble space str → NoDouble space (drop_last_space str)
unfolding drop_last_space
drop_last_space-NoDouble space [] h = tt
drop_last_space-NoDouble space (c ∷ []) h = elim (Bool-cases (isspace c)) [
  | inl e ↦ rw e tt
  | inr e ↦ rw e (h.0, tt)
]
drop_last_space-NoDouble space (c ∷ d ∷ str) h =
    (h.0, drop_last_space-NoDouble (isspace c) (d ∷ str) h.1)

ends_in_space-drop_last_space :
    (c d : ℕ) (str : List ℕ)
    → NoDouble (isspace c) (d ∷ str)
    → ends_in_space (c ∷ drop_last_space (d ∷ str)) ≡ false
unfolding drop_last_space
ends_in_space-drop_last_space c d [] h = elim (Bool-cases (isspace d)) [
  | inl f ↦ rw f (ground (arith, h.0))
  | inr f ↦ rw f f
]
ends_in_space-drop_last_space c d (x ∷ str) h = ends_in_space-drop_last_space d x str h.1

drop_last_space-ended :
    (space : Bool) (str : List ℕ) → NoDouble space str → ends_in_space (drop_last_space str) ≡ false
unfolding drop_last_space
drop_last_space-ended space [] h = refl
drop_last_space-ended space (c ∷ []) h = elim (Bool-cases (isspace c)) [
  | inl f ↦ rw f refl
  | inr f ↦ rw f f
]
drop_last_space-ended space (c ∷ d ∷ str) h = ends_in_space-drop_last_space c d str h.1

-- `readline_no_spaces` of a line that fits and the line feed behind it gives a string with no space
-- at either end and no two in a row, which has the words of the line, and leaves what follows.
pub readline_no_spaces-IsTidy :
    (maxlen : ℕ) (line rest : List ℕ)
    → IsLine line
    → length line < maxlen
    → maxlen < 2 ^ 32
    → (str : List ℕ) × (readline_no_spaces maxlen (line ++ (b'\n' ∷ rest)) ≡ some (str, rest))
      × IsTidy str
      × (words str ≡ words line)
unfolding readline_no_spaces
readline_no_spaces-IsTidy maxlen line rest h fits small = (
  drop_last_space (squeeze true line),
  rw (no_spaces_loop-squeeze ((maxlen + 4294967295) % 4294967296) line rest true [] h (omega arith))
      refl,
  record {
    single = drop_last_space-NoDouble true (squeeze true line) (squeeze-NoDouble true line);
    ended = drop_last_space-ended true (squeeze true line) (squeeze-NoDouble true line);
  },
  words_from-drop_last_space [] (squeeze true line)
      ∙ words_from-squeeze [] true line (λ at_start. refl),
)
