-- ===== src/Launcher/Split.antt =====
-- The texts that `build_arguments` of Kernel/executer.c splits, and the strings in a page.
use tpe.Base.{
  ℕ, zero, suc, ◌+◌, ◌≤◌, ◌<◌, ◌≡◌, refl, ◌∙◌, ap, true, false, some, List, [], ◌∷◌, ◌++◌, ◌==◌,
  if◌then◌else◌, length, get_elem?, drop, set, get_elem?-set_ne, arith,
}

-- The parts of a string between its spaces, with `word` begun.
unfoldable pub split_from : List ℕ → List ℕ → List (List ℕ)
split_from word [] = word ∷ []
split_from word (c ∷ str) =
    let over = split_from [] str in
    let on = split_from (word ++ (c ∷ [])) str in if c == b' ' then word ∷ over else on

-- The arguments of a line; an empty line has none.
unfoldable pub arguments_of : List ℕ → List (List ℕ)
arguments_of [] = []
arguments_of (c ∷ str) = split_from [] (c ∷ str)

pub split_from_nil : (word : List ℕ) → split_from word [] ≡ word ∷ []
unfolding split_from
split_from_nil word = refl

pub split_from_space :
    (word : List ℕ) (c : ℕ) (str : List ℕ)
    → (c == b' ') ≡ true
    → split_from word (c ∷ str) ≡ word ∷ split_from [] str
unfolding split_from
split_from_space word c str e = rw e refl

pub split_from_other :
    (word : List ℕ) (c : ℕ) (str : List ℕ)
    → (c == b' ') ≡ false
    → split_from word (c ∷ str) ≡ split_from (word ++ (c ∷ [])) str
unfolding split_from
split_from_other word c str e = rw e refl

-- The characters of `w` stand in the array from index `i` on.
abbrev pub PartAt : List ℕ → ℕ → List ℕ → Type 0
PartAt s i [] = Unit {0}
PartAt s i (c ∷ w) = (get_elem? s i ≡ some c) × PartAt s (i + 1) w

-- So do those of `w` and a NUL behind them.
abbrev pub StringAt : List ℕ → ℕ → List ℕ → Type 0
StringAt s i w = PartAt s i w × (get_elem? s (i + length w) ≡ some 0)

-- The pointers lead to the strings, which lie in the array of bytes at `strings_at`.
abbrev pub Args : ℕ → List ℕ → List ℕ → List (List ℕ) → Type 0
Args strings_at strings [] [] = Unit {0}
Args strings_at strings [] (w ∷ ws) = ⊥
Args strings_at strings (p ∷ ps) [] = ⊥
Args strings_at strings (p ∷ ps) (w ∷ ws) =
    ((i : ℕ) × (p ≡ strings_at + i) × StringAt strings i w) × Args strings_at strings ps ws

-- The same of the array of pointers from index `k` on, with a NULL behind them.
abbrev pub ArgsAt : ℕ → List ℕ → List ℕ → ℕ → List (List ℕ) → Type 0
ArgsAt strings_at strings pointers k [] = get_elem? pointers k ≡ some 0
ArgsAt strings_at strings pointers k (w ∷ ws) =
    ((i : ℕ) × (get_elem? pointers k ≡ some (strings_at + i)) × StringAt strings i w)
    × ArgsAt strings_at strings pointers (suc k) ws

-- The array `s'` is `s` up to index `j`.
abbrev pub Below : ℕ → List ℕ → List ℕ → Type 0
Below j s s' = (k : ℕ) → k < j → get_elem? s' k ≡ get_elem? s k

pub Below-set : (j : ℕ) (s : List ℕ) (v : ℕ) → Below j s (set s j v)
Below-set j s v k h = get_elem?-set_ne s j k v (omega arith)

pub Below-trans : (i j : ℕ) (s t u : List ℕ) → i ≤ j → Below i s t → Below j t u → Below i s u
Below-trans i j s t u h a b k lt = b k (omega arith) ∙ a k lt

pub PartAt-Below :
    (j : ℕ) (s s' : List ℕ) (i : ℕ) (w : List ℕ)
    → Below j s s'
    → i + length w ≤ j
    → PartAt s i w
    → PartAt s' i w
PartAt-Below j s s' i [] b h p = tt
PartAt-Below j s s' i (c ∷ w) b h p =
    (b i (omega arith) ∙ p.0, PartAt-Below j s s' (i + 1) w b (omega arith) p.1)

pub PartAt-snoc :
    (s : List ℕ) (i c : ℕ) (w : List ℕ)
    → PartAt s i w
    → get_elem? s (i + length w) ≡ some c
    → PartAt s i (w ++ (c ∷ []))
PartAt-snoc s i c [] p e =
    (ap (get_elem? s) {x = i} {y = i + length {A = ℕ} []} (omega arith) ∙ e, tt)
PartAt-snoc s i c (d ∷ w) p e = (
  p.0,
  PartAt-snoc s (i + 1) c w p.1
      (ap (get_elem? s) {x = i + 1 + length w} {y = i + length (d ∷ w)} (omega arith) ∙ e),
)

pub drop_at : (xs : List ℕ) (k p : ℕ) → get_elem? xs k ≡ some p → drop k xs ≡ p ∷ drop (suc k) xs
drop_at [] k p e = cc
drop_at (x ∷ xs) zero p e = ground arith
drop_at (x ∷ xs) (suc k) p e = drop_at xs k p e
