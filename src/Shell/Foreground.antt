-- ===== src/Shell/Foreground.antt =====
-- `check_foreground` of Kernel/shell.c on a line of words.
use mathlib.Core.List.{append_assoc, append-nil}
use mathlib.Core.Path.{subst}
use tpe.Base.{
  ℕ, suc, ◌+◌, ◌-◌, ◌≤◌, ◌≡◌, ◌≢◌, refl, sym, ◌∙◌, ap, inl, inr, Bool, true, false, not, some, List,
  [], ◌∷◌, ◌++◌, ◌==◌, length, take, drop, length-append, length-drop, drop-append, take-append,
  get_elem?, get_elem?-append, le→ltb, arith, Bool-cases,
}
use tpe.Strings.{str_len}
use tpe.Strings.Compare.{str_len-length}
use tpe.Shell.{char_before, check_foreground}
use tpe.Shell.Words.{AreWords, IsWord, NoSpace, ending, join, last_word, line_of}

-- The index of the last character but `k - 1`.
end_at : (line : List ℕ) (at : ℕ) → at ≤ length line → at + str_len (drop at line) ≡ length line
end_at line at h = omega (arith, str_len-length (drop at line), length-drop {0} at line)

char_before-append :
    (q : List ℕ) (y : ℕ) (ys : List ℕ) (k : ℕ)
    → k ≡ suc (length ys)
    → char_before (q ++ (y ∷ ys)) (length (q ++ (y ∷ ys))) k ≡ some y
char_before-append q y ys k e =
    rw (le→ltb (length (q ++ (y ∷ ys))) k (omega (arith, length-append q (y ∷ ys)))) (
      ap (get_elem? (q ++ (y ∷ ys))) {x = length (q ++ (y ∷ ys)) - k} {y = length q}
        (omega (arith, length-append q (y ∷ ys)))
      ∙ get_elem?-append q y ys)

module _ (p : List ℕ) (c at : ℕ) where
  -- The line ends in a character that is no ampersand.
  check_one :
      at ≤ length (p ++ (c ∷ []))
      → (c == b'&') ≡ false
      → check_foreground (p ++ (c ∷ [])) at ≡ some (true, p ++ (c ∷ []))
  unfolding check_foreground
  check_one h e = rw (end_at (p ++ (c ∷ [])) at h, char_before-append p c [] 1 refl, e) refl

  module _ (d : ℕ) where
    abbrev two : List ℕ
    two = p ++ (d ∷ c ∷ [])

    size : length two ≡ length p + 2
    size = length-append p (d ∷ c ∷ [])

    last_two : (char_before two (length two) 1 ≡ some c) × (char_before two (length two) 2 ≡ some d)
    last_two = (
      subst (λ l. char_before l (length l) 1 ≡ some c) (append_assoc p (d ∷ []) (c ∷ []))
          (char_before-append (p ++ (d ∷ [])) c [] 1 refl),
      char_before-append p d (c ∷ []) 2 refl,
    )

    -- It ends in two characters, the first of them no space.
    check_two :
        at ≤ length two
        → (str_len (drop at two) == 1) ≡ false
        → (d == b' ') ≡ false
        → check_foreground two at ≡ some (true, two)
    unfolding check_foreground
    check_two h long e = elim (Bool-cases (c == b'&')) [
      | inl amp ↦ rw (end_at two at h, last_two.0, amp, long, last_two.1, e) refl
      | inr other ↦ rw (end_at two at h, last_two.0, other) refl
    ]

-- The line ends in a space and an ampersand, which are cut off.
check_background :
    (p : List ℕ) (at : ℕ) → at ≤ length p → check_foreground (p ++ ending true) at ≡ some (false, p)
unfolding check_foreground
check_background p at h =
    rw
      (
        end_at (p ++ ending true) at inside,
        (last_two p b'&' at b' ').0,
        long,
        (last_two p b'&' at b' ').1,
      )
      (ap (λ l. some (false, l))
        (ap (λ n. take n (p ++ ending true)) {x = length (p ++ ending true) - 2} {y = length p}
            (omega (arith, size p b'&' at b' '))
          ∙ take-append p (ending true)))
  where
    inside : at ≤ length (p ++ ending true)
    inside = omega (arith, size p b'&' at b' ')

    long : (str_len (drop at (p ++ ending true)) == 1) ≡ false
    long =
        let n : str_len (drop at (p ++ ending true)) ≡ length p + 2 - at = omega (
          arith,
          str_len-length (drop at (p ++ ending true)),
          length-drop {0} at (p ++ ending true),
          size p b'&' at b' ',
        ) in
        rw n (ground arith)

-- A word of two characters or more ends in two that are no spaces.
two_last :
    (c d : ℕ) (w : List ℕ)
    → NoSpace (c ∷ d ∷ w)
    → (v : List ℕ) × (x : ℕ) × (y : ℕ) × (c ∷ d ∷ w ≡ v ++ (x ∷ y ∷ [])) × ((x == b' ') ≡ false)
two_last c d [] h = ([], c, d, refl, h.0)
two_last c d (e ∷ w) h =
    let (v, x, y, eq, ne) = two_last d e w h.1 in (c ∷ v, x, y, ap (λ l. c ∷ l) eq, ne)

-- A line that ends in a word other than an ampersand is kept.
check_word :
    (q w : List ℕ) (at : ℕ)
    → IsWord w
    → w ≢ b'&' ∷ []
    → at ≤ length (q ++ w)
    → (str_len (drop at (q ++ w)) == 1) ≡ false
    → check_foreground (q ++ w) at ≡ some (true, q ++ w)
check_word q [] at h ne inside long = absurd (omega arith)
check_word q (c ∷ []) at h ne inside long = check_one q c at inside (ground (arith, ne))
check_word q (c ∷ d ∷ w) at h ne inside long =
    let (v, x, y, eq, space) = two_last c d w h.1 in
    let same : q ++ (c ∷ d ∷ w) ≡ (q ++ v) ++ (x ∷ y ∷ []) =
      ap (λ l. q ++ l) eq ∙ sym (append_assoc q v (x ∷ y ∷ [])) in
    subst (λ l. check_foreground l at ≡ some (true, l)) (sym same)
      (check_two (q ++ v) y at x (subst (λ l. at ≤ length l) same inside)
        (subst (λ l. (str_len (drop at l) == 1) ≡ false) same long) space)

-- A line is what is in front of its last word, and the word.
front_of : List ℕ → List (List ℕ) → List ℕ
front_of name [] = []
front_of name (w ∷ ws) = name ++ (b' ' ∷ front_of w ws)

front_of-last_word :
    (name : List ℕ) (ws : List (List ℕ)) → name ++ join ws ≡ front_of name ws ++ last_word name ws
unfolding front_of
front_of-last_word name [] = append-nil name
front_of-last_word name (w ∷ ws) =
    ap (λ l. name ++ (b' ' ∷ l)) (front_of-last_word w ws)
    ∙ sym (append_assoc name (b' ' ∷ front_of w ws) (last_word w ws))

last_word-IsWord :
    (name : List ℕ) (ws : List (List ℕ)) → IsWord name → AreWords ws → IsWord (last_word name ws)
last_word-IsWord name [] h k = h
last_word-IsWord name (w ∷ ws) h k = last_word-IsWord w ws k.0 k.1

rest_long :
    (name : List ℕ) (ws : List (List ℕ))
    → AreWords ws
    → (str_len (drop (length name) (name ++ join ws)) == 1) ≡ false
unfolding str_len
rest_long name [] h = rw (drop-append name []) refl
rest_long name (w ∷ ws) h =
    let n : str_len (drop (length name) (name ++ join (w ∷ ws))) ≡ suc (length (w ++ join ws)) =
      str_len-length (drop (length name) (name ++ join (w ∷ ws)))
      ∙ ap length (drop-append name (join (w ∷ ws))) in
    rw n (ground (arith, h.0.0, length-append w (join ws)))

pub check_line :
    (name : List ℕ) (ws : List (List ℕ)) (background : Bool)
    → IsWord name
    → AreWords ws
    → (background ≡ false → last_word name ws ≢ b'&' ∷ [])
    → check_foreground (line_of name ws background) (length name)
      ≡ some (not background, name ++ join ws)
check_line name ws true h k ne =
    subst (λ l. check_foreground l (length name) ≡ some (false, name ++ join ws))
      (append_assoc name (join ws) (ending true))
      (check_background (name ++ join ws) (length name)
        (omega (arith, length-append name (join ws))))
check_line name ws false h k ne =
    let whole : line_of name ws false ≡ name ++ join ws =
      ap (λ l. name ++ l) (append-nil (join ws)) in
    subst (λ l. check_foreground l (length name) ≡ some (true, name ++ join ws)) (sym whole)
      (subst (λ l. check_foreground l (length name) ≡ some (true, l))
        (sym (front_of-last_word name ws))
        (check_word (front_of name ws) (last_word name ws) (length name)
          (last_word-IsWord name ws h k) (ne refl)
          (subst (λ (l : List ℕ). length name ≤ length l) (front_of-last_word name ws)
            (omega (arith, length-append name (join ws))))
          (subst (λ l. (str_len (drop (length name) l) == 1) ≡ false) (front_of-last_word name ws)
            (rest_long name ws k))))
