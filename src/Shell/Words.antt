-- ===== src/Shell/Words.antt =====
-- The lines that Kernel/shell.c takes apart, and their words.
use mathlib.Core.List.{append_assoc, append-nil}
use tpe.Base.{
  ℕ, ◌<◌, ◌≡◌, refl, sym, ◌∙◌, ap, ap₂, Bool, true, false, List, [], ◌∷◌, ◌++◌, ◌==◌, length, drop,
  arith,
}
use tpe.Launcher.Split.{
  arguments_of, split_from, split_from_nil, split_from_space, split_from_other,
}
use tpe.Shell.{extract_cmd_name}

-- No character is a space.
abbrev pub NoSpace : List ℕ → Type 0
NoSpace [] = Unit {0}
NoSpace (c ∷ w) = ((c == b' ') ≡ false) × NoSpace w

abbrev pub IsWord : List ℕ → Type 0
IsWord w = (0 < length w) × NoSpace w

abbrev pub AreWords : List (List ℕ) → Type 0
AreWords [] = Unit {0}
AreWords (w ∷ ws) = IsWord w × AreWords ws

-- The words with a space in front of each.
abbrev pub join : List (List ℕ) → List ℕ
join [] = []
join (w ∷ ws) = b' ' ∷ (w ++ join ws)

abbrev pub ending : Bool → List ℕ
ending true = b' ' ∷ b'&' ∷ []
ending false = []

-- A line: the name of a command, its arguments, and an ampersand to run it in the background.
abbrev pub line_of : List ℕ → List (List ℕ) → Bool → List ℕ
line_of name ws background = name ++ (join ws ++ ending background)

-- The last word of a line.
abbrev pub last_word : List ℕ → List (List ℕ) → List ℕ
last_word name [] = name
last_word name (w ∷ ws) = last_word w ws

-- What follows the name of a command.
abbrev pub Follows : List ℕ → Type 0
Follows [] = Unit {0}
Follows (c ∷ rest) = c ≡ b' '

pub extract_cmd_name-append :
    (name rest : List ℕ) → NoSpace name → Follows rest → extract_cmd_name (name ++ rest) ≡ name
unfolding extract_cmd_name
extract_cmd_name-append [] [] h f = refl
extract_cmd_name-append [] (c ∷ rest) h f = rw f refl
extract_cmd_name-append (c ∷ name) rest h f =
    rw h.0 (ap (λ l. c ∷ l) (extract_cmd_name-append name rest h.1 f))

split_from-join :
    (word w : List ℕ) (ws : List (List ℕ))
    → NoSpace w
    → AreWords ws
    → split_from word (w ++ join ws) ≡ (word ++ w) ∷ ws
split_from-join word [] [] h k = split_from_nil word ∙ ap (λ l. l ∷ []) (sym (append-nil word))
split_from-join word [] (w ∷ ws) h k =
    split_from_space word b' ' (w ++ join ws) refl
    ∙ ap₂ ◌∷◌ (sym (append-nil word)) (split_from-join [] w ws k.0.1 k.1)
split_from-join word (c ∷ w) ws h k =
    split_from_other word c (w ++ join ws) h.0
    ∙ split_from-join (word ++ (c ∷ [])) w ws h.1 k
    ∙ ap (λ l. l ∷ ws) (append_assoc word (c ∷ []) w)

-- The arguments of the joined words are the words.
pub arguments_of-join : (ws : List (List ℕ)) → AreWords ws → arguments_of (drop 1 (join ws)) ≡ ws
unfolding arguments_of
arguments_of-join [] h = refl
arguments_of-join ([] ∷ ws) h = absurd (omega arith)
arguments_of-join ((c ∷ w) ∷ ws) h = split_from-join [] (c ∷ w) ws h.0.1 h.1
