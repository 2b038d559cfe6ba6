-- ===== src/Shell/Line.antt =====
-- A round of the shell of Kernel/shell.c on a line of words.
use tpe.Base.{
  ℕ, suc, ◌+◌, ◌≡◌, ◌≢◌, refl, ◌∙◌, ap, Bool, true, false, not, some, List, [], ◌∷◌, ◌++◌, ltb,
  length, drop, lt→ltb, arith,
}
use tpe.Launcher.Split.{arguments_of}
use tpe.Shell.{Command, extract_cmd_name, check_foreground, flag, shell_round}
use tpe.Shell.Words.{
  AreWords, Follows, IsWord, arguments_of-join, ending, extract_cmd_name-append, join, last_word,
  line_of,
}
use tpe.Shell.Foreground.{check_line}

-- What the shell calls `execute` with.
pub record Launches (name : List ℕ) (ws : List (List ℕ)) (foreground : Bool) (c : Command)
    : Type 0 where
  pub same_name : c.name ≡ name
  pub same_words : arguments_of c.args ≡ ws
  pub same_place : c.foreground ≡ foreground

-- The arguments begin behind the space, if there are any.
args_from :
    (name : List ℕ) (ws : List (List ℕ))
    → drop (length name + flag (ltb (length name) (length (name ++ join ws)))) (name ++ join ws)
      ≡ drop 1 (join ws)
args_from [] [] = refl
args_from [] (w ∷ ws) = rw (lt→ltb 0 (length (join (w ∷ ws))) (omega arith)) refl
args_from (c ∷ name) ws =
    let same : ltb (length (c ∷ name)) (length ((c ∷ name) ++ join ws))
        ≡ ltb (length name) (length (name ++ join ws)) =
      ground arith in
    rw same (
      ap (λ n. drop n ((c ∷ name) ++ join ws))
        {x = length (c ∷ name) + flag (ltb (length name) (length (name ++ join ws)))}
        {y = suc (length name + flag (ltb (length name) (length (name ++ join ws))))} (omega arith)
      ∙ args_from name ws)

round_of :
    (c : ℕ) (nm line : List ℕ) (ws : List (List ℕ)) (foreground : Bool)
    → extract_cmd_name (c ∷ line) ≡ c ∷ nm
    → check_foreground (c ∷ line) (length (c ∷ nm)) ≡ some (foreground, (c ∷ nm) ++ join ws)
    → AreWords ws
    → (r : Command) × (shell_round (c ∷ line) ≡ some (some r)) × Launches (c ∷ nm) ws foreground r
unfolding shell_round
round_of c nm line ws foreground named checked words = (
  record {
    name = c ∷ nm;
    args =
        drop (length (c ∷ nm) + flag (ltb (length (c ∷ nm)) (length ((c ∷ nm) ++ join ws))))
          ((c ∷ nm) ++ join ws);
    foreground = foreground;
  },
  rw (named, checked) refl,
  record {
    same_name = refl;
    same_words = ap arguments_of (args_from (c ∷ nm) ws) ∙ arguments_of-join ws words;
    same_place = refl;
  },
)

line_Follows : (ws : List (List ℕ)) (background : Bool) → Follows (join ws ++ ending background)
line_Follows [] true = refl
line_Follows [] false = tt
line_Follows (w ∷ ws) background = refl

-- For a line of words with one space between them, and an ampersand behind them to run in the
-- background, but with no other ampersand as its last word, the shell calls `execute` with the first
-- word as the name, with a text whose arguments, as `build_arguments` splits it, are the other words,
-- and in the foreground unless the ampersand is there.
pub shell_round-Launches :
    (name : List ℕ) (ws : List (List ℕ)) (background : Bool)
    → IsWord name
    → AreWords ws
    → (background ≡ false → last_word name ws ≢ b'&' ∷ [])
    → (c : Command) × (shell_round (line_of name ws background) ≡ some (some c))
      × Launches name ws (not background) c
shell_round-Launches [] ws background h k ne = absurd (omega arith)
shell_round-Launches (c ∷ nm) ws background h k ne =
    round_of c nm (nm ++ (join ws ++ ending background)) ws (not background)
      (extract_cmd_name-append (c ∷ nm) (join ws ++ ending background) h.1
        (line_Follows ws background))
      (check_line (c ∷ nm) ws background h k ne) k
