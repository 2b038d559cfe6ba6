-- ===== src/Stdio/Tests.antt =====
-- The theorems on Kernel/stdio.c at lines, and runs.
use tpe.Base.{
  ℕ, ◌≡◌, ◌≢◌, refl, some, List, [], ◌∷◌, ◌++◌, ◌==◌, false, inl, length, arith, replicate,
}
use tpe.Base.Int.{pos, negsuc}
use tpe.Ctype.{isspace, isblank, isdigit}
use tpe.Numbers.{atoi, atoi_sign, skip_space, parse_loop}
use tpe.Numbers.Reverse.{rev}
use tpe.Stdio.{
  int, number, fprintformat, readline_loop, readline, readline_no_spaces, skip_digits, scan_symbol,
  scan_loop, scanf,
}
use tpe.Stdio.Words.{IsTidy, words, readline_no_spaces-IsTidy}
use tpe.Stdio.Format.{
  Piece, plain, decimal, string, percent, format_of, arguments_of, text_of, fprintformat-text_of,
}
use tpe.Stdio.Scan.{scanf-fprintformat}
use tpe.Stdio.Buffer.{Input, getchars}
use tpe.Stdio.Edit.{edit}
use tpe.Stdio.Line.{getchars-edit}

apart : (a b : ℕ) → (a == b) ≡ false → a ≢ b
apart a b h e = absurd (ground (arith, h, e))

-- "  a b" and a line feed.
readline_no_spaces-IsTidy_example :
    (str : List ℕ) × (readline_no_spaces 64 (32 ∷ 32 ∷ 97 ∷ 32 ∷ 98 ∷ 10 ∷ []) ≡ some (str, []))
    × IsTidy str
    × (words str ≡ words (32 ∷ 32 ∷ 97 ∷ 32 ∷ 98 ∷ []))
readline_no_spaces-IsTidy_example =
    readline_no_spaces-IsTidy 64 (32 ∷ 32 ∷ 97 ∷ 32 ∷ 98 ∷ []) []
      (
        apart 32 10 refl,
        (apart 32 10 refl, (apart 97 10 refl, (apart 32 10 refl, (apart 98 10 refl, tt)))),
      )
      (omega arith) (omega arith)

-- "x%d%%%s" for -42 and "hi".
abbrev pieces : List Piece
pieces = plain 120 ∷ decimal (negsuc 41) ∷ percent ∷ string (104 ∷ 105 ∷ []) ∷ []

fprintformat-text_of_example :
    fprintformat (format_of pieces ++ []) (arguments_of pieces ++ [])
    ≡ some (text_of pieces, length (text_of pieces))
fprintformat-text_of_example =
    fprintformat-text_of pieces [] []
      (apart 120 37 refl, ((omega arith, omega arith), (tt, (tt, tt)))) (inl refl)

scanf-fprintformat_example :
    (str : List ℕ) × (fprintformat (b'%' ∷ b'd' ∷ []) (int (negsuc 41) ∷ [])
      ≡ some (str, length str))
    × (scanf (b'%' ∷ b'd' ∷ []) (str ++ (b'\n' ∷ 65 ∷ []))
        ≡ some (1, number (negsuc 41) ∷ [], 65 ∷ []))
scanf-fprintformat_example = scanf-fprintformat (negsuc 41) (65 ∷ []) (omega arith) (omega arith)

-- A line that `%%%d` should match: the character behind the percent sign is passed over, and the 5
-- is read where 75 stands.
percent_skips :
    scanf (b'%' ∷ b'%' ∷ b'%' ∷ b'd' ∷ []) (b'%' ∷ b'7' ∷ b'5' ∷ b'\n' ∷ [])
    ≡ some (2, number (pos 5) ∷ [], [])
unfolding scanf readline readline_loop scan_loop scan_symbol skip_digits isdigit isspace isblank
    atoi atoi_sign skip_space parse_loop
percent_skips = refl

-- "ab", a backspace, "c" and a line feed.
abbrev typed : Input
typed = record {
  buffer = replicate 1024 0;
  buffi = 0;
  keys = 97 ∷ 98 ∷ 8 ∷ 99 ∷ 10 ∷ 100 ∷ [];
  echo = [];
}

getchars-edit_example :
    (t : Input) × (getchars 3 typed
      ≡ some (rev (edit [] (97 ∷ 98 ∷ 8 ∷ 99 ∷ [])) ++ (b'\n' ∷ []), t))
    × (t.buffi ≡ 0)
    × (t.keys ≡ 100 ∷ [])
getchars-edit_example =
    getchars-edit (97 ∷ 98 ∷ 8 ∷ 99 ∷ []) (100 ∷ []) typed refl refl refl
      (apart 97 10 refl, (apart 98 10 refl, (apart 8 10 refl, (apart 99 10 refl, tt))))
      (omega arith, (omega arith, (omega arith, (omega arith, omega arith))))
