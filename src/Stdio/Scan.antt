-- ===== src/Stdio/Scan.antt =====
-- `readline` and `scanf` of Kernel/stdio.c: a line is read whole, and %d reads what `printf` writes.
use tpe.Base.{
  ℕ, zero, suc, ◌+◌, ◌%◌, ◌^◌, ◌≤◌, ◌<◌, ◌≡◌, refl, sym, ◌∙◌, ap, false, ◌&&◌, not, some, List, [],
  ◌∷◌, ◌++◌, ◌==◌, length, arith, lt→ltb,
}
use mathlib.Core.List.{append_assoc, append-nil}
use tpe.Base.Int.{ℤ, pos, negsuc, pos_part, neg_part}
use tpe.Ctype.{isdigit}
use tpe.Numbers.{atoi, itoa}
use tpe.Numbers.RoundTrip.{AllDigits, convert-parse_loop, atoi-digits}
use tpe.Stdio.{
  int, number, print_number, fprintformat, print_loop, convert_symbol, readline_loop, readline,
  skip_digits, scan_symbol, next, scan_loop, scanf,
}
use tpe.Stdio.Words.{IsLine}
use tpe.Stdio.Format.{print_loop-number}

readline_loop_line :
    (left : ℕ) (line rest str : List ℕ)
    → IsLine line
    → length line < left
    → readline_loop left (line ++ (b'\n' ∷ rest)) str ≡ some (str ++ line, rest)
unfolding readline_loop
readline_loop_line zero line rest str h fits = absurd (omega arith)
readline_loop_line (suc left) [] rest str h fits = ap (λ s. some (s, rest)) (sym (append-nil str))
readline_loop_line (suc left) (c ∷ line) rest str h fits =
    let other : (c == b'\n') ≡ false = ground (arith, h.0) in
    rw other (
      readline_loop_line left line rest (str ++ (c ∷ [])) h.1 (omega arith)
      ∙ ap (λ s. some (s, rest)) (append_assoc str (c ∷ []) line))

-- A line that fits is read whole, with its line feed.
pub readline_lem :
    (maxlen : ℕ) (line rest : List ℕ)
    → IsLine line
    → length line + 1 < maxlen
    → maxlen < 2 ^ 32
    → readline maxlen (line ++ (b'\n' ∷ rest)) ≡ some (line, rest)
unfolding readline
readline_lem maxlen line rest h fits small =
    readline_loop_line ((maxlen + 4294967295) % 4294967296) line rest [] h (omega arith)

AllDigits-IsLine : (str : List ℕ) → AllDigits str → IsLine str
unfolding isdigit
AllDigits-IsLine [] h = tt
AllDigits-IsLine (c ∷ str) h =
    let first = h.0 in (λ e. absurd (ground (arith, first, e)), AllDigits-IsLine str h.1)

skip_digits_all : (str : List ℕ) → AllDigits str → skip_digits str ≡ []
unfolding skip_digits
skip_digits_all [] h = refl
skip_digits_all (c ∷ str) h = rw h.0 (skip_digits_all str h.1)

-- A text that `atoi` reads whole, as `printf` writes it.
record Written (v : ℤ) : Type 0 where
  first : ℕ
  others : List ℕ
  printed : print_number v 10 ≡ some (first ∷ others)
  parsed : atoi (first ∷ others) ≡ some v
  starts : (not (first == b'+') && not (first == b'-') && not (isdigit first)) ≡ false
  one_line : IsLine (first ∷ others)
  digits : AllDigits others
  short : length (first ∷ others) ≤ 33

number-Written : (v : ℤ) → pos_part v < 2 ^ 31 → neg_part v < 2 ^ 31 → Written v
unfolding print_number itoa
number-Written (pos v) h k =
    let (c, str, e, first, read, all, short) = convert-parse_loop v h in
    record {
      first = c;
      others = str;
      printed = rw e refl;
      parsed = (atoi-digits c str v first read).0;
      starts = rw first (ground arith);
      one_line = AllDigits-IsLine (c ∷ str) all;
      digits = all.1;
      short = omega arith;
    }
number-Written (negsuc m) h k =
    let (c, str, e, first, read, all, short) = convert-parse_loop (m + 1) (omega arith) in
    record {
      first = 45;
      others = c ∷ str;
      printed = rw (lt→ltb (m + 1) (2 ^ 31) (omega arith), e) refl;
      parsed = (atoi-digits c str (m + 1) first read).1 ∙ ap some (ground arith);
      starts = refl;
      one_line = (λ e. absurd (omega (arith, e)), AllDigits-IsLine (c ∷ str) all);
      digits = all;
      short = omega arith;
    }

scan_symbol-number :
    (v : ℤ) (w : Written v) → scan_symbol b'd' w.first w.others ≡ next (number v ∷ []) []
unfolding scan_symbol
scan_symbol-number v w =
    let none_left = skip_digits_all w.others w.digits in rw (w.starts, w.parsed, none_left) refl

scanf_line :
    (c : ℕ) (aux chars rest : List ℕ) (v : ℤ)
    → readline 1024 chars ≡ some (c ∷ aux, rest)
    → scan_symbol b'd' c aux ≡ next (number v ∷ []) []
    → scanf (b'%' ∷ b'd' ∷ []) chars ≡ some (1, number v ∷ [], rest)
unfolding scanf scan_loop
scanf_line c aux chars rest v line e = rw (line, e) refl

-- What `printf` writes for %d, in bounds for every `int` but the least, `scanf` reads for %d from a
-- line of it: it returns 1, stores the number, and leaves what follows the line.
pub scanf-fprintformat :
    (v : ℤ) (rest : List ℕ)
    → pos_part v < 2 ^ 31
    → neg_part v < 2 ^ 31
    → (str : List ℕ) × (fprintformat (b'%' ∷ b'd' ∷ []) (int v ∷ []) ≡ some (str, length str))
      × (scanf (b'%' ∷ b'd' ∷ []) (str ++ (b'\n' ∷ rest)) ≡ some (1, number v ∷ [], rest))
unfolding fprintformat print_loop convert_symbol scanf scan_loop scan_symbol
scanf-fprintformat v rest h k =
    let w = number-Written v h k in
    let line =
      readline_lem 1024 (w.first ∷ w.others) rest w.one_line (omega (arith, w.short))
        (omega arith) in
    (
      w.first ∷ w.others,
      print_loop-number v (w.first ∷ w.others) [] [] [] 0 w.printed
          ∙ (ap (λ n. some (w.first ∷ w.others, n)) (omega arith)),
      scanf_line _ _ _ _ _ line (scan_symbol-number v w),
    )
