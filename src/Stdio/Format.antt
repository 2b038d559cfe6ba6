-- ===== src/Stdio/Format.antt =====
-- `fprintformat` of Kernel/stdio.c writes what the pieces of its format stand for.
use tpe.Base.{
  ℕ, ◌+◌, ◌%◌, ◌^◌, ◌<◌, ◌≡◌, ◌≢◌, refl, sym, ◌∙◌, ap, ap₂, false, Option, none, some, List, [],
  ◌∷◌, ◌++◌, ◌==◌, length, length-append, arith, inl, inr, ◌⊎◌,
}
use mathlib.Core.List.{append_assoc, append-nil}
use tpe.Base.Int.{ℤ, pos_part, neg_part}
use tpe.Numbers.RoundTrip.{atoi-itoa}
use tpe.Stdio.{
  Arg, int, character, text, print_number, invalid_symbol, convert_symbol, print_loop, fprintformat,
}

-- The pieces of a format: a character that stands for itself, and %d, %s, %c and %% with what they
-- show.
pub data Piece : Type 0 where
  plain : ℕ → Piece
  decimal : ℤ → Piece
  string : List ℕ → Piece
  byte : ℕ → Piece
  percent : Piece

abbrev pub spelling : Piece → List ℕ
spelling (plain c) = c ∷ []
spelling (decimal v) = b'%' ∷ b'd' ∷ []
spelling (string str) = b'%' ∷ b's' ∷ []
spelling (byte c) = b'%' ∷ b'c' ∷ []
spelling percent = b'%' ∷ b'%' ∷ []

abbrev pub arguments : Piece → List Arg
arguments (plain c) = []
arguments (decimal v) = int v ∷ []
arguments (string str) = text str ∷ []
arguments (byte c) = character c ∷ []
arguments percent = []

abbrev pub or_empty : Option (List ℕ) → List ℕ
or_empty none = []
or_empty (some str) = str

abbrev pub shown : Piece → List ℕ
shown (plain c) = c ∷ []
shown (decimal v) = or_empty (print_number v 10)
shown (string str) = str
shown (byte c) = c % 256 ∷ []
shown percent = b'%' ∷ []

-- A plain character is no percent sign, and a number is an `int` but not the least.
abbrev pub IsPiece : Piece → Type 0
IsPiece (plain c) = c ≢ b'%'
IsPiece (decimal v) = (pos_part v < 2 ^ 31) × (neg_part v < 2 ^ 31)
IsPiece (string str) = Unit {0}
IsPiece (byte c) = Unit {0}
IsPiece percent = Unit {0}

abbrev pub format_of : List Piece → List ℕ
format_of [] = []
format_of (p ∷ ps) = spelling p ++ format_of ps

abbrev pub arguments_of : List Piece → List Arg
arguments_of [] = []
arguments_of (p ∷ ps) = arguments p ++ arguments_of ps

abbrev pub text_of : List Piece → List ℕ
text_of [] = []
text_of (p ∷ ps) = shown p ++ text_of ps

abbrev pub ArePieces : List Piece → Type 0
ArePieces [] = Unit {0}
ArePieces (p ∷ ps) = IsPiece p × ArePieces ps

-- The number's text, which `printi` writes.
print_number_shown :
    (v : ℤ)
    → pos_part v < 2 ^ 31
    → neg_part v < 2 ^ 31
    → (str : List ℕ) × (print_number v 10 ≡ some str)
unfolding print_number
print_number_shown v h k = let (str, e, read) = atoi-itoa v h k in (str, rw e refl)

pub print_loop-number :
    (v : ℤ) (str format : List ℕ) (args : List Arg) (out : List ℕ) (len : ℕ)
    → print_number v 10 ≡ some str
    → print_loop (b'%' ∷ b'd' ∷ format) (int v ∷ args) out len
      ≡ print_loop format args (out ++ str) (len + length str)
unfolding print_loop convert_symbol
print_loop-number v str format args out len e = ground (arith, e)

print_loop-piece :
    (p : Piece) (format : List ℕ) (args : List Arg) (out : List ℕ) (len : ℕ)
    → IsPiece p
    → print_loop (spelling p ++ format) (arguments p ++ args) out len
      ≡ print_loop format args (out ++ shown p) (len + length (shown p))
unfolding print_loop convert_symbol
print_loop-piece (plain c) format args out len h =
    let other : (c == b'%') ≡ false = ground (arith, h) in rw other refl
print_loop-piece (decimal v) format args out len h =
    let (str, e) = print_number_shown v h.0 h.1 in
    rw e (print_loop-number v str format args out len e)
print_loop-piece (string str) format args out len h = refl
print_loop-piece (byte c) format args out len h = refl
print_loop-piece percent format args out len h = refl

-- The pieces are written before the rest of the format is read.
print_loop-text_of :
    (ps : List Piece) (format : List ℕ) (args : List Arg) (out : List ℕ) (len : ℕ)
    → ArePieces ps
    → print_loop (format_of ps ++ format) (arguments_of ps ++ args) out len
      ≡ print_loop format args (out ++ text_of ps) (len + length (text_of ps))
print_loop-text_of [] format args out len h =
    ap₂ (print_loop format args) (sym (append-nil out)) (omega arith)
print_loop-text_of (p ∷ ps) format args out len h =
    ap₂ (λ f a. print_loop f a out len) (append_assoc (spelling p) (format_of ps) format)
      (append_assoc (arguments p) (arguments_of ps) args)
    ∙ print_loop-piece p (format_of ps ++ format) (arguments_of ps ++ args) out len h.0
    ∙ print_loop-text_of ps format args (out ++ shown p) (len + length (shown p)) h.1
    ∙ ap₂ (print_loop format args) (append_assoc out (shown p) (text_of ps))
        (omega (arith, length-append {0} (shown p) (text_of ps)))

print_loop-invalid_symbol :
    (symbol : ℕ) (more : List ℕ) (args : List Arg) (out : List ℕ) (len : ℕ)
    → convert_symbol symbol args ≡ invalid_symbol
    → print_loop (b'%' ∷ symbol ∷ more) args out len ≡ some (out, len)
unfolding print_loop
print_loop-invalid_symbol symbol more args out len e = ground (arith, e)

-- A format of pieces, with their arguments, is written as what the pieces show, one after the
-- other, and the result is the number of characters written. This holds when a symbol that is not
-- supported ends the output, whatever follows it.
pub fprintformat-text_of :
    (ps : List Piece) (rest : List ℕ) (args : List Arg)
    → ArePieces ps
    → (rest ≡ [])
      ⊎ ((symbol : ℕ) × (more : List ℕ) × (rest ≡ b'%' ∷ symbol ∷ more)
          × (convert_symbol symbol args ≡ invalid_symbol))
    → fprintformat (format_of ps ++ rest) (arguments_of ps ++ args)
      ≡ some (text_of ps, length (text_of ps))
unfolding fprintformat print_loop
fprintformat-text_of ps rest args h (inl e) =
    print_loop-text_of ps rest args [] 0 h ∙ rw e (ap (λ n. some (text_of ps, n)) (omega arith))
fprintformat-text_of ps rest args h (inr (symbol, more, e, invalid)) =
    print_loop-text_of ps rest args [] 0 h
    ∙ rw e (
        print_loop-invalid_symbol symbol more args (text_of ps) (0 + length (text_of ps)) invalid
        ∙ ap (λ n. some (text_of ps, n)) (omega arith))
