-- ===== src/Stdio.antt =====
-- Kernel/stdio.c: formatted output and the reading of lines. What goes to a descriptor is the list
-- of its characters. The functions that read are given the characters that successive calls of
-- `getchar` return, and give those left; `none` is a function that has used them up, or an access
-- outside an array, or an argument that is missing or of another type. `getchar` is in Buffer.
pub mod Buffer
pub mod Edit
pub mod Line
pub mod Format
pub mod Scan
pub mod Words
mod Tests
use tpe.Base.{
  ℕ, zero, suc, ◌+◌, ◌-◌, ◌%◌, Bool, true, false, ◌&&◌, ◌||◌, not, Option, none, some, List, [],
  ◌∷◌, ◌++◌, ◌==◌, ltb, if◌then◌else◌, ◌>>=◌, length,
}
use tpe.Base.Int.{ℤ}
use tpe.Ctype.{isdigit, isspace}
use tpe.Numbers.{itoa, atoi}

-- An argument of `printf`: an `int`, for %c its bit pattern, or a string.
pub data Arg : Type 0 where
  int : ℤ → Arg
  character : ℕ → Arg
  text : List ℕ → Arg

-- `itoa` in a base, then `prints`.
unfoldable pub print_number : ℤ → ℕ → Option (List ℕ)
print_number value base = itoa value base >>= λ r. some (r.0)

-- The `switch` on the symbol behind a percent sign: what is written and the arguments left, the end
-- of the function, or an argument that is not there.
pub data Conversion : Type 0 where
  written : List ℕ → List Arg → Conversion
  invalid_symbol : Conversion
  no_argument : Conversion

abbrev pub written_number : Option (List ℕ) → List Arg → Conversion
written_number none args = no_argument
written_number (some str) args = written str args

abbrev pub print_int : ℕ → List Arg → Conversion
print_int base [] = no_argument
print_int base (int value ∷ args) = written_number (print_number value base) args
print_int base (character c ∷ args) = no_argument
print_int base (text str ∷ args) = no_argument

abbrev pub print_text : List Arg → Conversion
print_text [] = no_argument
print_text (text str ∷ args) = written str args
print_text (int value ∷ args) = no_argument
print_text (character c ∷ args) = no_argument

abbrev pub print_character : List Arg → Conversion
print_character [] = no_argument
print_character (character c ∷ args) = written (c % 256 ∷ []) args
print_character (int value ∷ args) = no_argument
print_character (text str ∷ args) = no_argument

unfoldable pub convert_symbol : ℕ → List Arg → Conversion
convert_symbol symbol args =
    if (symbol == b'd') || (symbol == b'i')
    then print_int 10 args
    else if symbol == b's'
    then print_text args
    else if symbol == b'x'
    then print_int 16 args
    else if symbol == b'b'
    then print_int 2 args
    else if symbol == b'c'
    then print_character args
    else if symbol == b'%'
    then written (b'%' ∷ []) args
    else invalid_symbol

-- The loop of `fprintformat` with `out` written and `len` counted, at a character of the format, and
-- at the symbol behind a percent sign. A format that ends with a percent sign has the NUL for its
-- symbol.
unfoldable mutual
  pub print_loop : List ℕ → List Arg → List ℕ → ℕ → Option (List ℕ × ℕ)
  print_loop [] args out len = some (out, len)
  print_loop (c ∷ format) args out len =
      let symbol = print_symbol format args out len in
      let plain = print_loop format args (out ++ (c ∷ [])) (len + 1) in
      if c == b'%' then symbol else plain

  print_symbol : List ℕ → List Arg → List ℕ → ℕ → Option (List ℕ × ℕ)
  print_symbol [] args out len = some (out, len)
  print_symbol (symbol ∷ format) args out len = elim (convert_symbol symbol args) [
    | written str rest ↦ print_loop format rest (out ++ str) (len + length str)
    | invalid_symbol ↦ some (out, len)
    | no_argument ↦ none
  ]

-- What is written, and the number of its characters.
unfoldable pub fprintformat : List ℕ → List Arg → Option (List ℕ × ℕ)
fprintformat format args = print_loop format args [] 0

-- The loop of `readline` with `left` rounds left and `str` read.
unfoldable pub readline_loop : ℕ → List ℕ → List ℕ → Option (List ℕ × List ℕ)
readline_loop zero chars str = some (str, chars)
readline_loop (suc left) [] str = none
readline_loop (suc left) (c ∷ chars) str =
    let rest = readline_loop left chars (str ++ (c ∷ [])) in
    if c == b'\n' then some (str, chars) else rest

-- `maxlen` is an `unsigned int`.
unfoldable pub readline : ℕ → List ℕ → Option (List ℕ × List ℕ)
readline maxlen chars = readline_loop ((maxlen + 4294967295) % 4294967296) chars []

-- The loop of `readline_no_spaces`; `limit` is `maxlen-1`, and `space` is `state == SPACE`.
unfoldable pub no_spaces_loop : ℕ → List ℕ → Bool → List ℕ → Option (List ℕ × List ℕ)
no_spaces_loop limit [] space str = none
no_spaces_loop limit (c ∷ chars) space str =
    let rest =
      no_spaces_loop limit chars (isspace c)
        (if space && isspace c then str else str ++ (c ∷ [])) in
    if not (c == b'\n') && ltb (length str) limit then rest else some (str, chars)

-- `if (i > 0 && isspace(str[i-1])) i--;`
unfoldable pub drop_last_space : List ℕ → List ℕ
drop_last_space [] = []
drop_last_space (c ∷ []) = if isspace c then [] else c ∷ []
drop_last_space (c ∷ d ∷ str) = c ∷ drop_last_space (d ∷ str)

unfoldable pub readline_no_spaces : ℕ → List ℕ → Option (List ℕ × List ℕ)
readline_no_spaces maxlen chars =
    no_spaces_loop ((maxlen + 4294967295) % 4294967296) chars true [] >>= λ r.
    some (drop_last_space (r.0), r.1)

-- What `scanf` stores through its pointers.
pub data Scanned : Type 0 where
  number : ℤ → Scanned
  string : List ℕ → Scanned

-- `while (isdigit(aux[j+1])) j++;` and the step of the loop, from the place behind `j`.
unfoldable pub skip_digits : List ℕ → List ℕ
skip_digits [] = []
skip_digits (c ∷ aux) = if isdigit c then skip_digits aux else c ∷ aux

-- What a round does with a symbol of the format: it returns, or returns after a string, or goes on
-- with what it has stored and the rest of the line, or leaves the line's array.
pub data Outcome : Type 0 where
  stop : Outcome
  last : Scanned → Outcome
  next : List Scanned → List ℕ → Outcome
  outside : Outcome

abbrev pub scanned_number : Option ℤ → List ℕ → Outcome
scanned_number none rest = outside
scanned_number (some num) rest = next (number num ∷ []) rest

-- Behind the percent sign that `%%` asks for a further character is passed over.
abbrev pub skip_one : List ℕ → Outcome
skip_one [] = outside
skip_one (c ∷ aux) = next [] aux

unfoldable pub scan_symbol : ℕ → ℕ → List ℕ → Outcome
scan_symbol symbol c aux =
    if symbol == b'd'
    then (if not (c == b'+') && not (c == b'-') && not (isdigit c)
        then stop
        else scanned_number (atoi (c ∷ aux)) (skip_digits aux))
    else if symbol == b's'
    then last (string (c ∷ aux))
    else if symbol == b'%'
    then (if c == b'%' then skip_one aux else stop)
    else next [] aux

-- A percent sign at the end of the format counts, and the format is read past its end unless the
-- line ends too.
abbrev pub no_symbol : ℕ → List Scanned → List ℕ → Option (ℕ × List Scanned)
no_symbol argc stored [] = some (argc + 1, stored)
no_symbol argc stored (c ∷ aux) = none

-- The loop of `scanf` at the rests of the format and of the line: the count and what is stored.
unfoldable pub scan_loop : List ℕ → List ℕ → ℕ → List Scanned → Option (ℕ × List Scanned)
scan_loop [] aux argc stored = some (argc, stored)
scan_loop (f ∷ format) [] argc stored = some (argc, stored)
scan_loop (f ∷ []) (c ∷ aux) argc stored =
    if f == b'%' then no_symbol argc stored aux else some (argc, stored)
scan_loop (f ∷ g ∷ format) (c ∷ aux) argc stored =
    let plain = scan_loop (g ∷ format) aux argc stored in
    let symbol : Option (ℕ × List Scanned) = elim (scan_symbol g c aux) [
      | stop ↦ some (argc, stored)
      | last v ↦ some (argc + 1, stored ++ (v ∷ []))
      | next vs rest ↦ scan_loop format rest (argc + 1) (stored ++ vs)
      | outside ↦ none
    ] in
    if f == b'%' then symbol else if f == c then plain else some (argc, stored)

unfoldable pub scanf : List ℕ → List ℕ → Option (ℕ × List Scanned × List ℕ)
scanf format chars =
    readline 1024 chars >>= λ r. scan_loop format (r.0) 0 [] >>= λ s. some (s.0, s.1, r.1)
