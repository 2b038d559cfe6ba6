-- ===== src/Ctype.antt =====
-- Kernel/ctype.c: the classes of characters, by their codes.
pub mod Classes
use tpe.Base.{ℕ, Bool, ◌&&◌, ◌||◌, not, ◌==◌, leb, ltb}

unfoldable pub islower : ℕ → Bool
islower c = leb 97 c && leb c 122

unfoldable pub isupper : ℕ → Bool
isupper c = leb 65 c && leb c 90

unfoldable pub isdigit : ℕ → Bool
isdigit c = leb 48 c && leb c 57

unfoldable pub isalpha : ℕ → Bool
isalpha c = islower c || isupper c

unfoldable pub isalnum : ℕ → Bool
isalnum c = isalpha c || isdigit c

-- A tab or a blank.
unfoldable pub isblank : ℕ → Bool
isblank c = (c == 9) || (c == 32)

unfoldable pub isprint : ℕ → Bool
isprint c = ltb 0x1F c && not (c == 0x7F)

unfoldable pub iscntrl : ℕ → Bool
iscntrl c = not (isprint c)

unfoldable pub isgraph : ℕ → Bool
isgraph c = isprint c && not (c == 32)

unfoldable pub ispunct : ℕ → Bool
ispunct c = isgraph c && not (isalnum c)

-- The last four are \v, \f, \r and \n.
unfoldable pub isspace : ℕ → Bool
isspace c = isblank c || (c == 11) || (c == 12) || (c == 13) || (c == 10)

unfoldable pub isxdigit : ℕ → Bool
isxdigit c = isdigit c || (leb 97 c && leb c 102) || (leb 65 c && leb c 70)
