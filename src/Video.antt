-- ===== src/Video.antt =====
-- Kernel/videoDriver.c: colours, pixels, characters and the cursor. The frame buffer is the bytes by
-- their distance from its base; writes behind its end are kept there too. `__font_bitmap__` of
-- Kernel/font.c, which a program made, is a parameter; its places outside it hold any byte.
pub mod Text
pub mod Cursor
pub mod Pixels
pub mod Glyph
pub mod Digits
mod Tests
use tpe.Base.{
  ℕ, zero, suc, ◌+◌, ◌-◌, ◌*◌, ◌/◌, ◌%◌, ◌^◌, Bool, true, false, ◌&&◌, ◌||◌, not, List, [], ◌∷◌,
  ◌==◌, ltb, leb, if◌then◌else◌, length, get_or,
}
use tpe.Base.Int.{ℤ, pos, negsuc, neg, inc, dec}

abbrev pub char_width : ℕ
char_width = 8

abbrev pub char_height : ℕ
char_height = 16

-- `color`
pub record Color : Type 0 where
  pub red : ℕ
  pub green : ℕ
  pub blue : ℕ

-- The static variables and the frame buffer. `put_char` leaves no negative cursor.
pub record Video : Type 0 where
  pub cursor : ℕ
  pub x_res : ℕ
  pub y_res : ℕ
  pub char_color : Color
  pub bg_color : Color
  pub frame : ℕ → ℕ

-- HEIGHT and WIDTH.
abbrev pub text_rows : Video → ℕ
text_rows v = v.y_res / char_height

abbrev pub text_cols : Video → ℕ
text_cols v = v.x_res / char_width

abbrev pub cursor_limit : Video → ℕ
cursor_limit v = text_rows v * text_cols v

abbrev pub scr_x_res : Video → ℕ
scr_x_res v = v.x_res

abbrev pub scr_y_res : Video → ℕ
scr_y_res v = v.y_res

-- The low byte lies first.
unfoldable pub get_res : ℕ → ℕ → ℕ
get_res low high = high * 2 ^ 8 + low

-- The four bytes lie at 0x5C12 and on.
unfoldable pub load_v_driver : ℕ → ℕ → ℕ → ℕ → Video → Video
load_v_driver x_low x_high y_low y_high v = record v {
  x_res = get_res x_low x_high;
  y_res = get_res y_low y_high;
}

-- The values are unsigned, and MIN_RGB is 0.
unfoldable pub valid_colors : ℕ → ℕ → ℕ → Bool
valid_colors r g b = leb 0 r && leb r 255 && leb 0 g && leb g 255 && leb 0 b && leb b 255

-- The new colour; the test returns 0 and changes nothing.
unfoldable pub set_color : Color → ℕ → ℕ → ℕ → ℕ × Color
set_color c r g b =
    if not (valid_colors r g b)
    then (0, c)
    else (1, record { red = r % 256; green = g % 256; blue = b % 256 })

unfoldable pub set_bg_color : ℕ → ℕ → ℕ → Video → ℕ × Video
set_bg_color r g b v =
    let (result, c) = set_color v.bg_color r g b in (result, record v { bg_color = c })

unfoldable pub set_char_color : ℕ → ℕ → ℕ → Video → ℕ × Video
set_char_color r g b v =
    let (result, c) = set_color v.char_color r g b in (result, record v { char_color = c })

abbrev pub current_char_color : Video → ℕ × ℕ × ℕ
current_char_color v = (v.char_color.red, v.char_color.green, v.char_color.blue)

abbrev pub current_bg_color : Video → ℕ × ℕ × ℕ
current_bg_color v = (v.bg_color.red, v.bg_color.green, v.bg_color.blue)

unfoldable pub valid_pixel : ℤ → ℤ → Video → Bool
valid_pixel (pos x) (pos y) v = leb x v.x_res && leb y v.y_res
valid_pixel (pos x) (negsuc y) v = false
valid_pixel (negsuc x) y v = false

-- `p[i] = byte`
abbrev pub put_byte : ℕ → ℕ → (ℕ → ℕ) → ℕ → ℕ
put_byte i byte frame j = if j == i then byte else frame j

-- `3 * (x + y * SCREEN_WIDTH)`
abbrev pub pixel_at : ℕ → ℕ → ℕ → ℕ
pixel_at width x y = 3 * (x + y * width)

-- The three writes of `fill`.
unfoldable pub paint : Color → ℕ → (ℕ → ℕ) → ℕ → ℕ
paint c at frame =
    put_byte (at + 2) (c.red % 256)
      (put_byte (at + 1) (c.green % 256) (put_byte at (c.blue % 256) frame))

unfoldable pub fill : Color → ℤ → ℤ → Video → ℕ × Video
fill c (pos x) (pos y) v =
    if not (valid_pixel (pos x) (pos y) v)
    then (0, v)
    else (1, record v { frame = paint c (pixel_at v.x_res x y) v.frame })
fill c (pos x) (negsuc y) v = (0, v)
fill c (negsuc x) y v = (0, v)

unfoldable pub fill_char : ℕ → ℕ → Video → Video
fill_char x y v = (fill v.char_color (pos x) (pos y) v).1

unfoldable pub fill_background : ℕ → ℕ → Video → Video
fill_background x y v = (fill v.bg_color (pos x) (pos y) v).1

-- `(line & mask[j]) != 0`: the bit of column `j`, the highest one first.
abbrev pub pixel_bit : ℕ → ℕ → Bool
pixel_bit line j = (line / 2 ^ (7 - j)) % 2 == 1

-- The loop over the columns of a line, `n` of them, column `j` first.
unfoldable pub columns_loop : ℕ → ℕ → ℕ → ℕ → ℕ → Video → Video
columns_loop zero j line x y v = v
columns_loop (suc n) j line x y v =
    columns_loop n (j + 1) line x y
      (if pixel_bit line j then fill_char (x + j) y v else fill_background (x + j) y v)

unfoldable pub print_char_line : ℕ → ℕ → ℕ → Video → Video
print_char_line line x y v = columns_loop char_width 0 line x y v

unfoldable pub valid_pos : ℤ → ℤ → Video → Bool
valid_pos (pos row) (pos col) v = ltb row (text_rows v) && ltb col (text_cols v)
valid_pos (pos row) (negsuc col) v = false
valid_pos (negsuc row) col v = false

-- ROW(p) and COL(p), which round towards 0, for the text columns `width`.
abbrev pub row_of : ℤ → ℕ → ℤ
row_of (pos p) width = pos (p / width)
row_of (negsuc p) width = neg (pos ((p + 1) / width))

abbrev pub col_of : ℤ → ℕ → ℤ
col_of (pos p) width = pos (p % width)
col_of (negsuc p) width = neg (pos ((p + 1) % width))
