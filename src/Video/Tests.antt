-- ===== src/Video/Tests.antt =====
-- The theorems on Kernel/videoDriver.c on a screen of 1024 by 768 pixels, and runs.
use tpe.Base.{ℕ, ◌*◌, ◌≤◌, ◌≡◌, refl, [], ◌∷◌, arith}
use tpe.Base.Int.{ℤ, pos, negsuc}
use tpe.Video.{Color, Video, pixel_at, fill}
use tpe.Video.Text.{print_char, put_str, count_loop, count_digits, number_loop, number_text}
use tpe.Video.Cursor.{IsOnScreen, put_str-IsOnScreen}
use tpe.Video.Pixels.{pixel, as_bytes, fill-overrun}
use tpe.Video.Glyph.{Printed, print_char-Printed}

abbrev white : Color
white = record { red = 255; green = 255; blue = 255 }

abbrev black : Color
black = record { red = 0; green = 0; blue = 0 }

-- The cursor stands on the last place.
abbrev screen : Video
screen = record {
  cursor = 6143;
  x_res = 1024;
  y_res = 768;
  char_color = white;
  bg_color = black;
  frame = λ i. 0;
}

abbrev stripes : ℤ → ℕ
stripes i = 0xAA

-- "A", the end of the line and a backspace.
put_str-IsOnScreen_example : IsOnScreen (put_str stripes (65 ∷ 10 ∷ 8 ∷ []) screen)
put_str-IsOnScreen_example =
    put_str-IsOnScreen stripes (65 ∷ 10 ∷ 8 ∷ []) screen
      (record { has_columns = omega arith; cursor_in = omega arith })

fill-overrun_example :
    ((fill white (pos 3) (pos 768) screen).0 ≡ 1)
    × (3 * (1024 * 768) ≤ pixel_at 1024 3 768)
    × (pixel (fill white (pos 3) (pos 768) screen).1 3 768 ≡ as_bytes white)
fill-overrun_example = fill-overrun white 3 screen (omega arith)

print_char-Printed_example :
    Printed stripes 65 47 127 screen (print_char stripes 65 (pos 47) (pos 127) screen)
print_char-Printed_example = print_char-Printed stripes 65 47 127 screen (omega arith) (omega arith)

-- "-42"
minus_42 : number_text (negsuc 41) ≡ 45 ∷ 52 ∷ 50 ∷ []
unfolding number_text count_digits count_loop number_loop
minus_42 = refl
