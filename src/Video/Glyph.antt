-- ===== src/Video/Glyph.antt =====
-- `print_char` of Kernel/videoDriver.c paints the pixels of a character's cell, and no others.
use tpe.Base.{
  ℕ, zero, suc, ◌+◌, ◌*◌, ◌/◌, ◌≤◌, ◌<◌, ◌≡◌, ◌≢◌, ◌⊎◌, refl, ◌∙◌, sym, ap, Bool, true, false, ◌==◌,
  ltb, if◌then◌else◌, arith, inl, inr, Bool-cases,
}
use tpe.Base.Int.{ℤ, pos}
use tpe.Video.{
  Color, Video, char_width, char_height, text_rows, text_cols, pixel_bit, fill_char,
  fill_background, columns_loop, print_char_line, valid_pos,
}
use tpe.Video.Text.{pixel_map, lines_loop, print_at, print_char}
use tpe.Video.Cursor.{SameScreen, fill-SameScreen, columns_loop-SameScreen}
use tpe.Video.Pixels.{pixel, as_bytes, fill-Filled}

-- The colour of a bit of a character.
abbrev pub ink : Bool → Video → Color
ink b v = as_bytes (if b then v.char_color else v.bg_color)

abbrev step : ℕ → ℕ → ℕ → ℕ → Video → Video
step j line x y v = if pixel_bit line j then fill_char (x + j) y v else fill_background (x + j) y v

-- The outcome of the step at column `j`.
record Stepped (b : Bool) (x y : ℕ) (v w : Video) : Type 0 where
  screen : SameScreen v w
  here : pixel w x y ≡ ink b v
  there : (x' y' : ℕ) → x' < v.x_res → (x' ≢ x) ⊎ (y' ≢ y) → pixel w x' y' ≡ pixel v x' y'

filled-Stepped :
    (b : Bool) (x y : ℕ) (v : Video)
    → x < v.x_res
    → y < v.y_res
    → Stepped b x y v (if b then fill_char x y v else fill_background x y v)
unfolding fill_char fill_background
filled-Stepped true x y v h k =
    let f = fill-Filled v.char_color x y v h k in
    record {
      screen = fill-SameScreen v.char_color (pos x) (pos y) v;
      here = f.stored;
      there = f.others;
    }
filled-Stepped false x y v h k =
    let f = fill-Filled v.bg_color x y v h k in
    record {
      screen = fill-SameScreen v.bg_color (pos x) (pos y) v;
      here = f.stored;
      there = f.others;
    }

ink_same : (b : Bool) (v w : Video) → SameScreen v w → ink b w ≡ ink b v
ink_same true v w s = ap as_bytes s.same_char
ink_same false v w s = ap as_bytes s.same_bg

-- Beside the columns painted.
columns_there :
    (n j line x y : ℕ) (v : Video) (x' y' : ℕ)
    → x + j + n ≤ v.x_res
    → y < v.y_res
    → x' < v.x_res
    → (y' ≢ y) ⊎ ((x' < x + j) ⊎ (x + j + n ≤ x'))
    → pixel (columns_loop n j line x y v) x' y' ≡ pixel v x' y'
unfolding columns_loop
columns_there zero j line x y v x' y' fits h k out = refl
columns_there (suc n) j line x y v x' y' fits h k out =
    let s = filled-Stepped (pixel_bit line j) (x + j) y v (omega arith) h in
    let same_x = s.screen.same_x in
    let same_y = s.screen.same_y in
    columns_there n (j + 1) line x y (step j line x y v) x' y' (omega (arith, same_x))
      (omega (arith, same_y)) (omega (arith, same_x)) (ground (arith, out))
    ∙ s.there x' y' k (ground (arith, out))

-- At a column painted.
columns_here :
    (n j line x y : ℕ) (v : Video) (i : ℕ)
    → x + j + n ≤ v.x_res
    → y < v.y_res
    → j ≤ i
    → i < j + n
    → pixel (columns_loop n j line x y v) (x + i) y ≡ ink (pixel_bit line i) v
unfolding columns_loop
columns_here zero j line x y v i fits h low high = absurd (omega arith)
columns_here (suc n) j line x y v i fits h low high =
    let s = filled-Stepped (pixel_bit line j) (x + j) y v (omega arith) h in
    let same_x = s.screen.same_x in
    let same_y = s.screen.same_y in
    elim (Bool-cases (i == j)) [
      | inl e ↦
          let same : i ≡ j = ground arith in
          columns_there n (j + 1) line x y (step j line x y v) (x + i) y (omega (arith, same_x))
            (omega (arith, same_y)) (omega (arith, same_x)) (inr (inl (omega (arith, same))))
          ∙ ap (λ c. pixel (step j line x y v) (x + c) y) same
          ∙ s.here
          ∙ ap (λ c. ink (pixel_bit line c) v) (sym same)
      | inr e ↦
          columns_here n (j + 1) line x y (step j line x y v) i (omega (arith, same_x))
            (omega (arith, same_y)) (ground arith) (omega arith)
          ∙ ink_same (pixel_bit line i) v _ s.screen
    ]

module _ (font : ℤ → ℕ) where
  lines_there :
      (n i c x y : ℕ) (v : Video) (x' y' : ℕ)
      → x + char_width ≤ v.x_res
      → y + i + n ≤ v.y_res
      → x' < v.x_res
      → ((x' < x) ⊎ (x + char_width ≤ x')) ⊎ ((y' < y + i) ⊎ (y + i + n ≤ y'))
      → pixel (lines_loop font n i c x y v) x' y' ≡ pixel v x' y'
  unfolding lines_loop print_char_line
  lines_there zero i c x y v x' y' fits h k out = refl
  lines_there (suc n) i c x y v x' y' fits h k out =
      let w = print_char_line (pixel_map font c i) x (y + i) v in
      let s = columns_loop-SameScreen char_width 0 (pixel_map font c i) x (y + i) v in
      let same_x = s.same_x in
      let same_y = s.same_y in
      lines_there n (i + 1) c x y w x' y' (omega (arith, same_x)) (omega (arith, same_y))
        (omega (arith, same_x)) (ground (arith, out))
      ∙ columns_there char_width 0 (pixel_map font c i) x (y + i) v x' y' (omega arith)
          (omega arith) k (ground (arith, out))

  lines_here :
      (n i c x y : ℕ) (v : Video) (a b : ℕ)
      → x + char_width ≤ v.x_res
      → y + i + n ≤ v.y_res
      → a < char_width
      → i ≤ b
      → b < i + n
      → pixel (lines_loop font n i c x y v) (x + a) (y + b)
        ≡ ink (pixel_bit (pixel_map font c b) a) v
  unfolding lines_loop print_char_line
  lines_here zero i c x y v a b fits h k low high = absurd (omega arith)
  lines_here (suc n) i c x y v a b fits h k low high =
      let w = print_char_line (pixel_map font c i) x (y + i) v in
      let s = columns_loop-SameScreen char_width 0 (pixel_map font c i) x (y + i) v in
      let same_x = s.same_x in
      let same_y = s.same_y in
      elim (Bool-cases (b == i)) [
        | inl e ↦
            let same : b ≡ i = ground arith in
            lines_there n (i + 1) c x y w (x + a) (y + b) (omega (arith, same_x))
              (omega (arith, same_y)) (omega (arith, same_x)) (inr (inl (omega (arith, same))))
            ∙ ap (λ r. pixel w (x + a) (y + r)) same
            ∙ columns_here char_width 0 (pixel_map font c i) x (y + i) v a (omega arith)
                (omega arith) (omega arith) (omega arith)
            ∙ ap (λ r. ink (pixel_bit (pixel_map font c r) a) v) (sym same)
        | inr e ↦
            lines_here n (i + 1) c x y w a b (omega (arith, same_x)) (omega (arith, same_y)) k
              (ground arith) (omega arith)
            ∙ ink_same (pixel_bit (pixel_map font c b) a) v w s
      ]

  -- At a place of the text screen, `print_char` gives the pixel in column `a` and line `b` of the
  -- cell the character's colour or the background's, by the bit of the font, and it changes no pixel
  -- outside the cell.
  pub record Printed (c row col : ℕ) (v w : Video) : Type 0 where
    pub in_cell :
        (a b : ℕ)
        → a < char_width
        → b < char_height
        → pixel w (col * char_width + a) (row * char_height + b)
          ≡ ink (pixel_bit (pixel_map font c b) a) v
    pub elsewhere :
        (x y : ℕ)
        → x < v.x_res
        → (x / char_width ≢ col) ⊎ (y / char_height ≢ row)
        → pixel w x y ≡ pixel v x y

  pub print_char-Printed :
      (c row col : ℕ) (v : Video)
      → row < text_rows v
      → col < text_cols v
      → Printed c row col v (print_char font c (pos row) (pos col) v)
  unfolding print_char print_at valid_pos
  print_char-Printed c row col v h k =
      let in_rows : ltb row (text_rows v) ≡ true = ground arith in
      let in_cols : ltb col (text_cols v) ≡ true = ground arith in
      rw (in_rows, in_cols)
        (record {
          in_cell = λ a b lt lt'.
              lines_here char_height 0 c (col * char_width) (row * char_height) v a b (omega arith)
                (omega arith) lt (omega arith) (omega arith);
          elsewhere = λ x y lt out.
              lines_there char_height 0 c (col * char_width) (row * char_height) v x y (omega arith)
                (omega arith) lt (ground (arith, out));
        })
