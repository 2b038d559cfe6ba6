-- ===== src/Video/Text.antt =====
-- The characters, the cursor and the numbers of Kernel/videoDriver.c. `__font_bitmap__` of
-- Kernel/font.c is the parameter `font`.
use tpe.Base.{
  ℕ, zero, suc, ◌+◌, ◌-◌, ◌*◌, ◌/◌, ◌%◌, ◌^◌, not, List, [], ◌∷◌, ◌==◌, ltb, leb, if◌then◌else◌,
}
use tpe.Base.Int.{ℤ, pos, negsuc, neg, dec}
use tpe.Video.{
  Video, char_width, char_height, text_rows, text_cols, cursor_limit, valid_pos, print_char_line,
  row_of, col_of,
}

module _ (font : ℤ → ℕ) where
  -- `pixel_map(c)[i]` of Kernel/font.c for the byte `c`, which is negative as a `char` from 128 on.
  unfoldable pub pixel_map : ℕ → ℕ → ℕ
  pixel_map c i = font (
      if ltb c 128
      then (if ltb c 31 then neg (pos (16 * (31 - c) - i)) else pos (16 * (c - 31) + i))
      else neg (pos (16 * (31 + 256 - c) - i)))

  -- The loop over the lines of a character, `n` of them, line `i` first.
  unfoldable pub lines_loop : ℕ → ℕ → ℕ → ℕ → ℕ → Video → Video
  lines_loop zero i c x y v = v
  lines_loop (suc n) i c x y v =
      lines_loop n (i + 1) c x y (print_char_line (pixel_map c i) x (y + i) v)

  unfoldable pub print_at : ℕ → ℕ → ℕ → Video → Video
  print_at c row col v = lines_loop char_height 0 c (col * char_width) (row * char_height) v

  unfoldable pub print_char : ℕ → ℤ → ℤ → Video → Video
  print_char c (pos row) (pos col) v =
      if valid_pos (pos row) (pos col) v then print_at c row col v else v
  print_char c (pos row) (negsuc col) v = v
  print_char c (negsuc row) col v = v

  -- The loop of `clear_line`, `n` columns from column `i` on.
  unfoldable pub clear_line_loop : ℕ → ℕ → ℕ → Video → Video
  clear_line_loop zero i line v = v
  clear_line_loop (suc n) i line v =
      clear_line_loop n (i + 1) line (print_char 32 (pos line) (pos i) v)

  unfoldable pub clear_line : ℕ → Video → Video
  clear_line line v = if ltb line (text_rows v) then clear_line_loop (text_cols v) 0 line v else v

  -- `memcpy` copies upwards and the source lies above the destination. A screen has a text row.
  unfoldable pub scroll : Video → Video
  scroll v =
      let second_line = 3 * v.x_res * char_height in
      let length = (v.y_res * v.x_res * 3 + 2 ^ 64 - char_height * v.x_res * 3) % 2 ^ 64 in
      clear_line (text_rows v - 1)
        (record v { frame = λ i. if ltb i length then v.frame (second_line + i) else v.frame i })

  -- The chain of tests on the character: the cursor, which may have left the screen, and the state.
  unfoldable pub move_cursor : ℕ → Video → ℤ × Video
  move_cursor c v =
      if c == 8
      then (let back = dec (pos v.cursor) in
          (back, print_char 32 (row_of back (text_cols v)) (col_of back (text_cols v)) v))
      else if c == b'\n'
      then (pos (v.cursor + (text_cols v - v.cursor % text_cols v)), v)
      else if c == b'\r'
      then (pos 0, v)
      else if not (c == b'\t')
      then (
        pos (v.cursor + 1),
        print_char c (pos (v.cursor / text_cols v)) (pos (v.cursor % text_cols v)) v,
      )
      else (pos v.cursor, v)

  -- `if (cursor >= CURSOR_LIMIT)` and its body, at the new cursor.
  abbrev pub keep_cursor : ℕ → Video → Video
  keep_cursor cursor v =
      if leb (cursor_limit v) cursor
      then record (scroll v) { cursor = cursor_limit v - text_cols v }
      else record v { cursor = cursor }

  -- `if (cursor < 0) cursor = 0;` comes first.
  abbrev pub settle : ℤ × Video → Video
  settle (pos cursor, v) = keep_cursor cursor v
  settle (negsuc n, v) = keep_cursor 0 v

  unfoldable pub put_char : ℕ → Video → Video
  put_char c v = settle (move_cursor c v)

  unfoldable pub put_str : List ℕ → Video → Video
  put_str [] v = v
  put_str (c ∷ str) v = put_str str (put_char c v)

  -- The bytes of a string up to `len`; it has as many.
  unfoldable pub put : List ℕ → ℕ → Video → Video
  put str zero v = v
  put [] (suc len) v = v
  put (c ∷ str) (suc len) v = put str len (put_char c v)

  -- The cursor is put back; `row` and `col` are not negative.
  unfoldable pub print_str : List ℕ → ℕ → ℕ → Video → Video
  print_str str row col v = record (put_str str (record v { cursor = row * text_cols v + col })) {
    cursor = v.cursor;
  }

  -- The loop of `print` from the place `place` on.
  unfoldable pub print_loop : List ℕ → ℕ → Video → Video
  print_loop [] place v = v
  print_loop (c ∷ str) place v =
      let row = place / text_cols v in
      let col = place % text_cols v in
      let rest = print_loop str (place + 1) (print_char c (pos row) (pos col) v) in
      if valid_pos (pos row) (pos col) v then rest else v

  unfoldable pub print : List ℕ → ℕ → ℕ → Video → Video
  print str row col v =
      if valid_pos (pos row) (pos col) v then print_loop str (row * text_cols v + col) v else v

  -- The loop of `clear`, `n` places from place `i` on.
  unfoldable pub clear_loop : ℕ → ℕ → Video → Video
  clear_loop zero i v = v
  clear_loop (suc n) i v =
      clear_loop n (i + 1) (print_char 32 (pos (i / text_cols v)) (pos (i % text_cols v)) v)

  unfoldable pub clear : Video → Video
  clear v = record (clear_loop (text_cols v * text_rows v) 0 v) { cursor = 0 }

-- The loop of `count_digits` with at most `n` rounds, for a number that is not negative.
unfoldable pub count_loop : ℕ → ℕ → ℕ → ℕ
count_loop zero num digits = digits
count_loop (suc n) num digits =
    let rest = count_loop n (num / 10) (digits + 1) in if ltb 0 (num / 10) then rest else digits

-- The number is an `int` but not the least; it has fewer than 32 digits.
unfoldable pub count_digits : ℕ → ℕ
count_digits num = count_loop 32 num 1

-- The loop of `print_num` that fills `digits` places from the last one down, before `str`.
unfoldable pub number_loop : ℕ → ℕ → List ℕ → List ℕ
number_loop zero num str = str
number_loop (suc digits) num str = number_loop digits (num / 10) ((num % 10 + 48) ∷ str)

-- The string that `print_num` prints.
unfoldable pub number_text : ℤ → List ℕ
number_text (pos num) = number_loop (count_digits num) num []
number_text (negsuc m) = 45 ∷ number_loop (count_digits (m + 1)) (m + 1) []

unfoldable pub print_num : (ℤ → ℕ) → ℤ → ℕ → ℕ → Video → Video
print_num font num row col v = print font (number_text num) row col v
