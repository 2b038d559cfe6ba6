-- ===== src/Video/Cursor.antt =====
-- The cursor of Kernel/videoDriver.c stays on the screen.
use tpe.Base.{
  ℕ, zero, suc, ◌+◌, ◌-◌, ◌*◌, ◌/◌, ◌<◌, ◌≡◌, refl, ◌∙◌, ap₂, Bool, true, false, List, [], ◌∷◌,
  ◌==◌, ltb, leb, not, if◌then◌else◌, arith, inl, inr, Bool-cases,
}
use tpe.Base.Int.{ℤ, pos, negsuc}
use tpe.Video.{
  Video, Color, char_width, char_height, pixel_bit, text_rows, text_cols, cursor_limit, valid_pixel,
  fill, fill_char, fill_background, columns_loop, print_char_line, valid_pos,
}
use tpe.Video.Text.{
  pixel_map, lines_loop, print_at, print_char, clear_line_loop, clear_line, scroll, move_cursor,
  keep_cursor, settle, put_char, put_str,
}

-- Nothing that paints changes the resolution or the cursor.
pub record SameScreen (v w : Video) : Type 0 where
  pub same_x : w.x_res ≡ v.x_res
  pub same_y : w.y_res ≡ v.y_res
  pub same_cursor : w.cursor ≡ v.cursor
  pub same_char : w.char_color ≡ v.char_color
  pub same_bg : w.bg_color ≡ v.bg_color

same_self : (v : Video) → SameScreen v v
same_self v = record {
  same_x = refl;
  same_y = refl;
  same_cursor = refl;
  same_char = refl;
  same_bg = refl;
}

same_trans : {u v w : Video} → SameScreen u v → SameScreen v w → SameScreen u w
same_trans a b = record {
  same_x = b.same_x ∙ a.same_x;
  same_y = b.same_y ∙ a.same_y;
  same_cursor = b.same_cursor ∙ a.same_cursor;
  same_char = b.same_char ∙ a.same_char;
  same_bg = b.same_bg ∙ a.same_bg;
}

same_if :
    {u v w : Video} (b : Bool) → SameScreen u v → SameScreen u w → SameScreen u (if b then v else w)
same_if true h k = h
same_if false h k = k

pub fill-SameScreen : (c : Color) (x y : ℤ) (v : Video) → SameScreen v (fill c x y v).1
unfolding fill
fill-SameScreen c (pos x) (pos y) v = elim (Bool-cases (not (valid_pixel (pos x) (pos y) v))) [
  | inl e ↦ rw e (same_self v)
  | inr e ↦ rw e (record {
    same_x = refl;
    same_y = refl;
    same_cursor = refl;
    same_char = refl;
    same_bg = refl;
  })
]
fill-SameScreen c (pos x) (negsuc y) v = same_self v
fill-SameScreen c (negsuc x) y v = same_self v

pub columns_loop-SameScreen :
    (n j line x y : ℕ) (v : Video) → SameScreen v (columns_loop n j line x y v)
unfolding columns_loop fill_char fill_background
columns_loop-SameScreen zero j line x y v = same_self v
columns_loop-SameScreen (suc n) j line x y v =
    same_trans
      (same_if (pixel_bit line j) (fill-SameScreen v.char_color (pos (x + j)) (pos y) v)
        (fill-SameScreen v.bg_color (pos (x + j)) (pos y) v))
      (columns_loop-SameScreen n (j + 1) line x y _)

-- A character fits on a line, and the cursor is at a place of the screen.
pub record IsOnScreen (v : Video) : Type 0 where
  pub has_columns : 0 < text_cols v
  pub cursor_in : v.cursor < cursor_limit v

module _ (font : ℤ → ℕ) where
  lines_loop-SameScreen : (n i c x y : ℕ) (v : Video) → SameScreen v (lines_loop font n i c x y v)
  unfolding lines_loop print_char_line
  lines_loop-SameScreen zero i c x y v = same_self v
  lines_loop-SameScreen (suc n) i c x y v =
      same_trans (columns_loop-SameScreen char_width 0 (pixel_map font c i) x (y + i) v)
        (lines_loop-SameScreen n (i + 1) c x y _)

  print_char-SameScreen :
      (c : ℕ) (row col : ℤ) (v : Video) → SameScreen v (print_char font c row col v)
  unfolding print_char print_at
  print_char-SameScreen c (pos row) (pos col) v =
      same_if (valid_pos (pos row) (pos col) v)
        (lines_loop-SameScreen char_height 0 c (col * char_width) (row * char_height) v)
        (same_self v)
  print_char-SameScreen c (pos row) (negsuc col) v = same_self v
  print_char-SameScreen c (negsuc row) col v = same_self v

  clear_line_loop-SameScreen :
      (n i line : ℕ) (v : Video) → SameScreen v (clear_line_loop font n i line v)
  unfolding clear_line_loop
  clear_line_loop-SameScreen zero i line v = same_self v
  clear_line_loop-SameScreen (suc n) i line v =
      same_trans (print_char-SameScreen 32 (pos line) (pos i) v)
        (clear_line_loop-SameScreen n (i + 1) line _)

  scroll-SameScreen : (v : Video) → SameScreen v (scroll font v)
  unfolding scroll clear_line
  scroll-SameScreen v =
      same_trans
        (record {
          same_x = refl;
          same_y = refl;
          same_cursor = refl;
          same_char = refl;
          same_bg = refl;
        })
        (same_if (ltb (text_rows v - 1) (text_rows v))
          (clear_line_loop-SameScreen (text_cols v) 0 (text_rows v - 1) _) (same_self _))

  same_limit : {v w : Video} → SameScreen v w → cursor_limit w ≡ cursor_limit v
  same_limit h = ap₂ (λ x y. (y / char_height) * (x / char_width)) h.same_x h.same_y

  keep_cursor-IsOnScreen :
      (p : ℕ) (v w : Video) → IsOnScreen v → SameScreen v w → IsOnScreen (keep_cursor font p w)
  keep_cursor-IsOnScreen p v w on same =
      let limit = same_limit same in
      let scrolled = scroll-SameScreen w in
      let limit' = same_limit scrolled in
      elim (Bool-cases (leb (cursor_limit w) p)) [
        | inl e ↦ rw e (record {
          has_columns = omega (arith, on.has_columns, same.same_x, scrolled.same_x);
          cursor_in = omega (arith, on.has_columns, on.cursor_in, same.same_x, limit, limit');
        })
        | inr e ↦ rw e (record {
          has_columns = omega (arith, on.has_columns, same.same_x);
          cursor_in = ground (arith, e);
        })
      ]

  settle-IsOnScreen :
      (p : ℤ) (v w : Video) → IsOnScreen v → SameScreen v w → IsOnScreen (settle font (p, w))
  settle-IsOnScreen (pos p) v w on same = keep_cursor-IsOnScreen p v w on same
  settle-IsOnScreen (negsuc n) v w on same = keep_cursor-IsOnScreen 0 v w on same

  move_cursor-SameScreen : (c : ℕ) (v : Video) → SameScreen v (move_cursor font c v).1
  unfolding move_cursor
  move_cursor-SameScreen c v = elim (Bool-cases (c == 8)) [
    | inl back ↦ rw back (print_char-SameScreen 32 _ _ v)
    | inr e ↦ elim (Bool-cases (c == b'\n')) [
      | inl line ↦ rw (e, line) (same_self v)
      | inr f ↦ elim (Bool-cases (c == b'\r')) [
        | inl home ↦ rw (e, f, home) (same_self v)
        | inr g ↦ elim (Bool-cases (not (c == b'\t'))) [
          | inl shown ↦ rw (e, f, g, shown) (print_char-SameScreen c _ _ v)
          | inr tab ↦ rw (e, f, g, tab) (same_self v)
        ]
      ]
    ]
  ]

  put_char-IsOnScreen : (c : ℕ) (v : Video) → IsOnScreen v → IsOnScreen (put_char font c v)
  unfolding put_char
  put_char-IsOnScreen c v on =
      settle-IsOnScreen (move_cursor font c v).0 v (move_cursor font c v).1 on
        (move_cursor-SameScreen c v)

  -- Whatever the bytes of a string, `put_str` leaves the cursor at a place of the screen when it was
  -- at one.
  pub put_str-IsOnScreen :
      (str : List ℕ) (v : Video) → IsOnScreen v → IsOnScreen (put_str font str v)
  unfolding put_str
  put_str-IsOnScreen [] v on = on
  put_str-IsOnScreen (c ∷ str) v on =
      put_str-IsOnScreen str (put_char font c v) (put_char-IsOnScreen c v on)
