-- ===== src/SystemCalls/Io.antt =====
-- Kernel/systemCalls.c: reading and writing, the clock and the screen. The font is that of Video.
use tpe.Base.{ℕ, zero, suc, ◌-◌, ◌/◌, ◌%◌, ◌^◌, List, [], ◌∷◌, ◌++◌, ◌==◌, leb, if◌then◌else◌}
use tpe.Base.Int.{ℤ, pos, negsuc, pos_part}
use tpe.Video.{
  Video, text_rows, text_cols, scr_x_res, scr_y_res, set_char_color, set_bg_color, fill,
}
use tpe.Video.Text.{put}
use tpe.Keyboard.{Keyboard, get_char}
use tpe.Mutex.{Ops}
use tpe.Process.{block_read_process, block_foreground_process}
use tpe.Kernel.{give_time}
use tpe.Fifo.{
  F, faulty, yielding, pure, ◌>>=◌, ◌>>◌, get, update, with_processes, current_process,
  file_descriptors,
}
use tpe.Fifo.Transfer.{fifo_write, fifo_read}
use tpe.SystemCalls.{stdout, stdin, stderr, to_int, to_unsigned, fds_to_fifo}
use tpe.SystemCalls.Processes.{extended}

abbrev minus_one : ℕ
minus_one = 2 ^ 64 - 1

-- `sys_time`, over the three functions of Kernel/time.c.
unfoldable pub sys_time : (seconds minutes hour : ℤ) → ℕ → ℕ
sys_time seconds minutes hour selection =
    if selection == 0
    then extended seconds
    else if selection == 1
    then extended minutes
    else if selection == 2
    then extended hour
    else minus_one

-- The three bytes of the colour, the blue one last; the coordinates are passed as `int`.
unfoldable pub sys_paint : (color x y : ℕ) → Video → ℕ × Video
sys_paint color x y v =
    fill (record { red = color / 65536 % 256; green = color / 256 % 256; blue = color % 256 })
      (to_int x) (to_int y) v

unfoldable pub sys_screen_res : ℕ → Video → ℕ
sys_screen_res selection v =
    if selection == 0 then scr_x_res v else if selection == 1 then scr_y_res v else minus_one

unfoldable pub sys_text_space : ℕ → Video → ℕ
sys_text_space selection v =
    if selection == 0 then text_rows v else if selection == 1 then text_cols v else minus_one

unfoldable pub sys_set_char_color : (r g b : ℕ) → Video → ℕ × Video
sys_set_char_color r g b = set_char_color r g b

unfoldable pub sys_set_bg_color : (r g b : ℕ) → Video → ℕ × Video
sys_set_bg_color r g b = set_bg_color r g b

-- A length that is passed as an `int`; no rounds for a negative one.
abbrev int_length : ℕ → ℕ
int_length len = pos_part (to_int len)

-- What `sys_write` leaves: the screen, or a step of the system.
module _ (ops : Ops) (font : ℤ → ℕ) where
  -- A write to STDERR: in ERR_COLOR, and then in the colour that was there.
  unfoldable pub write_error : List ℕ → ℕ → Video → Video
  write_error str len v =
      let shown : Video = put font str (int_length len) (set_char_color 255 0 0 v).1 in
      (set_char_color v.char_color.red v.char_color.green v.char_color.blue shown).1

  -- The string lies at `str_at`. For any other descriptor, such as STDIN, the result `n` is not
  -- initialised.
  unfoldable pub sys_write : (fds str_at : ℕ) → List ℕ → ℕ → Video → F (ℕ × Video)
  sys_write fds str_at str len v =
      if fds == stderr
      then pure (len % 2 ^ 32, write_error str len v)
      else if fds == stdout
      then pure (len, put font str (int_length len) v)
      else if leb file_descriptors fds
      then (do
        n ← fifo_write ops (fds_to_fifo fds) str_at str (to_int len)
        pure (to_unsigned n, v))
      else λ _. faulty

-- A reader of the keyboard: the characters that it has, or those and the wait for a key.
pub data KeyRead : Type 0 where
  finished : List ℕ → Keyboard → KeyRead
  waits_for_key : List ℕ → Keyboard → KeyRead

-- `(char) c`
abbrev pub to_char : ℤ → ℕ
to_char (pos n) = n % 256
to_char (negsuc n) = (256 - 1 - n % 256) % 256

-- The loop of `sys_read` with `n` bytes left, up to the yield. A character with the code 255 is -1 as
-- a `char`, and is taken for none.
unfoldable pub read_keys : ℕ → List ℕ → Keyboard → KeyRead
read_keys zero buffer s = finished buffer s
read_keys (suc n) buffer s =
    let c : ℕ = to_char (get_char s).0 in
    let rest = read_keys n (buffer ++ (c ∷ [])) (get_char s).1 in
    if c == 255 then waits_for_key buffer (get_char s).1 else rest

-- The rest of the read from STDIN, for fewer than 2^32 bytes: the count, the characters and the
-- keyboard. It ends at a yield when a key is missing.
unfoldable pub after_keys : ℕ → KeyRead → F (ℕ × List ℕ × Keyboard)
after_keys bytes (finished buffer kb) = pure (bytes, buffer, kb)
after_keys bytes (waits_for_key buffer kb) = do
  s ← get
  update (with_processes (block_read_process (current_process s)))
  λ s. yielding (record s { kernel = give_time s.kernel })

unfoldable pub sys_read :
    Ops → (fds buffer_at : ℕ) → List ℕ → ℕ → Keyboard → F (ℕ × List ℕ × Keyboard)
sys_read ops fds buffer_at buffer bytes kb =
    if fds == stdin
    then (do
      s ← get
      if current_process s == s.kernel.foreground
          then after_keys bytes (read_keys bytes [] kb)
          else (do
            update (with_processes (block_foreground_process (current_process s)))
            λ s. yielding (record s { kernel = give_time s.kernel })))
    else if leb file_descriptors fds
    then (do
      i ← fifo_read ops (fds_to_fifo fds) buffer_at buffer (to_int bytes)
      pure (to_unsigned i, [], kb))
    else pure (0, [], kb)
