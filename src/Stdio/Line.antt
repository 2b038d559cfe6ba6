-- ===== src/Stdio/Line.antt =====
-- `getchar` of Kernel/stdio.c gives the line that was edited.
use tpe.Base.{
  ℕ, zero, suc, ◌+◌, ◌-◌, ◌≤◌, ◌<◌, ◌≡◌, ◌≢◌, refl, sym, ◌∙◌, ap, ap₂, true, false, Option, some,
  List, [], ◌∷◌, ◌++◌, ◌==◌, length, get_or, tabulate, tabulate-add, tabulate_ext, ◌>>=◌, arith,
  inl, inr, Bool-cases,
}
use tpe.Numbers.Reverse.{rev}
use tpe.Stdio.Buffer.{buffer_size, Input, fill_loop, fill_buffer, take_char, getchar, getchars}
use tpe.Stdio.Words.{IsLine}
use tpe.Stdio.Edit.{edit_key, edit, Fits, Stored, fill_loop-Filled}

-- A text has no line feed, so the places that hold it have none.
Stored-IsLine :
    (text buffer : List ℕ) (j : ℕ)
    → IsLine text
    → Stored text buffer
    → j < length text
    → get_or buffer j 0 ≢ b'\n'
Stored-IsLine [] buffer j h st lt = absurd (omega arith)
Stored-IsLine (d ∷ text) buffer j h st lt = elim (Bool-cases (j == length text)) [
  | inl e ↦
      let same : j ≡ length text = ground arith in
      λ feed. h.0 (sym st.0 ∙ ap (λ k. get_or buffer k 0) (sym same) ∙ feed)
  | inr e ↦ Stored-IsLine text buffer j h.1 st.1 (ground arith)
]

edit-IsLine : (keys text : List ℕ) → IsLine keys → IsLine text → IsLine (edit text keys)
edit-IsLine [] text h k = k
edit-IsLine (c ∷ keys) text h k = edit-IsLine keys (edit_key text c) h.1 (key-IsLine text c h.0 k)
  where
    key-IsLine : (text : List ℕ) (c : ℕ) → c ≢ b'\n' → IsLine text → IsLine (edit_key text c)
    key-IsLine [] c h k = elim (Bool-cases (c == 8)) [ inl e ↦ rw e tt | inr e ↦ rw e (h, tt) ]
    key-IsLine (d ∷ text) c h k = elim (Bool-cases (c == 8)) [
      | inl e ↦ rw e k.1
      | inr e ↦ rw e (h, k)
    ]

-- Read from the start, the text comes out.
Stored-rev :
    (text buffer : List ℕ)
    → Stored text buffer
    → tabulate (length text) (λ j. get_or buffer j 0) ≡ rev text
unfolding tabulate rev
Stored-rev [] buffer st = refl
Stored-rev (d ∷ text) buffer st =
    ap (λ n. tabulate n (λ j. get_or buffer j 0)) {x = suc (length text)} {y = length text + 1}
      (omega arith)
    ∙ tabulate-add (length text) 1 (λ j. get_or buffer j 0)
    ∙ ap₂ ◌++◌ (Stored-rev text buffer st.1) (
        ap (λ c. c ∷ [])
          (ap (λ k. get_or buffer k 0) {x = length text + 0} {y = length text} (omega arith)
            ∙ st.0))

-- The rest of the line from index `i` on, after a first character.
abbrev after : ℕ → ℕ × Input → Option (List ℕ × Input)
after n r = getchars n (r.1) >>= λ t. some (r.0 ∷ t.0, t.1)

getchars-ready :
    (n : ℕ) (s : Input) → (s.buffi == 0) ≡ false → getchars (suc n) s ≡ after n (take_char s)
unfolding getchars getchar
getchars-ready n s e = rw e refl

read_line :
    (n i : ℕ) (s : Input)
    → s.buffi ≡ i
    → i + n < buffer_size
    → ((j : ℕ) → i ≤ j → j < i + n → get_or s.buffer j 0 ≢ b'\n')
    → get_or s.buffer (i + n) 0 ≡ b'\n'
    → after n (take_char s)
      ≡ some (tabulate (suc n) (λ j. get_or s.buffer (i + j) 0), record s { buffi = 0 })
unfolding getchars tabulate
read_line zero i s e h plain feed =
    let feed' : (get_or s.buffer s.buffi 0 == b'\n') ≡ true =
      ap (λ k. get_or s.buffer k 0 == b'\n') {x = s.buffi} {y = i + 0} (omega arith)
      ∙ ap (λ c. c == b'\n') feed in
    rw feed' (ap (λ k. some (get_or s.buffer k 0 ∷ [], record s { buffi = 0 })) (omega arith))
read_line (suc n) i s e h plain feed =
    let here : get_or s.buffer s.buffi 0 ≢ b'\n' = plain s.buffi (omega arith) (omega arith) in
    let no_feed : (get_or s.buffer s.buffi 0 == b'\n') ≡ false = ground (arith, here) in
    let no_end : (s.buffi + 1 == buffer_size) ≡ false = ground arith in
    let s' : Input = record s { buffi = s.buffi + 1 } in
    let ready : (s.buffi + 1 == 0) ≡ false = ground arith in
    let rest =
      read_line n (i + 1) s' (omega arith) (omega arith)
        (λ j low high. plain j (omega arith) (omega arith))
        (ap (λ k. get_or s.buffer k 0) (omega arith) ∙ feed) in
    rw (no_feed, no_end)
      (ap (λ m. m >>= λ t. some ((take_char s).0 ∷ t.0, t.1)) (getchars-ready n s' ready ∙ rest)
        ∙ ap (λ l. some (l, record s { buffi = 0 }))
            (ap₂ ◌∷◌ (ap (λ k. get_or s.buffer k 0) {x = s.buffi} {y = i + 0} (omega (arith, e))) (
              tabulate_ext (suc n) _ (λ k. get_or s.buffer (i + (k + 1)) 0)
                (λ k lt.
                  ap (λ m. get_or s.buffer m 0) {x = i + 1 + k} {y = i + (k + 1)} (omega arith)))))

edit-length : (keys text : List ℕ) → Fits text keys → length (edit text keys) < buffer_size - 1
edit-length [] text h = h
edit-length (c ∷ keys) text h = edit-length keys (edit_key text c) h.1

getchars-fill :
    (n : ℕ) (s t : Input)
    → (s.buffi == 0) ≡ true
    → fill_buffer s ≡ some t
    → getchars (suc n) s ≡ after n (take_char t)
unfolding getchars getchar
getchars-fill n s t e f = rw (e, f) refl

-- A line is typed into an empty buffer, with any backspaces among its keys, and the text never
-- reaches the last place but one. The calls of `getchar`, one for each character and one for the line
-- feed, give the text that the backspaces leave and the line feed; the buffer is empty again, and the
-- keys behind the line are still to come.
pub getchars-edit :
    (keys more : List ℕ) (s : Input)
    → s.buffi ≡ 0
    → s.keys ≡ keys ++ (b'\n' ∷ more)
    → length s.buffer ≡ buffer_size
    → IsLine keys
    → Fits [] keys
    → (t : Input) × (getchars (length (edit [] keys) + 1) s
        ≡ some (rev (edit [] keys) ++ (b'\n' ∷ []), t))
      × (t.buffi ≡ 0)
      × (t.keys ≡ more)
unfolding fill_buffer rev
getchars-edit keys more s empty coming size h fits =
    let text : List ℕ = edit [] keys in
    let line = edit-IsLine keys [] h tt in
    let (t, e, f) = fill_loop-Filled keys more [] s size h fits tt in
    let room = edit-length keys [] fits in
    let start = f.same_buffi in
    let filled =
      getchars-fill (length text) s t (ground arith) (ap (λ k. fill_loop k 0 s) coming ∙ e) in
    let read =
      read_line (length text) 0 t (omega (arith, start)) (omega (arith, room))
        (λ j low high. Stored-IsLine text t.buffer j line f.stored.1 (omega arith))
        (ap (λ k. get_or t.buffer k 0) (omega arith) ∙ f.stored.0) in
    (
      record t { buffi = 0 },
      ap (λ n. getchars n s) {x = length text + 1} {y = suc (length text)} (omega arith)
          ∙ filled
          ∙ read
          ∙ ap (λ l. some (l, record t { buffi = 0 }))
              (tabulate_ext (suc (length text)) _ (λ j. get_or t.buffer j 0)
                  (λ j lt. ap (λ k. get_or t.buffer k 0) (omega arith))
                ∙ Stored-rev (b'\n' ∷ text) t.buffer f.stored),
      refl,
      f.keys_left,
    )
