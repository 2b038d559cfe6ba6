-- ===== src/Memory/Copy.antt =====
-- What the copies of Kernel/lib.c leave in the destination.
use tpe.Base.{
  ℕ, zero, suc, ◌+◌, ◌*◌, ◌/◌, ◌≤◌, ◌<◌, ◌≡◌, refl, ◌∙◌, ap, some, List, length, get_or, set, arith,
  length-set, get_or-set_self, get_or-set_ne, get_elem?-eq-get_or, lt→ltb,
}
use tpe.Memory.{copy_bytes, copy_word, copy_words, memcpy}

-- `out` is `dst` with the `n` bytes from index `d` on replaced by those of `src` from index `s` on.
pub record Copied (dst : List ℕ) (d : ℕ) (src : List ℕ) (s n : ℕ) (out : List ℕ) : Type 0 where
  pub same_length : length out ≡ length dst
  pub inside : (j : ℕ) → j < n → get_or out (d + j) 0 ≡ get_or src (s + j) 0
  pub before : (j : ℕ) → j < d → get_or out j 0 ≡ get_or dst j 0
  pub after : (j : ℕ) → d + n ≤ j → get_or out j 0 ≡ get_or dst j 0

copy_bytes_step :
    (dst : List ℕ) (d : ℕ) (src : List ℕ) (s n : ℕ)
    → s < length src
    → d < length dst
    → copy_bytes dst d src s (suc n) ≡ copy_bytes (set dst d (get_or src s 0)) (d + 1) src (s + 1) n
unfolding copy_bytes
copy_bytes_step dst d src s n hs hd = rw (get_elem?-eq-get_or src s 0 hs, lt→ltb d (length dst) hd)

-- The same with the next indices as given.
copy_bytes_step_to :
    (dst : List ℕ) (d d' : ℕ) (src : List ℕ) (s s' n : ℕ)
    → s < length src
    → d < length dst
    → d' ≡ d + 1
    → s' ≡ s + 1
    → copy_bytes dst d src s (suc n) ≡ copy_bytes (set dst d (get_or src s 0)) d' src s' n
copy_bytes_step_to dst d d' src s s' n hs hd e f = rw (e, f) (copy_bytes_step dst d src s n hs hd)

Copied-step :
    (dst : List ℕ) (d : ℕ) (src : List ℕ) (s n : ℕ) (out : List ℕ)
    → d < length dst
    → Copied (set dst d (get_or src s 0)) (d + 1) src (s + 1) n out
    → Copied dst d src s (suc n) out
Copied-step dst d src s n out hd c = record {
  same_length = c.same_length ∙ length-set dst d _;
  inside = within;
  before = λ j h. c.before j (omega arith) ∙ get_or-set_ne dst d j _ 0 (omega arith);
  after = λ j h. c.after j (omega arith) ∙ get_or-set_ne dst d j _ 0 (omega arith);
}
  where
    within : (j : ℕ) → j < suc n → get_or out (d + j) 0 ≡ get_or src (s + j) 0
    within zero h =
        ap (λ k. get_or out k 0) {x = d + zero} {y = d} (omega arith)
        ∙ (c.before d (omega arith)
            ∙ get_or-set_self dst d _ 0 hd
            ∙ ap (λ k. get_or src k 0) {x = s} {y = s + zero} (omega arith))
    within (suc j) h =
        ap (λ k. get_or out k 0) {x = d + suc j} {y = d + 1 + j} (omega arith)
        ∙ (c.inside j (omega arith)
            ∙ ap (λ k. get_or src k 0) {x = s + 1 + j} {y = s + suc j} (omega arith))

-- The byte loop copies when both ranges lie inside their arrays.
pub copy_bytes-Copied :
    (dst : List ℕ) (d : ℕ) (src : List ℕ) (s n : ℕ)
    → d + n ≤ length dst
    → s + n ≤ length src
    → (out : List ℕ) × (copy_bytes dst d src s n ≡ some out) × Copied dst d src s n out
unfolding copy_bytes
copy_bytes-Copied dst d src s zero hd hs = (
  dst,
  refl,
  record {
    same_length = refl;
    inside = λ j h. absurd (omega arith);
    before = λ j h. refl;
    after = λ j h. refl;
  },
)
copy_bytes-Copied dst d src s (suc n) hd hs =
    let (out, e, c) =
      copy_bytes-Copied (set dst d (get_or src s 0)) (d + 1) src (s + 1) n
        (omega (arith, length-set dst d (get_or src s 0))) (omega arith) in
    (
      out,
      copy_bytes_step dst d src s n (omega arith) (omega arith) ∙ e,
      Copied-step dst d src s n out (omega arith) c,
    )

-- The destination after one word is stored.
abbrev set_word : List ℕ → ℕ → List ℕ → ℕ → List ℕ
set_word dst d src s =
    set
      (set (set (set dst d (get_or src s 0)) (d + 1) (get_or src (s + 1) 0)) (d + 2)
        (get_or src (s + 2) 0))
      (d + 3) (get_or src (s + 3) 0)

module _ (dst : List ℕ) (d : ℕ) (src : List ℕ) (s : ℕ) (hd : d + 4 ≤ length dst)
    (hs : s + 4 ≤ length src) where
  -- The destination after one, two and three of the bytes.
  abbrev one : List ℕ
  one = set dst d (get_or src s 0)

  abbrev two : List ℕ
  two = set one (d + 1) (get_or src (s + 1) 0)

  abbrev three : List ℕ
  three = set two (d + 2) (get_or src (s + 2) 0)

  room : (d + 1 < length one) × (d + 2 < length two) × (d + 3 < length three)
  room = omega (arith, length-set {0})

  copy_word-set_word : copy_word dst d src s ≡ some (set_word dst d src s)
  unfolding copy_word
  copy_word-set_word = rw (
    get_elem?-eq-get_or src s 0 (omega arith),
    get_elem?-eq-get_or src (s + 1) 0 (omega arith),
    get_elem?-eq-get_or src (s + 2) 0 (omega arith),
    get_elem?-eq-get_or src (s + 3) 0 (omega arith),
    lt→ltb d (length dst) (omega arith),
    lt→ltb (d + 1) (length one) room.0,
    lt→ltb (d + 2) (length two) room.1,
    lt→ltb (d + 3) (length three) room.2,
  )

  -- One word is four bytes of the byte loop.
  copy_bytes-set_word :
      (n : ℕ)
      → copy_bytes dst d src s (suc (suc (suc (suc n))))
        ≡ copy_bytes (set_word dst d src s) (d + 4) src (s + 4) n
  copy_bytes-set_word n =
      copy_bytes_step_to dst d (d + 1) src s (s + 1) _ (omega arith) (omega arith) refl refl
      ∙ (copy_bytes_step_to one (d + 1) (d + 2) src (s + 1) (s + 2) _ (omega arith) room.0
            (omega arith) (omega arith)
          ∙ (copy_bytes_step_to two (d + 2) (d + 3) src (s + 2) (s + 3) _ (omega arith) room.1
                (omega arith) (omega arith)
              ∙ copy_bytes_step_to three (d + 3) (d + 4) src (s + 3) (s + 4) n (omega arith) room.2
                  (omega arith) (omega arith)))

  length-set_word : length (set_word dst d src s) ≡ length dst
  length-set_word = omega (arith, length-set {0})

-- The word loop does what the byte loop does with four times the count.
copy_words-bytes :
    (dst : List ℕ) (d : ℕ) (src : List ℕ) (s n m : ℕ)
    → m ≡ 4 * n
    → d + m ≤ length dst
    → s + m ≤ length src
    → copy_words dst d src s n ≡ copy_bytes dst d src s m
unfolding copy_words copy_bytes
copy_words-bytes dst d src s zero m e hd hs = rw (let z : m ≡ zero = omega arith in z)
copy_words-bytes dst d src s (suc n) m e hd hs =
    let four : m ≡ suc (suc (suc (suc (4 * n)))) = omega arith in
    rw
      (
        four,
        copy_bytes-set_word dst d src s (omega arith) (omega arith) (4 * n),
        copy_word-set_word dst d src s (omega arith) (omega arith),
      )
      (copy_words-bytes (set_word dst d src s) (d + 4) src (s + 4) n (4 * n) refl
        (omega (arith, length-set_word dst d src s (omega arith) (omega arith))) (omega arith))

memcpy-copy_bytes :
    (dst_at src_at : ℕ) (dst : List ℕ) (d : ℕ) (src : List ℕ) (s n : ℕ)
    → d + n ≤ length dst
    → s + n ≤ length src
    → memcpy dst_at src_at dst d src s n ≡ copy_bytes dst d src s n
unfolding memcpy
memcpy-copy_bytes dst_at src_at dst d src s n hd hs =
    ground (arith, copy_words-bytes dst d src s (n / 4) n)

-- `memcpy` takes either loop, and both copy: for ranges inside their arrays it returns no fault,
-- and the destination has the `n` bytes replaced and is the same elsewhere, at any alignment.
pub memcpy-Copied :
    (dst_at src_at : ℕ) (dst : List ℕ) (d : ℕ) (src : List ℕ) (s n : ℕ)
    → d + n ≤ length dst
    → s + n ≤ length src
    → (out : List ℕ) × (memcpy dst_at src_at dst d src s n ≡ some out) × Copied dst d src s n out
memcpy-Copied dst_at src_at dst d src s n hd hs =
    rw (memcpy-copy_bytes dst_at src_at dst d src s n hd hs) (copy_bytes-Copied dst d src s n hd hs)
