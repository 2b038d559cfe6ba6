-- ===== src/Video/Pixels.antt =====
-- Which bytes of the frame buffer `fill` of Kernel/videoDriver.c writes.
use tpe.Base.{
  ℕ, zero, suc, ◌+◌, ◌*◌, ◌%◌, ◌≤◌, ◌<◌, ◌≡◌, refl, sym, ap, true, leb, arith, inl, inr, ◌⊎◌, ◌≢◌,
}
use tpe.Base.Int.{pos}
use tpe.Video.{Color, Video, valid_pixel, pixel_at, paint, fill}

-- Two places of the screen in one place of the buffer are in one row.
same_row : (width x y x' y' : ℕ) → x < width → x' < width → x + y * width ≡ x' + y' * width → y ≡ y'
same_row width x zero x' zero h k e = refl
same_row width x zero x' (suc y') h k e = absurd (omega arith)
same_row width x (suc y) x' zero h k e = absurd (omega arith)
same_row width x (suc y) x' (suc y') h k e = ap suc (same_row width x y x' y' h k (omega arith))

-- The colour of a pixel, and the colour that is stored for one.
unfoldable pub pixel : Video → ℕ → ℕ → Color
pixel v x y = record {
  red = v.frame (pixel_at v.x_res x y + 2);
  green = v.frame (pixel_at v.x_res x y + 1);
  blue = v.frame (pixel_at v.x_res x y);
}

abbrev pub as_bytes : Color → Color
as_bytes c = record { red = c.red % 256; green = c.green % 256; blue = c.blue % 256 }

paint_self :
    (c : Color) (a b : ℕ) (f : ℕ → ℕ)
    → a ≡ b
    → (paint c (3 * a) f (3 * b + 2) ≡ c.red % 256)
      × (paint c (3 * a) f (3 * b + 1) ≡ c.green % 256)
      × (paint c (3 * a) f (3 * b) ≡ c.blue % 256)
unfolding paint
paint_self c a b f e = (ground arith, ground arith, ground arith)

paint_other :
    (c : Color) (a i : ℕ) (f : ℕ → ℕ) → (i < 3 * a) ⊎ (3 * a + 3 ≤ i) → paint c (3 * a) f i ≡ f i
unfolding paint
paint_other c a i f h = ground arith

places_apart :
    (width x y x' y' : ℕ)
    → x < width
    → x' < width
    → (x' ≢ x) ⊎ (y' ≢ y)
    → x + y * width ≢ x' + y' * width
places_apart width x y x' y' h k (inr other) e = other (sym (same_row width x y x' y' h k e))
places_apart width x y x' y' h k (inl other) e =
    let rows : y * width ≡ y' * width = ap (λ r. r * width) (same_row width x y x' y' h k e) in
    other (omega (arith, rows, e))

record_ext : (c d : Color) → c.red ≡ d.red → c.green ≡ d.green → c.blue ≡ d.blue → c ≡ d
record_ext c d r g b = λ i. record { red = r i; green = g i; blue = b i }

painted : Color → ℕ → ℕ → Video → Video
painted c x y v = record v { frame = paint c (pixel_at v.x_res x y) v.frame }

fill-painted :
    (c : Color) (x y : ℕ) (v : Video)
    → x ≤ v.x_res
    → y ≤ v.y_res
    → fill c (pos x) (pos y) v ≡ (1, painted c x y v)
unfolding fill valid_pixel painted
fill-painted c x y v h k =
    let in_x : leb x v.x_res ≡ true = ground arith in
    let in_y : leb y v.y_res ≡ true = ground arith in rw (in_x, in_y) refl

pixel_here : (c : Color) (x y : ℕ) (v : Video) → pixel (painted c x y v) x y ≡ as_bytes c
unfolding pixel painted
pixel_here c x y v =
    let self = paint_self c (x + y * v.x_res) (x + y * v.x_res) v.frame refl in
    rw (self.0, self.1, self.2) refl

pixel_there :
    (c : Color) (x y x' y' : ℕ) (v : Video)
    → x < v.x_res
    → x' < v.x_res
    → (x' ≢ x) ⊎ (y' ≢ y)
    → pixel (painted c x y v) x' y' ≡ pixel v x' y'
unfolding pixel painted
pixel_there c x y x' y' v h k other =
    let a : ℕ = x + y * v.x_res in
    let b : ℕ = x' + y' * v.x_res in
    let apart : a ≢ b = places_apart v.x_res x y x' y' h k other in
    let same : (i : ℕ) → 3 * b ≤ i → i < 3 * b + 3 → paint c (3 * a) v.frame i ≡ v.frame i =
      λ i low high. paint_other c a i v.frame (ground (arith, apart)) in
    record_ext _ _ (same (3 * b + 2) (omega arith) (omega arith))
      (same (3 * b + 1) (omega arith) (omega arith)) (same (3 * b) (omega arith) (omega arith))

-- `fill` at a pixel of the screen returns 1, stores the colour there, and changes no other pixel.
pub record Filled (c : Color) (x y : ℕ) (v : Video) (r : ℕ × Video) : Type 0 where
  pub returned : r.0 ≡ 1
  pub stored : pixel r.1 x y ≡ as_bytes c
  pub others : (x' y' : ℕ) → x' < v.x_res → (x' ≢ x) ⊎ (y' ≢ y) → pixel r.1 x' y' ≡ pixel v x' y'
  pub outside : (i : ℕ) → 3 * (v.x_res * v.y_res) ≤ i → r.1.frame i ≡ v.frame i

below_end : (width height x y : ℕ) → x < width → y < height → x + y * width < width * height
below_end width zero x y h k = absurd (omega arith)
below_end width (suc height) x zero h k = omega arith
below_end width (suc height) x (suc y) h k =
    let rest = below_end width height x y h (omega arith) in omega (arith, rest)

-- `fill` at a pixel of the screen returns 1, stores the colour in its three bytes, changes no other
-- pixel, and no byte behind the frame buffer.
pub fill-Filled :
    (c : Color) (x y : ℕ) (v : Video)
    → x < v.x_res
    → y < v.y_res
    → Filled c x y v (fill c (pos x) (pos y) v)
unfolding painted
fill-Filled c x y v h k =
    let e = fill-painted c x y v (omega arith) (omega arith) in
    let end = below_end v.x_res v.y_res x y h k in
    rw e (record {
      returned = refl;
      stored = pixel_here c x y v;
      others = λ x' y' h' apart. pixel_there c x y x' y' v h h' apart;
      outside = λ i lt. paint_other c (x + y * v.x_res) i v.frame (inr (omega (arith, lt, end)));
    })

-- The line below the last one passes the test: `fill` returns 1 and writes there, three bytes that
-- lie behind the frame buffer.
pub fill-overrun :
    (c : Color) (x : ℕ) (v : Video)
    → x ≤ v.x_res
    → ((fill c (pos x) (pos v.y_res) v).0 ≡ 1)
      × (3 * (v.x_res * v.y_res) ≤ pixel_at v.x_res x v.y_res)
      × (pixel (fill c (pos x) (pos v.y_res) v).1 x v.y_res ≡ as_bytes c)
fill-overrun c x v h =
    rw (fill-painted c x v.y_res v h (omega arith)) (refl, omega arith, pixel_here c x v.y_res v)
