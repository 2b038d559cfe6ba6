-- ===== src/ModuleLoader/Held.antt =====
-- Bytes in the memory of Kernel/moduleLoader.c, and what a copy does to them.
use mathlib.Core.Path.{subst}
use tpe.Base.{
  ℕ, ◌+◌, ◌-◌, ◌≤◌, ◌<◌, ◌≡◌, ◌⊎◌, refl, ◌∙◌, inl, inr, true, List, [], ◌∷◌, ◌++◌, length, arith,
  leb, ltb, ◌&&◌,
}
use tpe.ModuleLoader.{moved}

-- The bytes stand in the memory from `a` on.
abbrev pub Holds : (ℕ → ℕ) → ℕ → List ℕ → Type 0
Holds memory a [] = Unit {0}
Holds memory a (b ∷ bytes) = (memory a ≡ b) × Holds memory (a + 1) bytes

-- The `n` bytes from `a` on and the `m` bytes from `b` on do not overlap.
abbrev pub Apart : ℕ → ℕ → ℕ → ℕ → Type 0
Apart a n b m = (a + n ≤ b) ⊎ (b + m ≤ a)

pub Holds-append :
    (memory : ℕ → ℕ) (a : ℕ) (xs ys : List ℕ)
    → Holds memory a (xs ++ ys)
    → Holds memory a xs × Holds memory (a + length xs) ys
Holds-append memory a [] ys h = (tt, subst (λ k. Holds memory k ys) {x = a} (omega arith) h)
Holds-append memory a (x ∷ xs) ys (here, h) =
    let (front, back) = Holds-append memory (a + 1) xs ys h in
    ((here, front), subst (λ k. Holds memory k ys) {x = a + 1 + length xs} (omega arith) back)

pub Holds-same :
    (m m' : ℕ → ℕ) (a : ℕ) (xs : List ℕ)
    → ((i : ℕ) → a ≤ i → i < a + length xs → m' i ≡ m i)
    → Holds m a xs
    → Holds m' a xs
Holds-same m m' a [] same h = tt
Holds-same m m' a (x ∷ xs) same (here, h) = (
  same a (omega arith) (omega arith) ∙ here,
  Holds-same m m' (a + 1) xs (λ i from to. same i (omega arith) (omega arith)) h,
)

pub moved-outside :
    (target size source : ℕ) (memory : ℕ → ℕ) (a : ℕ)
    → (a < target) ⊎ (target + size ≤ a)
    → moved target size source memory a ≡ memory a
unfolding moved
moved-outside target size source memory a (inl h) = ground (arith, h)
moved-outside target size source memory a (inr h) = ground (arith, h)

moved-inside :
    (target size source : ℕ) (memory : ℕ → ℕ) (j : ℕ)
    → j < size
    → moved target size source memory (target + j) ≡ memory (source + j)
unfolding moved
moved-inside target size source memory j h =
    let inside : (leb target (target + j) && ltb (target + j) (target + size)) ≡ true =
      ground arith in
    let back : target + j - target ≡ j = omega arith in rw (inside, back) refl

-- A copy has at the target what stood at the source.
pub Holds-moved :
    (target size source : ℕ) (memory : ℕ → ℕ) (j : ℕ) (xs : List ℕ)
    → j + length xs ≤ size
    → Holds memory (source + j) xs
    → Holds (moved target size source memory) (target + j) xs
Holds-moved target size source memory j [] h held = tt
Holds-moved target size source memory j (x ∷ xs) h (here, held) = (
  moved-inside target size source memory j (omega arith) ∙ here,
  subst (λ k. Holds (moved target size source memory) k xs) {x = target + (j + 1)} (omega arith)
      (Holds-moved target size source memory (j + 1) xs (omega arith)
        (subst (λ k. Holds memory k xs) {x = source + j + 1} (omega arith) held)),
)

-- What was held apart from the target is held after the copy.
pub Holds-Apart :
    (target size source : ℕ) (memory : ℕ → ℕ) (a : ℕ) (xs : List ℕ)
    → Apart target size a (length xs)
    → Holds memory a xs
    → Holds (moved target size source memory) a xs
Holds-Apart target size source memory a xs (inl h) held =
    Holds-same memory (moved target size source memory) a xs
      (λ i from to. moved-outside target size source memory i (inr (omega arith))) held
Holds-Apart target size source memory a xs (inr h) held =
    Holds-same memory (moved target size source memory) a xs
      (λ i from to. moved-outside target size source memory i (inl (omega arith))) held
