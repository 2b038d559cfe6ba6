-- ===== src/ModuleLoader/Packed.antt =====
-- The loader of Kernel/moduleLoader.c reads the image that Toolchain/ModulePacker/main.c writes.
use mathlib.Core.Path.{subst}
use tpe.Base.{
  ℕ, ◌+◌, ◌^◌, ◌≤◌, ◌<◌, ◌≡◌, ◌⊎◌, refl, ◌∙◌, ap, inl, inr, true, some, List, [], ◌∷◌, ◌++◌, length,
  length-append, arith, codes,
}
use tpe.Console.{Console, nc_print, nc_newline}
use tpe.Console.NewLine.{nc_newline-Blank, next_line}
use tpe.Console.Printed.{AtPlace, nc_print-AtPlace, nc_print_dec-AtPlace, nc_print_hex-AtPlace}
use tpe.ModuleLoader.{
  Loading, word_at, announce, disjoint, moved, copy_module, load_module, load_loop, load_modules,
  word_bytes, write_modules, build_image,
}
use tpe.ModuleLoader.Held.{
  Holds, Apart, Holds-append, Holds-same, moved-outside, Holds-moved, Holds-Apart,
}

-- The target is apart from those of the modules.
abbrev pub ApartAll : ℕ → ℕ → List ℕ → List (List ℕ) → Type 0
ApartAll t n targets [] = Unit {0}
ApartAll t n [] (m ∷ ms) = Unit {0}
ApartAll t n (t' ∷ targets) (m ∷ ms) = Apart t n t' (length m) × ApartAll t n targets ms

-- There is a target for each module, its bytes have addresses of 64 bits and their number has 32, and
-- they overlap neither the `size` bytes of the image at `start` nor another target.
abbrev pub Fits : (start size : ℕ) → List ℕ → List (List ℕ) → Type 0
Fits start size targets [] = Unit {0}
Fits start size [] (m ∷ ms) = ⊥
Fits start size (t ∷ targets) (m ∷ ms) =
    (t + length m < 2 ^ 64)
    × (length m < 2 ^ 32)
    × Apart t (length m) start size
    × ApartAll t (length m) targets ms
    × Fits start size targets ms

-- Each module stands at its target.
abbrev pub AllHeld : (ℕ → ℕ) → List ℕ → List (List ℕ) → Type 0
AllHeld memory targets [] = Unit {0}
AllHeld memory [] (m ∷ ms) = ⊥
AllHeld memory (t ∷ targets) (m ∷ ms) = Holds memory t m × AllHeld memory targets ms

-- The address lies in no target.
abbrev pub Outside : ℕ → List ℕ → List (List ℕ) → Type 0
Outside a targets [] = Unit {0}
Outside a [] (m ∷ ms) = Unit {0}
Outside a (t ∷ targets) (m ∷ ms) = ((a < t) ⊎ (t + length m ≤ a)) × Outside a targets ms

ApartAll-Outside :
    (t n : ℕ) (targets : List ℕ) (ms : List (List ℕ)) (a : ℕ)
    → ApartAll t n targets ms
    → t ≤ a
    → a < t + n
    → Outside a targets ms
ApartAll-Outside t n targets [] a h from to = tt
ApartAll-Outside t n [] (m ∷ ms) a h from to = tt
ApartAll-Outside t n (t' ∷ targets) (m ∷ ms) a (inl h, more) from to =
    (inl (omega arith), ApartAll-Outside t n targets ms a more from to)
ApartAll-Outside t n (t' ∷ targets) (m ∷ ms) a (inr h, more) from to =
    (inr (omega arith), ApartAll-Outside t n targets ms a more from to)

word_at-word_bytes :
    (memory : ℕ → ℕ) (a n : ℕ) → n < 2 ^ 32 → Holds memory a (word_bytes n) → word_at memory a ≡ n
unfolding word_bytes
word_at-word_bytes memory a n h (b0, (b1, (b2, (b3, end)))) =
    let c2 = ap memory {x = a + 2} {y = a + 1 + 1} (omega arith) in
    let c3 = ap memory {x = a + 3} {y = a + 1 + 1 + 1} (omega arith) in
    omega (arith, b0, b1, b2, b3, c2, c3)

announce-AtPlace :
    (module_at target size : ℕ) (s : Console)
    → module_at < 2 ^ 64
    → target < 2 ^ 64
    → size < 2 ^ 64
    → AtPlace s
    → (s' : Console) × (announce module_at target size s ≡ some s') × AtPlace s'
unfolding announce
announce-AtPlace module_at target size s h k l place =
    let (s1, e1, p1) =
      nc_print_hex-AtPlace module_at (nc_print (codes "  Will copy module at 0x") s) h
        (nc_print-AtPlace (codes "  Will copy module at 0x") s place) in
    let (s2, e2, p2) =
      nc_print_hex-AtPlace target (nc_print (codes " to 0x") s1) k
        (nc_print-AtPlace (codes " to 0x") s1 p1) in
    let (s3, e3, p3) =
      nc_print_dec-AtPlace size (nc_print (codes " (") s2) l
        (nc_print-AtPlace (codes " (") s2 p2) in
    (nc_print (codes " bytes)") s3, rw (e1, e2, e3) refl, nc_print-AtPlace (codes " bytes)") s3 p3)

nc_newline-AtPlace :
    (s : Console) → AtPlace s → (s' : Console) × (nc_newline s ≡ some s') × AtPlace s'
nc_newline-AtPlace s (k, e) =
    let (s', ran, b) = nc_newline-Blank k s e in (s', ran, (next_line k, b.at_end))

copy_module-moved :
    (target size : ℕ) (s : Loading)
    → Apart target size s.address size
    → copy_module target size s
      ≡ some
          (record s { address = s.address + size; memory = moved target size s.address s.memory })
unfolding copy_module
copy_module-moved target size s h =
    let clear : disjoint target s.address size ≡ true = ground (arith, h) in rw clear refl

-- What loading one module leaves.
load_module-moved :
    (target : ℕ) (m : List ℕ) (s : Loading)
    → target < 2 ^ 64
    → length m < 2 ^ 32
    → s.address + 4 < 2 ^ 64
    → Holds s.memory s.address (word_bytes (length m))
    → Apart target (length m) (s.address + 4) (length m)
    → AtPlace s.console
    → (console : Console) × (load_module target s
        ≡ some (record {
          address = s.address + 4 + length m;
          memory = moved target (length m) (s.address + 4) s.memory;
          console = console;
        }))
      × AtPlace console
unfolding load_module
load_module-moved target m s t small room held clear place =
    let (c1, e1, p1) =
      announce-AtPlace (s.address + 4) target (length m) s.console room t (omega arith) place in
    let (c2, e2, p2) =
      nc_newline-AtPlace (nc_print (codes " [Done]") c1)
        (nc_print-AtPlace (codes " [Done]") c1 p1) in
    (
      c2,
      rw
          (
            word_at-word_bytes s.memory s.address (length m) small held,
            e1,
            copy_module-moved target (length m) (record s { address = s.address + 4; console = c1 })
                clear,
            e2,
          )
          refl,
      p2,
    )

four : (n : ℕ) → length (word_bytes n) ≡ 4
unfolding word_bytes
four n = refl

length-module :
    (m rest : List ℕ) → length (word_bytes (length m) ++ (m ++ rest)) ≡ 4 + (length m + length rest)
length-module m rest = omega (
  arith,
  length-append (word_bytes (length m)) (m ++ rest),
  four (length m),
  length-append m rest,
)

Apart-part :
    (t n start size a m : ℕ)
    → start ≤ a
    → a + m ≤ start + size
    → Apart t n start size
    → Apart t n a m
Apart-part t n start size a m from to (inl h) = inl (omega arith)
Apart-part t n start size a m from to (inr h) = inr (omega arith)

-- What the loop over the modules leaves.
record Loaded (targets : List ℕ) (ms : List (List ℕ)) (s s' : Loading) : Type 0 where
  pub all_held : AllHeld s'.memory targets ms
  pub others : (a : ℕ) → Outside a targets ms → s'.memory a ≡ s.memory a
  pub at_end : s'.address ≡ s.address + length (write_modules ms)

load_loop-Loaded :
    (start size : ℕ) (targets : List ℕ) (ms : List (List ℕ)) (s : Loading)
    → Fits start size targets ms
    → Holds s.memory s.address (write_modules ms)
    → start ≤ s.address
    → s.address + length (write_modules ms) ≤ start + size
    → start + size < 2 ^ 64
    → AtPlace s.console
    → (s' : Loading) × (load_loop (length ms) targets s ≡ some s') × Loaded targets ms s s'
unfolding load_loop write_modules
load_loop-Loaded start size targets [] s h held from to small place =
    (s, refl, record { all_held = tt; others = λ a o. refl; at_end = omega arith })
load_loop-Loaded start size [] (m ∷ ms) s h held from to small place = absurd h
load_loop-Loaded start size (t ∷ targets) (m ∷ ms) s (room, few, clear, lone, more) held from to
      small place =
    let total = length-module m (write_modules ms) in
    let (count, body) =
      Holds-append s.memory s.address (word_bytes (length m)) (m ++ write_modules ms) held in
    let (itself, rest) = Holds-append s.memory (s.address + 4) m (write_modules ms) (
      subst (λ k. Holds s.memory k (m ++ write_modules ms))
        {x = s.address + length (word_bytes (length m))} {y = s.address + 4}
        (omega (arith, four (length m))) body) in
    let (console, ran, p) =
      load_module-moved t m s (omega arith) few (omega arith) count
        (Apart-part t (length m) start size (s.address + 4) (length m) (omega arith) (omega arith)
          clear)
        place in
    let s1 : Loading = record {
      address = s.address + 4 + length m;
      memory = moved t (length m) (s.address + 4) s.memory;
      console = console;
    } in
    let (s', ran', l) =
      load_loop-Loaded start size targets ms s1 more
        (Holds-Apart t (length m) (s.address + 4) s.memory (s.address + 4 + length m)
          (write_modules ms)
          (Apart-part t (length m) start size (s.address + 4 + length m) (length (write_modules ms))
            (omega arith) (omega arith) clear)
          rest)
        (omega arith) (omega arith) small p in
    (
      s',
      rw ran ran',
      record {
        all_held = (
          Holds-same s1.memory s'.memory t m
              (λ i low high. l.others i (ApartAll-Outside t (length m) targets ms i lone low high))
              (subst (λ k. Holds s1.memory k m) {x = t + 0} (omega arith)
                (Holds-moved t (length m) (s.address + 4) s.memory 0 m (omega arith)
                  (subst (λ k. Holds s.memory k m) {y = s.address + 4 + 0} (omega arith) itself))),
          l.all_held,
        );
        others = λ a o. l.others a o.1 ∙ moved-outside t (length m) (s.address + 4) s.memory a o.0;
        at_end = omega (arith, l.at_end, total);
      },
    )

-- From the byte behind the kernel on, the loader reads the image that the packer writes for the kernel
-- and the modules and that stands in memory at `start`. There is a target for each module; no target
-- overlaps the image or another target, the addresses have 64 bits, the sizes 32, and the cursor of the
-- console is at a place. It comes to the end of the image exactly; each module then stands whole at its
-- target, and no byte outside the targets has changed, those of the image included.
pub load_modules-build_image :
    (kernel : List ℕ) (modules : List (List ℕ)) (targets : List ℕ) (start : ℕ) (memory : ℕ → ℕ)
    (console : Console)
    → Holds memory start (build_image kernel modules)
    → Fits start (length (build_image kernel modules)) targets modules
    → length modules < 2 ^ 32
    → start + length (build_image kernel modules) < 2 ^ 64
    → AtPlace console
    → (s' : Loading) × (load_modules targets
          (record { address = start + length kernel; memory = memory; console = console })
        ≡ some s')
      × AllHeld s'.memory targets modules
      × ((a : ℕ) → Outside a targets modules → s'.memory a ≡ memory a)
      × (s'.address ≡ start + length (build_image kernel modules))
unfolding load_modules build_image
load_modules-build_image kernel modules targets start memory console stands fits count room place =
    let body : List ℕ = word_bytes (length modules) ++ write_modules modules in
    let sizes : length (kernel ++ body) ≡ length kernel + (4 + length (write_modules modules)) =
      omega (
        arith,
        length-append kernel body,
        length-append (word_bytes (length modules)) (write_modules modules),
        four (length modules),
      ) in
    let (in_front, behind) = Holds-append memory start kernel body stands in
    let (number, packed) =
      Holds-append memory (start + length kernel) (word_bytes (length modules))
        (write_modules modules) behind in
    let (s', ran, l) =
      load_loop-Loaded start (length (kernel ++ body)) targets modules
        (record { address = start + length kernel + 4; memory = memory; console = console }) fits
        (subst (λ k. Holds memory k (write_modules modules))
          {x = start + length kernel + length (word_bytes (length modules))}
          (omega (arith, four (length modules))) packed)
        (omega arith) (omega arith) room place in
    (
      s',
      rw (word_at-word_bytes memory (start + length kernel) (length modules) count number) ran,
      l.all_held,
      l.others,
      omega (arith, l.at_end, sizes),
    )
