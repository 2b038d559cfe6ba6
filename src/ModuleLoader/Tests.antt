-- ===== src/ModuleLoader/Tests.antt =====
-- The theorem on Kernel/moduleLoader.c and Toolchain/ModulePacker/main.c for two modules.
use tpe.Base.{
  ℕ, ◌+◌, ◌-◌, ◌*◌, ◌<◌, ◌≡◌, ◌^◌, refl, inl, inr, some, List, [], ◌∷◌, length, get_or, arith,
}
use tpe.Console.{Console}
use tpe.ModuleLoader.{Loading, load_modules, build_image, word_bytes, write_modules}
use tpe.ModuleLoader.Held.{Holds}
use tpe.ModuleLoader.Packed.{Fits, AllHeld, Outside, load_modules-build_image}

abbrev console : Console
console = record { memory = λ a. 0; current = 0xB8000 + 2 * 3 }

abbrev kernel : List ℕ
kernel = 7 ∷ 8 ∷ []

abbrev modules : List (List ℕ)
modules = (1 ∷ 2 ∷ 3 ∷ []) ∷ [] ∷ []

abbrev targets : List ℕ
targets = 0x400000 ∷ 0x500000 ∷ []

-- The image stands at 0x100000.
abbrev memory : ℕ → ℕ
memory a =
    get_or (7 ∷ 8 ∷ 2 ∷ 0 ∷ 0 ∷ 0 ∷ 3 ∷ 0 ∷ 0 ∷ 0 ∷ 1 ∷ 2 ∷ 3 ∷ 0 ∷ 0 ∷ 0 ∷ 0 ∷ []) (a - 0x100000) 0

image_stands : Holds memory 0x100000 (build_image kernel modules)
unfolding build_image word_bytes write_modules
image_stands = (
  refl,
  (
    refl,
    (
      refl,
      (
        refl,
        (
          refl,
          (
            refl,
            (
              refl,
              (refl, (refl, (refl, (refl, (refl, (refl, (refl, (refl, (refl, (refl, tt)))))))))),
            ),
          ),
        ),
      ),
    ),
  ),
)

image-Fits : Fits 0x100000 (length (build_image kernel modules)) targets modules
unfolding build_image word_bytes write_modules
image-Fits = (
  omega arith,
  omega arith,
  inr (omega arith),
  (inl (omega arith), tt),
  (omega arith, omega arith, inr (omega arith), tt, tt),
)

image_small : 0x100000 + length (build_image kernel modules) < 2 ^ 64
unfolding build_image word_bytes write_modules
image_small = omega arith

load_modules-build_image_example :
    (s' : Loading) × (load_modules targets
        (record { address = 0x100000 + length kernel; memory = memory; console = console })
      ≡ some s')
    × AllHeld s'.memory targets modules
    × ((a : ℕ) → Outside a targets modules → s'.memory a ≡ memory a)
    × (s'.address ≡ 0x100000 + length (build_image kernel modules))
load_modules-build_image_example =
    load_modules-build_image kernel modules targets 0x100000 memory console image_stands image-Fits
      (omega arith) image_small (3, omega arith)
