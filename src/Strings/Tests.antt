-- ===== src/Strings/Tests.antt =====
-- A run of Kernel/strings.c: the copy of "she".
use tpe.Base.{ℕ, ◌≡◌, refl, some, List, [], ◌∷◌}
use tpe.Strings.{strcpy, strcpy_loop}

abbrev she : List ℕ
she = 115 ∷ 104 ∷ 101 ∷ []

copied : strcpy (9 ∷ 9 ∷ 9 ∷ 9 ∷ 9 ∷ []) 0 she ≡ some (115 ∷ 104 ∷ 101 ∷ 0 ∷ 9 ∷ [], 3)
unfolding strcpy strcpy_loop
copied = refl
