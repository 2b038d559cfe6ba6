-- ===== src/Shell/Tests.antt =====
-- The theorem on a round of the shell for "echo hi x &".
use tpe.Base.{◌≡◌, refl, some, true, false, not, [], ◌∷◌, codes, arith}
use tpe.Shell.{Command, shell_round}
use tpe.Shell.Words.{line_of}
use tpe.Shell.Line.{Launches, shell_round-Launches}

shell_round-Launches_example :
    (c : Command) × (shell_round (line_of (codes "echo") (codes "hi" ∷ codes "x" ∷ []) true)
      ≡ some (some c))
    × Launches (codes "echo") (codes "hi" ∷ codes "x" ∷ []) (not true) c
shell_round-Launches_example =
    shell_round-Launches (codes "echo") (codes "hi" ∷ codes "x" ∷ []) true
      (omega arith, (refl, (refl, (refl, (refl, tt)))))
      ((omega arith, (refl, (refl, tt))), ((omega arith, (refl, tt)), tt))
      (λ h. absurd (let no : true ≡ false = h in cc))
