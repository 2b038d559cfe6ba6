-- ===== src/Commands/Tests.antt =====
-- The theorems on Kernel/commands.c for "kill 12", and runs.
use tpe.Base.{◌≡◌, ◌⊎◌, ◌↔◌, refl, true, false, [], ◌∷◌, codes, arith}
use tpe.Strings.Compare.{IsString}
use tpe.Ctype.{isdigit}
use tpe.Commands.{Program, unsupported, valid, commands, execute, digits_only, isnum}
use tpe.Commands.Lookup.{Named, NotNamed, launch_of, execute-one}
use tpe.Commands.Number.{IsNumber, isnum_iff}

letters : IsString (codes "kill")
letters = omega arith

execute-one_example :
    ((p : Program) × Named (codes "kill") p commands
      × (execute (codes "kill") (codes "12") true
          ≡ (launch_of p (codes "kill") (codes "12") true ∷ [], valid)))
    ⊎ (NotNamed (codes "kill") commands
        × (execute (codes "kill") (codes "12") true ≡ ([], unsupported)))
execute-one_example = execute-one (codes "kill") (codes "12") true letters (omega arith)

isnum_iff_example : (isnum (codes "-12 x") ≡ true) ↔ IsNumber (codes "-12 x")
isnum_iff_example = isnum_iff (codes "-12 x")

minus_alone : isnum (codes "-") ≡ false
unfolding isnum digits_only isdigit
minus_alone = refl
