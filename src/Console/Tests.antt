-- ===== src/Console/Tests.antt =====
-- The theorem on Kernel/naiveConsole.c in the middle of a line.
use tpe.Base.{◌+◌, ◌*◌, ◌≡◌, some, arith}
use tpe.Console.{Console, nc_newline}
use tpe.Console.NewLine.{Blank, next_line, nc_newline-Blank}

abbrev console : Console
console = record { memory = λ a. 65; current = 0xB8000 + 2 * 163 }

nc_newline-Blank_example :
    (s' : Console) × (nc_newline console ≡ some s') × Blank console 163 (next_line 163) s'
nc_newline-Blank_example = nc_newline-Blank 163 console (omega arith)
