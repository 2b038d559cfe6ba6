-- ===== src/Commands.antt =====
-- Kernel/commands.c: the table of the shell's commands, its look-up, and what the commands do with
-- their arguments before they start something. A program that is started is named, not run.
pub mod Lookup
pub mod Number
mod Tests
use tpe.Base.{
  ℕ, ◌-◌, ◌*◌, ◌^◌, Bool, true, false, ◌&&◌, ◌||◌, not, Option, none, some, List, [], ◌∷◌, ◌++◌,
  ◌==◌, ltb, if◌then◌else◌, ◌>>=◌, codes, replicate,
}
use tpe.Base.Int.{ℤ, pos, negsuc, is_positive}
use tpe.Strings.{strcmp, front}
use tpe.Mutex.Open.{is_zero}
use tpe.Ctype.{isdigit}
use tpe.Numbers.{atoi}
use tpe.Stdio.{print_number}

-- The functions that the table holds.
pub data Program : Type 0 where
  help get_time clear echo test philosophers_problem_text producer_consumer write_test : Program
  read_test test_fifos kill_command print_process ps print_ipcs shell : Program

-- `commands`
unfoldable pub commands : List (List ℕ × Program)
commands =
    (codes "help", help)
    ∷ (codes "time", get_time)
    ∷ (codes "clear", clear)
    ∷ (codes "echo", echo)
    ∷ (codes "test", test)
    ∷ (codes "philo", philosophers_problem_text)
    ∷ (codes "prodcon", producer_consumer)
    ∷ (codes "write", write_test)
    ∷ (codes "read", read_test)
    ∷ (codes "test2", test_fifos)
    ∷ (codes "kill", kill_command)
    ∷ (codes "print", print_process)
    ∷ (codes "ps", ps)
    ∷ (codes "ipcs", print_ipcs)
    ∷ (codes "shell", shell)
    ∷ []

-- A call of `execp`, and whether `sys_set_foreground` is called with the pid that it returns.
pub record Launch : Type 0 where
  pub function : Program
  pub args : List ℕ
  pub name : List ℕ
  pub foreground : Bool

-- VALID, UNSUPPORTED and INVALID_ARGS.
pub data Validity : Type 0 where
  valid unsupported invalid_args : Validity

-- The loop of `execute` over the table's rest, with the value of `valid` so far. It goes on behind a
-- name that is found.
unfoldable pub execute_loop :
    List (List ℕ × Program) → List ℕ → List ℕ → Bool → Validity → List Launch × Validity
execute_loop [] name args foreground v = ([], v)
execute_loop ((command_name, function) ∷ table) name args foreground v =
    let launch : Launch = record {
      function = function;
      args = args;
      name = name;
      foreground = foreground;
    } in
    let found = execute_loop table name args foreground valid in
    let other = execute_loop table name args foreground v in
    if is_zero (strcmp name command_name) then (launch ∷ found.0, found.1) else other

unfoldable pub execute : List ℕ → List ℕ → Bool → List Launch × Validity
execute name args foreground = execute_loop commands name args foreground unsupported

-- The loop of `isnum`: only digits up to the end or a space.
unfoldable pub digits_only : List ℕ → Bool
digits_only [] = true
digits_only (c ∷ str) =
    let rest = digits_only str in if c == b' ' then true else if isdigit c then rest else false

-- `str[1]`, for a string that is not empty.
abbrev pub second : List ℕ → ℕ
second [] = 0
second (c ∷ str) = front str

abbrev pub behind_sign : List ℕ → List ℕ
behind_sign [] = []
behind_sign (c ∷ str) = if c == b'-' then str else (c ∷ str)

unfoldable pub isnum : List ℕ → Bool
isnum str =
    if not (isdigit (front str)) && not (front str == b'-')
    then false
    else if (front str == b'-') && not (isdigit (second str))
    then false
    else digits_only (behind_sign str)

-- What `philosophersProblem` and `producerConsumer` start with which number.
pub data Start : Type 0 where
  started : ℕ → Start
  refused : Start

abbrev pub at_least_one : ℤ → Start
at_least_one (pos n) = if n == 0 then refused else started n
at_least_one (negsuc n) = refused

-- The number of the first argument, or the default; `none` is a load through `argv[0]`, which is NULL
-- when there is no argument, or a number out of range.
unfoldable pub first_number : ℕ → List (List ℕ) → Option ℤ
first_number by_default [] = none
first_number by_default (a ∷ argv) = if isnum a then atoi a else some (pos by_default)

abbrev pub default_philosophers : ℕ
default_philosophers = 5

abbrev pub default_prodcon_buffer : ℕ
default_prodcon_buffer = 50

unfoldable pub philosophers_problem : List (List ℕ) → Option Start
philosophers_problem argv = first_number default_philosophers argv >>= λ p. some (at_least_one p)

unfoldable pub start_producer_consumer : List (List ℕ) → Option Start
start_producer_consumer argv =
    first_number default_prodcon_buffer argv >>= λ b. some (at_least_one b)

-- `kill_command` up to its output, over `sys_kill` with its result: the pid is an `int` that is
-- extended to 64 bits.
abbrev pub extended : ℤ → ℕ
extended (pos n) = n
extended (negsuc n) = 2 ^ 64 - 1 - n

unfoldable pub run_kill_command : (ℕ → Bool) → List (List ℕ) → Option (Validity × Option ℕ)
run_kill_command sys_kill [] = none
run_kill_command sys_kill (a ∷ argv) = atoi a >>= λ pid. some (
    if is_zero pid
    then (invalid_args, none)
    else ((if sys_kill (extended pid) then valid else invalid_args), some (extended pid)))

-- `printWithTimeFormat`; the number is printed as an `int`.
unfoldable pub print_with_time_format : ℕ → Option (List ℕ)
print_with_time_format n =
    print_number (pos n) 10 >>= λ str. some (if ltb n 10 then b'0' ∷ str else str)

-- What the command `time` prints.
unfoldable pub time_text : (h m s : ℕ) → Option (List ℕ)
time_text h m s = print_with_time_format h >>= λ hours. print_with_time_format m >>= λ minutes.
    print_with_time_format s >>= λ seconds. some (
      codes "Current time: "
      ++ (hours ++ (codes ":" ++ (minutes ++ (codes ":" ++ (seconds ++ codes "\n"))))))

-- What `echo` prints.
unfoldable pub echo_text : List (List ℕ) → List ℕ
echo_text [] = codes "\n"
echo_text (a ∷ argv) = a ++ (b' ' ∷ echo_text argv)

-- What `clear` prints on a screen of `rows` lines.
unfoldable pub clear_text : ℕ → List ℕ
clear_text rows = replicate (2 * rows) b'\n' ++ (b'\r' ∷ [])
