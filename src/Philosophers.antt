-- ===== src/Philosophers.antt =====
-- Kernel/philo.c: the table of the dining philosophers. A function of the model is what the source
-- does while it holds `critical_m`; a wait on a condition variable ends such a section. The mutexes
-- and condition variables are those of Mutex and CondVariable: what is asked of them, and of the
-- processes, is recorded in the order of the calls. The drawing of the table is left out.
pub mod Seats
pub mod Apart
pub mod Safety
pub mod Beside
pub mod Hungry
mod Tests
use tpe.Base.{
  ℕ, zero, suc, ◌+◌, ◌-◌, ◌%◌, ◌<◌, ◌≡◌, Bool, true, false, ◌&&◌, ◌||◌, not, List, [], ◌∷◌, ◌++◌,
  ◌==◌, ltb, if◌then◌else◌,
}
use tpe.Ctype.{isspace}

pub data Mood : Type 0 where
  thinking : Mood
  hungry : Mood
  eating : Mood
  dying : Mood

abbrev pub is_hungry : Mood → Bool
is_hungry thinking = false
is_hungry hungry = true
is_hungry eating = false
is_hungry dying = false

abbrev pub is_eating : Mood → Bool
is_eating thinking = false
is_eating hungry = false
is_eating eating = true
is_eating dying = false

-- A call on the mutex or the condition variable of a philosopher, on `modify_cond_var`, or for a
-- new process.
pub data Signal : Type 0 where
  mutex_unlock : ℕ → Signal
  cond_signal : ℕ → Signal
  cond_signal_modify : Signal
  open_philosopher : ℕ → Signal
  close_philosopher : ℕ → Signal
  sys_kill : ℕ → Signal

-- `philo_array` with the moods and the marks to die, and `philosopherCount`.
pub record Table : Type 0 where
  pub mood : ℕ → Mood
  pub die : ℕ → Bool
  pub philosopher_count : ℕ
  pub signals : List Signal

abbrev pub max_philosophers : ℕ
max_philosophers = 16

-- LEFT and RIGHT.
unfoldable pub left : ℕ → ℕ → ℕ
left x n = (x + n - 1) % (if n == 0 then 1 else n)

unfoldable pub right : ℕ → ℕ → ℕ
right x n = (x + 1) % (if n == 0 then 1 else n)

abbrev pub at {ℓ} : {A : Type ℓ} → ℕ → A → (ℕ → A) → ℕ → A
at i v f j = if j == i then v else f j

abbrev pub set_state : ℕ → Mood → Table → Table
set_state i st t = record t { mood = at i st t.mood }

abbrev pub emit : Signal → Table → Table
emit s t = record t { signals = t.signals ++ (s ∷ []) }

-- The condition of `test`.
abbrev pub can_eat : ℕ → Table → Bool
can_eat i t =
    is_hungry (t.mood i)
    && not (is_eating (t.mood (left i t.philosopher_count)))
    && not (is_eating (t.mood (right i t.philosopher_count)))

unfoldable pub test : ℕ → Table → Table
test i t = if can_eat i t then emit (mutex_unlock i) (set_state i eating t) else t

-- Up to the unlock of `critical_m`; the philosopher then locks its own mutex.
unfoldable pub take_forks : ℕ → Table → Table
take_forks i t = test i (set_state i hungry t)

-- `test(x); cond_signal(philo_array[x].cond_die);`
abbrev pub offer : ℕ → Table → Table
offer x t = emit (cond_signal x) (test x t)

unfoldable pub put_forks : ℕ → Table → Table
put_forks i t =
    let n = t.philosopher_count in offer (right i n) (offer (left i n) (set_state i thinking t))

-- The test of the loop in `should_die`: the philosopher has to wait.
unfoldable pub must_wait : ℕ → Table → Bool
must_wait i t =
    is_eating (t.mood (left i t.philosopher_count))
    && is_eating (t.mood (right i t.philosopher_count))

-- What follows the loop.
abbrev pub leave : ℕ → Table → Table
leave i t = emit cond_signal_modify (
    emit (close_philosopher i)
      (record t { die = at i false t.die; philosopher_count = t.philosopher_count - 1 }))

-- `should_die` from its start to its first wait or its end.
unfoldable pub should_die : ℕ → Table → Table
should_die i t =
    if t.die i
    then (let marked = set_state i dying t in if must_wait i marked then marked else leave i marked)
    else t

-- From a wake up in the loop to the next wait or the end.
unfoldable pub wake_dying : ℕ → Table → Table
wake_dying i t = if must_wait i t then t else leave i t

unfoldable pub add_philosopher : Table → Table
add_philosopher t =
    let index = t.philosopher_count in
    if ltb index max_philosophers
    then emit (open_philosopher index) (record t {
      mood = at index thinking t.mood;
      die = at index false t.die;
      philosopher_count = index + 1;
    })
    else t

-- Up to the wait.
unfoldable pub remove_philosopher : Table → Table
remove_philosopher t =
    if ltb 0 t.philosopher_count
    then record t { die = at (t.philosopher_count - 1) true t.die }
    else t

-- The loop of `remove_all_philosophers`, `n` philosophers from `i` on.
unfoldable pub remove_loop : ℕ → ℕ → Table → Table
remove_loop zero i t = t
remove_loop (suc n) i t = remove_loop n (i + 1) (emit (close_philosopher i) (emit (sys_kill i) t))

unfoldable pub remove_all_philosophers : Table → Table
remove_all_philosophers t = remove_loop t.philosopher_count 0 t

-- What a character typed does: `slow_die` removes the philosophers one after the other.
pub data Command : Type 0 where
  nothing : Command
  show_commands : Command
  end_at_once : Command
  add : Command
  remove : Command
  toggle_pause : Command
  slow_die : Command
  invalid : Command

-- The body of the loop of `listen_commands`, with `is_paused()`.
unfoldable pub listen_command : Bool → ℕ → Command
listen_command paused c =
    if isspace c
    then nothing
    else if c == b'h'
    then show_commands
    else if c == b'e'
    then (if not paused then end_at_once else nothing)
    else if c == b'w'
    then (if not paused then add else nothing)
    else if c == b's'
    then (if not paused then remove else nothing)
    else if c == b'p'
    then toggle_pause
    else if c == b'q'
    then (if not paused then slow_die else nothing)
    else invalid
