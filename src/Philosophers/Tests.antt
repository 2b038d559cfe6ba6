-- ===== src/Philosophers/Tests.antt =====
-- The theorems on Kernel/philo.c at a table of two, and the philosopher whom an addition leaves hungry.
use tpe.Base.{◌≡◌, refl, false, [], ◌==◌, if◌then◌else◌, arith}
use tpe.Philosophers.{
  thinking, hungry, eating, Table, left, right, test, take_forks, put_forks, add_philosopher,
}
use tpe.Philosophers.Safety.{takes, adds, Reachable, start, step, Safe, Reachable-Safe}
use tpe.Philosophers.Beside.{beside, Waits}
use tpe.Philosophers.Hungry.{Waits-kept}

abbrev empty_table : Table
empty_table = record { mood = λ i. thinking; die = λ i. false; philosopher_count = 0; signals = [] }

one_seated : Table
one_seated = add_philosopher empty_table

two_seated : Table
two_seated = add_philosopher one_seated

one_eats : Table
one_eats = take_forks 0 two_seated

two_seated-Reachable : Reachable two_seated
unfolding two_seated one_seated add_philosopher
two_seated-Reachable =
    step one_seated two_seated
      (step empty_table one_seated (start empty_table refl) (adds empty_table (λ i h. refl)))
      (adds one_seated (λ i h. ground arith))

Reachable-Safe_example : Safe one_eats
unfolding one_eats two_seated one_seated add_philosopher
Reachable-Safe_example =
    Reachable-Safe one_eats
      (step two_seated one_eats two_seated-Reachable (takes two_seated 0 (omega arith) refl))

Waits-kept_example : Waits one_eats.philosopher_count one_eats.mood
unfolding one_eats two_seated one_seated add_philosopher take_forks test left right
Waits-kept_example =
    Waits-kept two_seated one_eats two_seated-Reachable (takes two_seated 0 (omega arith) refl)
      (omega arith) (λ j lt hung. absurd (ground (arith, hung)))

-- Three sit: 0 is hungry and 2 eats.
abbrev hungry_beside : Table
hungry_beside = record {
  mood = λ i. if i == 0 then hungry else if i == 2 then eating else thinking;
  die = λ i. false;
  philosopher_count = 3;
  signals = [];
}

-- With a fourth seat 2 is no neighbour of 0, and the end of its meal leaves 0 hungry between two who
-- think.
added_away : (put_forks 2 (add_philosopher hungry_beside)).mood 0 ≡ hungry
unfolding put_forks add_philosopher test left right
added_away = refl

stays_alone : beside 0 4 (put_forks 2 (add_philosopher hungry_beside)).mood ≡ false
unfolding put_forks add_philosopher test left right
stays_alone = refl
