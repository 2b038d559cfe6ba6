-- ===== src/Timer.antt =====
-- Kernel/timer.c: the list of sleeping processes. A node is the page that holds it, by its address;
-- NULL is 0. The functions of the other components that are called here, `get_page`, `store_page`,
-- `get_current_process`, `assign_quantum`, `block_process`, `unblock_process` and `yield_process`, are
-- those of Mutex, Scheduler and Process. The pages stored, the processes unblocked, and the calls by
-- which a process goes to sleep are recorded, each in their order; what `get_page` and
-- `get_current_process` give is an argument.
pub mod Sleeping
pub mod Round
pub mod Handler
pub mod Sleep
mod Tests
use tpe.Links.{at_field}
use tpe.Base.{
  ℕ, zero, suc, ◌+◌, ◌-◌, ◌/◌, ◌%◌, ◌^◌, Option, none, some, List, [], ◌∷◌, ◌++◌, ◌==◌,
  if◌then◌else◌,
}

-- The calls by which `sleep` stops the process.
pub data Pause : Type 0 where
  assign_quantum : Pause
  block_process : ℕ → Pause
  yield_process : Pause

-- `sleeping_processes`, the fields of the nodes, the processes unblocked, the calls of `sleep`, and the
-- pages stored.
pub record Sleepers : Type 0 where
  pub sleeping_processes : ℕ
  pub ticks : ℕ → ℕ
  pub next : ℕ → ℕ
  pub process : ℕ → ℕ
  pub unblocked : List ℕ
  pub pauses : List Pause
  pub stored : List ℕ

-- `current->ticks -= 1`
abbrev pub count_down : ℕ → Sleepers → Sleepers
count_down current s = record s {
  ticks = at_field current ((s.ticks current + 2 ^ 64 - 1) % 2 ^ 64) s.ticks;
}

-- The link in front of the node `current` goes to the node behind it.
abbrev pub unlink_node : ℕ → ℕ → Sleepers → Sleepers
unlink_node prev current s =
    if prev == 0
    then record s { sleeping_processes = s.next current }
    else record s { next = at_field prev (s.next current) s.next }

-- The body of the `if`.
abbrev pub wake : ℕ → ℕ → Sleepers → Sleepers
wake prev current s =
    let u = unlink_node prev current s in
    record u {
      unblocked = u.unblocked ++ (u.process current ∷ []);
      stored = u.stored ++ (current ∷ []);
    }

-- The loop with at most `n` rounds; `none` is a loop that has not ended.
unfoldable pub handler_loop : ℕ → ℕ → ℕ → Sleepers → Option Sleepers
handler_loop zero current prev s = if current == 0 then some s else none
handler_loop (suc n) current prev s =
    let t = count_down current s in
    let woken = handler_loop n (t.next current) prev (wake prev current t) in
    let kept = handler_loop n (t.next current) current t in
    if current == 0 then some s else if t.ticks current == 0 then woken else kept

unfoldable pub timer_handler : ℕ → Sleepers → Option Sleepers
timer_handler n s = handler_loop n s.sleeping_processes 0 s

-- The new node in the page `page` for the current process `p`, in front of the list.
unfoldable pub create_sleep_process : ℕ → ℕ → ℕ → Sleepers → Sleepers
create_sleep_process page p ticks s = record s {
  ticks = at_field page ticks s.ticks;
  process = at_field page p s.process;
}

unfoldable pub add_sleep_process : ℕ → Sleepers → Sleepers
add_sleep_process node s = record s {
  next = at_field node s.sleeping_processes s.next;
  sleeping_processes = node;
}

abbrev pub pause : Pause → Sleepers → Sleepers
pause c s = record s { pauses = s.pauses ++ (c ∷ []) }

-- `page` is what `get_page` gives, no NULL, and `p` the current process. What other processes do between
-- the yield and the return is no part of it.
unfoldable pub sleep : ℕ → ℕ → ℕ → Sleepers → ℕ × Sleepers
sleep milliseconds page p s =
    let wait_ticks = milliseconds / 55 in
    let a = pause assign_quantum s in
    let t = add_sleep_process page (create_sleep_process page p wait_ticks a) in
    if wait_ticks == 0
    then (0, s)
    else (1, pause yield_process (pause (block_process (t.process page)) t))
