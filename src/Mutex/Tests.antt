-- ===== src/Mutex/Tests.antt =====
-- The theorems on mutexes at a kernel with two of them, and runs.
use tpe.Base.{ℕ, ◌≡◌, refl, true, [], ◌∷◌, some, List, arith, ◌==◌, if◌then◌else◌}
use tpe.Base.Int.{pos, negsuc}
use tpe.Allocator.{Allocator, pop_page}
use tpe.Process.{Process, Status, Store, block_process, is_delete_process}
use tpe.Kernel.{
  give_time, locked, unlocked, open_state, closed_state, Queue, Mutex, Kernel, ok, yielded,
  out_of_fuel,
}
use tpe.Mutex.{is_open, mutex_lock, mutex_unlock}
use tpe.Mutex.Pages.{Calm}
use tpe.Mutex.Wait.{with_waiter, mutex_lock-held}
use tpe.Mutex.Contended.{Held, mutex_lock-endless}
use tpe.Strings.Compare.{IsString}
use tpe.Mutex.Open.{mutex_open, mutex_close}
use tpe.Mutex.Names.{opened, mutex_open-twice, mutex_open-duplicate, FirstClosed}
use tpe.Mutex.Close.{Closed, mutex_close-Closed}
use tpe.Mutex.Drain.{awake}
use tpe.Mutex.HandOver.{HandedOver, mutex_unlock-HandedOver}

abbrev process_in : Status → ℕ → Process
process_in st pid = record {
  st = st;
  name = [];
  entry_point = 0;
  rsp = 0;
  stack_page = 0;
  n_data_page = 0;
  data_page = [];
  pid = pid;
  ppid = 0;
  open_fds = [];
}

-- The process at 0x700 is marked for deletion, that at 0x800 waits.
abbrev store : Store
store p =
    if p == 0x700
    then process_in Status.delete 7
    else if p == 0x800
    then process_in Status.blocked 8
    else process_in Status.ready 9

abbrev mutex_with : ℕ → Queue → Mutex
mutex_with lock queue = record {
  name = [];
  lock = lock;
  state = open_state;
  process_queue = queue;
  queue_page = 0x510000;
}

-- Mutex 0 is the allocator's; mutex 1 is held, and 0x700 and 0x800 wait for it.
abbrev mutexes : ℕ → Mutex
mutexes key =
    if key == 0
    then mutex_with unlocked []
    else mutex_with locked ((0x501000, 0x700) ∷ (0x502000, 0x800) ∷ [])

abbrev pages : Allocator
pages = record { pages_stack = 1 ∷ 2 ∷ 3 ∷ 4 ∷ []; current_index = 2 }

abbrev kernel : Kernel
kernel = record {
  superlock = unlocked;
  current = 0x520000;
  prev = 0x520000;
  nodes = λ q. record { quantum = pos 1; p = 0x900; next = 0x520000 };
  process_table = λ pid. 0;
  foreground = 0;
  n_processes = 0;
  table_mutex_key = negsuc 0;
  stack_allocator = record { stack_pages_stack = []; current_stack_index = 0 };
  stack_memory_mutex_key = negsuc 0;
  processes = store;
  open_mutexes = mutexes;
  array_mutex = unlocked;
  allocator = pages;
  memory_mutex_key = pos 0;
  open_conds = λ key. record {
    name = [];
    state = open_state;
    lock_queue = pos 3;
    process_queue = (0x501000, 0x800) ∷ (0x502000, 0xA00) ∷ [];
    queue_page = 0x511000;
  };
  array_lock = pos 4;
}

kernel-Calm : Calm 0 kernel
unfolding is_open
kernel-Calm = record { key = refl; is_up = refl; free = refl; no_one = refl }

mutex_one_open : is_open (pos 1) kernel ≡ true
unfolding is_open
mutex_one_open = refl

page_left : pop_page pages ≡ some (0x503000, record pages { current_index = 3 })
unfolding pop_page
page_left = refl

mutex_unlock-HandedOver_example :
    (k' : Kernel) × (mutex_unlock 2 (pos 1) kernel ≡ ok (pos 1) k')
    × HandedOver kernel 1
        (awake store (mutexes 1).process_queue).0
        (awake store (mutexes 1).process_queue).1
        k'
mutex_unlock-HandedOver_example =
    mutex_unlock-HandedOver 0 0 1 kernel mutex_one_open (omega arith) kernel-Calm

-- The process marked for deletion is passed over.
next_in_line : awake store (mutexes 1).process_queue ≡ (0x800, [])
unfolding awake is_delete_process
next_in_line = refl

mutex_lock-held_example :
    mutex_lock 2 (pos 1) kernel
    ≡ yielded (
        give_time
          (record (with_waiter 1 0x503000 0x900
            (record pages { current_index = 3 })
            (record kernel {
              superlock = locked;
              open_mutexes = tpe.Kernel.at_key (λ m. record m { lock = locked }) 1 mutexes;
            })) { processes = block_process 0x900 store }))
mutex_lock-held_example =
    mutex_lock-held 0 0 1 0x503000 (record pages { current_index = 3 }) kernel mutex_one_open refl
      (omega arith) kernel-Calm page_left

closed-Calm : Calm 0 (record kernel { superlock = locked })
unfolding is_open
closed-Calm = record { key = refl; is_up = refl; free = refl; no_one = refl }

-- The allocator's mutex is held.
abbrev busy : Kernel
busy = record kernel { open_mutexes = λ key. mutex_with locked [] }

busy-Held : Held 0 busy
unfolding is_open
busy-Held = record { key = refl; is_up = refl; held = refl }

mutex_lock-endless_example : mutex_lock 40 (pos 0) busy ≡ out_of_fuel
mutex_lock-endless_example = mutex_lock-endless 40 0 busy busy-Held

abbrev ab : List ℕ
ab = 97 ∷ 98 ∷ []

-- Mutex 1 is closed, and mutex 2 is called "ab".
abbrev gap : Kernel
gap = record kernel {
  open_mutexes = λ key.
      if key == 0 then mutex_with unlocked [] else record (mutex_with unlocked []) {
        name = ab;
        state = if key == 2 then open_state else closed_state;
      };
}

gap-Calm : Calm 0 gap
unfolding is_open
gap-Calm = record { key = refl; is_up = refl; free = refl; no_one = refl }

gap-FirstClosed : FirstClosed ab 1 gap
gap-FirstClosed = record {
  inside = omega arith;
  down = omega arith;
  up_before = λ j h. ground arith;
  string_before = λ j h. ground arith;
  other_before = λ j h. ground arith;
}

ab-IsString : IsString ab
ab-IsString = (omega arith, omega arith, (omega arith, omega arith, tt))

abbrev page_gone : Allocator
page_gone = record pages { current_index = 3 }

mutex_open-twice_example :
    (mutex_open 1 ab gap ≡ ok (pos 1) (opened ab 1 0x503000 page_gone gap))
    × (mutex_open 1 ab (opened ab 1 0x503000 page_gone gap)
        ≡ ok (pos 1) (opened ab 1 0x503000 page_gone gap))
mutex_open-twice_example =
    mutex_open-twice 0 0 1 0x503000 page_gone ab gap gap-Calm refl ab-IsString (omega arith)
      page_left gap-FirstClosed

mutex_open-duplicate_example :
    (k' : Kernel) × (mutex_open 1 ab gap ≡ ok (pos 1) k')
    × (is_open (pos 1) k' ≡ true)
    × (is_open (pos 2) k' ≡ true)
    × ((k'.open_mutexes 1).name ≡ (k'.open_mutexes 2).name)
mutex_open-duplicate_example =
    mutex_open-duplicate 0 0 1 2 0x503000 page_gone gap gap-Calm refl (omega arith) (omega arith)
      refl ab-IsString (omega arith) page_left gap-FirstClosed

mutex_close-Closed_example :
    (k' : Kernel) × (mutex_close 1 (pos 1) kernel ≡ ok (pos 1) k') × Closed kernel 1 k'
mutex_close-Closed_example =
    mutex_close-Closed 0 0 1 kernel refl mutex_one_open (omega arith) kernel-Calm
