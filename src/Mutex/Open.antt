-- ===== src/Mutex/Open.antt =====
-- Kernel/kernelMutex.c: opening and closing mutexes, and the list of the open ones.
use tpe.Base.{
  ℕ, zero, suc, ◌+◌, ◌≡◌, arith, Bool, true, false, List, [], ◌∷◌, ◌==◌, ltb, if◌then◌else◌, length,
}
use tpe.Base.Int.{ℤ, pos, negsuc}
use tpe.Strings.{strcmp}
use tpe.Process.{unblock_process}
use tpe.Kernel.{
  give_time, locked, unlocked, open_state, closed_state, not_open_error, Queue, Mutex, Kernel, ok,
  yielded, out_of_fuel, fault, M, pure, ◌>>=◌, ◌>>◌, get, update, set_mutex,
}
use tpe.Mutex.{max_mutexes, is_open, index, Ops, get_page, store_page, dequeue_process, mutex_ops}

abbrev pub max_mutex_open_error : ℤ
max_mutex_open_error = negsuc 1

abbrev pub mutex_name_len : ℕ
mutex_name_len = 64

-- `while (!_unlocked(&array_mutex)) yield_process();`
unfoldable pub lock_array : M (Unit {0})
lock_array k =
    if k.array_mutex == locked
    then yielded (give_time (record k { array_mutex = locked }))
    else ok tt (record k { array_mutex = locked })

unfoldable pub unlock_array : M (Unit {0})
unlock_array = update (λ k. record k { array_mutex = unlocked })

abbrev pub is_zero : ℤ → Bool
is_zero (pos n) = n == 0
is_zero (negsuc n) = false

pub is_zero_eq : (z : ℤ) → is_zero z ≡ true → z ≡ pos 0
is_zero_eq (pos n) h = ground (arith, h)
is_zero_eq (negsuc n) h = cc

-- What the loop of `mutex_open` stops at: a mutex of that name, a closed one, or the array's end.
pub data Slot : Type 0 where
  named : ℕ → Slot
  unused : ℕ → Slot
  full : Slot

-- The loop at `k` with `n` rounds left.
unfoldable pub search : List ℕ → ℕ → ℕ → Kernel → Slot
search name zero k s = full
search name (suc n) k s =
    let rest = search name n (k + 1) s in
    if is_open (pos k) s
    then if is_zero (strcmp name (s.open_mutexes k).name) then named k else rest
    else unused k

-- `is_empty` of Kernel/queueADT.c.
abbrev pub is_empty : Queue → Bool
is_empty [] = true
is_empty (q ∷ queue) = false

module _ (ops : Ops) where
  -- `create_new_mutex`; a name that does not fit is copied out of its array.
  unfoldable pub create_new_mutex : List ℕ → M Mutex
  create_new_mutex name =
      if ltb (length name) mutex_name_len
      then (do
        q ← get_page ops
        pure (record {
          name = name;
          lock = unlocked;
          state = open_state;
          process_queue = [];
          queue_page = q;
        }))
      else λ _. fault

  -- The rest of `mutex_open` after its loop.
  unfoldable pub open_at : List ℕ → Slot → M ℤ
  open_at name (named k) = do unlock_array; pure (pos k)
  open_at name (unused k) = do
    m ← create_new_mutex name
    set_mutex k (λ _. m)
    unlock_array
    pure (pos k)
  open_at name full = do unlock_array; pure max_mutex_open_error

  unfoldable pub open_body : List ℕ → M ℤ
  open_body name = do lock_array; s ← get; open_at name (search name max_mutexes 0 s)

  -- `while (!is_empty(m->process_queue)) unblock_process(dequeue_process(m));`
  unfoldable pub release_all : ℕ → ℕ → M (Unit {0})
  release_all key zero = λ _. out_of_fuel
  release_all key (suc n) =
      let rest = release_all key n in
      do
        k ← get
        if is_empty (k.open_mutexes key).process_queue then pure tt else (do
          p ← dequeue_process ops key
          update (λ k. record k { processes = unblock_process p k.processes })
          rest)

  -- The guarded part of `mutex_close`; the queue is empty when it is destroyed.
  unfoldable pub close_open : ℕ → M ℤ
  close_open key = do
    k ← get
    release_all key (suc (length (k.open_mutexes key).process_queue))
    set_mutex key (λ m. record m { state = closed_state })
    k ← get
    store_page ops (k.open_mutexes key).queue_page
    unlock_array
    pure (pos 1)

  unfoldable pub close_body : ℤ → M ℤ
  close_body key = do
    lock_array
    k ← get
    if is_open key k then close_open (index key) else (do unlock_array; pure not_open_error)

unfoldable pub mutex_open : ℕ → List ℕ → M ℤ
mutex_open n name = open_body (mutex_ops n) name

unfoldable pub mutex_close : ℕ → ℤ → M ℤ
mutex_close n key = close_body (mutex_ops n) key

-- `mutex_info`
pub record MutexInfo : Type 0 where
  pub name : List ℕ
  pub lock : ℕ
  pub key : ℕ

-- `fill_mutex_info`
abbrev pub fill_mutex_info : Kernel → ℕ → MutexInfo
fill_mutex_info k key = record {
  name = (k.open_mutexes key).name;
  lock = (k.open_mutexes key).lock;
  key = key;
}

-- The loop of `get_mutexes_info` at `i` with `n` rounds left.
unfoldable pub info_loop : ℕ → ℕ → Kernel → List MutexInfo
info_loop zero i k = []
info_loop (suc n) i k =
    let rest = info_loop n (i + 1) k in
    if is_open (pos i) k then (fill_mutex_info k i ∷ rest) else rest

unfoldable pub get_mutexes_info : M (List MutexInfo)
get_mutexes_info = do lock_array; k ← get; unlock_array; pure (info_loop max_mutexes 0 k)
