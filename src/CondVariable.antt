-- ===== src/CondVariable.antt =====
-- Kernel/condVariable.c: condition variables, over the mutex operations at depth `n` (see Mutex).
pub mod Signal
mod Tests
use tpe.Base.{
  ℕ, zero, suc, ◌+◌, Bool, true, false, ◌&&◌, Option, none, some, List, [], ◌∷◌, ◌++◌, ◌==◌, ltb,
  if◌then◌else◌, length,
}
use tpe.Base.Int.{ℤ, pos, negsuc}
use tpe.Strings.{strcmp}
use tpe.Numbers.{itoa}
use tpe.Process.{block_process, unblock_process, nonnull}
use tpe.Kernel.{
  open_state, closed_state, not_open_error, Queue, CondVariable, Kernel, Result, ok, yielded,
  out_of_fuel, fault, M, pure, ◌>>=◌, ◌>>◌, get, update, get_current_process, give_time,
}
use tpe.Mutex.{Ops, get_page, store_page, mutex_ops, mutex_lock, mutex_unlock, index}
use tpe.Mutex.Open.{is_zero, Slot, named, unused, full, is_empty, mutex_open, mutex_close}

abbrev pub max_cond_var : ℕ
max_cond_var = 128

abbrev pub max_cond_open_error : ℤ
max_cond_open_error = negsuc 1

abbrev pub cond_name_len : ℕ
cond_name_len = 64

-- "__COND_ARRAY_LOCK__"
abbrev pub cond_lock_identifier : List ℕ
cond_lock_identifier =
    95 ∷ 95 ∷ 67 ∷ 79 ∷ 78 ∷ 68 ∷ 95 ∷ 65 ∷ 82 ∷ 82 ∷ 65 ∷ 89 ∷ 95 ∷ 76 ∷ 79 ∷ 67 ∷ 75 ∷ 95 ∷ 95
    ∷ []

unfoldable pub cond_is_open : ℤ → Kernel → Bool
cond_is_open (pos key) k = ltb key max_cond_var && ((k.open_conds key).state == open_state)
cond_is_open (negsuc n) k = false

-- A write to `open_conds[key]`.
abbrev pub at_cond : (CondVariable → CondVariable) → ℕ → Kernel → Kernel
at_cond f key k = record k {
  open_conds = λ j. if j == key then f (k.open_conds j) else k.open_conds j;
}

-- The loop of `cond_open` at `i` with `n` rounds left.
unfoldable pub cond_search : List ℕ → ℕ → ℕ → Kernel → Slot
cond_search name zero i k = full
cond_search name (suc n) i k =
    let rest = cond_search name n (i + 1) k in
    if (k.open_conds i).state == open_state
    then if is_zero (strcmp (k.open_conds i).name name) then named i else rest
    else unused i

module _ (n : ℕ) where
  unfoldable pub initialize_conditional_variable : M ℤ
  initialize_conditional_variable = do
    key ← mutex_open n cond_lock_identifier
    update (λ k. record k { array_lock = key })
    pure (pos 1)

  -- `create_new_cond` with the name of the lock made by `itoa`; a name that does not fit is copied
  -- out of its array.
  unfoldable pub create_cond_named : Option (List ℕ × ℕ) → ℕ → List ℕ → M (Unit {0})
  create_cond_named none key name = λ _. fault
  create_cond_named (some (aux, digits)) key name = do
    lock ← mutex_open n (aux ++ cond_lock_identifier)
    update (at_cond (λ c. record c { lock_queue = lock }) key)
    if ltb (length name) cond_name_len
        then (do
          update (at_cond (λ c. record c { name = name; state = open_state }) key)
          q ← get_page (mutex_ops n)
          update (at_cond (λ c. record c { process_queue = []; queue_page = q }) key))
        else λ _. fault

  unfoldable pub cond_open_at : List ℕ → Slot → M ℤ
  cond_open_at name (named i) = do k ← get; mutex_unlock n k.array_lock; pure (pos i)
  cond_open_at name (unused i) = do
    create_cond_named (itoa (pos i) 10) i name
    k ← get
    mutex_unlock n k.array_lock
    pure (pos i)
  cond_open_at name full = do k ← get; mutex_unlock n k.array_lock; pure max_cond_open_error

  unfoldable pub cond_open : List ℕ → M ℤ
  cond_open name = do
    k ← get
    mutex_lock n k.array_lock
    k ← get
    cond_open_at name (cond_search name max_cond_var 0 k)

  unfoldable pub sync_enqueue : ℕ → ℕ → M (Unit {0})
  sync_enqueue key p = do
    k ← get
    mutex_lock n (k.open_conds key).lock_queue
    new_node ← get_page (mutex_ops n)
    update (at_cond (λ c. record c { process_queue = c.process_queue ++ ((new_node, p) ∷ []) }) key)
    k ← get
    mutex_unlock n (k.open_conds key).lock_queue
    pure tt

  -- `dequeue` of the queue of a condition variable.
  unfoldable pub cond_unlink : ℕ → Queue → M ℕ
  cond_unlink key [] = pure 0
  cond_unlink key ((node, p) ∷ rest) = do
    update (at_cond (λ c. record c { process_queue = rest }) key)
    store_page (mutex_ops n) node
    pure p

  unfoldable pub sync_dequeue : ℕ → M ℕ
  sync_dequeue key = do
    k ← get
    mutex_lock n (k.open_conds key).lock_queue
    k ← get
    p ← cond_unlink key (k.open_conds key).process_queue
    k ← get
    mutex_unlock n (k.open_conds key).lock_queue
    pure p

  -- `cond_wait` up to the yield.
  unfoldable pub cond_wait_until_yield : ℕ → ℤ → M ℤ
  cond_wait_until_yield key lock_key = do
    k ← get
    let p = get_current_process k
    mutex_unlock n lock_key
    sync_enqueue key p
    update (λ k. record k { processes = block_process p k.processes })
    (λ k. yielded (give_time k))

  unfoldable pub cond_wait : ℤ → ℤ → M ℤ
  cond_wait cond_key lock_key = do
    k ← get
    if cond_is_open cond_key k
        then cond_wait_until_yield (index cond_key) lock_key
        else pure not_open_error

  unfoldable pub cond_signal_open : ℕ → M ℤ
  cond_signal_open key = do
    p ← sync_dequeue key
    if nonnull p
        then update (λ k. record k { processes = unblock_process p k.processes })
        else pure tt
    pure (pos 1)

  unfoldable pub cond_signal : ℤ → M ℤ
  cond_signal key = do
    k ← get
    if cond_is_open key k then cond_signal_open (index key) else pure not_open_error

  -- The loop of `cond_broadcast` with at most `rounds` rounds.
  unfoldable pub wake_waiting : ℕ → ℕ → M (Unit {0})
  wake_waiting key zero = λ _. out_of_fuel
  wake_waiting key (suc rounds) =
      let rest = wake_waiting key rounds in
      do
        k ← get
        if is_empty (k.open_conds key).process_queue then pure tt else (do
          p ← cond_unlink key (k.open_conds key).process_queue
          update (λ k. record k { processes = unblock_process p k.processes })
          rest)

  unfoldable pub cond_broadcast_open : ℕ → M ℤ
  cond_broadcast_open key = do
    k ← get
    mutex_lock n (k.open_conds key).lock_queue
    k ← get
    wake_waiting key (suc (length (k.open_conds key).process_queue))
    k ← get
    mutex_unlock n (k.open_conds key).lock_queue
    pure (pos 1)

  unfoldable pub cond_broadcast : ℤ → M ℤ
  cond_broadcast key = do
    k ← get
    if cond_is_open key k then cond_broadcast_open (index key) else pure not_open_error

  -- The queue is empty when it is destroyed.
  unfoldable pub cond_close : ℤ → M ℤ
  cond_close key = do
    k ← get
    if cond_is_open key k
        then (do
          cond_broadcast key
          k ← get
          store_page (mutex_ops n) (k.open_conds (index key)).queue_page
          k ← get
          mutex_close n (k.open_conds (index key)).lock_queue
          update (at_cond (λ c. record c { state = closed_state }) (index key))
          pure (pos 1))
        else pure not_open_error
