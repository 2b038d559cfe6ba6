-- ===== src/ProcessTable/Insert.antt =====
-- `insert_process` of Kernel/process.c and the look up of what it enters.
use mathlib.Core.Path.{fun_ext}
use tpe.Base.{
  ℕ, zero, suc, ◌+◌, ◌%◌, ◌^◌, ◌≤◌, ◌<◌, ◌≡◌, ◌≢◌, refl, ◌∙◌, ap, inl, inr, true, false, ◌&&◌, none,
  some, [], ◌==◌, ltb, if◌then◌else◌, arith, Bool-cases,
}
use tpe.Base.Int.{pos, negsuc}
use tpe.Allocator.{max_processes}
use tpe.Process.{modify, is_delete_process}
use tpe.Kernel.{locked, unlocked, Mutex, Kernel, ok, at_key}
use tpe.Mutex.{is_open, mutex_ops, mutex_lock, mutex_unlock}
use tpe.Mutex.Lock.{with_lock, mutex_lock-free, mutex_unlock-empty}
use tpe.ProcessTable.{
  free_entry, get_process_by_pid, lock_table, unlock_table, insert_at, insert_process,
}

-- The mutex of the table is open, free and awaited by no one.
pub record TableCalm (key : ℕ) (k : Kernel) : Type 0 where
  pub is_key : k.table_mutex_key ≡ pos key
  pub is_up : is_open (pos key) k ≡ true
  pub free : (k.open_mutexes key).lock ≡ unlocked
  pub no_one : (k.open_mutexes key).process_queue ≡ []

-- The entry that is free, when those in front of it are taken, is the one found.
free_entry-first :
    (n i j : ℕ) (table : ℕ → ℕ)
    → i ≤ j
    → j < i + n
    → table j ≡ 0
    → ((q : ℕ) → i ≤ q → q < j → table q ≢ 0)
    → free_entry n i table ≡ some j
unfolding free_entry
free_entry-first zero i j table from to empty before = absurd (omega arith)
free_entry-first (suc n) i j table from to empty before = elim (Bool-cases (i == j)) [
  | inl here ↦ let at : i ≡ j = ground arith in rw (at, empty) refl
  | inr later ↦
      let taken : (table i == 0) ≡ false = ground (arith, before i) in
      rw taken (
        free_entry-first n (i + 1) j table (ground arith) (omega arith) empty
          (λ q le lt. before q (omega arith) lt))
]

-- The kernel with `p` entered at `i`.
abbrev pub entered : ℕ → ℕ → Kernel → Kernel
entered p i k = record k {
  superlock = unlocked;
  n_processes = (k.n_processes + 1) % 2 ^ 64;
  processes = modify (λ q. record q { pid = i }) p k.processes;
  process_table = λ j. if j == i then p else k.process_table j;
}

mutexes_back :
    (ms : ℕ → Mutex) (key : ℕ)
    → (ms key).lock ≡ unlocked
    → at_key
        (λ m. record m { lock = unlocked })
        key
        (at_key (λ m. record m { lock = locked }) key ms)
      ≡ ms
mutexes_back ms key e = fun_ext λ j. ground arith

module _ (n key : ℕ) (k : Kernel) (calm : TableCalm key k) where
  table_taken : lock_table (mutex_ops (suc n)) k ≡ ok (pos 1) (with_lock locked key k)
  unfolding lock_table mutex_lock
  table_taken =
      ap (λ key. mutex_lock (suc n) key k) calm.is_key
      ∙ mutex_lock-free n key k calm.is_up calm.free

  -- Any state in which the mutexes are those of the taken table.
  table_given :
      (k' : Kernel)
      → k'.table_mutex_key ≡ pos key
      → k'.open_mutexes ≡ (with_lock locked key k).open_mutexes
      → unlock_table (mutex_ops (suc n)) k'
        ≡ ok (pos 1) (record k' { superlock = unlocked; open_mutexes = k.open_mutexes })
  unfolding unlock_table mutex_unlock is_open
  table_given k' is_key same =
      ap (λ key. mutex_unlock (suc n) key k') is_key
      ∙ mutex_unlock-empty n key k'
          (ap (λ ms. ltb key 128 && ((ms key).state == 1)) same ∙ ground (arith, calm.is_up))
          (ap (λ ms. (ms key).process_queue) same ∙ ground (arith, calm.no_one))
      ∙ ap (λ ms. ok (pos 1) (record k' { superlock = unlocked; open_mutexes = ms }))
          (ap (λ ms. at_key (λ m. record m { lock = unlocked }) key ms) same
            ∙ mutexes_back k.open_mutexes key calm.free)

  insert_process-some :
      (p i : ℕ)
      → free_entry max_processes 0 k.process_table ≡ some i
      → insert_process (mutex_ops (suc n)) p k ≡ ok (pos i) (entered p i k)
  unfolding insert_process insert_at
  insert_process-some p i e = rw (
    table_taken,
    e,
    table_given
        (record (with_lock locked key k) {
          n_processes = (k.n_processes + 1) % 2 ^ 64;
          processes = modify (λ q. record q { pid = i }) p k.processes;
          process_table = λ j. if j == i then p else k.process_table j;
        })
        calm.is_key refl,
  )

  -- With no free entry `insert_process` gives -1, and no entry and no process changes, while the
  -- mutex of the table is free and awaited by no one.
  pub insert_process-none :
      (p : ℕ)
      → free_entry max_processes 0 k.process_table ≡ none
      → insert_process (mutex_ops (suc n)) p k ≡ ok (negsuc 0) (record k { superlock = unlocked })
  unfolding insert_process insert_at
  insert_process-none p e =
      rw (table_taken, e, table_given (with_lock locked key k) calm.is_key refl)

-- `insert_process` of a process that is not NULL nor to be deleted, while the mutex of the table is
-- free and awaited by no one and `i` is a pid of the table whose entry is NULL, with no NULL in front of
-- it: the process is entered under that first free
-- pid, which becomes its pid, and is counted; the pid then leads to the process, and every other
-- pid to the entry it led to.
pub insert_process-entered :
    (n key p i : ℕ) (k : Kernel)
    → TableCalm key k
    → i < max_processes
    → k.process_table i ≡ 0
    → ((q : ℕ) → q < i → k.process_table q ≢ 0)
    → 0 < p
    → is_delete_process p k.processes ≡ false
    → (insert_process (mutex_ops (suc n)) p k ≡ ok (pos i) (entered p i k))
      × (get_process_by_pid i (entered p i k) ≡ p)
      × ((j : ℕ) → j ≢ i → (entered p i k).process_table j ≡ k.process_table j)
unfolding get_process_by_pid is_delete_process
insert_process-entered n key p i k calm inside empty before some_p alive =
    let found =
      free_entry-first max_processes 0 i k.process_table (omega arith) (omega arith) empty
        (λ q le lt. before q lt) in
    (insert_process-some n key k calm p i found, ground arith, λ j off. ground arith)
