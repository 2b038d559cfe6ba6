-- ===== src/Mutex/Names.antt =====
-- `mutex_open` of Kernel/kernelMutex.c: which mutex a name gives.
use tpe.Base.{
  ℕ, zero, suc, ◌+◌, ◌^◌, ◌≤◌, ◌<◌, ◌≡◌, ◌≢◌, refl, sym, ap, ◌==◌, ltb, ◌&&◌, inl, inr, true, false,
  List, [], length, arith, Bool-cases, some, lt→ltb,
}
use tpe.Base.Int.{pos}
use tpe.Strings.{strcmp}
use tpe.Strings.Compare.{IsString, strcmp_zero_iff}
use tpe.Allocator.{Allocator, pop_page}
use tpe.Kernel.{locked, unlocked, open_state, Mutex, Kernel, ok, at_key, set_mutex}
use tpe.Mutex.{max_mutexes, is_open, mutex_ops}
use tpe.Mutex.Pages.{Calm, get_page-Calm}
use tpe.Mutex.Open.{
  mutex_name_len, is_zero, is_zero_eq, lock_array, unlock_array, named, unused, search,
  create_new_mutex, open_at, open_body, mutex_open,
}

strcmp_same : (s : List ℕ) → IsString s → length s < 2 ^ 31 → is_zero (strcmp s s) ≡ true
strcmp_same s h l = ap is_zero ((strcmp_zero_iff s s h h l).1 refl)

named_not_unused : {j key : ℕ} → named j ≡ unused key → ⊥
named_not_unused e = cc

search_unused :
    (name : List ℕ) (n i key : ℕ) (k : Kernel)
    → search name n i k ≡ unused key
    → (is_open (pos key) k ≡ false) × (i ≤ key) × (key < i + n)
unfolding search
search_unused name zero i key k e = cc
search_unused name (suc n) i key k e = elim (Bool-cases (is_open (pos i) k)) [
  | inl up ↦ elim (Bool-cases (is_zero (strcmp name (k.open_mutexes i).name))) [
    | inl same ↦ cc
    | inr other ↦ ground (arith, search_unused name n (i + 1) key k)
  ]
  | inr down ↦ ground arith
]

-- `key` is the first closed mutex, and none of those in front of it, which are open, has the name.
pub record FirstClosed (name : List ℕ) (key : ℕ) (k : Kernel) : Type 0 where
  pub inside : key < max_mutexes
  pub down : (k.open_mutexes key).state ≢ open_state
  pub up_before : (j : ℕ) → j < key → (k.open_mutexes j).state ≡ open_state
  pub string_before : (j : ℕ) → j < key → IsString (k.open_mutexes j).name
  pub other_before : (j : ℕ) → j < key → (k.open_mutexes j).name ≢ name

strcmp_other :
    (s t : List ℕ)
    → IsString s
    → IsString t
    → length s < 2 ^ 31
    → t ≢ s
    → is_zero (strcmp s t) ≡ false
strcmp_other s t hs ht l ne = elim (Bool-cases (is_zero (strcmp s t))) [
  | inl same ↦ absurd (ne (sym ((strcmp_zero_iff s t hs ht l).0 (is_zero_eq (strcmp s t) same))))
  | inr other ↦ other
]

search-FirstClosed :
    (name : List ℕ) (key : ℕ) (k : Kernel)
    → IsString name
    → length name < mutex_name_len
    → FirstClosed name key k
    → (n i : ℕ) → i ≤ key
    → key < i + n
    → i + n ≤ max_mutexes
    → search name n i k ≡ unused key
unfolding search is_open
search-FirstClosed name key k hs l f zero i from to room = absurd (omega arith)
search-FirstClosed name key k hs l f (suc n) i from to room = elim (Bool-cases (i == key)) [
  | inl here ↦
      let at : i ≡ key = ground arith in
      let shut : (ltb i max_mutexes && ((k.open_mutexes i).state == open_state)) ≡ false =
        rw at (ground (arith, f.down)) in
      rw shut (ap unused at)
  | inr later ↦
      let before : i < key = ground arith in
      let up : (ltb i max_mutexes && ((k.open_mutexes i).state == open_state)) ≡ true =
        ground (arith, f.up_before i before) in
      let other : is_zero (strcmp name (k.open_mutexes i).name) ≡ false =
        strcmp_other name (k.open_mutexes i).name hs (f.string_before i before) (omega arith)
          (f.other_before i before) in
      rw (up, other)
        (search-FirstClosed name key k hs l f n (i + 1) (omega arith) (omega arith) (omega arith))
]

-- A new mutex of the name, in the page `q`.
abbrev pub fresh : List ℕ → ℕ → Mutex
fresh name q = record {
  name = name;
  lock = unlocked;
  state = open_state;
  process_queue = [];
  queue_page = q;
}

-- The kernel after `mutex_open` made a mutex at `key`; `a` is the stack of free pages without the
-- page of its queue.
abbrev pub opened : List ℕ → ℕ → ℕ → Allocator → Kernel → Kernel
opened name key q a k = record k {
  superlock = unlocked;
  array_mutex = unlocked;
  allocator = a;
  open_mutexes = at_key (λ _. fresh name q) key k.open_mutexes;
}

search-opened :
    (name : List ℕ) (n i key q : ℕ) (a : Allocator) (k : Kernel)
    → IsString name
    → length name < mutex_name_len
    → i + n ≤ max_mutexes
    → search name n i k ≡ unused key
    → search name n i (opened name key q a k) ≡ named key
unfolding search is_open
search-opened name zero i key q a k s l b e = cc
search-opened name (suc n) i key q a k s l b e = ground (
  arith,
  search_unused name (suc n) i key k e,
  strcmp_same name s (omega arith),
  search-opened name n (i + 1) key q a k s l,
)

abbrev closed_array : Kernel → Kernel
closed_array k = record k { array_mutex = locked }

search-closed_array :
    (name : List ℕ) (n i : ℕ) (k : Kernel) → search name n i (closed_array k) ≡ search name n i k
unfolding search is_open
search-closed_array name zero i k = refl
search-closed_array name (suc n) i k = ground (arith, search-closed_array name n (i + 1) k)

closed_array-Calm : (mem : ℕ) (k : Kernel) → Calm mem k → Calm mem (closed_array k)
unfolding is_open
closed_array-Calm mem k calm = record {
  key = calm.key;
  is_up = calm.is_up;
  free = calm.free;
  no_one = calm.no_one;
}

open_at-unused :
    (n mem key page : ℕ) (a : Allocator) (name : List ℕ) (k : Kernel)
    → Calm mem k
    → length name < mutex_name_len
    → pop_page k.allocator ≡ some (page, a)
    → open_at (mutex_ops (suc n)) name (unused key) (closed_array k)
      ≡ ok (pos key) (opened name key page a k)
unfolding open_at create_new_mutex set_mutex unlock_array
open_at-unused n mem key page a name k calm fits left = rw (
  lt→ltb (length name) mutex_name_len fits,
  get_page-Calm n mem (closed_array k) (closed_array-Calm mem k calm) page a left,
)

open_body-unused :
    (n mem key page : ℕ) (a : Allocator) (name : List ℕ) (k : Kernel)
    → Calm mem k
    → k.array_mutex ≡ unlocked
    → length name < mutex_name_len
    → pop_page k.allocator ≡ some (page, a)
    → search name max_mutexes 0 k ≡ unused key
    → mutex_open (suc n) name k ≡ ok (pos key) (opened name key page a k)
unfolding mutex_open open_body lock_array
open_body-unused n mem key page a name k calm up fits left stop = rw (
  up,
  search-closed_array name max_mutexes 0 k,
  stop,
  open_at-unused n mem key page a name k calm fits left,
)

open_body-named :
    (n key : ℕ) (name : List ℕ) (k : Kernel)
    → k.array_mutex ≡ unlocked
    → search name max_mutexes 0 k ≡ named key
    → mutex_open (suc n) name k ≡ ok (pos key) (record k { array_mutex = unlocked })
unfolding mutex_open open_body lock_array open_at unlock_array
open_body-named n key name k up stop = rw (up, search-closed_array name max_mutexes 0 k, stop)

-- When `key` is the first closed mutex, and no mutex in front of it has the name, `mutex_open` makes a free mutex of that
-- name there, with an empty queue, changes no other mutex, and gives its key; opening the name again gives
-- the same key and changes nothing. This is so while the array and the allocator are free, a page is left,
-- the names are strings of ASCII characters, and the name fits its array.
pub mutex_open-twice :
    (n mem key page : ℕ) (a : Allocator) (name : List ℕ) (k : Kernel)
    → Calm mem k
    → k.array_mutex ≡ unlocked
    → IsString name
    → length name < mutex_name_len
    → pop_page k.allocator ≡ some (page, a)
    → FirstClosed name key k
    → (mutex_open (suc n) name k ≡ ok (pos key) (opened name key page a k))
      × (mutex_open (suc n) name (opened name key page a k)
          ≡ ok (pos key) (opened name key page a k))
mutex_open-twice n mem key page a name k calm up s fits left first =
    let stop =
      search-FirstClosed name key k s fits first max_mutexes 0 (omega arith)
        (omega (arith, first.inside)) (omega arith) in
    (
      open_body-unused n mem key page a name k calm up fits left stop,
      open_body-named n key name (opened name key page a k) refl
          (search-opened name max_mutexes 0 key page a k s fits (omega arith) stop),
    )

-- When `key` is the first closed mutex, no mutex in front of it has the name of the mutex `old`, and `old`
-- is an open mutex behind it, `mutex_open` of that name does not find `old`: it makes a second open mutex
-- of the same name at `key`. This is so while the array and the allocator are free, a page is left, the
-- names are strings of ASCII characters, and the name fits its array.
pub mutex_open-duplicate :
    (n mem key old page : ℕ) (a : Allocator) (k : Kernel)
    → Calm mem k
    → k.array_mutex ≡ unlocked
    → key < old
    → old < max_mutexes
    → (k.open_mutexes old).state ≡ open_state
    → IsString (k.open_mutexes old).name
    → length (k.open_mutexes old).name < mutex_name_len
    → pop_page k.allocator ≡ some (page, a)
    → FirstClosed (k.open_mutexes old).name key k
    → (k' : Kernel) × (mutex_open (suc n) (k.open_mutexes old).name k ≡ ok (pos key) k')
      × (is_open (pos key) k' ≡ true)
      × (is_open (pos old) k' ≡ true)
      × ((k'.open_mutexes key).name ≡ (k'.open_mutexes old).name)
unfolding is_open
mutex_open-duplicate n mem key old page a k calm up behind inside there s fits left first =
    let stop =
      search-FirstClosed (k.open_mutexes old).name key k s fits first max_mutexes 0 (omega arith)
        (omega (arith, first.inside)) (omega arith) in
    (
      opened (k.open_mutexes old).name key page a k,
      open_body-unused n mem key page a (k.open_mutexes old).name k calm up fits left stop,
      ground (arith, lt→ltb key max_mutexes first.inside),
      ground (arith, lt→ltb old max_mutexes inside),
      ground arith,
    )
