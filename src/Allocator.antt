-- ===== src/Allocator.antt =====
-- Kernel/memoryAllocator.c: the stacks of free pages, as they are worked between the lock and the
-- unlock of their mutexes. The calls with their locks are in Mutex and ProcessTable.
pub mod Initial
pub mod Pages
pub mod Stacks
mod Tests
use tpe.Base.{
  ℕ, zero, suc, ◌+◌, ◌-◌, ◌*◌, ◌/◌, ◌%◌, ◌^◌, Option, none, some, List, ltb, if◌then◌else◌, get_or,
  set, replicate, tabulate, ◌++◌, [], ◌∷◌,
}

-- STACK_SIZE is the largest `page_index_t`, a `uint8_t`.
abbrev pub stack_size : ℕ
stack_size = 255

abbrev pub page_size : ℕ
page_size = 0x1000

abbrev pub data_address : ℕ
data_address = 0x500000

abbrev pub memory_pages_end : ℕ
memory_pages_end = (stack_size + 1) * page_size + data_address

-- `pages_stack` and `current_index`: the entries from the index on are the free pages.
pub record Allocator : Type 0 where
  pub pages_stack : List ℕ
  pub current_index : ℕ

-- The loop of `initialize_memory_allocator`, at round `i` with `n` rounds left.
fill_pages : ℕ → ℕ → List ℕ → List ℕ
fill_pages i zero pages = pages
fill_pages i (suc n) pages = fill_pages (i + 1) n (set pages i (i + 1))

-- The statics are zero when `initialize_memory_allocator` runs.
pub initialize_memory_allocator : Allocator
initialize_memory_allocator = record {
  pages_stack = fill_pages 0 (stack_size - 1) (replicate stack_size 0);
  current_index = 0;
}

abbrev pub page_address : ℕ → ℕ
page_address page = page * page_size + data_address

-- The guarded part of `get_page`: the address popped, or `none` when no page is left.
unfoldable pub pop_page : Allocator → Option (ℕ × Allocator)
pop_page a =
    if ltb a.current_index stack_size
    then some (
      page_address (get_or a.pages_stack a.current_index 0),
      record a { current_index = a.current_index + 1 },
    )
    else none

-- `(address - DATA_ADDRESS) / PAGE_SIZE` over `uint64_t`, stored in a `page_index_t`.
abbrev pub page_of : ℕ → ℕ
page_of address = (address + 2 ^ 64 - data_address) % 2 ^ 64 / page_size % 256

-- The guarded part of `store_page`.
unfoldable pub push_page : Allocator → ℕ → Option Allocator
push_page a address =
    if ltb 0 a.current_index
    then some (record {
      pages_stack = set a.pages_stack (a.current_index - 1) (page_of address);
      current_index = a.current_index - 1;
    })
    else none

abbrev pub stack_page_size : ℕ
stack_page_size = 0x100000

abbrev pub max_processes : ℕ
max_processes = 128

abbrev pub stack_address : ℕ
stack_address = memory_pages_end + page_size

-- `stack_pages_stack` and `current_stack_index`.
pub record StackAllocator : Type 0 where
  pub stack_pages_stack : List ℕ
  pub current_stack_index : ℕ

abbrev pub stack_top : ℕ → ℕ
stack_top i = (i + 1) * stack_page_size + stack_address

-- The loop of `initialize_stack_memory_allocator` sets every entry.
pub initialize_stack_memory_allocator : StackAllocator
initialize_stack_memory_allocator = record {
  stack_pages_stack = tabulate max_processes stack_top;
  current_stack_index = 0;
}

-- The guarded part of `get_stack_page`.
unfoldable pub pop_stack_page : StackAllocator → Option (ℕ × StackAllocator)
pop_stack_page a =
    if ltb a.current_stack_index max_processes
    then some (
      get_or a.stack_pages_stack a.current_stack_index 0,
      record a { current_stack_index = a.current_stack_index + 1 },
    )
    else none

-- The guarded part of `store_stack_page`.
pub push_stack_page : StackAllocator → ℕ → Option StackAllocator
push_stack_page a address =
    if ltb 0 a.current_stack_index
    then some (record {
      stack_pages_stack = set a.stack_pages_stack (a.current_stack_index - 1) address;
      current_stack_index = a.current_stack_index - 1;
    })
    else none
