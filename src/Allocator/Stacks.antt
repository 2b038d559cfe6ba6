-- ===== src/Allocator/Stacks.antt =====
-- The stacks of the processes, of Kernel/memoryAllocator.c: where they lie, and that they are given
-- and taken back last in, first out.
use tpe.Base.{
  ℕ, zero, suc, ◌+◌, ◌-◌, ◌≤◌, ◌<◌, ◌≡◌, refl, ap, some, List, [], ◌∷◌, get_or, set, arith,
  get_or-tabulate,
}
use tpe.Allocator.{
  StackAllocator, max_processes, stack_top, stack_page_size, page_address, page_size, stack_size,
  initialize_stack_memory_allocator, pop_stack_page, push_stack_page,
}

-- The address that the `i`-th call of `get_stack_page` gives, counted from 0.
abbrev pub first_stack : ℕ → ℕ
first_stack i = get_or initialize_stack_memory_allocator.stack_pages_stack i 0

-- A stack grows down from its address over STACK_PAGE_SIZE bytes. The stacks set up for two places
-- of the table do not overlap, and none reaches down into the data pages.
pub stacks_disjoint :
    (i j page : ℕ)
    → i < j
    → j < max_processes
    → page ≤ stack_size
    → (first_stack i ≤ first_stack j - stack_page_size)
      × (page_address page + page_size ≤ first_stack i - stack_page_size)
unfolding initialize_stack_memory_allocator
stacks_disjoint i j page h k l = omega (
  arith,
  get_or-tabulate max_processes i stack_top 0 (omega arith),
  get_or-tabulate max_processes j stack_top 0 k,
)

set-get_or : (xs : List ℕ) (i d : ℕ) → set xs i (get_or xs i d) ≡ xs
set-get_or [] i d = refl
set-get_or (x ∷ xs) zero d = refl
set-get_or (x ∷ xs) (suc i) d = ap (λ l. x ∷ l) (set-get_or xs i d)

-- A stack page that `get_stack_page` gives and `store_stack_page` takes back at once leaves the
-- allocator as it was.
pub push_stack_page-pop_stack_page :
    (a a' : StackAllocator) (top : ℕ)
    → pop_stack_page a ≡ some (top, a')
    → push_stack_page a' top ≡ some a
unfolding pop_stack_page push_stack_page
push_stack_page-pop_stack_page a a' top h =
    ground (arith, set-get_or a.stack_pages_stack a.current_stack_index 0)
