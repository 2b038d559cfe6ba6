-- ===== src/Allocator/Tests.antt =====
-- The theorems on Kernel/memoryAllocator.c at the allocator as it is set up.
use tpe.Base.{ℕ, ◌<◌, ◌≤◌, ◌≡◌, ◌⊎◌, refl, some, none, [], ◌∷◌, get_or, replicate, arith}
use tpe.Allocator.{
  Allocator, stack_size, page_address, pop_page, push_page, StackAllocator, pop_stack_page,
  initialize_memory_allocator,
}
use tpe.Allocator.Pages.{IsValid, InUse, Popped, pop_page-Popped, Pushed, push_page-Pushed}
use tpe.Allocator.Initial.{initialize_memory_allocator-IsValid}

pop_page-Popped_example :
    ((initialize_memory_allocator.current_index ≡ stack_size)
      × (pop_page initialize_memory_allocator ≡ none))
    ⊎ ((x : ℕ) × (a' : Allocator) × (pop_page initialize_memory_allocator
          ≡ some (page_address x, a'))
        × Popped initialize_memory_allocator x a')
pop_page-Popped_example =
    pop_page-Popped initialize_memory_allocator initialize_memory_allocator-IsValid.0

-- Every page but page 7, which is the last free one, is in use.
abbrev nearly_out : Allocator
nearly_out = record { pages_stack = replicate 255 7; current_index = 254 }

nearly_out-IsValid : IsValid nearly_out
nearly_out-IsValid = record {
  size = refl;
  index_in = omega arith;
  page_in = λ i h k. last i h k;
  distinct = λ i j h k l. absurd (omega arith);
}
  where
    last : (i : ℕ) → 254 ≤ i → i < 255 → get_or (replicate 255 7) i 0 < 256
    last i h k = let top : 254 ≡ i = omega arith in rw (← top) (omega arith)

page_3_used : InUse nearly_out 3
page_3_used = record {
  number_in = omega arith;
  not_free = λ i h k. let top : 254 ≡ i = omega arith in rw (← top) (omega arith);
}

push_page-Pushed_example :
    (a' : Allocator) × (push_page nearly_out (page_address 3) ≡ some a') × Pushed nearly_out 3 a'
push_page-Pushed_example =
    push_page-Pushed nearly_out 3 nearly_out-IsValid page_3_used (omega arith)

abbrev stacks : StackAllocator
stacks = record { stack_pages_stack = 0x701000 ∷ 0x801000 ∷ []; current_stack_index = 1 }

popped : pop_stack_page stacks ≡ some (0x801000, record stacks { current_stack_index = 2 })
unfolding pop_stack_page
popped = refl
