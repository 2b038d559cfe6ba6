-- ===== src/Allocator/Initial.antt =====
-- The stack of free pages that `initialize_memory_allocator` of Kernel/memoryAllocator.c sets up.
use tpe.Base.{
  ℕ, zero, suc, ◌+◌, ◌%◌, ◌≤◌, ◌<◌, ◌≡◌, ◌⊎◌, refl, ◌∙◌, sym, ap, inl, inr, List, ltb, ◌==◌, get_or,
  set, length, arith, replicate, length-set, length-replicate, get_or-set_self, get_or-set_ne,
  Bool-cases, ltb→lt,
}
use tpe.Allocator.{stack_size, fill_pages, initialize_memory_allocator}
use tpe.Allocator.Pages.{IsValid, page}

length-fill_pages : (i n : ℕ) (pages : List ℕ) → length (fill_pages i n pages) ≡ length pages
unfolding fill_pages
length-fill_pages i zero pages = refl
length-fill_pages i (suc n) pages =
    length-fill_pages (i + 1) n (set pages i (i + 1)) ∙ length-set pages i (i + 1)

fill_pages-outside :
    (i n : ℕ) (pages : List ℕ) (j : ℕ)
    → (j < i) ⊎ (i + n ≤ j)
    → get_or (fill_pages i n pages) j 0 ≡ get_or pages j 0
unfolding fill_pages
fill_pages-outside i zero pages j h = refl
fill_pages-outside i (suc n) pages j h =
    fill_pages-outside (i + 1) n (set pages i (i + 1)) j (omega arith)
    ∙ get_or-set_ne pages i j (i + 1) 0 (omega arith)

fill_pages-inside :
    (i n : ℕ) (pages : List ℕ) (j : ℕ)
    → i + n ≤ length pages
    → i ≤ j
    → j < i + n
    → get_or (fill_pages i n pages) j 0 ≡ j + 1
unfolding fill_pages
fill_pages-inside i zero pages j room le lt = absurd (omega arith)
fill_pages-inside i (suc n) pages j room le lt = elim (Bool-cases (i == j)) [
  | inl e ↦
      let at : i ≡ j = ground arith in
      fill_pages-outside (i + 1) n (set pages i (i + 1)) j (inl (omega arith))
      ∙ ap (λ k. get_or (set pages i (i + 1)) k 0) (sym at)
      ∙ get_or-set_self pages i (i + 1) 0 (omega arith)
      ∙ ap (λ k. k + 1) at
  | inr ne ↦
      fill_pages-inside (i + 1) n (set pages i (i + 1)) j
        (omega (arith, length-set pages i (i + 1))) (ground arith) (omega arith)
]

get_or-replicate : (n i : ℕ) → get_or (replicate {A = ℕ} n 0) i 0 ≡ 0
get_or-replicate zero i = refl
get_or-replicate (suc n) zero = refl
get_or-replicate (suc n) (suc i) = get_or-replicate n i

initial_page : (i : ℕ) → i < stack_size → page initialize_memory_allocator i ≡ (i + 1) % stack_size
unfolding initialize_memory_allocator
initial_page i h = elim (Bool-cases (ltb i 254)) [
  | inl low ↦
      let lt : i < 254 = ltb→lt i 254 low in
      fill_pages-inside 0 254 (replicate 255 0) i (omega (arith, length-replicate {0}))
        (omega arith) (omega arith)
      ∙ (omega arith)
  | inr high ↦
      let last : i ≡ 254 = ground arith in
      fill_pages-outside 0 254 (replicate 255 0) i (inr (omega arith))
      ∙ get_or-replicate 255 i
      ∙ (omega arith)
]

initial_size : length initialize_memory_allocator.pages_stack ≡ stack_size
unfolding initialize_memory_allocator
initial_size = length-fill_pages 0 254 (replicate 255 0) ∙ length-replicate {A = ℕ} 255 0

-- The allocator starts out valid, with every page free. The page in place `i` is page `i + 1`,
-- but for the last place, which the loop does not reach and which holds page 0.
pub initialize_memory_allocator-IsValid :
    IsValid initialize_memory_allocator
    × (initialize_memory_allocator.current_index ≡ 0)
    × ((i : ℕ) → i < stack_size → page initialize_memory_allocator i ≡ (i + 1) % stack_size)
unfolding initialize_memory_allocator
initialize_memory_allocator-IsValid = (
  record {
    size = initial_size;
    index_in = omega arith;
    page_in = λ i h k. omega (arith, initial_page i k);
    distinct = λ i j h k l. omega (arith, initial_page i (omega arith), initial_page j l);
  },
  refl,
  initial_page,
)
