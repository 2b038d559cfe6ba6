-- ===== src/SystemCalls/Free.antt =====
-- `sys_malloc` and `sys_free` of Kernel/systemCalls.c one after the other.
use mathlib.Core.Path.{fun_ext}
use tpe.Base.{
  ℕ, zero, suc, ◌+◌, ◌-◌, ◌<◌, ◌≡◌, refl, ◌∙◌, ap, some, List, [], ◌∷◌, arith, true, ltb, set,
  get_or, sym, lt→ltb,
}
use tpe.Allocator.{Allocator, stack_size, page_address, page_of, pop_page, push_page}
use tpe.Allocator.Pages.{page}
use tpe.Process.{Process, Store, modify, max_data_pages, add_data_page, remove_data_page}
use tpe.Process.Pages.{occurrences}
use tpe.Process.GiveBack.{remove_data_page-add_data_page}
use tpe.Kernel.{Kernel, ok, unlocked, get_current_process}
use tpe.Mutex.{mutex_ops, is_open}
use tpe.Mutex.Pages.{Calm, with_allocator, get_page-Calm, store_page-some}
use tpe.SystemCalls.Pages.{of_current, sys_malloc, sys_free}

set_same : (xs : List ℕ) (i : ℕ) → set xs i (get_or xs i 0) ≡ xs
set_same [] i = refl
set_same (x ∷ xs) zero = refl
set_same (x ∷ xs) (suc i) = ap (λ l. x ∷ l) (set_same xs i)

modify_back :
    (f g : Process → Process) (c : ℕ) (s : Store)
    → g (f (s c)) ≡ s c
    → modify g c (modify f c s) ≡ s
modify_back f g c s e = fun_ext λ q. ground (arith, e)

-- The page that is popped is `x`, and no other process is in the allocator.
pub record CanTake (mem x : ℕ) (k : Kernel) : Type 0 where
  pub calm : Calm mem k
  pub index_in : k.allocator.current_index < stack_size
  pub next : page k.allocator k.allocator.current_index ≡ x
  pub number_in : x < 256

module _ (n mem x : ℕ) (k : Kernel) (t : CanTake mem x k) where
  abbrev after : Allocator
  after = record k.allocator { current_index = k.allocator.current_index + 1 }

  pops : pop_page k.allocator ≡ some (page_address x, after)
  unfolding pop_page
  pops = rw (lt→ltb _ _ t.index_in) (ap (λ y. some (page_address y, after)) t.next)

  pushes : push_page after (page_address x) ≡ some k.allocator
  unfolding push_page
  pushes =
      let number : page_of (page_address x) ≡ x = omega (arith, t.number_in) in
      let back : set k.allocator.pages_stack k.allocator.current_index x ≡ k.allocator.pages_stack =
        ap (set k.allocator.pages_stack k.allocator.current_index) (sym t.next)
        ∙ set_same k.allocator.pages_stack k.allocator.current_index in
      let index : k.allocator.current_index + 1 - 1 ≡ k.allocator.current_index = omega arith in
      let some_out : ltb 0 (k.allocator.current_index + 1) ≡ true = ground arith in
      rw (number, index, some_out, back) refl

  -- What `sys_malloc` leaves.
  abbrev pub given : Kernel
  given = of_current (add_data_page (page_address x)) (with_allocator after k)

  takes : (bytes : ℕ) → sys_malloc (mutex_ops (suc n)) bytes k ≡ ok (page_address x) given
  unfolding sys_malloc
  takes bytes = rw (get_page-Calm n mem k t.calm (page_address x) after pops) refl

  module _ (current : tpe.Process.Pages.IsValid (k.processes (get_current_process k)))
      (room : (k.processes (get_current_process k)).n_data_page < max_data_pages)
      (fresh : occurrences (page_address x) (k.processes (get_current_process k)).data_page
        ≡ 0) where
    restored : of_current (remove_data_page (page_address x)) given ≡ with_allocator after k
    restored =
        ap (λ s. record (with_allocator after k) { processes = s })
          (modify_back (add_data_page (page_address x)) (remove_data_page (page_address x))
            (get_current_process k) k.processes
            (remove_data_page-add_data_page (page_address x) (k.processes (get_current_process k))
              current (omega arith) room fresh))

    gives :
        sys_free (mutex_ops (suc n)) (page_address x) given
        ≡ ok 1 (record k { superlock = unlocked })
    unfolding sys_free is_open
    gives =
        let calm : Calm mem (with_allocator after k) = record {
          key = t.calm.key;
          is_up = ground (arith, t.calm.is_up);
          free = t.calm.free;
          no_one = t.calm.no_one;
        } in
        rw
          (
            restored,
            store_page-some n mem (with_allocator after k) calm (page_address x) k.allocator pushes,
          )
          refl

-- While no other process is in the allocator and a page of the data area is left, `sys_malloc` gives
-- the address of the page that is next, whatever the number of bytes. When the current process has
-- fewer than MAX_DATA_PAGES pages and not that one, `sys_free` of the address then returns 1 and
-- leaves all as it was, with the superlock open.
pub sys_free-sys_malloc :
    (n mem bytes x : ℕ) (k : Kernel)
    → CanTake mem x k
    → tpe.Process.Pages.IsValid (k.processes (get_current_process k))
    → (k.processes (get_current_process k)).n_data_page < max_data_pages
    → occurrences (page_address x) (k.processes (get_current_process k)).data_page ≡ 0
    → (k' : Kernel) × (sys_malloc (mutex_ops (suc n)) bytes k ≡ ok (page_address x) k')
      × (sys_free (mutex_ops (suc n)) (page_address x) k'
          ≡ ok 1 (record k { superlock = unlocked }))
sys_free-sys_malloc n mem bytes x k t v room fresh =
    (given n mem x k t, takes n mem x k t bytes, gives n mem x k t v room fresh)
