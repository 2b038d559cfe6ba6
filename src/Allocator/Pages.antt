-- ===== src/Allocator/Pages.antt =====
-- The data pages of Kernel/memoryAllocator.c: no page is handed out while it is in use.
use tpe.Base.{
  ℕ, ◌+◌, ◌-◌, ◌≤◌, ◌<◌, ◌≡◌, ◌⊎◌, ◌≢◌, refl, ◌∙◌, sym, ap, inl, inr, none, some, ltb, ◌==◌, get_or,
  set, length, arith, length-set, get_or-set_self, get_or-set_ne, Bool-cases, ltb→lt, lt→ltb,
}
use tpe.Allocator.{Allocator, stack_size, page_address, page_of, pop_page, push_page}

-- The page at place `i` of the stack.
abbrev pub page : Allocator → ℕ → ℕ
page a i = get_or a.pages_stack i 0

-- The stack has its size, and the free pages are pages of the data area, all different.
pub record IsValid (a : Allocator) : Type 0 where
  pub size : length a.pages_stack ≡ stack_size
  pub index_in : a.current_index ≤ stack_size
  pub page_in : (i : ℕ) → a.current_index ≤ i → i < stack_size → page a i < 256
  pub distinct : (i j : ℕ) → a.current_index ≤ i → i < j → j < stack_size → page a i ≢ page a j

-- The page number `x` is not on the stack of free pages.
pub record InUse (a : Allocator) (x : ℕ) : Type 0 where
  pub number_in : x < 256
  pub not_free : (i : ℕ) → a.current_index ≤ i → i < stack_size → page a i ≢ x

page_of-page_address : (x : ℕ) → x < 256 → page_of (page_address x) ≡ x
page_of-page_address x h = omega arith

-- What `get_page` takes from the stack: a page of the data area that was free and is in use
-- afterwards; every page in use before stays so.
pub record Popped (a : Allocator) (x : ℕ) (a' : Allocator) : Type 0 where
  pub valid : IsValid a'
  pub number_in : x < 256
  pub now_used : InUse a' x
  pub was_free : (y : ℕ) → InUse a y → y ≢ x
  pub keeps : (y : ℕ) → InUse a y → InUse a' y

-- While a page is left, the pop of `get_page` succeeds and gives the address of a free page that no
-- other holder has; with none left it gives nothing.
pub pop_page-Popped :
    (a : Allocator)
    → IsValid a
    → ((a.current_index ≡ stack_size) × (pop_page a ≡ none))
      ⊎ ((x : ℕ) × (a' : Allocator) × (pop_page a ≡ some (page_address x, a')) × Popped a x a')
unfolding pop_page
pop_page-Popped a v = elim (Bool-cases (ltb a.current_index stack_size)) [
  | inl lt ↦ inr (
    page a a.current_index,
    record a { current_index = a.current_index + 1 },
    rw lt,
    popped (ltb→lt _ _ lt),
  )
  | inr ge ↦ inl (ground arith, rw ge)
]
  where
    popped :
        a.current_index < stack_size
        → Popped a (page a a.current_index) (record a { current_index = a.current_index + 1 })
    popped lt = record {
      valid = record {
        size = v.size;
        index_in = omega arith;
        page_in = λ i h k. v.page_in i (omega arith) k;
        distinct = λ i j h k l. v.distinct i j (omega arith) k l;
      };
      number_in = v.page_in a.current_index (omega arith) lt;
      now_used = record {
        number_in = v.page_in a.current_index (omega arith) lt;
        not_free = λ i h k e. v.distinct a.current_index i (omega arith) (omega arith) k (sym e);
      };
      was_free = λ y u e. u.not_free a.current_index (omega arith) lt (sym e);
      keeps = λ y u. record {
        number_in = u.number_in;
        not_free = λ i h k. u.not_free i (omega arith) k;
      };
    }

-- Giving a page back: it is free again, all else stays as it was.
pub record Pushed (a : Allocator) (x : ℕ) (a' : Allocator) : Type 0 where
  pub valid : IsValid a'
  pub top : page a' a'.current_index ≡ x
  pub index : a.current_index ≡ a'.current_index + 1
  pub keeps : (y : ℕ) → y ≢ x → InUse a y → InUse a' y

-- The push of `store_page`, for the address of a page in use and with some page handed out,
-- succeeds, and the page is the next to be handed out.
pub push_page-Pushed :
    (a : Allocator) (x : ℕ)
    → IsValid a
    → InUse a x
    → 0 < a.current_index
    → (a' : Allocator) × (push_page a (page_address x) ≡ some a') × Pushed a x a'
unfolding push_page
push_page-Pushed a x v used some_out = (
  after,
  rw (lt→ltb 0 a.current_index some_out)
      (ap (λ p. some (with_top p)) (page_of-page_address x used.number_in)),
  record {
    valid = record {
      size = length-set a.pages_stack (a.current_index - 1) x ∙ v.size;
      index_in = omega (arith, v.index_in);
      page_in = λ i h k. elim (Bool-cases (i == (a.current_index - 1))) [
        | inl e ↦ rw (at_top i (ground arith)) used.number_in
        | inr ne ↦ rw (elsewhere i (ground arith)) (v.page_in i (ground arith) k)
      ];
      distinct = λ i j h k l. elim (Bool-cases (i == (a.current_index - 1))) [
        | inl e ↦
            rw (at_top i (ground arith), elsewhere j (ground arith))
              (λ p. used.not_free j (ground arith) l (sym p))
        | inr ne ↦
            rw (elsewhere i (ground arith), elsewhere j (ground arith))
              (v.distinct i j (ground arith) k l)
      ];
    };
    top = at_top (a.current_index - 1) refl;
    index = omega arith;
    keeps = λ y ne u. record {
      number_in = u.number_in;
      not_free = λ i h k. elim (Bool-cases (i == (a.current_index - 1))) [
        | inl e ↦ rw (at_top i (ground arith)) (λ p. ne (sym p))
        | inr off ↦ rw (elsewhere i (ground arith)) (u.not_free i (ground arith) k)
      ];
    };
  },
)
  where
    with_top : ℕ → Allocator
    with_top p = record {
      pages_stack = set a.pages_stack (a.current_index - 1) p;
      current_index = a.current_index - 1;
    }

    after : Allocator
    after = with_top x

    at_top : (i : ℕ) → i ≡ a.current_index - 1 → page after i ≡ x
    at_top i e =
        ap (λ k. page after k) e
        ∙ get_or-set_self a.pages_stack (a.current_index - 1) x 0
            (omega (arith, v.size, v.index_in))

    elsewhere : (i : ℕ) → a.current_index - 1 ≢ i → page after i ≡ page a i
    elsewhere i ne = get_or-set_ne a.pages_stack (a.current_index - 1) i x 0 ne
