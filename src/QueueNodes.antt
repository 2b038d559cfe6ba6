-- ===== src/QueueNodes.antt =====
-- Kernel/queueADT.c with its nodes in memory. A node or a queue is the page that holds it, by its
-- address, and NULL is 0; `page` is what `get_page` gives, and the pages that `store_page` takes back
-- are recorded. Mutex and CondVariable use the list of elements that such a queue stands for.
pub mod Held
pub mod Operations
mod Tests
use tpe.Links.{at_field}
use tpe.Base.{
  ℕ, zero, suc, ◌+◌, Bool, ◌||◌, not, Option, none, some, List, [], ◌∷◌, ◌++◌, ◌==◌, if◌then◌else◌,
}

-- The fields of `struct node` and `struct queue`.
pub record Heap : Type 0 where
  pub elem : ℕ → ℕ
  pub next : ℕ → ℕ
  pub first : ℕ → ℕ
  pub last : ℕ → ℕ
  pub stored : List ℕ

-- The queue, or NULL without a page.
unfoldable pub create_queue : ℕ → Heap → ℕ × Heap
create_queue page h =
    if page == 0
    then (0, h)
    else (page, record h { first = at_field page 0 h.first; last = at_field page 0 h.last })

unfoldable pub is_empty : ℕ → Heap → Bool
is_empty q h = (q == 0) || (h.first q == 0)

-- `new_node` with its fields.
abbrev pub new_node : ℕ → ℕ → Heap → Heap
new_node page x h = record h { elem = at_field page x h.elem; next = at_field page 0 h.next }

-- The two branches on `q->first`.
abbrev pub link_last : ℕ → ℕ → Heap → Heap
link_last q page h =
    if h.first q == 0
    then record h { first = at_field q page h.first; last = at_field q page h.last }
    else record h { next = at_field (h.last q) page h.next; last = at_field q page h.last }

unfoldable pub enqueue : ℕ → ℕ → ℕ → Heap → Heap
enqueue q x page h = if q == 0 then h else link_last q page (new_node page x h)

unfoldable pub peek : ℕ → Heap → ℕ
peek q h = if is_empty q h then 0 else h.elem (h.first q)

-- `if (q->first == NULL) q->last = NULL;`
abbrev pub clear_last : ℕ → Heap → Heap
clear_last q h = if h.first q == 0 then record h { last = at_field q 0 h.last } else h

abbrev pub unlink_first : ℕ → Heap → Heap
unlink_first q h =
    let u = clear_last q (record h { first = at_field q (h.next (h.first q)) h.first }) in
    record u { stored = u.stored ++ (h.first q ∷ []) }

unfoldable pub dequeue : ℕ → Heap → ℕ × Heap
dequeue q h = if is_empty q h then (0, h) else (h.elem (h.first q), unlink_first q h)

-- The loop of `destroy_queue` with at most `n` rounds; `none` is a loop that has not ended.
unfoldable pub destroy_loop : ℕ → ℕ → Heap → Option Heap
destroy_loop zero q h = if is_empty q h then some h else none
destroy_loop (suc n) q h =
    let rest = destroy_loop n q (dequeue q h).1 in if not (is_empty q h) then rest else some h

abbrev pub store_queue : ℕ → Option Heap → Option Heap
store_queue q none = none
store_queue q (some h) = some (record h { stored = h.stored ++ (q ∷ []) })

unfoldable pub destroy_queue : ℕ → ℕ → Heap → Option Heap
destroy_queue n q h = store_queue q (destroy_loop n q h)
