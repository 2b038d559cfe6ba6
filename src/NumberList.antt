-- ===== src/NumberList.antt =====
-- Kernel/intLinkedlistADT.c with its nodes in memory. A list is the page of its first node, by its
-- address, or NULL, which is 0; `page` is what `get_page` gives, and the pages that `store_page` takes
-- back are recorded.
pub mod Removed
use tpe.Base.{ℕ, zero, suc, Option, none, some, List, [], ◌∷◌, ◌++◌, ◌==◌, if◌then◌else◌, ◌>>=◌}
use tpe.Links.{at_field}

-- The fields of `node`. The numbers are bit patterns.
pub record Cells : Type 0 where
  pub elem : ℕ → ℕ
  pub next : ℕ → ℕ
  pub stored : List ℕ

abbrev pub create_list : ℕ
create_list = 0

unfoldable pub insert_int : ℕ → ℕ → ℕ → Cells → ℕ × Cells
insert_int first num page s =
    (page, record s { elem = at_field page num s.elem; next = at_field page first s.next })

-- `l->next = r; return l;`
abbrev pub relink : ℕ → ℕ × Cells → ℕ × Cells
relink l r = (l, record (r.1) { next = at_field l (r.0) (r.1).next })

-- `none` is a recursion deeper than `n`.
unfoldable pub remove_int_rec : ℕ → ℕ → ℕ → Cells → Option (ℕ × Cells)
remove_int_rec zero num l s = none
remove_int_rec (suc n) num l s =
    let rest = remove_int_rec n num (s.next l) s in
    if l == 0
    then some (l, s)
    else if s.elem l == num
    then some (s.next l, record s { stored = s.stored ++ (l ∷ []) })
    else rest >>= λ r. some (relink l r)

unfoldable pub remove_int : ℕ → ℕ → ℕ → Cells → Option (ℕ × Cells)
remove_int n first num s = remove_int_rec n num first s

-- The loop with at most `n` rounds; `none` is a loop that has not ended.
unfoldable pub destroy_int_list : ℕ → ℕ → Cells → Option Cells
destroy_int_list zero l s = if l == 0 then some s else none
destroy_int_list (suc n) l s =
    let rest = destroy_int_list n (s.next l) (record s { stored = s.stored ++ (l ∷ []) }) in
    if l == 0 then some s else rest
