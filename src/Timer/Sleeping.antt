-- ===== src/Timer/Sleeping.antt =====
-- What the list of Kernel/timer.c holds: the nodes in their order, those that a tick keeps and the
-- processes that it wakes.
use tpe.Base.{ℕ, ◌-◌, ◌<◌, ◌≡◌, refl, sym, ◌∙◌, ap, ap₂, List, [], ◌∷◌, ◌^◌, ◌==◌, if◌then◌else◌}
use mathlib.Core.Path.{subst}
use tpe.Timer.{Sleepers}
use tpe.Links.{at_field, NotIn, field_other}

-- A sleeping process has a tick left.
abbrev pub Asleep : (ℕ → ℕ) → List ℕ → Type 0
Asleep ticks [] = Unit {0}
Asleep ticks (a ∷ nodes) = (0 < ticks a) × (ticks a < 2 ^ 64) × Asleep ticks nodes

-- The nodes with more than one tick left.
abbrev pub kept : (ℕ → ℕ) → List ℕ → List ℕ
kept ticks [] = []
kept ticks (a ∷ nodes) = let rest = kept ticks nodes in if ticks a == 1 then rest else a ∷ rest

-- The nodes with their last tick.
abbrev pub due : (ℕ → ℕ) → List ℕ → List ℕ
due ticks [] = []
due ticks (a ∷ nodes) = let rest = due ticks nodes in if ticks a == 1 then a ∷ rest else rest

-- Every node has a tick less.
abbrev pub Counted : (ℕ → ℕ) → (ℕ → ℕ) → List ℕ → Type 0
Counted ticks ticks' [] = Unit {0}
Counted ticks ticks' (a ∷ nodes) = (ticks' a ≡ ticks a - 1) × Counted ticks ticks' nodes

-- The link from a node, or from the variable when there is none.
abbrev pub link : Sleepers → ℕ → ℕ
link s node = if node == 0 then s.sleeping_processes else s.next node

-- A field of another node makes no difference.
module _ (b v : ℕ) (f : ℕ → ℕ) where
  pub Asleep-at_field :
      (nodes : List ℕ) → NotIn b nodes → Asleep f nodes → Asleep (at_field b v f) nodes
  Asleep-at_field [] out s = tt
  Asleep-at_field (a ∷ nodes) out s =
      let same = field_other b v f a out.0 in
      let rest = Asleep-at_field nodes out.1 s.2 in
      (subst (λ x. 0 < x) (sym same) s.0, subst (λ x. x < 2 ^ 64) (sym same) s.1, rest)

  pub kept-at_field : (nodes : List ℕ) → NotIn b nodes → kept (at_field b v f) nodes ≡ kept f nodes
  kept-at_field [] out = refl
  kept-at_field (a ∷ nodes) out =
      ap₂ (λ x l. if x == 1 then l else a ∷ l) (field_other b v f a out.0)
        (kept-at_field nodes out.1)

  pub due-at_field : (nodes : List ℕ) → NotIn b nodes → due (at_field b v f) nodes ≡ due f nodes
  due-at_field [] out = refl
  due-at_field (a ∷ nodes) out =
      ap₂ (λ x l. if x == 1 then a ∷ l else l) (field_other b v f a out.0)
        (due-at_field nodes out.1)

  pub Counted-at_field :
      (ticks' : ℕ → ℕ) (nodes : List ℕ)
      → NotIn b nodes
      → Counted (at_field b v f) ticks' nodes
      → Counted f ticks' nodes
  Counted-at_field ticks' [] out c = tt
  Counted-at_field ticks' (a ∷ nodes) out c =
      (c.0 ∙ ap (λ x. x - 1) (field_other b v f a out.0), Counted-at_field ticks' nodes out.1 c.1)
