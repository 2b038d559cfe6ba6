-- ===== src/Links.antt =====
-- Links in memory, for the modules whose lists have their nodes there: a field is a function of the
-- node's address, and NULL is 0.
use tpe.Base.{ℕ, ◌≡◌, ◌≢◌, refl, sym, false, List, [], ◌∷◌, ◌==◌, if◌then◌else◌, arith}
use mathlib.Core.Path.{subst}

-- `node->field = v`
abbrev pub at_field : ℕ → ℕ → (ℕ → ℕ) → ℕ → ℕ
at_field node v f a = if a == node then v else f a

-- The nodes that the links lead to from `node` on.
abbrev pub Chain : (ℕ → ℕ) → ℕ → List ℕ → Type 0
Chain next node [] = node ≡ 0
Chain next node (a ∷ nodes) = (node ≡ a) × (a ≢ 0) × Chain next (next a) nodes

abbrev pub NotIn : ℕ → List ℕ → Type 0
NotIn a [] = Unit {0}
NotIn a (b ∷ nodes) = ((b == a) ≡ false) × NotIn a nodes

abbrev pub Distinct : List ℕ → Type 0
Distinct [] = Unit {0}
Distinct (a ∷ nodes) = NotIn a nodes × Distinct nodes

pub flip : (a b : ℕ) → (a == b) ≡ false → (b == a) ≡ false
flip a b h = ground (arith, h)

-- A field of another node makes no difference.
module _ (b v : ℕ) (f : ℕ → ℕ) where
  pub field_other : (a : ℕ) → (a == b) ≡ false → at_field b v f a ≡ f a
  field_other a e = rw e refl

  pub Chain-at_field :
      (node : ℕ) (nodes : List ℕ)
      → NotIn b nodes
      → Chain f node nodes
      → Chain (at_field b v f) node nodes
  Chain-at_field node [] out c = c
  Chain-at_field node (a ∷ nodes) out c = (
    c.0,
    c.1,
    Chain-at_field (at_field b v f a) nodes out.1
        (subst (λ x. Chain f x nodes) (sym (field_other a out.0)) c.2),
  )
