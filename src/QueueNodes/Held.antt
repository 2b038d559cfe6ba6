-- ===== src/QueueNodes/Held.antt =====
-- The elements that a queue of Kernel/queueADT.c holds.
use tpe.Links.{Chain, Distinct, NotIn, at_field, field_other, flip}
use tpe.Base.{ℕ, ◌≡◌, ◌≢◌, refl, ap, ap₂, true, false, List, [], ◌∷◌, ◌++◌, map, ◌==◌, arith}
use mathlib.Core.Path.{subst}
use tpe.QueueNodes.{Heap}

-- The last node, or NULL.
abbrev pub last_of : List ℕ → ℕ
last_of [] = 0
last_of (a ∷ []) = a
last_of (a ∷ b ∷ nodes) = last_of (b ∷ nodes)

-- The queue `q` holds the elements of the nodes, first one first.
pub record Holds (q : ℕ) (nodes xs : List ℕ) (h : Heap) : Type 0 where
  pub chain : Chain h.next (h.first q) nodes
  pub last : h.last q ≡ last_of nodes
  pub distinct : Distinct nodes
  pub elems : map h.elem nodes ≡ xs

pub map-at_field :
    (b v : ℕ) (f : ℕ → ℕ) (nodes : List ℕ)
    → NotIn b nodes
    → map (at_field b v f) nodes ≡ map f nodes
map-at_field b v f [] out = refl
map-at_field b v f (a ∷ nodes) out =
    ap₂ ◌∷◌ (field_other b v f a out.0) (map-at_field b v f nodes out.1)

pub map-append : (f : ℕ → ℕ) (xs ys : List ℕ) → map f (xs ++ ys) ≡ map f xs ++ map f ys
map-append f [] ys = refl
map-append f (x ∷ xs) ys = ap (λ l. f x ∷ l) (map-append f xs ys)

pub NotIn-append :
    (a b : ℕ) (nodes : List ℕ) → NotIn a nodes → (b == a) ≡ false → NotIn a (nodes ++ (b ∷ []))
NotIn-append a b [] out h = (h, tt)
NotIn-append a b (c ∷ nodes) out h = (out.0, NotIn-append a b nodes out.1 h)

pub Distinct-append :
    (b : ℕ) (nodes : List ℕ) → Distinct nodes → NotIn b nodes → Distinct (nodes ++ (b ∷ []))
Distinct-append b [] d out = (tt, tt)
Distinct-append b (a ∷ nodes) d out =
    (NotIn-append a b nodes d.0 (flip a b out.0), Distinct-append b nodes d.1 out.1)

pub last_of-append : (b : ℕ) (nodes : List ℕ) → last_of (nodes ++ (b ∷ [])) ≡ b
last_of-append b [] = refl
last_of-append b (a ∷ []) = refl
last_of-append b (a ∷ c ∷ nodes) = last_of-append b (c ∷ nodes)

last_of-NotIn :
    (a b : ℕ) (nodes : List ℕ) → NotIn a (b ∷ nodes) → (last_of (b ∷ nodes) == a) ≡ false
last_of-NotIn a b [] out = out.0
last_of-NotIn a b (c ∷ nodes) out = last_of-NotIn a c nodes out.1

-- The link of the last node goes to a new one that has none.
pub Chain-append :
    (next : ℕ → ℕ) (page a : ℕ) (nodes : List ℕ)
    → page ≢ 0
    → next page ≡ 0
    → Distinct (a ∷ nodes)
    → NotIn page (a ∷ nodes)
    → Chain next a (a ∷ nodes)
    → Chain (at_field (last_of (a ∷ nodes)) page next) a ((a ∷ nodes) ++ (page ∷ []))
Chain-append next page a [] present end d out c =
    let self : (a == a) ≡ true = ground arith in
    let away = flip a page out.0 in (refl, c.1, (rw self refl, present, rw away end))
Chain-append next page a (b ∷ nodes) present end d out c =
    let rest = Chain-append next page b nodes present end d.1 out.1 (refl, c.2.1, c.2.2) in
    let away = flip (last_of (b ∷ nodes)) a (last_of-NotIn a b nodes d.0) in
    (
      refl,
      c.1,
      (
        rw away c.2.0,
        c.2.1,
        subst
            (λ x.
              Chain (at_field (last_of (b ∷ nodes)) page next)
                (at_field (last_of (b ∷ nodes)) page next x) (nodes ++ (page ∷ [])))
            refl rest.2,
      ),
    )
