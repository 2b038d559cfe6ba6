-- ===== src/NumberList/Removed.antt =====
-- `remove_int` of Kernel/intLinkedlistADT.c takes the first node with the number out of the list.
use tpe.Base.{
  ℕ, suc, ◌≡◌, refl, sym, ◌∙◌, ap, true, false, some, List, [], ◌∷◌, ◌++◌, ◌==◌, if◌then◌else◌,
  length, arith, inl, inr, Bool-cases,
}
use mathlib.Core.List.{append-nil}
use mathlib.Core.Path.{subst}
use tpe.Links.{at_field, Chain, NotIn, Distinct, Chain-at_field}
use tpe.NumberList.{Cells, relink, remove_int_rec, remove_int}

-- The nodes without the first that has the number, and that node.
abbrev pub without : (ℕ → ℕ) → ℕ → List ℕ → List ℕ
without elem num [] = []
without elem num (a ∷ nodes) =
    let rest = without elem num nodes in if elem a == num then nodes else a ∷ rest

abbrev pub taken : (ℕ → ℕ) → ℕ → List ℕ → List ℕ
taken elem num [] = []
taken elem num (a ∷ nodes) =
    let rest = taken elem num nodes in if elem a == num then a ∷ [] else rest

pub record Removed (num : ℕ) (nodes : List ℕ) (s : Cells) (r : ℕ × Cells) : Type 0 where
  pub chain : Chain r.1.next r.0 (without s.elem num nodes)
  pub same_elem : r.1.elem ≡ s.elem
  pub stored : r.1.stored ≡ s.stored ++ taken s.elem num nodes

without-NotIn :
    (elem : ℕ → ℕ) (num a : ℕ) (nodes : List ℕ) → NotIn a nodes → NotIn a (without elem num nodes)
without-NotIn elem num a [] out = tt
without-NotIn elem num a (b ∷ nodes) out = elim (Bool-cases (elem b == num)) [
  | inl e ↦ rw e out.1
  | inr e ↦ rw e (out.0, without-NotIn elem num a nodes out.1)
]

-- The recursion ends within a call for each node and one more.
rec-Removed :
    (num l : ℕ) (nodes : List ℕ) (s : Cells)
    → Chain s.next l nodes
    → Distinct nodes
    → (r : ℕ × Cells) × (remove_int_rec (suc (length nodes)) num l s ≡ some r)
      × Removed num nodes s r
unfolding remove_int_rec
rec-Removed num l [] s c d =
    let end : (l == 0) ≡ true = ground (arith, c) in
    (
      (l, s),
      rw end refl,
      record { chain = c; same_elem = refl; stored = sym (append-nil s.stored) },
    )
rec-Removed num l (a ∷ nodes) s c d =
    let first = c.0 in
    let present = c.1 in
    let there : (l == 0) ≡ false = ground (arith, first, present) in
    let same = ap s.elem first in
    elim (Bool-cases (s.elem a == num)) [
      | inl e ↦
          let found : (s.elem l == num) ≡ true = ap (λ x. x == num) same ∙ e in
          (
            (s.next l, record s { stored = s.stored ++ (l ∷ []) }),
            rw (there, found) refl,
            record {
              chain = rw e (subst (λ x. Chain s.next x nodes) (sym (ap s.next first)) c.2);
              same_elem = refl;
              stored = rw e (ap (λ x. s.stored ++ (x ∷ [])) first);
            },
          )
      | inr e ↦
          let other : (s.elem l == num) ≡ false = ap (λ x. x == num) same ∙ e in
          let (r, run, h) =
            rec-Removed num (s.next l) nodes s
              (subst (λ x. Chain s.next x nodes) (sym (ap s.next first)) c.2) d.1 in
          let self : (a == a) ≡ true = ground arith in
          let rest = without-NotIn s.elem num a nodes d.0 in
          (
            relink l r,
            rw (there, other, run) refl,
            record {
              chain =
                  subst (λ x. Chain (at_field x r.0 r.1.next) x (without s.elem num (a ∷ nodes)))
                    (sym first)
                    (rw (e, self)
                      (
                        refl,
                        present,
                        Chain-at_field a r.0 r.1.next r.0 (without s.elem num nodes) rest h.chain,
                      ));
              same_elem = h.same_elem;
              stored = rw e h.stored;
            },
          )
    ]

-- `remove_int` from a list of distinct nodes ends within a call for each node and one more. It leaves
-- the nodes in their order but for the first that has the number, whose page it stores, and changes no
-- number.
pub remove_int-Removed :
    (first num : ℕ) (nodes : List ℕ) (s : Cells)
    → Chain s.next first nodes
    → Distinct nodes
    → (r : ℕ × Cells) × (remove_int (suc (length nodes)) first num s ≡ some r)
      × Removed num nodes s r
unfolding remove_int
remove_int-Removed first num nodes s c d = rec-Removed num first nodes s c d
