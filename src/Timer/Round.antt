-- ===== src/Timer/Round.antt =====
-- A round of `timer_handler` of Kernel/timer.c at the list of sleeping processes.
use tpe.Links.{Chain, Chain-at_field, NotIn, field_other, flip}
use tpe.Base.{
  ℕ, zero, suc, ◌+◌, ◌-◌, ◌%◌, ◌^◌, ◌<◌, ◌≡◌, ◌≢◌, refl, ◌∙◌, ap, ap₂, true, false, some, List, [],
  ◌∷◌, ◌++◌, map, ◌==◌, arith, inl, inr, Bool-cases,
}
use mathlib.Core.List.{append_assoc}
use mathlib.Core.Path.{subst}
use tpe.Timer.{Sleepers, count_down, wake, handler_loop}
use tpe.Timer.Sleeping.{kept, due, Counted, link, kept-at_field, due-at_field, Counted-at_field}

-- The outcome of the loop for the nodes behind the link of `prev`.
pub record Handled (prev : ℕ) (nodes : List ℕ) (s s' : Sleepers) : Type 0 where
  pub chain : Chain s'.next (link s' prev) (kept s.ticks nodes)
  pub frame : (node : ℕ) → (node == prev) ≡ false → NotIn node nodes → link s' node ≡ link s node
  pub counted : Counted s.ticks s'.ticks nodes
  pub same_ticks : (node : ℕ) → NotIn node nodes → s'.ticks node ≡ s.ticks node
  pub unblocked : s'.unblocked ≡ s.unblocked ++ map s.process (due s.ticks nodes)
  pub stored : s'.stored ≡ s.stored ++ due s.ticks nodes

pub loop_end : (n prev : ℕ) (s : Sleepers) → handler_loop n 0 prev s ≡ some s
unfolding handler_loop
loop_end zero prev s = refl
loop_end (suc n) prev s = refl

module _ (prev a : ℕ) (s : Sleepers) (present : a ≢ 0) where
  abbrev counted_down : Sleepers
  counted_down = count_down a s

  abbrev pub woken : Sleepers
  woken = wake prev a counted_down

  count_down-ticks : 0 < s.ticks a → s.ticks a < 2 ^ 64 → counted_down.ticks a ≡ s.ticks a - 1
  count_down-ticks h k = ground arith

  pub link-woken : link woken prev ≡ s.next a
  link-woken = elim (Bool-cases (prev == 0)) [
    | inl e ↦ rw e refl
    | inr e ↦ let self : (prev == prev) ≡ true = ground arith in rw (e, self) refl
  ]

  link-woken_other : (node : ℕ) → (node == prev) ≡ false → link woken node ≡ link s node
  link-woken_other node h = elim (Bool-cases (prev == 0)) [
    | inl e ↦ let there : (node == 0) ≡ false = ground (arith, e, h) in rw (e, there) refl
    | inr e ↦ elim (Bool-cases (node == 0)) [ inl f ↦ rw (e, f) refl | inr f ↦ rw (e, f, h) refl ]
  ]

  pub Chain-woken :
      (node : ℕ) (nodes : List ℕ)
      → NotIn prev nodes
      → Chain s.next node nodes
      → Chain woken.next node nodes
  Chain-woken node nodes out c = elim (Bool-cases (prev == 0)) [
    | inl e ↦ rw e c
    | inr e ↦ rw e (Chain-at_field prev (s.next a) s.next node nodes out c)
  ]

  pub same_lists :
      (woken.unblocked ≡ s.unblocked ++ (s.process a ∷ []))
      × (woken.stored ≡ s.stored ++ (a ∷ []))
      × (woken.ticks ≡ counted_down.ticks)
      × (woken.process ≡ s.process)
  same_lists = elim (Bool-cases (prev == 0)) [
    | inl e ↦ rw e (refl, refl, refl, refl)
    | inr e ↦ rw e (refl, refl, refl, refl)
  ]

  module _ (m : ℕ) (asleep : 0 < s.ticks a) (fits : s.ticks a < 2 ^ 64) where
    pub loop-woken :
        (s.ticks a == 1) ≡ true
        → handler_loop (suc m) a prev s ≡ handler_loop m (s.next a) prev woken
    unfolding handler_loop
    loop-woken e =
        let there : (a == 0) ≡ false = ground (arith, present) in
        let left = count_down-ticks asleep fits in
        let last : (counted_down.ticks a == 0) ≡ true = ground (arith, left, e) in
        rw (there, last) refl

    pub loop_kept :
        (s.ticks a == 1) ≡ false
        → handler_loop (suc m) a prev s ≡ handler_loop m (s.next a) a counted_down
    unfolding handler_loop
    loop_kept e =
        let there : (a == 0) ≡ false = ground (arith, present) in
        let left = count_down-ticks asleep fits in
        let more : (counted_down.ticks a == 0) ≡ false = ground (arith, left, e, asleep) in
        rw (there, more) refl

  module _ (nodes : List ℕ) (asleep : 0 < s.ticks a) (fits : s.ticks a < 2 ^ 64)
      (off : NotIn a nodes) (s' : Sleepers) where
    counts : ℕ
    counts = (s.ticks a + 2 ^ 64 - 1) % 2 ^ 64

    pub woken-Handled :
        (s.ticks a == 1) ≡ true
        → NotIn prev nodes
        → Handled prev nodes woken s'
        → Handled prev (a ∷ nodes) s s'
    unfolding counts
    woken-Handled e apart h =
        let (unblocked, stored, ticks, process) = same_lists in
        let same_kept = ap (λ f. kept f nodes) ticks ∙ kept-at_field a counts s.ticks nodes off in
        let same_due = ap (λ f. due f nodes) ticks ∙ due-at_field a counts s.ticks nodes off in
        let left = h.same_ticks a off ∙ ap (λ f. f a) ticks ∙ count_down-ticks asleep fits in
        record {
          chain = rw e (subst (λ l. Chain s'.next (link s' prev) l) same_kept h.chain);
          frame = λ node away out. h.frame node away out.1 ∙ link-woken_other node away;
          counted = (
            left,
            Counted-at_field a counts s.ticks s'.ticks nodes off
                (subst (λ f. Counted f s'.ticks nodes) ticks h.counted),
          );
          same_ticks = λ node out.
              h.same_ticks node out.1
              ∙ ap (λ f. f node) ticks
              ∙ field_other a counts s.ticks node (flip a node out.0);
          unblocked = rw e (
              h.unblocked
              ∙ ap (λ l. l ++ map woken.process (due woken.ticks nodes)) unblocked
              ∙ ap₂ (λ p d. (s.unblocked ++ (s.process a ∷ [])) ++ map p d) process same_due
              ∙ append_assoc s.unblocked (s.process a ∷ []) (map s.process (due s.ticks nodes)));
          stored = rw e (
              h.stored
              ∙ ap₂ ◌++◌ stored same_due
              ∙ append_assoc s.stored (a ∷ []) (due s.ticks nodes));
        }

    pub kept-Handled :
        (s.ticks a == 1) ≡ false
        → link s prev ≡ a
        → NotIn prev (a ∷ nodes)
        → Handled a nodes counted_down s'
        → Handled prev (a ∷ nodes) s s'
    unfolding counts
    kept-Handled e start apart h =
        let there : (a == 0) ≡ false = ground (arith, present) in
        let same_kept = kept-at_field a counts s.ticks nodes off in
        let same_due = due-at_field a counts s.ticks nodes off in
        let left = h.same_ticks a off ∙ count_down-ticks asleep fits in
        let behind : link s' a ≡ s'.next a = rw there refl in
        record {
          chain = rw e (
            h.frame prev (flip a prev apart.0) apart.1 ∙ start,
            present,
            subst (λ x. Chain s'.next x (kept s.ticks nodes)) behind
                (subst (λ l. Chain s'.next (link s' a) l) same_kept h.chain),
          );
          frame = λ node away out. h.frame node (flip a node out.0) out.1;
          counted = (left, Counted-at_field a counts s.ticks s'.ticks nodes off h.counted);
          same_ticks = λ node out.
              h.same_ticks node out.1 ∙ field_other a counts s.ticks node (flip a node out.0);
          unblocked = rw e (h.unblocked ∙ ap (λ d. s.unblocked ++ map s.process d) same_due);
          stored = rw e (h.stored ∙ ap (λ d. s.stored ++ d) same_due);
        }
