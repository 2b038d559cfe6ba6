-- ===== src/Timer/Handler.antt =====
-- `timer_handler` of Kernel/timer.c wakes the processes whose last tick it is, and keeps the list.
use tpe.Links.{Chain, Distinct, NotIn}
use tpe.Base.{
  ℕ, zero, suc, ◌+◌, ◌-◌, ◌%◌, ◌^◌, ◌≤◌, ◌≡◌, refl, sym, ◌∙◌, ap, false, some, List, [], ◌∷◌, ◌==◌,
  length, arith, inl, inr, Bool-cases,
}
use mathlib.Core.List.{append-nil}
use mathlib.Core.Path.{subst}
use tpe.Timer.{Sleepers, count_down, handler_loop, timer_handler}
use tpe.Timer.Sleeping.{Asleep, link, Asleep-at_field}
use tpe.Timer.Round.{
  Handled, loop_end, woken, link-woken, Chain-woken, same_lists, loop-woken, loop_kept,
  woken-Handled, kept-Handled,
}

-- The loop comes to an end, with a round for each node at most.
loop-Handled :
    (n : ℕ) (nodes : List ℕ) (current prev : ℕ) (s : Sleepers)
    → length nodes ≤ n
    → Chain s.next current nodes
    → link s prev ≡ current
    → Distinct nodes
    → NotIn prev nodes
    → Asleep s.ticks nodes
    → (s' : Sleepers) × (handler_loop n current prev s ≡ some s') × Handled prev nodes s s'
loop-Handled n [] current prev s fuel c start d out asleep = (
  s,
  ap (λ x. handler_loop n x prev s) c ∙ loop_end n prev s,
  record {
    chain = start ∙ c;
    frame = λ node away off. refl;
    counted = tt;
    same_ticks = λ node off. refl;
    unblocked = sym (append-nil s.unblocked);
    stored = sym (append-nil s.stored);
  },
)
loop-Handled zero (a ∷ nodes) current prev s fuel c start d out asleep = absurd (omega arith)
loop-Handled (suc m) (a ∷ nodes) current prev s fuel c start d out asleep =
    let here : (n : ℕ) → handler_loop n current prev s ≡ handler_loop n a prev s =
      λ n. ap (λ x. handler_loop n x prev s) c.0 in
    let present = c.1 in
    let counts : ℕ = (s.ticks a + 2 ^ 64 - 1) % 2 ^ 64 in
    let still = Asleep-at_field a counts s.ticks nodes d.0 asleep.2 in
    elim (Bool-cases (s.ticks a == 1)) [
      | inl e ↦
          let w = woken prev a s present in
          let (unblocked, stored, ticks, process) = same_lists prev a s present in
          let (s', run, h) =
            loop-Handled m nodes (s.next a) prev w (omega arith)
              (Chain-woken prev a s present (s.next a) nodes out.1 c.2)
              (link-woken prev a s present) d.1 out.1
              (subst (λ f. Asleep f nodes) (sym ticks) still) in
          (
            s',
            here (suc m) ∙ loop-woken prev a s present m asleep.0 asleep.1 e ∙ run,
            woken-Handled prev a s present nodes asleep.0 asleep.1 d.0 s' e out.1 h,
          )
      | inr e ↦
          let there : (a == 0) ≡ false = ground (arith, present) in
          let (s', run, h) =
            loop-Handled m nodes (s.next a) a (count_down a s) (omega arith) c.2 (rw there refl) d.1
              d.0 still in
          (
            s',
            here (suc m) ∙ loop_kept prev a s present m asleep.0 asleep.1 e ∙ run,
            kept-Handled prev a s present nodes asleep.0 asleep.1 d.0 s' e (start ∙ c.0) out h,
          )
    ]

zero-NotIn : (next : ℕ → ℕ) (node : ℕ) (nodes : List ℕ) → Chain next node nodes → NotIn 0 nodes
zero-NotIn next node [] c = tt
zero-NotIn next node (a ∷ nodes) c =
    let present = c.1 in (ground (arith, present), zero-NotIn next (next a) nodes c.2)

-- A tick on a list of distinct nodes, each with a tick left, comes to an end after at most one round
-- for each of them. Every node has a tick less; the processes of those with none left are unblocked
-- and their pages stored, in their order; the list holds the others in the same order.
pub timer_handler-Handled :
    (nodes : List ℕ) (s : Sleepers)
    → Chain s.next s.sleeping_processes nodes
    → Distinct nodes
    → Asleep s.ticks nodes
    → (s' : Sleepers) × (timer_handler (length nodes) s ≡ some s') × Handled 0 nodes s s'
unfolding timer_handler
timer_handler-Handled nodes s c d asleep =
    loop-Handled (length nodes) nodes s.sleeping_processes 0 s (omega arith) c refl d
      (zero-NotIn s.next s.sleeping_processes nodes c) asleep
