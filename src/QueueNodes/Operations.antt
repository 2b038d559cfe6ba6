-- ===== src/QueueNodes/Operations.antt =====
-- `enqueue` and `dequeue` of Kernel/queueADT.c append to the elements of a queue and take the first.
use tpe.Links.{Chain, Chain-at_field, NotIn, at_field}
use tpe.Base.{
  ℕ, ◌≡◌, ◌≢◌, refl, sym, ◌∙◌, ap, ap₂, true, false, some, List, [], ◌∷◌, ◌++◌, map, ◌==◌, length,
  drop, get_or, arith, inl, inr, Bool-cases,
}
use mathlib.Core.List.{append_assoc, append-nil}
use mathlib.Core.Path.{subst}
use tpe.QueueNodes.{
  Heap, is_empty, enqueue, unlink_first, dequeue, destroy_loop, store_queue, destroy_queue,
}
use tpe.QueueNodes.Held.{
  last_of, Holds, map-at_field, map-append, Distinct-append, last_of-append, Chain-append,
}

-- With a page that is no node of the queue, `enqueue` puts the element behind the others.
pub enqueue-Holds :
    (q x page : ℕ) (nodes xs : List ℕ) (h : Heap)
    → q ≢ 0
    → page ≢ 0
    → NotIn page nodes
    → Holds q nodes xs h
    → Holds q (nodes ++ (page ∷ [])) (xs ++ (x ∷ [])) (enqueue q x page h)
unfolding enqueue
enqueue-Holds q x page [] xs h there present out holds =
    let q_there : (q == 0) ≡ false = ground (arith, there) in
    let q_self : (q == q) ≡ true = ground arith in
    let self : (page == page) ≡ true = ground arith in
    let none_first : (h.first q == 0) ≡ true = (let e = holds.chain in ground (arith, e)) in
    rw (q_there, none_first)
      (record {
        chain = (rw q_self refl, present, rw self refl);
        last = rw q_self refl;
        distinct = (tt, tt);
        elems = rw self (ap (λ l. l ++ (x ∷ [])) holds.elems);
      })
enqueue-Holds q x page (a ∷ nodes) xs h there present out holds =
    let q_there : (q == 0) ≡ false = ground (arith, there) in
    let q_self : (q == q) ≡ true = ground arith in
    let self : (page == page) ≡ true = ground arith in
    let first_there : (h.first q == 0) ≡ false =
      (let e = holds.chain.0 in let f = holds.chain.1 in ground (arith, e, f)) in
    let links : ℕ → ℕ = at_field page 0 h.next in
    let chain =
      Chain-at_field page 0 h.next a (a ∷ nodes) out (refl, holds.chain.1, holds.chain.2) in
    let longer = Chain-append links page a nodes present (rw self refl) holds.distinct out chain in
    rw (q_there, first_there)
      (record {
        chain =
            subst (λ l. Chain (at_field l page links) (h.first q) ((a ∷ nodes) ++ (page ∷ [])))
              (sym holds.last)
              (subst
                (λ c.
                  Chain (at_field (last_of (a ∷ nodes)) page links) c ((a ∷ nodes) ++ (page ∷ [])))
                (sym holds.chain.0) longer);
        last = rw q_self (sym (last_of-append page (a ∷ nodes)));
        distinct = Distinct-append page (a ∷ nodes) holds.distinct out;
        elems =
            map-append (at_field page x h.elem) (a ∷ nodes) (page ∷ [])
            ∙ ap₂ ◌++◌ (map-at_field page x h.elem (a ∷ nodes) out ∙ holds.elems) (rw self refl);
      })

-- `first` and `last` after the first node is taken out.
unlinked-Holds :
    (q a x : ℕ) (nodes xs : List ℕ) (h : Heap)
    → Holds q (a ∷ nodes) (x ∷ xs) h
    → Holds q nodes xs (unlink_first q h)
unlinked-Holds q a x [] xs h holds =
    let q_self : (q == q) ≡ true = ground arith in
    let end : h.next (h.first q) ≡ 0 = ap h.next holds.chain.0 ∙ holds.chain.2 in
    let end' : (h.next (h.first q) == 0) ≡ true = ground (arith, end) in
    rw (q_self, end')
      (record {
        chain = rw q_self end;
        last = rw q_self refl;
        distinct = tt;
        elems = ap (drop 1) holds.elems;
      })
unlinked-Holds q a x (b ∷ nodes) xs h holds =
    let q_self : (q == q) ≡ true = ground arith in
    let next : h.next (h.first q) ≡ h.next a = ap h.next holds.chain.0 in
    let second = holds.chain.2.0 in
    let there = holds.chain.2.1 in
    let more : (h.next (h.first q) == 0) ≡ false = ground (arith, next, second, there) in
    rw (q_self, more)
      (record {
        chain = rw q_self (next ∙ second, there, holds.chain.2.2);
        last = holds.last;
        distinct = holds.distinct.1;
        elems = ap (drop 1) holds.elems;
      })

unlinked_stored : (q : ℕ) (h : Heap) → (unlink_first q h).stored ≡ h.stored ++ (h.first q ∷ [])
unlinked_stored q h = elim (Bool-cases (at_field q (h.next (h.first q)) h.first q == 0)) [
  | inl e ↦ rw e refl
  | inr e ↦ rw e refl
]

dequeue-unlink_first :
    (q a : ℕ) (h : Heap)
    → q ≢ 0
    → h.first q ≡ a
    → a ≢ 0
    → dequeue q h ≡ (h.elem (h.first q), unlink_first q h)
unfolding dequeue is_empty
dequeue-unlink_first q a h there e present =
    let q_there : (q == 0) ≡ false = ground (arith, there) in
    let first_there : (h.first q == 0) ≡ false = ground (arith, e, present) in
    rw (q_there, first_there) refl

-- `dequeue` of a queue that is not empty gives its first element, leaves the others in their order
-- and stores the page of the node.
pub dequeue-Holds :
    (q a x : ℕ) (nodes xs : List ℕ) (h : Heap)
    → q ≢ 0
    → Holds q (a ∷ nodes) (x ∷ xs) h
    → ((dequeue q h).0 ≡ x)
      × Holds q nodes xs (dequeue q h).1
      × ((dequeue q h).1.stored ≡ h.stored ++ (a ∷ []))
dequeue-Holds q a x nodes xs h there holds =
    rw (dequeue-unlink_first q a h there holds.chain.0 holds.chain.1) (
      ap h.elem holds.chain.0 ∙ ap (λ l. get_or l 0 0) holds.elems,
      unlinked-Holds q a x nodes xs h holds,
      unlinked_stored q h ∙ ap (λ c. h.stored ++ (c ∷ [])) holds.chain.0,
    )

empty-Holds : (q : ℕ) (xs : List ℕ) (h : Heap) → Holds q [] xs h → is_empty q h ≡ true
unfolding is_empty
empty-Holds q xs h holds = let e = holds.chain in ground (arith, e)

cons-Holds :
    (q a : ℕ) (nodes xs : List ℕ) (h : Heap)
    → q ≢ 0
    → Holds q (a ∷ nodes) xs h
    → is_empty q h ≡ false
unfolding is_empty
cons-Holds q a nodes xs h there holds =
    let e = holds.chain.0 in let f = holds.chain.1 in ground (arith, there, e, f)

destroy_loop-stored :
    (q : ℕ) (nodes xs : List ℕ) (h : Heap)
    → q ≢ 0
    → Holds q nodes xs h
    → (h' : Heap) × (destroy_loop (length nodes) q h ≡ some h') × (h'.stored ≡ h.stored ++ nodes)
unfolding destroy_loop
destroy_loop-stored q [] xs h there holds =
    let e = empty-Holds q xs h holds in (h, rw e refl, sym (append-nil h.stored))
destroy_loop-stored q (a ∷ nodes) xs h there holds =
    let e = cons-Holds q a nodes xs h there holds in
    let same : Holds q (a ∷ nodes) (map h.elem (a ∷ nodes)) h = record {
      chain = holds.chain;
      last = holds.last;
      distinct = holds.distinct;
      elems = refl;
    } in
    let (first, rest, stored) =
      dequeue-Holds q a (h.elem a) nodes (map h.elem nodes) h there same in
    let (h', run, all) =
      destroy_loop-stored q nodes (map h.elem nodes) (dequeue q h).1 there rest in
    (h', rw e run, all ∙ ap (λ l. l ++ nodes) stored ∙ append_assoc h.stored (a ∷ []) nodes)

-- `destroy_queue` comes to an end with a round for each node, and stores the pages of all nodes, in
-- their order, and that of the queue.
pub destroy_queue-stored :
    (q : ℕ) (nodes xs : List ℕ) (h : Heap)
    → q ≢ 0
    → Holds q nodes xs h
    → (h' : Heap) × (destroy_queue (length nodes) q h ≡ some h')
      × (h'.stored ≡ h.stored ++ nodes ++ (q ∷ []))
unfolding destroy_queue
destroy_queue-stored q nodes xs h there holds =
    let (h', run, stored) = destroy_loop-stored q nodes xs h there holds in
    (
      record h' { stored = h'.stored ++ (q ∷ []) },
      ap (store_queue q) run,
      ap (λ l. l ++ (q ∷ [])) stored,
    )
