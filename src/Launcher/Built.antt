-- ===== src/Launcher/Built.antt =====
-- The loops of `build_arguments` and `executer` of Kernel/executer.c.
use tpe.Base.{
  ℕ, suc, ◌+◌, ◌<◌, ◌≡◌, refl, sym, ◌∙◌, ap, inl, inr, true, false, some, List, [], ◌∷◌, ◌++◌, ◌==◌,
  length, get_elem?, drop, set, length-set, length-append, get_elem?-set_self, arith, Bool-cases,
  lt→ltb,
}
use mathlib.Core.Path.{subst}
use tpe.Launcher.{build_loop, argument_pointers}
use tpe.Launcher.Split.{
  Args, ArgsAt, Below, Below-set, Below-trans, PartAt, PartAt-Below, PartAt-snoc, drop_at,
  split_from, split_from_nil, split_from_other, split_from_space,
}

-- What the loop gives.
pub record Built (strings_at j i : ℕ) (strings pointers : List ℕ) (ws : List (List ℕ))
    (strings' pointers' : List ℕ) : Type 0 where
  pub old_strings : Below j strings strings'
  pub old_pointers : Below (1 + i) pointers pointers'
  pub size : length strings' ≡ length strings
  pub args : ArgsAt strings_at strings' pointers' (suc i) ws

module _ (strings_at : ℕ) where
  -- The end of a word: its NUL and its pointer, then what follows.
  word_ended :
      (j i b : ℕ) (word strings pointers strings' pointers' : List ℕ) (ws : List (List ℕ))
      → PartAt strings b word
      → b + length word ≡ j
      → j < length strings
      → 1 + i < length pointers
      → Below (j + 1) (set strings j 0) strings'
      → Below (1 + (i + 1)) (set pointers (1 + i) (strings_at + b)) pointers'
      → length strings' ≡ length (set strings j 0)
      → ArgsAt strings_at strings' pointers' (suc (suc i)) ws
      → Built strings_at j i strings pointers (word ∷ ws) strings' pointers'
  word_ended j i b word strings pointers strings' pointers' ws part at_end room space s p size
        args =
      record {
        old_strings =
            Below-trans j (j + 1) strings (set strings j 0) strings' (omega arith)
              (Below-set j strings 0) s;
        old_pointers =
            Below-trans (1 + i) (1 + (i + 1)) pointers (set pointers (1 + i) (strings_at + b))
              pointers' (omega arith) (Below-set (1 + i) pointers (strings_at + b)) p;
        size = size ∙ length-set strings j 0;
        args = (
          (
            b,
            ap (get_elem? pointers') {x = suc i} {y = 1 + i} (omega arith)
                ∙ p (1 + i) (omega arith)
                ∙ get_elem?-set_self pointers (1 + i) (strings_at + b) space,
            (
              PartAt-Below j strings strings' b word
                  (Below-trans j (j + 1) strings (set strings j 0) strings' (omega arith)
                    (Below-set j strings 0) s)
                  (omega arith) part,
              ap (get_elem? strings') at_end
                  ∙ s j (omega arith)
                  ∙ get_elem?-set_self strings j 0 room,
            ),
          ),
          args,
        );
      }

  build_end :
      (j i ptr : ℕ) (strings pointers : List ℕ)
      → j < length strings
      → 1 + (i + 1) < length pointers
      → build_loop strings_at [] j i ptr strings pointers
        ≡ some (set strings j 0, set (set pointers (1 + i) ptr) (1 + (i + 1)) 0)
  unfolding build_loop
  build_end j i ptr strings pointers room space = rw (
    lt→ltb j (length strings) room,
    lt→ltb (1 + i) (length pointers) (omega arith),
    lt→ltb (1 + (i + 1)) (length (set pointers (1 + i) ptr))
        (omega (arith, length-set pointers (1 + i) ptr)),
  )

  build_split :
      (c : ℕ) (arg : List ℕ) (j i ptr : ℕ) (strings pointers : List ℕ)
      → (c == b' ') ≡ true
      → j < length strings
      → 1 + i < length pointers
      → build_loop strings_at (c ∷ arg) j i ptr strings pointers
        ≡ build_loop strings_at arg
            (j + 1)
            (i + 1)
            (strings_at + (j + 1))
            (set strings j 0)
            (set pointers (1 + i) ptr)
  unfolding build_loop
  build_split c arg j i ptr strings pointers e room space =
      rw (e, lt→ltb j (length strings) room, lt→ltb (1 + i) (length pointers) space)
        (ap
          (λ p.
            build_loop strings_at arg (j + 1) (i + 1) p (set strings j 0)
              (set pointers (1 + i) ptr))
          {x = strings_at + j + 1} {y = strings_at + (j + 1)} (omega arith))

  build_copy :
      (c : ℕ) (arg : List ℕ) (j i ptr : ℕ) (strings pointers : List ℕ)
      → (c == b' ') ≡ false
      → j < length strings
      → build_loop strings_at (c ∷ arg) j i ptr strings pointers
        ≡ build_loop strings_at arg (j + 1) i ptr (set strings j c) pointers
  unfolding build_loop
  build_copy c arg j i ptr strings pointers e room = rw (e, lt→ltb j (length strings) room)

  pub build_loop-Built :
      (arg : List ℕ) (j i b : ℕ) (word strings pointers : List ℕ)
      → PartAt strings b word
      → b + length word ≡ j
      → j + length arg < length strings
      → 1 + i + length (split_from word arg) < length pointers
      → (strings' : List ℕ) × (pointers' : List ℕ) × (build_loop strings_at arg j i
            (strings_at + b)
            strings
            pointers
          ≡ some (strings', pointers'))
        × Built strings_at j i strings pointers (split_from word arg) strings' pointers'
  build_loop-Built [] j i b word strings pointers part at_end room space =
      let one : 1 + i + 1 < length pointers =
        subst (λ (l : List (List ℕ)). 1 + i + length l < length pointers) (split_from_nil word)
          space in
      subst
        (λ l.
          (strings' : List ℕ) × (pointers' : List ℕ) × (build_loop strings_at [] j i
              (strings_at + b) strings pointers
            ≡ some (strings', pointers'))
          × Built strings_at j i strings pointers l strings' pointers')
        (sym (split_from_nil word))
        (
          set strings j 0,
          set (set pointers (1 + i) (strings_at + b)) (1 + (i + 1)) 0,
          build_end j i (strings_at + b) strings pointers (omega arith) (omega arith),
          word_ended j i b word strings pointers _ _ [] part at_end (omega arith) (omega arith)
              (λ k h. refl) (Below-set (1 + (i + 1)) (set pointers (1 + i) (strings_at + b)) 0) refl
              (ap (get_elem? (set (set pointers (1 + i) (strings_at + b)) (1 + (i + 1)) 0))
                  {x = suc (suc i)} {y = 1 + (i + 1)} (omega arith)
                ∙ get_elem?-set_self (set pointers (1 + i) (strings_at + b)) (1 + (i + 1)) 0
                    (omega (arith, length-set pointers (1 + i) (strings_at + b)))),
        )
  build_loop-Built (c ∷ arg) j i b word strings pointers part at_end room space =
      elim (Bool-cases (c == b' ')) [
        | inl e ↦
            let few : 1 + i + suc (length (split_from [] arg)) < length pointers =
              subst (λ (l : List (List ℕ)). 1 + i + length l < length pointers)
                (split_from_space word c arg e) space in
            let (s, p, ran, built) =
              build_loop-Built arg (j + 1) (i + 1) (j + 1) [] (set strings j 0)
                (set pointers (1 + i) (strings_at + b)) tt (omega arith)
                (omega (arith, length-set strings j 0))
                (omega (arith, length-set pointers (1 + i) (strings_at + b))) in
            rw (split_from_space word c arg e) (
              s,
              p,
              build_split c arg j i (strings_at + b) strings pointers e (omega arith) (omega arith)
                  ∙ ran,
              word_ended j i b word strings pointers s p (split_from [] arg) part at_end
                  (omega arith) (omega arith) built.old_strings built.old_pointers built.size
                  (subst (λ k. ArgsAt strings_at s p k (split_from [] arg)) {x = suc (i + 1)}
                    {y = suc (suc i)} (omega arith) built.args),
            )
        | inr e ↦
            let (s, p, ran, built) =
              build_loop-Built arg (j + 1) i b (word ++ (c ∷ [])) (set strings j c) pointers
                (PartAt-snoc (set strings j c) b c word
                  (PartAt-Below j strings (set strings j c) b word (Below-set j strings c)
                    (omega arith) part)
                  (ap (get_elem? (set strings j c)) at_end
                    ∙ get_elem?-set_self strings j c (omega arith)))
                (omega (arith, length-append {0} word (c ∷ [])))
                (omega (arith, length-set strings j c))
                (subst (λ (l : List (List ℕ)). 1 + i + length l < length pointers)
                  (split_from_other word c arg e) space) in
            rw (split_from_other word c arg e) (
              s,
              p,
              build_copy c arg j i (strings_at + b) strings pointers e (omega arith) ∙ ran,
              record {
                old_strings =
                    Below-trans j (j + 1) strings (set strings j c) s (omega arith)
                      (Below-set j strings c) built.old_strings;
                old_pointers = built.old_pointers;
                size = built.size ∙ length-set strings j c;
                args = built.args;
              },
            )
      ]

  -- The pointers before the first NULL are those of the arguments.
  pub argument_pointers-Args :
      (strings pointers : List ℕ) (k : ℕ) (ws : List (List ℕ))
      → 0 < strings_at
      → ArgsAt strings_at strings pointers k ws
      → (ps : List ℕ) × (argument_pointers (drop k pointers) ≡ some ps)
        × Args strings_at strings ps ws
  unfolding argument_pointers
  argument_pointers-Args strings pointers k [] h e = ([], rw (drop_at pointers k 0 e), tt)
  argument_pointers-Args strings pointers k (w ∷ ws) h ((i, e, s), more) =
      let (ps, f, rest) = argument_pointers-Args strings pointers (suc k) ws h more in
      let nonzero : ((strings_at + i) == 0) ≡ false = ground arith in
      (
        (strings_at + i) ∷ ps,
        rw (drop_at pointers k (strings_at + i) e, nonzero, f) refl,
        ((i, refl, s), rest),
      )
