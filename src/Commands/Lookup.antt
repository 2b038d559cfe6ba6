-- ===== src/Commands/Lookup.antt =====
-- `execute` of Kernel/commands.c starts the one command that has the name.
use mathlib.Core.Path.{subst}
use tpe.Base.{
  ℕ, ◌<◌, ◌^◌, ◌≡◌, ◌≢◌, refl, sym, ◌⊎◌, inl, inr, Bool, true, false, ◌&&◌, not, List, [], ◌∷◌,
  length, arith, Bool-cases,
}
use tpe.Strings.{strcmp, strncmp}
use tpe.Strings.Compare.{IsString, strcmp_zero_iff}
use tpe.Mutex.Open.{is_zero, is_zero_eq}
use tpe.Commands.{Program, Launch, Validity, valid, unsupported, commands, execute_loop, execute}

-- The function stands in the table under the name.
abbrev pub Named : List ℕ → Program → List (List ℕ × Program) → Type 0
Named name p [] = ⊥
Named name p ((n, q) ∷ table) = ((name ≡ n) × (p ≡ q)) ⊎ Named name p table

abbrev pub NotNamed : List ℕ → List (List ℕ × Program) → Type 0
NotNamed name [] = Unit {0}
NotNamed name ((n, q) ∷ table) = (name ≢ n) × NotNamed name table

abbrev AreStrings : List (List ℕ × Program) → Type 0
AreStrings [] = Unit {0}
AreStrings ((n, q) ∷ table) = IsString n × (length n < 2 ^ 31) × AreStrings table

abbrev same : List ℕ → List ℕ → Bool
same s t = is_zero (strcmp s t)

-- `name` is not among the names of the table, by its tests.
abbrev absent : List ℕ → List (List ℕ × Program) → Bool
absent name [] = true
absent name ((n, q) ∷ table) = not (same name n) && absent name table

abbrev distinct : List (List ℕ × Program) → Bool
distinct [] = true
distinct ((n, q) ∷ table) = absent n table && distinct table

eq_of_same : (s t : List ℕ) → IsString s → IsString t → length s < 2 ^ 31 → same s t ≡ true → s ≡ t
eq_of_same s t hs ht h e = (strcmp_zero_iff s t hs ht h).0 (is_zero_eq (strcmp s t) e)

same_self : (s : List ℕ) → IsString s → length s < 2 ^ 31 → same s s ≡ true
same_self s hs h = rw ((strcmp_zero_iff s s hs hs h).1 refl) refl

pub and_left : (a b : Bool) → (a && b) ≡ true → a ≡ true
and_left true b h = refl
and_left false b h = h

false_of_not : (a : Bool) → not a ≡ true → a ≡ false
false_of_not true h = cc
false_of_not false h = refl

pub and_right : (a b : Bool) → (a && b) ≡ true → b ≡ true
and_right true b h = h
and_right false b h = cc

abbrev pub launch_of : Program → List ℕ → List ℕ → Bool → Launch
launch_of p name args foreground = record {
  function = p;
  args = args;
  name = name;
  foreground = foreground;
}

module _ (name args : List ℕ) (foreground : Bool) where
  execute_loop-absent :
      (table : List (List ℕ × Program)) (v : Validity)
      → absent name table ≡ true
      → execute_loop table name args foreground v ≡ ([], v)
  unfolding execute_loop
  execute_loop-absent [] v h = refl
  execute_loop-absent ((n, q) ∷ table) v h =
      let e : same name n ≡ false = false_of_not (same name n) (and_left _ _ h) in
      rw e (execute_loop-absent table v (and_right (not (same name n)) (absent name table) h))

  execute_loop-one :
      (table : List (List ℕ × Program)) (v : Validity)
      → IsString name
      → length name < 2 ^ 31
      → AreStrings table
      → distinct table ≡ true
      → ((p : Program) × Named name p table
          × (execute_loop table name args foreground v
              ≡ (launch_of p name args foreground ∷ [], valid)))
        ⊎ (NotNamed name table × (execute_loop table name args foreground v ≡ ([], v)))
  unfolding execute_loop
  execute_loop-one [] v hs small strings d = inr (tt, refl)
  execute_loop-one ((n, q) ∷ table) v hs small strings d = elim (Bool-cases (same name n)) [
    | inl e ↦
        let eq : name ≡ n = eq_of_same name n hs strings.0 small e in
        inl (
          q,
          inl (eq, refl),
          rw e (
              rw
                (execute_loop-absent table valid
                  (subst (λ s. absent s table ≡ true) (sym eq) (and_left _ _ d)))
                refl),
        )
    | inr e ↦ elim (execute_loop-one table v hs small strings.2 (and_right _ _ d)) [
      | inl (p, named, ran) ↦ inl (p, inr named, rw e ran)
      | inr (unnamed, ran) ↦ inr ((λ eq. differs eq e, unnamed), rw e ran)
    ]
  ]
    where
      differs : name ≡ n → same name n ≡ false → ⊥
      differs eq e =
          let t : same name n ≡ true =
            subst (λ s. same name s ≡ true) eq (same_self name hs small) in
          cc

commands-AreStrings : AreStrings commands
unfolding commands
commands-AreStrings = omega arith

commands_distinct : distinct commands ≡ true
unfolding commands strcmp strncmp
commands_distinct = refl

-- For every name `execute` either starts one program, that of the table under the name, with the
-- arguments and the place that it was given, and is valid, or the name is none of the table, nothing
-- is started, and it is unsupported.
pub execute-one :
    (name args : List ℕ) (foreground : Bool)
    → IsString name
    → length name < 2 ^ 31
    → ((p : Program) × Named name p commands
        × (execute name args foreground ≡ (launch_of p name args foreground ∷ [], valid)))
      ⊎ (NotNamed name commands × (execute name args foreground ≡ ([], unsupported)))
unfolding execute
execute-one name args foreground hs small =
    execute_loop-one name args foreground commands unsupported hs small commands-AreStrings
      commands_distinct
