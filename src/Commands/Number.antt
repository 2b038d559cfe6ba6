-- ===== src/Commands/Number.antt =====
-- `isnum` of Kernel/commands.c tells the strings that begin with a number.
use mathlib.Core.Path.{subst}
use tpe.Base.{
  ℕ, ◌≡◌, ◌↔◌, refl, sym, ◌∙◌, ap, inl, inr, Bool, true, false, ◌&&◌, List, [], ◌∷◌, ◌++◌, ◌==◌,
  if◌then◌else◌, arith, Bool-cases,
}
use tpe.Ctype.{isdigit}
use tpe.Numbers.RoundTrip.{AllDigits}
use tpe.Strings.{front}
use tpe.Commands.Lookup.{and_left, and_right}
use tpe.Commands.{digits_only, isnum}

-- The end of the string, or a space.
abbrev pub Ended : List ℕ → Type 0
Ended [] = Unit {0}
Ended (c ∷ rest) = c ≡ b' '

abbrev pub sign : Bool → List ℕ → List ℕ
sign negative str = if negative then b'-' ∷ str else str

-- A string is a minus sign or none, at least one digit, and then its end or a space.
pub record IsNumber (str : List ℕ) : Type 0 where
  pub negative : Bool
  pub first : ℕ
  pub digits : List ℕ
  pub rest : List ℕ
  pub shape : str ≡ sign negative (first ∷ (digits ++ rest))
  pub digit_first : isdigit first ≡ true
  pub all_digits : AllDigits digits
  pub ended : Ended rest

digits_only-split :
    (str : List ℕ)
    → digits_only str ≡ true
    → (ds : List ℕ) × (rest : List ℕ) × (str ≡ ds ++ rest) × AllDigits ds × Ended rest
unfolding digits_only
digits_only-split [] h = ([], [], refl, tt, tt)
digits_only-split (c ∷ str) h = elim (Bool-cases (c == b' ')) [
  | inl e ↦ ([], c ∷ str, refl, tt, ground (arith, e))
  | inr e ↦ elim (Bool-cases (isdigit c)) [
    | inl d ↦
        let (ds, rest, eq, all, ended) = digits_only-split str (rw (e, d) at h) in
        (c ∷ ds, rest, ap (λ l. c ∷ l) eq, (d, all), ended)
    | inr d ↦ absurd (let no : false ≡ true = rw (e, d) at h in cc)
  ]
]

digit_no_space : (c : ℕ) → isdigit c ≡ true → (c == b' ') ≡ false
unfolding isdigit
digit_no_space c h = ground arith

digit_no_minus : (c : ℕ) → isdigit c ≡ true → (c == b'-') ≡ false
unfolding isdigit
digit_no_minus c h = ground arith

digits_only-append :
    (ds rest : List ℕ) → AllDigits ds → Ended rest → digits_only (ds ++ rest) ≡ true
unfolding digits_only
digits_only-append [] [] h k = refl
digits_only-append [] (c ∷ rest) h k = rw k refl
digits_only-append (c ∷ ds) rest h k =
    rw (digit_no_space c h.0, h.0) (digits_only-append ds rest h.1 k)

minus_no_digit : (c : ℕ) → (c == b'-') ≡ true → isdigit c ≡ false
unfolding isdigit
minus_no_digit c h = ground arith

-- What is left of `isnum` for a string that begins with a digit, with a minus, and otherwise.
module _ (c : ℕ) (str : List ℕ) where
  isnum-digit : isdigit c ≡ true → isnum (c ∷ str) ≡ digits_only (c ∷ str)
  unfolding isnum
  isnum-digit h = rw (h, digit_no_minus c h) refl

  isnum-other : isdigit c ≡ false → (c == b'-') ≡ false → isnum (c ∷ str) ≡ false
  unfolding isnum
  isnum-other h e = rw (h, e) refl

  isnum-minus : (c == b'-') ≡ true → isnum (c ∷ str) ≡ (isdigit (front str) && digits_only str)
  unfolding isnum
  isnum-minus e = elim (Bool-cases (isdigit (front str))) [
    | inl d ↦ rw (minus_no_digit c e, e, d) refl
    | inr d ↦ rw (minus_no_digit c e, e, d) refl
  ]

isnum-nil : isnum [] ≡ false
unfolding isnum isdigit
isnum-nil = refl

-- A string that has a digit in front and passes the loop is a number, with the sign or without.
IsNumber-of :
    (negative : Bool) (c : ℕ) (str : List ℕ)
    → isdigit c ≡ true
    → digits_only (c ∷ str) ≡ true
    → IsNumber (sign negative (c ∷ str))
unfolding digits_only
IsNumber-of negative c str d h =
    let (ds, rest, eq, all, ended) = digits_only-split str (rw (digit_no_space c d, d) at h) in
    record {
      negative = negative;
      first = c;
      digits = ds;
      rest = rest;
      shape = ap (λ l. sign negative (c ∷ l)) eq;
      digit_first = d;
      all_digits = all;
      ended = ended;
    }

behind_minus :
    (str : List ℕ) → isdigit (front str) ≡ true → digits_only str ≡ true → IsNumber (b'-' ∷ str)
unfolding isdigit
behind_minus [] d h = cc
behind_minus (c ∷ str) d h = IsNumber-of true c str d h

isnum_sound : (str : List ℕ) → isnum str ≡ true → IsNumber str
isnum_sound [] h = absurd (let no : false ≡ true = sym isnum-nil ∙ h in cc)
isnum_sound (c ∷ str) h = elim (Bool-cases (isdigit c)) [
  | inl d ↦ IsNumber-of false c str d (sym (isnum-digit c str d) ∙ h)
  | inr d ↦ elim (Bool-cases (c == b'-')) [
    | inl e ↦
        let both : (isdigit (front str) && digits_only str) ≡ true =
          sym (isnum-minus c str e) ∙ h in
        subst (λ x. IsNumber (x ∷ str)) (let same : b'-' ≡ c = ground (arith, e) in same)
          (behind_minus str (and_left _ _ both) (and_right _ _ both))
    | inr e ↦ absurd (let no : false ≡ true = sym (isnum-other c str d e) ∙ h in cc)
  ]
]

isnum_complete : (str : List ℕ) → IsNumber str → isnum str ≡ true
isnum_complete str n = ap isnum n.shape ∙ go n.negative
  where
    body : digits_only (n.first ∷ (n.digits ++ n.rest)) ≡ true
    body = digits_only-append (n.first ∷ n.digits) n.rest (n.digit_first, n.all_digits) n.ended

    go : (negative : Bool) → isnum (sign negative (n.first ∷ (n.digits ++ n.rest))) ≡ true
    go false = isnum-digit n.first (n.digits ++ n.rest) n.digit_first ∙ body
    go true = isnum-minus b'-' (n.first ∷ (n.digits ++ n.rest)) refl ∙ rw (n.digit_first, body) refl

-- `isnum` is 1 exactly for a string that is a minus sign or none, at least one digit, and then the
-- end of the string or a space.
pub isnum_iff : (str : List ℕ) → (isnum str ≡ true) ↔ IsNumber str
isnum_iff str = (isnum_sound str, isnum_complete str)
