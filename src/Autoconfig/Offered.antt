-- ===== src/Autoconfig/Offered.antt =====
-- The security pair that is filled in for a server.
use mathlib.Core.Path.{subst}
use zelos_extension_opcua.Prelude.{
  ◌≡◌, refl, sym, ap, ◌∙◌, ◌⊎◌, inl, inr, Bool, true, false, Option, none, some, List, [], ◌∷◌,
  ◌++◌, arith, if◌then◌else◌, Bool-cases, Option-cases, find_first, All, In, In-append_right, Text,
}
use zelos_extension_opcua.Autoconfig.{
  Web, Description, offers, ranked, by_default, no_security, choice_or_default, security,
}

module _ {A : Type 0} (p : A → Bool) where
  -- Of a list, the one element that satisfies the test with none before it that does.
  abbrev pub IsFirst : List A → A → Type 0
  IsFirst xs a =
      (before : List A) × (after : List A) × (xs ≡ before ++ a ∷ after)
      × All (λ x. p x ≡ false) before
      × (p a ≡ true)

  pub find_first-none : (xs : List A) → find_first p xs ≡ none → All (λ x. p x ≡ false) xs
  find_first-none [] h = tt
  find_first-none (x ∷ xs) h = (ground arith, find_first-none xs (ground arith))

  pub find_first-IsFirst : (xs : List A) {a : A} → find_first p xs ≡ some a → IsFirst xs a
  find_first-IsFirst [] h = cc
  find_first-IsFirst (x ∷ xs) {a} h = elim (Bool-cases (p x)) [
    | inl t ↦
        let e : x ≡ a = ground arith in
        ([], xs, ap (λ y. y ∷ xs) e, tt, subst (λ y. p y ≡ true) e t)
    | inr t ↦
        let (before, after, split_at, none_before, here) = find_first-IsFirst xs (ground arith) in
        (x ∷ before, after, ap (λ ys. x ∷ ys) split_at, (t, none_before), here)
  ]

pub IsFirst-In :
    {A : Type 0} (p : A → Bool) (xs : List A) (a : A) → IsFirst p xs a → In a xs × (p a ≡ true)
IsFirst-In p xs a (before, after, split_at, _, here) =
    (subst (In a) (sym split_at) (In-append_right a before (a ∷ after) (inl refl)), here)

choice_or_default-none :
    (b : Bool) → choice_or_default b none ≡ (if b then some by_default else none)
choice_or_default-none true = refl
choice_or_default-none false = refl

some_if : {A : Type 0} {a d : A} (b : Bool) → some a ≡ (if b then some d else none) → a ≡ d
some_if true h = cc
some_if false h = cc

module _ (w : Web) (ds : List Description) (advanced : Text × Text) where
  -- "default" for the Advanced pair; else the strongest secure pair that is offered; else "default"
  -- for a server that accepts None alone, and nothing for one that offers nothing of use.
  abbrev pub IsChoice : Option (Text × Text) → Type 0
  IsChoice chosen =
      ((offers w ds advanced ≡ true) × (chosen ≡ some by_default))
      ⊎ ((offers w ds advanced ≡ false)
          × (((pair : Text × Text) × (chosen ≡ some pair) × IsFirst (offers w ds) ranked pair)
              ⊎ (All (λ pair. offers w ds pair ≡ false) ranked
                  × (chosen ≡ (if offers w ds no_security then some by_default else none)))))

  -- The security chosen is "default" for a server that offers the Advanced pair; else the first of
  -- the ranked secure pairs that it offers; else "default" if it accepts None, and nothing if not.
  pub security-IsChoice : IsChoice (security w ds advanced)
  unfolding security
  security-IsChoice = elim (Bool-cases (offers w ds advanced)) [
    | inl t ↦ rw t (inl (refl, refl))
    | inr t ↦
        let none_is = choice_or_default-none (offers w ds no_security) in
        rw t (
          inr (
            refl,
            elim (Option-cases (find_first (offers w ds) ranked)) [
              | inl e ↦ inr (
                find_first-none (offers w ds) ranked e,
                ap (choice_or_default (offers w ds no_security)) e ∙ none_is,
              )
              | inr (a, e) ↦ inl (
                a,
                ap (choice_or_default (offers w ds no_security)) e,
                find_first-IsFirst (offers w ds) ranked e,
              )
            ],
          ))
  ]

  -- What is chosen is "default", or a secure pair that is offered.
  pub choice_cases :
      (pair : Text × Text)
      → IsChoice (some pair)
      → (pair ≡ by_default) ⊎ (In pair ranked × (offers w ds pair ≡ true))
  choice_cases pair (inl (_, is)) = inl cc
  choice_cases pair (inr (_, inl (other, is, first))) =
      let e : other ≡ pair = cc in
      inr (IsFirst-In (offers w ds) ranked pair (subst (IsFirst (offers w ds) ranked) e first))
  choice_cases pair (inr (_, inr (_, is))) = inl (some_if (offers w ds no_security) is)
