-- ===== src/Discovery/Subtypes/Picks.antt =====
-- Lookups in a dict made from another.
use mathlib.Core.Path.{subst}
use zelos_extension_opcua.Discovery.Subtypes.{put_some, pick_values}
use zelos_extension_opcua.Prelude.{
  ◌≡◌, refl, inl, inr, true, false, Option, none, some, [], ◌∷◌, arith, Bool-cases, Eq, ◌==◌,
  nat_eq, Dict, keys, contains, Distinct, lookup, contains-keys-lookup, text_eq,
}

-- The value of an entry, changed.
abbrev pub then_pick : {A V : Type 0} → Option A → (A → Option V) → Option V
then_pick none f = none
then_pick (some a) f = f a

module _ {N A V : Type 0} ⦃e : Eq N⦄ (f : A → Option V) where
  absent-pick_values :
      (k : N) (m : Dict N A)
      → contains (keys m) k ≡ false
      → contains (keys (pick_values f m)) k ≡ false
  unfolding pick_values contains
  absent-pick_values k [] h = refl
  absent-pick_values k ((n, a) ∷ m) h =
      with_value (f a) (absent-pick_values k m (ground (arith, h)))
    where
      with_value :
          (o : Option V)
          → contains (keys (pick_values f m)) k ≡ false
          → contains (keys (put_some n o (pick_values f m))) k ≡ false
      with_value none rest = rest
      with_value (some v) rest = ground (arith, h, rest)

  pub Distinct-pick_values : (m : Dict N A) → Distinct (keys m) → Distinct (keys (pick_values f m))
  unfolding pick_values
  Distinct-pick_values [] d = tt
  Distinct-pick_values ((n, a) ∷ m) d =
      with_value (f a) (absent-pick_values n m d.0) (Distinct-pick_values m d.1)
    where
      with_value :
          (o : Option V)
          → contains (keys (pick_values f m)) n ≡ false
          → Distinct (keys (pick_values f m))
          → Distinct (keys (put_some n o (pick_values f m)))
      with_value none new rest = rest
      with_value (some v) new rest = (new, rest)

  pub lookup-pick_values :
      (k : N) (m : Dict N A)
      → Distinct (keys m)
      → lookup k (pick_values f m) ≡ then_pick (lookup k m) f
  unfolding pick_values lookup
  lookup-pick_values k [] d = refl
  lookup-pick_values k ((n, a) ∷ m) d = elim (Bool-cases (n == k)) [
    | inl same ↦
        let key : n ≡ k = (e.equals_iff n k).0 same in
        let absent : lookup k (pick_values f m) ≡ none =
          contains-keys-lookup k (pick_values f m)
            (absent-pick_values k m (subst (λ z. contains (keys m) z ≡ false) key d.0)) in
        rw same (here (f a) same absent)
    | inr other ↦ rw other (there (f a) other (lookup-pick_values k m d.1))
  ]
    where
      here :
          (o : Option V)
          → (n == k) ≡ true
          → lookup k (pick_values f m) ≡ none
          → lookup k (put_some n o (pick_values f m)) ≡ o
      here none same absent = absent
      here (some v) same absent = rw same refl

      there :
          (o : Option V) {out : Option V}
          → (n == k) ≡ false
          → lookup k (pick_values f m) ≡ out
          → lookup k (put_some n o (pick_values f m)) ≡ out
      there none other rest = rest
      there (some v) other rest = rw other rest
