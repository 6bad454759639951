-- ===== src/Prelude/Dicts.antt =====
-- A Python dict as an association list in insertion order: a write to a key that is present keeps
-- its place, a new key goes last.
use mathlib.Core.Path.{◌≡◌, refl, subst, ap, ◌∙◌}
use mathlib.Core.Bool.{Bool, true, false, ◌||◌}
use mathlib.Core.List.{List, [], ◌∷◌, ◌++◌, map}
use mathlib.Core.Logic.{inl, inr}
use mathlib.Core.Option.{Option, none, some}
use native.Mathlib.Omega.{arith}
use zelos_extension_opcua.Prelude.Tests.{if◌then◌else◌, Bool-cases, Eq, ◌==◌, nat_eq}
use zelos_extension_opcua.Prelude.Lists.{All, In}

abbrev pub Dict {ℓ} : Type ℓ → Type ℓ → Type ℓ
Dict K V = List (K × V)

module _ {ℓ} {K V : Type ℓ} where
  abbrev pub keys : Dict K V → List K
  keys = map (λ e. e.0)

  abbrev pub values : Dict K V → List V
  values = map (λ e. e.1)

module _ {K : Type 0} ⦃e : Eq K⦄ where
  -- `a in xs`
  unfoldable pub contains : List K → K → Bool
  contains [] a = false
  contains (x ∷ xs) a = x == a || contains xs a

  pub contains-In : (xs : List K) (a : K) → contains xs a ≡ true → In a xs
  unfolding contains
  contains-In [] a h = cc
  contains-In (x ∷ xs) a h = ground (arith, e.equals_iff x a, contains-In xs a)

  pub In-contains : (xs : List K) (a : K) → In a xs → contains xs a ≡ true
  unfolding contains
  In-contains (x ∷ xs) a (inl p) = rw ((e.equals_iff x a).1 p)
  In-contains (x ∷ xs) a (inr h) = ground (arith, In-contains xs a h)
  In-contains [] a h = absurd h

  pub contains-last : (xs : List K) (a : K) → contains (xs ++ a ∷ []) a ≡ true
  unfolding contains
  contains-last [] a = ground (arith, e.equals_iff a a)
  contains-last (x ∷ xs) a = ground (arith, contains-last xs a)

  -- No element stands twice.
  abbrev pub Distinct : List K → Type 0
  Distinct [] = Unit
  Distinct (x ∷ xs) = (contains xs x ≡ false) × Distinct xs

  pub contains-append :
      (xs ys : List K) (a : K) → contains (xs ++ ys) a ≡ (contains xs a || contains ys a)
  unfolding contains
  contains-append [] ys a = refl
  contains-append (x ∷ xs) ys a = ground (arith, contains-append xs ys a)

  pub Distinct-snoc :
      (xs : List K) (a : K) → Distinct xs → contains xs a ≡ false → Distinct (xs ++ a ∷ [])
  unfolding contains
  Distinct-snoc [] a d h = (refl, tt)
  Distinct-snoc (x ∷ xs) a d h = (
    ground (arith, contains-append xs (a ∷ []) x, e.equals_iff x a, e.equals_iff a x),
    Distinct-snoc xs a d.1 (ground arith),
  )

  pub Distinct-middle :
      (xs : List K) (a : K) (ys : List K) → Distinct (xs ++ a ∷ ys) → contains xs a ≡ false
  unfolding contains
  Distinct-middle [] a ys d = refl
  Distinct-middle (x ∷ xs) a ys d =
      let rest = Distinct-middle xs a ys d.1 in
      ground (arith, contains-append xs (a ∷ ys) x, e.equals_iff x a, e.equals_iff a x, d.0)

  pub Distinct-append :
      (xs ys : List K)
      → Distinct (xs ++ ys)
      → Distinct xs × Distinct ys × All (λ x. contains ys x ≡ false) xs
  unfolding contains
  Distinct-append [] ys d = (tt, d, tt)
  Distinct-append (x ∷ xs) ys d =
      let (left, right, apart) = Distinct-append xs ys d.1 in
      (
        (ground (arith, contains-append xs ys x, d.0), left),
        right,
        (ground (arith, contains-append xs ys x, d.0), apart),
      )

module _ {K V : Type 0} ⦃e : Eq K⦄ where
  -- `m.get(k)`
  unfoldable pub lookup : K → Dict K V → Option V
  lookup k [] = none
  lookup k ((j, v) ∷ m) = if j == k then some v else lookup k m

  -- `m[k] = v`
  unfoldable pub insert : K → V → Dict K V → Dict K V
  insert key value [] = (key, value) ∷ []
  insert key value ((other, old) ∷ rest) =
      if other == key then (key, value) ∷ rest else (other, old) ∷ insert key value rest

  -- `m.pop(k, None)`, also `del m[k]` where the key is there: a dict holds a key once
  unfoldable pub erase : K → Dict K V → Dict K V
  erase k [] = []
  erase k ((j, v) ∷ m) = if j == k then erase k m else (j, v) ∷ erase k m

  pub lookup-insert :
      (key asked : K) (value : V) (dict : Dict K V)
      → lookup asked (insert key value dict)
        ≡ (if key == asked then some value else lookup asked dict)
  unfolding insert lookup
  lookup-insert key asked value [] = refl
  lookup-insert key asked value ((other, old) ∷ dict) = ground (
    arith,
    e.equals_iff key asked,
    e.equals_iff other key,
    e.equals_iff other asked,
    lookup-insert key asked value dict,
  )

  pub lookup-erase :
      (k j : K) (m : Dict K V) → lookup j (erase k m) ≡ (if k == j then none else lookup j m)
  unfolding lookup erase
  lookup-erase k j [] = ground arith
  lookup-erase k j ((i, w) ∷ m) =
      ground (arith, e.equals_iff k j, e.equals_iff i k, e.equals_iff i j, lookup-erase k j m)

  -- `k in m` for a dict
  pub contains-keys-lookup :
      (k : K) (m : Dict K V) → contains (keys m) k ≡ false → lookup k m ≡ none
  unfolding contains lookup
  contains-keys-lookup k [] h = refl
  contains-keys-lookup k ((j, v) ∷ m) h = ground (arith, contains-keys-lookup k m)

  -- A new key goes last.
  pub insert_new :
      (k : K) (v : V) (m : Dict K V) → contains (keys m) k ≡ false → insert k v m ≡ m ++ (k, v) ∷ []
  unfolding contains insert
  insert_new k v [] h = refl
  insert_new k v ((j, w) ∷ m) h = ground (arith, insert_new k v m)

  pub All-lookup :
      (P : K × V → Type 0) (k : K) (m : Dict K V) {v : V} → All P m → lookup k m ≡ some v → P (k, v)
  unfolding lookup
  All-lookup P k [] h t = cc
  All-lookup P k ((j, w) ∷ m) {v} h t = elim (Bool-cases (j == k)) [
    | inl same ↦
        let key : j ≡ k = (e.equals_iff j k).0 same in
        let here : w ≡ v = ground (arith, same, t) in
        subst P (ap (λ i. (i, w)) key ∙ ap (λ x. (k, x)) here) h.0
    | inr other ↦ All-lookup P k m h.1 (rw other at t)
  ]

  pub All-insert :
      (P : K × V → Type 0) (k : K) (v : V) (m : Dict K V)
      → All P m
      → P (k, v)
      → All P (insert k v m)
  unfolding insert
  All-insert P k v [] h p = (p, tt)
  All-insert P k v ((j, w) ∷ m) h p = elim (Bool-cases (j == k)) [
    | inl same ↦ rw same (p, h.1)
    | inr other ↦ rw other (h.0, All-insert P k v m h.1 p)
  ]

  pub contains-keys-insert :
      (k j : K) (v : V) (m : Dict K V)
      → contains (keys (insert k v m)) j ≡ (contains (keys m) j || k == j)
  unfolding insert contains
  contains-keys-insert k j v [] = ground arith
  contains-keys-insert k j v ((i, w) ∷ m) =
      ground
        (arith, contains-keys-insert k j v m, e.equals_iff i k, e.equals_iff i j, e.equals_iff k j)

  pub Distinct-insert :
      (k : K) (v : V) (m : Dict K V) → Distinct (keys m) → Distinct (keys (insert k v m))
  unfolding insert contains
  Distinct-insert k v [] d = (refl, tt)
  Distinct-insert k v ((i, w) ∷ m) d = elim (Bool-cases (i == k)) [
    | inl same ↦ let e' : i ≡ k = (e.equals_iff i k).0 same in rw same (rw e' at d)
    | inr other ↦ rw other (
      ground (arith, contains-keys-insert k i v m, e.equals_iff i k, e.equals_iff k i),
      Distinct-insert k v m d.1,
    )
  ]
