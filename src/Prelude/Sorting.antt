-- ===== src/Prelude/Sorting.antt =====
-- `sorted`, which is stable, the order of texts, and counting.
use Prim.Native.Nat.{ℕ, ◌+◌, ◌≤◌}
use mathlib.Core.Path.{◌≡◌, refl, sym, ap, ◌∙◌}
use mathlib.Core.Bool.{Bool, true, false, ◌&&◌, ◌||◌}
use mathlib.Core.List.{List, [], ◌∷◌, map}
use mathlib.Core.Logic.{inl, inr}
use native.Mathlib.Omega.{arith}
use zelos_extension_opcua.Prelude.Tests.{
  ltb, eqb, if◌then◌else◌, Bool-cases, Eq, ◌==◌, nat_eq, ==_refl,
}
use zelos_extension_opcua.Prelude.Lists.{All, In}
use zelos_extension_opcua.Prelude.Dicts.{contains, Distinct}
use zelos_extension_opcua.Prelude.Texts.{Text}

module _ {A : Type 0} (le : A → A → Bool) where
  unfoldable pub insert_by : A → List A → List A
  insert_by x [] = x ∷ []
  insert_by x (y ∷ ys) = let rest = insert_by x ys in if le x y then x ∷ y ∷ ys else y ∷ rest

  unfoldable pub sort_by : List A → List A
  sort_by [] = []
  sort_by (x ∷ xs) = insert_by x (sort_by xs)

  pub All-insert_by :
      (P : A → Type 0) (x : A) (xs : List A) → P x → All P xs → All P (insert_by x xs)
  unfolding insert_by
  All-insert_by P x [] p h = (p, tt)
  All-insert_by P x (y ∷ ys) p h = elim (Bool-cases (le x y)) [
    | inl t ↦ rw t (p, h)
    | inr f ↦ rw f (h.0, All-insert_by P x ys p h.1)
  ]

  pub All-sort_by : (P : A → Type 0) (xs : List A) → All P xs → All P (sort_by xs)
  unfolding sort_by
  All-sort_by P [] h = tt
  All-sort_by P (x ∷ xs) h = All-insert_by P x (sort_by xs) h.0 (All-sort_by P xs h.1)

  module _ {K : Type 0} ⦃e : Eq K⦄ (f : A → K) where
    pub contains-insert_by :
        (x : A) (xs : List A) (k : K)
        → contains (map f (insert_by x xs)) k ≡ contains (map f (x ∷ xs)) k
    unfolding insert_by contains
    contains-insert_by x [] k = refl
    contains-insert_by x (y ∷ ys) k = ground (arith, contains-insert_by x ys k)

    pub contains-sort_by :
        (xs : List A) (k : K) → contains (map f (sort_by xs)) k ≡ contains (map f xs) k
    unfolding sort_by contains
    contains-sort_by [] k = refl
    contains-sort_by (x ∷ xs) k =
        ground (arith, contains-insert_by x (sort_by xs) k, contains-sort_by xs k)

    Distinct-insert_by :
        (x : A) (xs : List A)
        → contains (map f xs) (f x) ≡ false
        → Distinct (map f xs)
        → Distinct (map f (insert_by x xs))
    unfolding insert_by contains
    Distinct-insert_by x [] h d = (refl, tt)
    Distinct-insert_by x (y ∷ ys) h d = elim (Bool-cases (le x y)) [
      | inl t ↦ rw t (h, d)
      | inr t ↦ rw t (
        ground (
          arith,
          contains-insert_by x ys (f y),
          e.equals_iff (f x) (f y),
          e.equals_iff (f y) (f x),
          d.0,
          h,
        ),
        Distinct-insert_by x ys (ground arith) d.1,
      )
    ]

    pub Distinct-sort_by : (xs : List A) → Distinct (map f xs) → Distinct (map f (sort_by xs))
    unfolding sort_by contains
    Distinct-sort_by [] d = tt
    Distinct-sort_by (x ∷ xs) d =
        Distinct-insert_by x (sort_by xs) (contains-sort_by xs (f x) ∙ d.0)
          (Distinct-sort_by xs d.1)

-- `s <= t`
unfoldable pub text_le : Text → Text → Bool
text_le [] t = true
text_le (c ∷ s) [] = false
text_le (c ∷ s) (d ∷ t) = ltb c d || (eqb c d && text_le s t)

module _ {A K : Type 0} ⦃e : Eq K⦄ (f : A → K) where
  -- `Counter(f(x) for x in xs)[k]`
  unfoldable pub count_of : List A → K → ℕ
  count_of [] k = 0
  count_of (x ∷ xs) k = (if f x == k then 1 else 0) + count_of xs k

  count_of-In : (xs : List A) (a : A) → In a xs → 1 ≤ count_of xs (f a)
  unfolding count_of
  count_of-In (x ∷ xs) a (inl p) = rw (p, ==_refl (f a)) (omega arith)
  count_of-In (x ∷ xs) a (inr h) = let i = count_of-In xs a h in omega (arith, i)
  count_of-In [] a h = absurd h

  -- What is counted once stands once.
  pub count_of-once :
      (xs : List A) (a b : A) → count_of xs (f a) ≤ 1 → In a xs → In b xs → f a ≡ f b → a ≡ b
  unfolding count_of
  count_of-once (x ∷ xs) a b h (inl p) (inl q) same = cc
  count_of-once (x ∷ xs) a b h (inl p) (inr j) same =
      let here : (f x == f a) ≡ true = (e.equals_iff (f x) (f a)).1 (ap f p) in
      let more : 1 ≤ count_of xs (f a) = rw same (count_of-In xs b j) in
      absurd (ground (arith, here, more, h))
  count_of-once (x ∷ xs) a b h (inr i) (inl q) same =
      let here : (f x == f a) ≡ true = (e.equals_iff (f x) (f a)).1 (ap f q ∙ sym same) in
      let more : 1 ≤ count_of xs (f a) = count_of-In xs a i in
      absurd (ground (arith, here, more, h))
  count_of-once (x ∷ xs) a b h (inr i) (inr j) same =
      count_of-once xs a b (omega (arith, h)) i j same
  count_of-once [] a b h i j same = absurd i

-- Distinct keys stay distinct under a map that tells apart what they tell apart.
pub Distinct-map :
    {A K L : Type 0} ⦃e : Eq K⦄ ⦃d : Eq L⦄
    → (f : A → K) (g : A → L) (xs : List A)
    → ((a b : A) → In a xs → In b xs → g a ≡ g b → f a ≡ f b)
    → Distinct (map f xs)
    → Distinct (map g xs)
unfolding contains
Distinct-map f g [] h dist = tt
Distinct-map {A = A} {K = K} {L = L} ⦃e⦄ ⦃d⦄ f g (x ∷ xs) h dist =
    (other xs (λ b i. inr i) dist.0, Distinct-map f g xs (λ a b i j. h a b (inr i) (inr j)) dist.1)
  where
    other :
        (ys : List A)
        → ((b : A) → In b ys → In b (x ∷ xs))
        → contains (map f ys) (f x) ≡ false
        → contains (map g ys) (g x) ≡ false
    other [] sub n = refl
    other (y ∷ ys) sub n = ground (
      arith,
      other ys (λ b i. sub b (inr i)),
      d.equals_iff (g y) (g x),
      e.equals_iff (f y) (f x),
      h y x (sub y (inl refl)) (inl refl),
    )
