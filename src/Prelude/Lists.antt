-- ===== src/Prelude/Lists.antt =====
-- Lists measured by native numbers, predicates on every element, and membership tests.
use Prim.Native.Nat.{ℕ, zero, suc, ◌+◌, ◌-◌, ◌≤◌, ◌<◌, min}
use mathlib.Core.Path.{◌≡◌, refl, subst, ap, ◌∙◌}
use mathlib.Core.Logic.{◌⊎◌, inl, inr}
use mathlib.Core.Bool.{Bool, true, false, not, ◌||◌}
use mathlib.Core.List.{List, [], ◌∷◌, ◌++◌, map}
use mathlib.Core.Option.{Option, none, some}
use native.Mathlib.Omega.{arith}
use zelos_extension_opcua.Prelude.Tests.{if◌then◌else◌, Bool-cases}

module _ {ℓ} {A : Type ℓ} where
  abbrev pub length : List A → ℕ
  length [] = 0
  length (x ∷ xs) = suc (length xs)

  abbrev pub take : ℕ → List A → List A
  take zero xs = []
  take (suc n) [] = []
  take (suc n) (x ∷ xs) = x ∷ take n xs

  abbrev pub drop : ℕ → List A → List A
  drop zero xs = xs
  drop (suc n) [] = []
  drop (suc n) (x ∷ xs) = drop n xs

  abbrev pub get_elem? : List A → ℕ → Option A
  get_elem? [] i = none
  get_elem? (x ∷ xs) zero = some x
  get_elem? (x ∷ xs) (suc i) = get_elem? xs i

  pub length-append : (xs ys : List A) → length (xs ++ ys) ≡ length xs + length ys
  length-append [] ys = omega arith
  length-append (x ∷ xs) ys = omega (arith, length-append xs ys)

  pub take-append-drop : (n : ℕ) (xs : List A) → take n xs ++ drop n xs ≡ xs
  take-append-drop zero xs = refl
  take-append-drop (suc n) [] = refl
  take-append-drop (suc n) (x ∷ xs) = rw (take-append-drop n xs)

  pub length-drop : (n : ℕ) (xs : List A) → length (drop n xs) ≡ length xs - n
  length-drop zero xs = omega arith
  length-drop (suc n) [] = omega arith
  length-drop (suc n) (x ∷ xs) = omega (arith, length-drop n xs)

  pub length-take : (n : ℕ) (xs : List A) → length (take n xs) ≡ min n (length xs)
  length-take zero xs = omega arith
  length-take (suc n) [] = omega arith
  length-take (suc n) (x ∷ xs) = omega (arith, length-take n xs)

  -- `xs[i : i + n] for i in range(0, len(xs), n)`; the fuel is the length
  unfoldable pub chunks_from : ℕ → ℕ → List A → List (List A)
  chunks_from zero n xs = []
  chunks_from (suc fuel) n [] = []
  chunks_from (suc fuel) n (x ∷ xs) = take n (x ∷ xs) ∷ chunks_from fuel n (drop n (x ∷ xs))

  abbrev pub chunks : ℕ → List A → List (List A)
  chunks n xs = chunks_from (length xs) n xs

  abbrev pub flat : List (List A) → List A
  flat [] = []
  flat (xs ∷ xss) = xs ++ flat xss

  flat-chunks_from :
      (fuel n : ℕ) (xs : List A) → 0 < n → length xs ≤ fuel → flat (chunks_from fuel n xs) ≡ xs
  unfolding chunks_from
  flat-chunks_from zero n [] h l = refl
  flat-chunks_from zero n (x ∷ xs) h l = absurd (omega arith)
  flat-chunks_from (suc fuel) n [] h l = refl
  flat-chunks_from (suc fuel) n (x ∷ xs) h l =
      let fits : length (drop n (x ∷ xs)) ≤ fuel = omega (arith, length-drop n (x ∷ xs)) in
      rw (flat-chunks_from fuel n (drop n (x ∷ xs)) h fits) (take-append-drop n (x ∷ xs))

  -- Nothing is lost between the chunks: the fuel suffices.
  pub flat-chunks : (n : ℕ) (xs : List A) → 0 < n → flat (chunks n xs) ≡ xs
  flat-chunks n xs h = flat-chunks_from (length xs) n xs h (omega arith)

  -- `[x for x in xs if p(x)]`
  abbrev pub keep_if : (A → Bool) → List A → List A
  keep_if p [] = []
  keep_if p (x ∷ xs) = if p x then x ∷ keep_if p xs else keep_if p xs

  -- `any(p(x) for x in xs)` and `all(p(x) for x in xs)`
  abbrev pub any_of : (A → Bool) → List A → Bool
  any_of p [] = false
  any_of p (x ∷ xs) = p x || any_of p xs

  abbrev pub all_of : (A → Bool) → List A → Bool
  all_of p [] = true
  all_of p (x ∷ xs) = if p x then all_of p xs else false

  -- `next((x for x in xs if p(x)), None)`
  abbrev pub find_first : (A → Bool) → List A → Option A
  find_first p [] = none
  find_first p (x ∷ xs) = if p x then some x else find_first p xs

  abbrev pub All {κ} : (A → Type κ) → List A → Type κ
  All P [] = Unit
  All P (x ∷ xs) = P x × All P xs

module _ {A : Type 0} where
  abbrev pub Any : (A → Type 0) → List A → Type 0
  Any P [] = ⊥
  Any P (x ∷ xs) = P x ⊎ Any P xs

  -- `a in xs`
  abbrev pub In : A → List A → Type 0
  In a [] = ⊥
  In a (x ∷ xs) = (x ≡ a) ⊎ In a xs

  pub In-append_left : (a : A) (xs ys : List A) → In a xs → In a (xs ++ ys)
  In-append_left a (x ∷ xs) ys (inl e) = inl e
  In-append_left a (x ∷ xs) ys (inr h) = inr (In-append_left a xs ys h)
  In-append_left a [] ys h = absurd h

  pub In-append_right : (a : A) (xs ys : List A) → In a ys → In a (xs ++ ys)
  In-append_right a [] ys h = h
  In-append_right a (x ∷ xs) ys h = inr (In-append_right a xs ys h)

  pub All-In : (P : A → Type 0) (a : A) (xs : List A) → All P xs → In a xs → P a
  All-In P a (x ∷ xs) h (inl e) = subst P e h.0
  All-In P a (x ∷ xs) h (inr i) = All-In P a xs h.1 i
  All-In P a [] h i = absurd i

  pub All-append : (P : A → Type 0) (xs ys : List A) → All P xs → All P ys → All P (xs ++ ys)
  All-append P [] ys hx hy = hy
  All-append P (x ∷ xs) ys hx hy = (hx.0, All-append P xs ys hx.1 hy)

  pub All-weaken : (P Q : A → Type 0) (xs : List A) → ((a : A) → P a → Q a) → All P xs → All Q xs
  All-weaken P Q [] f h = tt
  All-weaken P Q (x ∷ xs) f h = (f x h.0, All-weaken P Q xs f h.1)

  pub find_first-In :
      (p : A → Bool) (xs : List A) (a : A) → find_first p xs ≡ some a → In a xs × (p a ≡ true)
  find_first-In p [] a h = cc
  find_first-In p (x ∷ xs) a h = elim (Bool-cases (p x)) [
    | inl t ↦ let e : x ≡ a = ground arith in (inl e, cc)
    | inr f ↦ let r = find_first-In p xs a (ground arith) in (inr r.0, r.1)
  ]

  pub any_of-In :
      (p : A → Bool) (xs : List A) → any_of p xs ≡ true → (a : A) × In a xs × (p a ≡ true)
  any_of-In p [] h = cc
  any_of-In p (x ∷ xs) h = elim (Bool-cases (p x)) [
    | inl t ↦ (x, inl refl, t)
    | inr f ↦ let r = any_of-In p xs (ground arith) in (r.0, inr r.1, r.2)
  ]

  pub In-any_of : (p : A → Bool) (a : A) (xs : List A) → In a xs → p a ≡ true → any_of p xs ≡ true
  In-any_of p a (x ∷ xs) (inl e) t = let u : p x ≡ true = ap p e ∙ t in ground arith
  In-any_of p a (x ∷ xs) (inr i) t = ground (arith, In-any_of p a xs i t)
  In-any_of p a [] i t = absurd i

pub In-map : {A B : Type 0} → (f : A → B) (a : A) (xs : List A) → In a xs → In (f a) (map f xs)
In-map f a (x ∷ xs) (inl e) = inl (ap f e)
In-map f a (x ∷ xs) (inr i) = inr (In-map f a xs i)
In-map f a [] i = absurd i

pub All-self :
    {A : Type 0} → (xs ys : List A) → ((a : A) → In a xs → In a ys) → All (λ a. In a ys) xs
All-self [] ys sub = tt
All-self (x ∷ xs) ys sub = (sub x (inl refl), All-self xs ys (λ a i. sub a (inr i)))

pub All-split :
    {A : Type 0}
    → (P : A → Type 0) (b : A → Bool) (xs : List A) → All P (keep_if b xs)
    → All P (keep_if (λ a. not (b a)) xs)
    → All P xs
All-split P b [] kept others = tt
All-split P b (x ∷ xs) kept others = elim (Bool-cases (b x)) [
  | inl t ↦
      let all : P x × All P (keep_if b xs) = rw t at kept in
      (all.0, All-split P b xs all.1 (rw t at others))
  | inr f ↦
      let all : P x × All P (keep_if (λ a. not (b a)) xs) = rw f at others in
      (all.0, All-split P b xs (rw f at kept) all.1)
]

pub All-zip :
    {A : Type 0} (P Q R : A → Type 0) (xs : List A)
    → ((a : A) → P a → Q a → R a)
    → All P xs
    → All Q xs
    → All R xs
All-zip P Q R [] f hp hq = tt
All-zip P Q R (x ∷ xs) f hp hq = (f x hp.0 hq.0, All-zip P Q R xs f hp.1 hq.1)

pub map_twice :
    {A B C : Type 0}
    → (f : B → C) (g : A → B) (xs : List A) → map f (map g xs) ≡ map (λ x. f (g x)) xs
map_twice f g [] = refl
map_twice f g (x ∷ xs) = rw (map_twice f g xs) refl

pub All-keep_if :
    {A : Type 0} (p : A → Bool) (P : A → Type 0) (xs : List A)
    → ((a : A) → p a ≡ true → P a)
    → All P (keep_if p xs)
All-keep_if p P [] f = tt
All-keep_if p P (x ∷ xs) f = elim (Bool-cases (p x)) [
  | inl t ↦ rw t (f x t, All-keep_if p P xs f)
  | inr t ↦ rw t (All-keep_if p P xs f)
]

pub All-of : {A : Type 0} (P : A → Type 0) (xs : List A) → ((a : A) → In a xs → P a) → All P xs
All-of P [] f = tt
All-of P (x ∷ xs) f = (f x (inl refl), All-of P xs (λ a i. f a (inr i)))
