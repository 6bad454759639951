-- ===== src/Discovery/Subtypes/Climbing.antt =====
-- Climbing level by level, for all types at once, finds what climbing from each type alone finds.
use mathlib.Core.Path.{subst}
use mathlib.Core.List.{map-append}
use zelos_extension_opcua.Discovery.Subtypes.Picks.{
  then_pick, Distinct-pick_values, lookup-pick_values,
}
use zelos_extension_opcua.NodeMap.Node.{Datatype}
use zelos_extension_opcua.Discovery.Browse.{BrowseResult}
use zelos_extension_opcua.Discovery.Subtypes.{
  parent_in, supertypes, zip_dict, set_of, pick_values, pending_of, parent_at, advance,
  climb_levels, integer_subtypes,
}
use zelos_extension_opcua.Prelude.{
  ℕ, zero, suc, ◌<◌, ◌≡◌, refl, sym, ap, ◌∙◌, ◌≢◌, inl, inr, Bool, true, false, not, Option, none,
  some, List, [], ◌∷◌, map, arith, eqb, if◌then◌else◌, eqb_iff, Bool-cases, Eq, ◌==◌, nat_eq,
  length, chunks, flat, flat-chunks, keep_if, All, In, All-weaken, In-map, All-self, map_twice,
  Result, ok, Dict, keys, values, contains, In-contains, Distinct, lookup, All-lookup, Text,
  text_eq, sort_by, contains-sort_by,
}

module _ {N : Type 0} (resolved : N → Bool) (integer : N → Option Datatype) where
  -- One type on its own: the integer that it is or derives from, within some levels.
  pub climb : (N → Option N) → ℕ → N → Option Datatype
  climb parent zero a = integer a
  climb parent (suc levels) a =
      let above = then_pick (parent a) (climb parent levels) in
      if resolved a then integer a else above

  module _ {P : Type 0} ⦃e : Eq N⦄ (up : List N → Result Text (List (BrowseResult N P)))
      (order : N → N → Bool) (chunk : ℕ) (answer : N → BrowseResult N P)
      (honest : (types : List N) → up types ≡ ok (map answer types)) (pos : 0 < chunk) where
    abbrev parent_of : N → Option N
    parent_of a = parent_in (answer a).status (answer a)

    supertypes-map : (cs : List (List N)) → supertypes up cs ≡ ok (map parent_of (flat cs))
    unfolding supertypes
    supertypes-map [] = refl
    supertypes-map (c ∷ cs) =
        rw
          (
            honest c,
            supertypes-map cs,
            map_twice (λ r. parent_in r.status r) answer c,
            map-append parent_of c (flat cs),
          )
          refl

    zip_dict-map :
        {V : Type 0} (g : N → V) (ns : List N)
        → zip_dict ns (map g ns) ≡ ok (map (λ n. (n, g n)) ns)
    unfolding zip_dict
    zip_dict-map g [] = refl
    zip_dict-map g (n ∷ ns) = rw (zip_dict-map g ns) refl

    lookup-zipped :
        {V : Type 0} (g : N → V) (ns : List N) (a : N)
        → contains ns a ≡ true
        → lookup a (map (λ n. (n, g n)) ns) ≡ some (g a)
    unfolding lookup contains
    lookup-zipped g [] a h = cc
    lookup-zipped g (n ∷ ns) a h = elim (Bool-cases (n == a)) [
      | inl same ↦ rw same (ap (λ z. some (g z)) ((e.equals_iff n a).0 same))
      | inr other ↦ rw other (lookup-zipped g ns a (rw other at h))
    ]

    contains-set_of : (ns : List N) (a : N) → contains (set_of ns) a ≡ contains ns a
    unfolding set_of contains
    contains-set_of [] a = refl
    contains-set_of (n ∷ ns) a =
        ground (arith, contains-set_of ns a, contains-set_of ns n, e.equals_iff n a)

    map_same : {A : Type 0} (xs : List A) → map (λ x. x) xs ≡ xs
    map_same [] = refl
    map_same (x ∷ xs) = rw (map_same xs) refl

    contains-keep_if :
        (p : N → Bool) (ns : List N) (a : N)
        → p a ≡ true
        → contains ns a ≡ true
        → contains (keep_if p ns) a ≡ true
    unfolding contains
    contains-keep_if p [] a t h = cc
    contains-keep_if p (n ∷ ns) a t h = elim (Bool-cases (n == a)) [
      | inl same ↦
          let kept : p n ≡ true = subst (λ z. p z ≡ true) (sym ((e.equals_iff n a).0 same)) t in
          rw kept (rw same refl)
      | inr other ↦ by_value (p n) (contains-keep_if p ns a t (rw other at h))
    ]
      where
        by_value :
            (b : Bool)
            → contains (keep_if p ns) a ≡ true
            → contains (if◌then◌else◌ {A = List N} b (n ∷ keep_if p ns) (keep_if p ns)) a ≡ true
        by_value true rest = ground (arith, rest)
        by_value false rest = rest

    -- What an ancestor turns into in one level.
    abbrev above : N → Option N
    above a = if resolved a then some a else parent_of a

    In-values : (ancestor : Dict N N) → All (λ x. contains (values ancestor) x.1 ≡ true) ancestor
    In-values ancestor = All-map_In ancestor ancestor (λ x i. i)
      where
        All-map_In :
            (part : Dict N N) (whole : Dict N N)
            → ((x : N × N) → In x part → In x whole)
            → All (λ x. contains (values whole) x.1 ≡ true) part
        All-map_In [] whole sub = tt
        All-map_In (x ∷ part) whole sub = (
          In-contains (values whole) x.1 (In-map (λ y. y.1) x whole (sub x (inl refl))),
          All-map_In part whole (λ y i. sub y (inr i)),
        )

    pending_of-All :
        (ancestor : Dict N N)
        → All
            (λ x.
              resolved x.1 ≡ false
              → contains (pending_of resolved integer order ancestor) x.1 ≡ true)
            ancestor
    pending_of-All ancestor =
        All-weaken (λ x. contains (values ancestor) x.1 ≡ true) _ ancestor
          (λ x there unresolved.
            let open_ones = keep_if (λ a. not (resolved a)) (values ancestor) in
            let kept : contains open_ones x.1 ≡ true =
              contains-keep_if (λ a. not (resolved a)) (values ancestor) x.1 (rw unresolved refl)
                there in
            subst (λ z. contains z x.1 ≡ true) (map_same (sort_by order (set_of open_ones)))
              (contains-sort_by order (λ z. z) (set_of open_ones) x.1
                ∙ (ap (λ z. contains z x.1) (map_same (set_of open_ones))
                    ∙ (contains-set_of open_ones x.1 ∙ kept))))
          (In-values ancestor)

    parent_at-above :
        (a : N) (pending : List N)
        → (resolved a ≡ false → contains pending a ≡ true)
        → parent_at resolved integer (resolved a) a (map (λ n. (n, parent_of n)) pending)
          ≡ ok (above a)
    parent_at-above a pending h = by_resolved (resolved a) h
      where
        by_resolved :
            (b : Bool)
            → (b ≡ false → contains pending a ≡ true)
            → parent_at resolved integer b a (map (λ n. (n, parent_of n)) pending)
              ≡ ok (if◌then◌else◌ {A = Option N} b (some a) (parent_of a))
        by_resolved true h = refl
        by_resolved false h = rw (lookup-zipped parent_of pending a (h refl)) refl

    advance-picks :
        (pending : List N) (ancestor : Dict N N)
        → All (λ x. resolved x.1 ≡ false → contains pending x.1 ≡ true) ancestor
        → advance resolved integer (map (λ n. (n, parent_of n)) pending) ancestor
          ≡ ok (pick_values above ancestor)
    unfolding advance pick_values
    advance-picks pending [] h = refl
    advance-picks pending ((t, a) ∷ ancestor) h =
        rw (parent_at-above a pending h.0, advance-picks pending ancestor h.1) refl

    then_pick-same :
        {A V : Type 0} (o : Option A) (f g : A → Option V)
        → ((a : A) → o ≡ some a → f a ≡ g a)
        → then_pick o f ≡ then_pick o g
    then_pick-same none f g h = refl
    then_pick-same (some a) f g h = h a refl

    climb-resolved : (n : ℕ) (a : N) → resolved a ≡ true → climb parent_of n a ≡ integer a
    unfolding climb
    climb-resolved zero a h = refl
    climb-resolved (suc n) a h = rw h refl

    climb-above :
        (n : ℕ) (a : N) → then_pick (above a) (climb parent_of n) ≡ climb parent_of (suc n) a
    unfolding climb
    climb-above n a = elim (Bool-cases (resolved a)) [
      | inl t ↦ rw t (climb-resolved n a t)
      | inr f ↦ rw f refl
    ]

    then_pick-twice :
        (n : ℕ) (o : Option N)
        → then_pick (then_pick o above) (climb parent_of n) ≡ then_pick o (climb parent_of (suc n))
    then_pick-twice n none = refl
    then_pick-twice n (some a) = climb-above n a

    resolved-All :
        (ancestor : Dict N N)
        → length (pending_of resolved integer order ancestor) ≡ 0
        → All (λ x. resolved x.1 ≡ true) ancestor
    unfolding contains
    resolved-All ancestor h =
        All-weaken
          (λ x.
            resolved x.1 ≡ false → contains (pending_of resolved integer order ancestor) x.1 ≡ true)
          (λ x. resolved x.1 ≡ true) ancestor
          (λ x there. elim (Bool-cases (resolved x.1)) [
            | inl t ↦ t
            | inr f ↦
                absurd (nothing_in (pending_of resolved integer order ancestor) x.1 h (there f))
          ])
          (pending_of-All ancestor)
      where
        nothing_in : (ns : List N) (a : N) → length ns ≡ 0 → contains ns a ≢ true
        nothing_in [] a h = λ c. cc c
        nothing_in (n ∷ ns) a h = λ c. absurd (omega (arith, h))

    -- The levels are climbed, and give each type what it has alone.
    abbrev Climbs : ℕ → Dict N N → Dict N N → Type 0
    Climbs n ancestor out =
        Distinct (keys out)
        × ((t : N)
            → then_pick (lookup t out) integer ≡ then_pick (lookup t ancestor) (climb parent_of n))

    climb_levels-Climbs :
        (n : ℕ) (ancestor : Dict N N)
        → Distinct (keys ancestor)
        → (out : Dict N N) × (climb_levels resolved integer up order chunk n ancestor ≡ ok out)
          × Climbs n ancestor out
    unfolding climb_levels climb
    climb_levels-Climbs zero ancestor d = (
      ancestor,
      refl,
      (d, λ t. then_pick-same (lookup t ancestor) integer (climb parent_of zero) (λ a h. refl)),
    )
    climb_levels-Climbs (suc n) ancestor d =
        elim (Bool-cases (eqb (length (pending_of resolved integer order ancestor)) 0)) [
          | inl t ↦ (
            ancestor,
            rw t refl,
            (
              d,
              λ k. then_pick-same (lookup k ancestor) integer (climb parent_of (suc n)) (λ a found.
                  sym (
                    climb-resolved (suc n) a (
                      All-lookup (λ x. resolved x.1 ≡ true) k ancestor
                        (resolved-All ancestor
                          ((eqb_iff (length (pending_of resolved integer order ancestor)) 0).0 t))
                        found))),
            ),
          )
          | inr f ↦
              let pending = pending_of resolved integer order ancestor in
              let (out, run, rest) =
                climb_levels-Climbs n (pick_values above ancestor)
                  (Distinct-pick_values above ancestor d) in
              (
                out,
                rw
                    (
                      f,
                      supertypes-map (chunks chunk pending),
                      flat-chunks chunk pending pos,
                      zip_dict-map parent_of pending,
                      advance-picks pending ancestor (pending_of-All ancestor),
                      run,
                    )
                    refl,
                (
                  rest.0,
                  λ k.
                      rest.1 k
                      ∙ (ap (λ z. then_pick z (climb parent_of n))
                            (lookup-pick_values above k ancestor d)
                          ∙ then_pick-twice n (lookup k ancestor)),
                ),
              )
        ]

    keys_self : (types : List N) → keys (map (λ t. (t, t)) types) ≡ types
    keys_self [] = refl
    keys_self (t ∷ types) = rw (keys_self types) refl

    -- With requests of at least one type, to a server that answers for each type on its own: for
    -- distinct types the levels are climbed without an error, and every type gets the integer that
    -- it is or derives from within eight levels, as climbing from it alone finds.
    pub integer_subtypes-climb :
        (types : List N)
        → Distinct types
        → (out : Dict N Datatype) × (integer_subtypes resolved integer up order chunk types
            ≡ ok out)
          × All (λ t. lookup t out ≡ climb parent_of 8 t) types
    unfolding integer_subtypes
    integer_subtypes-climb types d =
        let start = map (λ t. (t, t)) types in
        let distinct = subst Distinct (sym (keys_self types)) d in
        let (last, run, (apart, same)) = climb_levels-Climbs 8 start distinct in
        (
          pick_values integer last,
          rw run refl,
          All-weaken (λ t. contains types t ≡ true)
              (λ t. lookup t (pick_values integer last) ≡ climb parent_of 8 t) types
              (λ t known.
                lookup-pick_values integer t last apart
                ∙ (same t
                    ∙ ap (λ z. then_pick z (climb parent_of 8))
                        (lookup-zipped (λ z. z) types t known)))
              (All-weaken (λ t. In t types) (λ t. contains types t ≡ true) types
                (λ t i. In-contains types t i) (All-self types types (λ t i. i))),
        )
