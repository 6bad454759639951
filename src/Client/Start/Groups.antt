-- ===== src/Client/Start/Groups.antt =====
-- The groups of the items: each target stands in the group of its interval, under a handle of its own.
use mathlib.Core.Path.{subst}
use mathlib.Core.List.{map-append}
use zelos_extension_opcua.Client.Transport.Coverage.{handles, targets}
use zelos_extension_opcua.Client.Start.{list_or, append_at, enumerate_from, group_items}
use zelos_extension_opcua.Prelude.{
  ℕ, ◌+◌, ◌<◌, ◌≡◌, refl, sym, ap, ◌∙◌, inl, inr, true, false, Option, none, some, List, [], ◌∷◌,
  ◌++◌, append-nil, append_assoc, arith, eqb, eqb_iff, Bool-cases, nat_eq, ==_refl, All, In,
  In-append_left, In-append_right, All-append, All-weaken, Dict, keys, contains, contains-last,
  Distinct, contains-append, Distinct-snoc, Distinct-middle, lookup, lookup-insert, All-lookup,
  All-insert, Distinct-insert, text_eq,
}

module _ {A : Type 0} where
  pub append_at-old :
      (j k : ℕ) (x y : A) (m : Dict ℕ (List A))
      → In y (list_or (lookup j m))
      → In y (list_or (lookup j (append_at k x m)))
  append_at-old j k x y m h = elim (Bool-cases (eqb k j)) [
    | inl t ↦
        let same : k ≡ j = ground arith in
        rw (lookup-insert k j (list_or (lookup k m) ++ x ∷ []) m, t)
          (In-append_left y (list_or (lookup k m)) (x ∷ [])
            (subst (λ i. In y (list_or (lookup i m))) (sym same) h))
    | inr f ↦ rw (lookup-insert k j (list_or (lookup k m) ++ x ∷ []) m, f) h
  ]

  pub append_at-new :
      (k : ℕ) (x : A) (m : Dict ℕ (List A)) → In x (list_or (lookup k (append_at k x m)))
  append_at-new k x m =
      rw (lookup-insert k k (list_or (lookup k m) ++ x ∷ []) m, ==_refl k)
        (In-append_right x (list_or (lookup k m)) (x ∷ []) (inl refl))

  pub All-lookup_self : (m : Dict ℕ A) → Distinct (keys m) → All (λ e. lookup e.0 m ≡ some e.1) m
  unfolding lookup contains
  All-lookup_self [] d = tt
  All-lookup_self ((k, v) ∷ m) d = (rw (==_refl k) refl, later m d.0 (All-lookup_self m d.1))
    where
      later :
          (n : Dict ℕ A)
          → contains (keys n) k ≡ false
          → All (λ e. lookup e.0 m ≡ some e.1) n
          → All (λ e. lookup e.0 ((k, v) ∷ m) ≡ some e.1) n
      later [] absent all = tt
      later (e ∷ n) absent all =
          (ground (arith, absent, all.0), later n (ground (arith, absent)) all.1)

-- Groups of distinct intervals whose items have distinct handles, across the groups too.
abbrev pub AreApart : {T : Type 0} → Dict ℕ (List (ℕ × T)) → Type 0
AreApart [] = Unit
AreApart (g ∷ groups) =
    Distinct (handles g.1)
    × (contains (keys groups) g.0 ≡ false)
    × All (λ x. All (λ o. contains (handles o.1) x.0 ≡ false) groups) g.1
    × AreApart groups

module _ {T : Type 0} (interval_for : T → ℕ) where
  -- The items have distinct handles, each seen before, and the interval and the target of its own.
  abbrev pub IsOwn : List (ℕ × T) → ℕ → ℕ × T → Type 0
  IsOwn numbered interval x = (interval_for x.1 ≡ interval) × (lookup x.0 numbered ≡ some x.1)

  abbrev IsGroup : List (ℕ × T) → List ℕ → ℕ × List (ℕ × T) → Type 0
  IsGroup numbered done g =
      Distinct (handles g.1)
      × All (IsOwn numbered g.0) g.1
      × All (λ x. contains done x.0 ≡ true) g.1

  IsGroup-snoc :
      (numbered : List (ℕ × T)) (done : List ℕ) (h : ℕ) (g : ℕ × List (ℕ × T))
      → IsGroup numbered done g
      → IsGroup numbered (done ++ h ∷ []) g
  IsGroup-snoc numbered done h g (d, own, seen) = (
    d,
    own,
    All-weaken (λ x. contains done x.0 ≡ true) (λ x. contains (done ++ h ∷ []) x.0 ≡ true) g.1
        (λ x s. rw (contains-append done (h ∷ []) x.0, s) refl) seen,
  )

  unseen_handle :
      (done : List ℕ) (h : ℕ) (items : List (ℕ × T))
      → All (λ x. contains done x.0 ≡ true) items
      → contains done h ≡ false
      → contains (handles items) h ≡ false
  unfolding contains
  unseen_handle done h [] all absent = refl
  unseen_handle done h (x ∷ items) all absent =
      ground (arith, unseen_handle done h items all.1 absent, all.0)

  list_or-IsGroup :
      (numbered : List (ℕ × T)) (done : List ℕ) (i : ℕ) (groups : Dict ℕ (List (ℕ × T)))
      → All (IsGroup numbered done) groups
      → IsGroup numbered done (i, list_or (lookup i groups))
  list_or-IsGroup numbered done i groups all = by_lookup (lookup i groups) refl
    where
      by_lookup :
          (o : Option (List (ℕ × T))) → lookup i groups ≡ o → IsGroup numbered done (i, list_or o)
      by_lookup none h = (tt, tt, tt)
      by_lookup (some items) h = All-lookup (IsGroup numbered done) i groups all h

  group_items-IsGroup :
      (numbered : List (ℕ × T)) (done : List ℕ) (items : List (ℕ × T))
      (groups : Dict ℕ (List (ℕ × T)))
      → Distinct (done ++ handles items)
      → All (λ e. lookup e.0 numbered ≡ some e.1) items
      → All (IsGroup numbered done) groups
      → All (IsGroup numbered (done ++ handles items)) (group_items interval_for items groups)
  unfolding group_items
  group_items-IsGroup numbered done [] groups d own all =
      subst (λ z. All (IsGroup numbered z) groups) (sym (append-nil done)) all
  group_items-IsGroup numbered done ((h, t) ∷ items) groups d own all =
      let i = interval_for t in
      let old = list_or (lookup i groups) in
      let (apart, owned, seen) = list_or-IsGroup numbered done i groups all in
      let new = unseen_handle done h old seen (Distinct-middle done h (handles items) d) in
      let whole = append_assoc done (h ∷ []) (handles items) in
      let (_, _, seen') = IsGroup-snoc numbered done h (i, old) (apart, owned, seen) in
      subst
        (λ z. All (IsGroup numbered z) (group_items interval_for items (append_at i (h, t) groups)))
        whole
        (group_items-IsGroup numbered (done ++ h ∷ []) items (append_at i (h, t) groups)
          (subst Distinct (sym whole) d) own.1
          (All-insert (IsGroup numbered (done ++ h ∷ [])) i (old ++ (h, t) ∷ []) groups
            (All-weaken (IsGroup numbered done) (IsGroup numbered (done ++ h ∷ [])) groups
              (IsGroup-snoc numbered done h) all)
            (
              subst Distinct (sym (map-append (λ x. x.0) old ((h, t) ∷ [])))
                  (Distinct-snoc (handles old) h apart new),
              All-append (IsOwn numbered i) old ((h, t) ∷ []) owned ((refl, own.0), tt),
              All-append (λ x. contains (done ++ h ∷ []) x.0 ≡ true) old ((h, t) ∷ []) seen'
                  (contains-last done h, tt),
            )))

  group_items-keys :
      (items : List (ℕ × T)) (groups : Dict ℕ (List (ℕ × T)))
      → Distinct (keys groups)
      → Distinct (keys (group_items interval_for items groups))
  unfolding group_items
  group_items-keys [] groups d = d
  group_items-keys ((h, t) ∷ items) groups d =
      group_items-keys items (append_at (interval_for t) (h, t) groups) (
        Distinct-insert (interval_for t) (list_or (lookup (interval_for t) groups) ++ (h, t) ∷ [])
          groups d)

  -- An item stays in its group.
  group_items-old :
      (items : List (ℕ × T)) (groups : Dict ℕ (List (ℕ × T))) (i : ℕ) (x : ℕ × T)
      → In x (list_or (lookup i groups))
      → In x (list_or (lookup i (group_items interval_for items groups)))
  unfolding group_items
  group_items-old [] groups i x h = h
  group_items-old ((n, t) ∷ items) groups i x h =
      group_items-old items (append_at (interval_for t) (n, t) groups) i x
        (append_at-old i (interval_for t) (n, t) x groups h)

  -- Every item is in the group of its interval.
  pub group_items-In :
      (items : List (ℕ × T)) (groups : Dict ℕ (List (ℕ × T)))
      → All
          (λ x. In x (list_or (lookup (interval_for x.1) (group_items interval_for items groups))))
          items
  unfolding group_items
  group_items-In [] groups = tt
  group_items-In ((h, t) ∷ items) groups =
      let next = append_at (interval_for t) (h, t) groups in
      (
        group_items-old items next (interval_for t) (h, t)
            (append_at-new (interval_for t) (h, t) groups),
        group_items-In items next,
      )

  foreign :
      (numbered : List (ℕ × T)) (i j : ℕ) (x : ℕ × T) (items : List (ℕ × T))
      → eqb j i ≡ false
      → IsOwn numbered i x
      → All (IsOwn numbered j) items
      → contains (handles items) x.0 ≡ false
  unfolding contains
  foreign numbered i j x [] other own all = refl
  foreign numbered i j x (y ∷ items) other own all = elim (Bool-cases (eqb y.0 x.0)) [
    | inl t ↦
        let same : y.0 ≡ x.0 = (eqb_iff y.0 x.0).0 t in
        let one : some y.1 ≡ some x.1 = sym all.0.1 ∙ ap (λ h. lookup h numbered) same ∙ own.1 in
        let target : y.1 ≡ x.1 = cc in
        let key : j ≡ i = sym all.0.0 ∙ ap interval_for target ∙ own.0 in
        absurd (ground (arith, key, other))
    | inr f ↦ rw f (foreign numbered i j x items other own all.1)
  ]

  group-AreApart :
      (numbered : List (ℕ × T)) (done : List ℕ) (groups : Dict ℕ (List (ℕ × T)))
      → Distinct (keys groups)
      → All (IsGroup numbered done) groups
      → AreApart groups
  unfolding contains
  group-AreApart numbered done [] d all = tt
  group-AreApart numbered done (g ∷ groups) d all = (
    all.0.0,
    d.0,
    All-weaken (IsOwn numbered g.0) (λ x. All (λ o. contains (handles o.1) x.0 ≡ false) groups) g.1
        (λ x own. apart x own groups d.0 all.1) all.0.1,
    group-AreApart numbered done groups d.1 all.1,
  )
    where
      apart :
          (x : ℕ × T)
          → IsOwn numbered g.0 x
          → (others : Dict ℕ (List (ℕ × T))) → contains (keys others) g.0 ≡ false
          → All (IsGroup numbered done) others
          → All (λ o. contains (handles o.1) x.0 ≡ false) others
      apart x own [] absent others_own = tt
      apart x own (o ∷ others) absent others_own = (
        foreign numbered g.0 o.0 x o.1 (ground (arith, absent)) own others_own.0.1,
        apart x own others (ground (arith, absent)) others_own.1,
      )

  above :
      (n m : ℕ) (targets : List T) → n < m → contains (handles (enumerate_from m targets)) n ≡ false
  unfolding enumerate_from contains
  above n m [] lt = refl
  above n m (t ∷ targets) lt = ground (arith, above n (m + 1) targets (omega (arith, lt)), lt)

  enumerate_from-Distinct :
      (n : ℕ) (targets : List T) → Distinct (handles (enumerate_from n targets))
  unfolding enumerate_from
  enumerate_from-Distinct n [] = tt
  enumerate_from-Distinct n (t ∷ targets) =
      (above n (n + 1) targets (omega arith), enumerate_from-Distinct (n + 1) targets)

  pub groups-AreApart :
      (targets : List T) → AreApart (group_items interval_for (enumerate_from 1 targets) [])
  groups-AreApart targets =
      let numbered = enumerate_from 1 targets in
      let d = enumerate_from-Distinct 1 targets in
      group-AreApart numbered (handles numbered) (group_items interval_for numbered [])
        (group_items-keys numbered [] tt)
        (group_items-IsGroup numbered [] numbered [] d (All-lookup_self numbered d) tt)
