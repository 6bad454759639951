-- ===== src/Discovery/Walk/Filtered.antt =====
-- What the walk finds.
use mathlib.Core.List.{map-append}
use mathlib.Core.Path.{subst}
use zelos_extension_opcua.Discovery.Browse.Known.{
  IsAnswering, browse_batch-Known, IsAnswered, rpc-IsAnswering,
}
use zelos_extension_opcua.Discovery.Browse.{Rpc, browse_batch}
use zelos_extension_opcua.Discovery.Walk.{
  Reference, Found, Entry, Walk, is_variable, traced_path, is_traced, is_browsed, set_unit,
  set_range, take_property, new_found, visit, note_kept, visit_if, take_node, is_skipped,
  take_reference, take_references, take_pages, failures, walk_batches, walk_rounds, start_walk,
  start_frontier, walk,
}
use zelos_extension_opcua.Discovery.Filter.{BrowsePath, PathFilter, is_active}
use zelos_extension_opcua.Prelude.{
  ℕ, zero, suc, ◌≡◌, refl, sym, ◌⊎◌, inl, inr, Bool, true, false, ◌&&◌, Option, none, some, List,
  [], ◌∷◌, ◌++◌, map, arith, if◌then◌else◌, Bool-cases, &&-true, Eq, ◌==◌, nat_eq, chunks, All,
  All-append, All-weaken, ok, >>=-eq-ok, ok-injective, contains, contains-last, Distinct,
  contains-append, Distinct-snoc, Text, codes, text_eq,
}

module _ {N : Type 0} ⦃e : Eq N⦄ where
  -- What a Variable is found with: its id, its name and its path.
  abbrev pub view : Found N → N × (Text × BrowsePath)
  view f = (f.node_id, (f.name, f.path))

  abbrev pub views : List (Found N) → List (N × (Text × BrowsePath))
  views = map view

  abbrev pub view_ids : List (N × (Text × BrowsePath)) → List N
  view_ids = map (λ v. v.0)

  set_unit-views :
      (parent n : N) (found : List (Found N)) → views (set_unit parent n found) ≡ views found
  unfolding set_unit
  set_unit-views parent n [] = refl
  set_unit-views parent n (f ∷ found) = elim (Bool-cases (f.node_id == parent)) [
    | inl t ↦ rw (t, set_unit-views parent n found) refl
    | inr t ↦ rw (t, set_unit-views parent n found) refl
  ]

  set_range-views :
      (parent n : N) (found : List (Found N)) → views (set_range parent n found) ≡ views found
  unfolding set_range
  set_range-views parent n [] = refl
  set_range-views parent n (f ∷ found) = elim (Bool-cases (f.node_id == parent)) [
    | inl t ↦ rw (t, set_range-views parent n found) refl
    | inr t ↦ rw (t, set_range-views parent n found) refl
  ]

  unseen_new :
      (visited : List N) (n : N) (vs : List (N × (Text × BrowsePath)))
      → All (λ v. contains visited v.0 ≡ true) vs
      → contains visited n ≡ false
      → contains (view_ids vs) n ≡ false
  unfolding contains
  unseen_new visited n [] a h = refl
  unseen_new visited n (v ∷ vs) a h =
      ground (arith, unseen_new visited n vs a.1 h, a.0, e.equals_iff v.0 n)

  contains-snoc : (xs : List N) (a b : N) → contains xs b ≡ true → contains (xs ++ a ∷ []) b ≡ true
  contains-snoc xs a b h = rw (contains-append xs (a ∷ []) b, h) refl

  module _ (fnmatchcase : Text → Text → Bool) (sanitize : Text → Text) (filters : PathFilter)
      (base : List N) (IsGiven : Reference N → Type 0) where
    -- On a path that the filters trace, if there are any.
    abbrev pub IsIncluded : N × (Text × BrowsePath) → Type 0
    IsIncluded v =
        (is_active filters ≡ false)
        ⊎ (is_traced fnmatchcase filters (traced_path sanitize v.1.1 v.1.0) ≡ true)

    -- Its id and its name are those of a reference, of those given, to a Variable.
    abbrev pub IsVariable : N × (Text × BrowsePath) → Type 0
    IsVariable v =
        (r : Reference N) × IsGiven r
        × (is_variable r.node_class ≡ true)
        × (r.node_id ≡ v.0)
        × (r.name ≡ v.1.0)

    abbrev pub IsTraced : N × (Text × BrowsePath) → Type 0
    IsTraced v = IsIncluded v × IsVariable v

    -- Found once, traced, and none of those that are passed over from the start.
    abbrev pub IsFound : List (N × (Text × BrowsePath)) → Type 0
    IsFound vs = Distinct (view_ids vs) × All IsTraced vs × All (λ v. contains base v.0 ≡ false) vs

    abbrev IsSound : List N → List (N × (Text × BrowsePath)) → Type 0
    IsSound visited vs =
        IsFound vs
        × All (λ v. contains visited v.0 ≡ true) vs
        × ((n : N) → contains base n ≡ true → contains visited n ≡ true)

    abbrev IsSoundWalk : Walk N → Type 0
    IsSoundWalk w = IsSound w.visited (views w.found)

    visited_more :
        (visited : List N) (a : N) (vs : List (N × (Text × BrowsePath)))
        → IsSound visited vs
        → IsSound (visited ++ a ∷ []) vs
    visited_more visited a vs (found, seen, from) = (
      found,
      All-weaken _ _ vs (λ v. contains-snoc visited a v.0) seen,
      λ n h. contains-snoc visited a n (from n h),
    )

    visited_new :
        (visited : List N) (v : N × (Text × BrowsePath)) (vs : List (N × (Text × BrowsePath)))
        → contains visited v.0 ≡ false
        → IsTraced v
        → IsSound visited vs
        → IsSound (visited ++ v.0 ∷ []) (vs ++ v ∷ [])
    visited_new visited v vs new traced ((distinct, all, apart), seen, from) =
        let more = visited_more visited v.0 vs ((distinct, all, apart), seen, from) in
        let outside : contains base v.0 ≡ false = ground (arith, from v.0, new) in
        (
          (
            subst Distinct (sym (map-append (λ x. x.0) vs (v ∷ [])))
                (Distinct-snoc (view_ids vs) v.0 distinct (unseen_new visited v.0 vs seen new)),
            All-append IsTraced vs (v ∷ []) all (traced, tt),
            All-append _ vs (v ∷ []) apart (outside, tt),
          ),
          All-append _ vs (v ∷ []) more.1 (contains-last visited v.0, tt),
          more.2,
        )

    visit-IsSound :
        (path : BrowsePath) (r : Reference N) (trace browse : Bool) (w : Walk N)
        → contains w.visited r.node_id ≡ false
        → (trace ≡ true → IsIncluded (view (new_found r path)))
        → IsGiven r
        → IsSoundWalk w
        → IsSoundWalk (visit path r trace browse w)
    unfolding visit
    visit-IsSound path r trace browse w new traced given h =
        traced_if (is_variable r.node_class && trace) (λ t.
          let both = &&-true (is_variable r.node_class) trace t in
          (traced both.1, (r, given, both.0, refl, refl)))
      where
        traced_if :
            (b : Bool)
            → (b ≡ true → IsTraced (view (new_found r path)))
            → IsSound
                (w.visited ++ r.node_id ∷ [])
                (views (if b then w.found ++ new_found r path ∷ [] else w.found))
        traced_if true t =
            subst (IsSound (w.visited ++ r.node_id ∷ []))
              (sym (map-append view w.found (new_found r path ∷ [])))
              (visited_new w.visited (view (new_found r path)) (views w.found) new (t refl) h)
        traced_if false t = visited_more w.visited r.node_id (views w.found) h

    note_kept-IsSound :
        (b : Bool) (n : N) (w : Walk N) → IsSoundWalk w → IsSoundWalk (note_kept b n w)
    note_kept-IsSound true n w h = h
    note_kept-IsSound false n w h = h

    note_kept-visited : (b : Bool) (n : N) (w : Walk N) → (note_kept b n w).visited ≡ w.visited
    note_kept-visited true n w = refl
    note_kept-visited false n w = refl

    visit_if-IsSound :
        (browse : Bool) (path : BrowsePath) (r : Reference N) (trace : Bool) (w : Walk N)
        → contains w.visited r.node_id ≡ false
        → (trace ≡ true → IsIncluded (view (new_found r path)))
        → IsGiven r
        → IsSoundWalk w
        → IsSoundWalk (visit_if fnmatchcase sanitize filters browse path r trace w)
    visit_if-IsSound true path r trace w new traced given h =
        visit-IsSound path r trace true w new traced given h
    visit_if-IsSound false path r trace w new traced given h = h

    take_node-IsSound :
        (path : BrowsePath) (r : Reference N) (w : Walk N)
        → contains w.visited r.node_id ≡ false
        → IsGiven r
        → IsSoundWalk w
        → IsSoundWalk (take_node fnmatchcase sanitize filters path r w)
    unfolding take_node
    take_node-IsSound path r w new given h = filtered_if (is_active filters) refl
      where
        traced : BrowsePath
        traced = traced_path sanitize path r.name

        filtered_if :
            (b : Bool)
            → is_active filters ≡ b
            → IsSoundWalk (
                if b
                then visit_if fnmatchcase sanitize filters
                    (is_browsed fnmatchcase filters traced)
                    path
                    r
                    (is_traced fnmatchcase filters traced)
                    (note_kept
                      (if is_variable r.node_class
                        then is_traced fnmatchcase filters traced
                        else is_browsed fnmatchcase filters traced)
                      r.node_id
                      w)
                else visit path r true true w)
        filtered_if true on =
            let b =
              if is_variable r.node_class
              then is_traced fnmatchcase filters traced
              else is_browsed fnmatchcase filters traced in
            visit_if-IsSound (is_browsed fnmatchcase filters traced) path r
              (is_traced fnmatchcase filters traced) (note_kept b r.node_id w)
              (subst (λ xs. contains xs r.node_id ≡ false) (sym (note_kept-visited b r.node_id w))
                new)
              (λ t. inr t) given (note_kept-IsSound b r.node_id w h)
        filtered_if false off = visit-IsSound path r true true w new (λ t. inl off) given h

    take_property-IsSound :
        (parent : Option N) (r : Reference N) (w : Walk N)
        → IsSoundWalk w
        → IsSoundWalk (take_property parent r w)
    take_property-IsSound none r w h = h
    take_property-IsSound (some parent) r w h =
        unit_if (r.name == codes "EngineeringUnits") (r.name == codes "EURange")
      where
        unit_if :
            (b b' : Bool)
            → IsSoundWalk (
                if b
                then record w { found = set_unit parent r.node_id w.found }
                else if b'
                then record w { found = set_range parent r.node_id w.found }
                else w)
        unit_if true b' =
            subst (IsSound w.visited) (sym (set_unit-views parent r.node_id w.found)) h
        unit_if false true =
            subst (IsSound w.visited) (sym (set_range-views parent r.node_id w.found)) h
        unit_if false false = h

    not_skipped :
        (r : Reference N) (w : Walk N)
        → is_skipped fnmatchcase sanitize filters r w ≡ false
        → contains w.visited r.node_id ≡ false
    not_skipped r w h = ground arith

    take_reference-IsSound :
        (path : BrowsePath) (parent : Option N) (r : Reference N) (w : Walk N)
        → IsGiven r
        → IsSoundWalk w
        → IsSoundWalk (take_reference fnmatchcase sanitize filters path parent r w)
    unfolding take_reference
    take_reference-IsSound path parent r w given h =
        node_if r.is_property (is_skipped fnmatchcase sanitize filters r w) refl
      where
        node_if :
            (b b' : Bool)
            → is_skipped fnmatchcase sanitize filters r w ≡ b'
            → IsSoundWalk (
                if b
                then take_property parent r w
                else if b'
                then w
                else take_node fnmatchcase sanitize filters path r w)
        node_if true b' s = take_property-IsSound parent r w h
        node_if false true s = h
        node_if false false s = take_node-IsSound path r w (not_skipped r w s) given h

    take_references-IsSound :
        (path : BrowsePath) (parent : Option N) (refs : List (Reference N)) (w : Walk N)
        → All IsGiven refs
        → IsSoundWalk w
        → IsSoundWalk (take_references fnmatchcase sanitize filters path parent refs w)
    unfolding take_references
    take_references-IsSound path parent [] w given h = h
    take_references-IsSound path parent (r ∷ refs) w given h =
        take_references-IsSound path parent refs
          (take_reference fnmatchcase sanitize filters path parent r w) given.1
          (take_reference-IsSound path parent r w given.0 h)

    take_pages-IsSound :
        (batch : List (Entry N)) (pages : List (List (Reference N))) (w : Walk N) {w' : Walk N}
        → All (All IsGiven) pages
        → IsSoundWalk w
        → take_pages fnmatchcase sanitize filters batch pages w ≡ ok w'
        → IsSoundWalk w'
    unfolding take_pages
    take_pages-IsSound [] [] w given h t = subst IsSoundWalk (ok-injective t) h
    take_pages-IsSound [] (refs ∷ pages) w given h t = cc t
    take_pages-IsSound (x ∷ batch) [] w given h t = cc t
    take_pages-IsSound (x ∷ batch) (refs ∷ pages) w given h t =
        take_pages-IsSound batch pages
          (take_references fnmatchcase sanitize filters x.path x.parent refs w) given.1
          (take_references-IsSound x.path x.parent refs w given.0 h) t

    module _ {P : Type 0} (rpc : Rpc N (Reference N) P) (answering : IsAnswering IsGiven rpc)
        (pages chunk : ℕ) where
      walk_batches-IsSound :
          (batches : List (List (Entry N))) (w : Walk N) {w' : Walk N}
          → IsSoundWalk w
          → walk_batches fnmatchcase sanitize filters rpc pages chunk batches w ≡ ok w'
          → IsSoundWalk w'
      unfolding walk_batches
      walk_batches-IsSound [] w h t = subst IsSoundWalk (ok-injective t) h
      walk_batches-IsSound (batch ∷ rest) w h t =
          let (out, browsed, t1) =
            >>=-eq-ok (browse_batch rpc pages (map (λ x. x.node_id) batch)) _ t in
          let (more, named, t2) =
            >>=-eq-ok (failures fnmatchcase sanitize filters batch out.1) _ t1 in
          let noted = record w { failed = w.failed ++ more } in
          let (next, taken, t3) =
            >>=-eq-ok (take_pages fnmatchcase sanitize filters batch out.0 noted) _ t2 in
          walk_batches-IsSound rest next
            (take_pages-IsSound batch out.0 noted
              (browse_batch-Known IsGiven rpc answering pages (map (λ x. x.node_id) batch) browsed)
              h taken)
            t3

      walk_rounds-IsSound :
          (fuel : ℕ) (frontier : List (Entry N)) (w : Walk N) {w' : Walk N}
          → IsSoundWalk w
          → walk_rounds fnmatchcase sanitize filters rpc pages chunk fuel frontier w ≡ ok w'
          → IsSoundWalk w'
      unfolding walk_rounds
      walk_rounds-IsSound fuel [] w h t = subst IsSoundWalk (ok-injective t) h
      walk_rounds-IsSound zero (x ∷ frontier) w h t = cc t
      walk_rounds-IsSound (suc fuel) (x ∷ frontier) w h t =
          let blank_next = record w { next_frontier = [] } in
          let (next, one, rest) =
            >>=-eq-ok
              (walk_batches fnmatchcase sanitize filters rpc pages chunk
                (chunks chunk (x ∷ frontier)) blank_next)
              _ t in
          walk_rounds-IsSound fuel next.next_frontier next
            (walk_batches-IsSound (chunks chunk (x ∷ frontier)) blank_next h one) rest

-- Whatever the server answers, what a walk that returns finds has distinct node ids, neither the
-- Objects folder's nor the Server object's; each is, by its id and its name, a Variable in some
-- answer of the server; and, where there are filters, its sanitized browse path is one that they
-- include and do not exclude.
pub walk-IsFound :
    {N P : Type 0} ⦃e : Eq N⦄
    → (fnmatchcase : Text → Text → Bool) (sanitize : Text → Text) (filters : PathFilter)
      (rpc : Rpc N (Reference N) P) (pages chunk fuel : ℕ) (objects server : N)
      {out : List (Found N) × List Text × ℕ}
    → walk fnmatchcase sanitize filters rpc pages chunk fuel objects server ≡ ok out
    → IsFound fnmatchcase sanitize filters (objects ∷ server ∷ []) (IsAnswered rpc) (views out.0)
unfolding walk
walk-IsFound fnmatchcase sanitize filters rpc pages chunk fuel objects server t =
    let base = objects ∷ server ∷ [] in
    let from_start = start_walk fnmatchcase sanitize filters rpc pages chunk objects server in
    let entries = start_frontier fnmatchcase sanitize filters rpc pages chunk objects in
    let (w, walked, made) =
      >>=-eq-ok (walk_rounds fnmatchcase sanitize filters rpc pages chunk fuel entries from_start) _
        t in
    let (found, _, _) =
      walk_rounds-IsSound fnmatchcase sanitize filters base (IsAnswered rpc) rpc
        (rpc-IsAnswering rpc) pages chunk fuel entries from_start ((tt, tt, tt), tt, λ n h. h)
        walked in
    subst (λ z. IsFound fnmatchcase sanitize filters base (IsAnswered rpc) (views z.0))
      (ok-injective made) found
