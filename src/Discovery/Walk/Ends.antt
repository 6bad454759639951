-- ===== src/Discovery/Walk/Ends.antt =====
-- The walk of a finite address space ends.
use zelos_extension_opcua.Discovery.Browse.Known.{IsAnswering, browse_batch-Known}
use zelos_extension_opcua.Discovery.Browse.{Rpc, index_error, browse_batch}
use zelos_extension_opcua.Discovery.Browse.Pages.{Ends, Ends-bind, IsPaging, browse_batch-Ends}
use zelos_extension_opcua.Discovery.Walk.{
  Reference, Entry, Walk, is_variable, traced_path, is_traced, is_browsed, set_unit, set_range,
  take_property, visit, note_kept, visit_if, take_node, is_skipped, take_reference, take_references,
  take_pages, failures, walk_batches, walk_rounds, start_walk, start_frontier, walk,
}
use zelos_extension_opcua.Discovery.Filter.{BrowsePath, PathFilter, is_active}
use zelos_extension_opcua.Prelude.{
  ℕ, zero, suc, ◌+◌, ◌≤◌, ◌<◌, ◌≡◌, refl, ap, ◌∙◌, inl, inr, Bool, true, false, Option, none, some,
  List, [], ◌∷◌, ◌++◌, map, arith, if◌then◌else◌, Eq, ◌==◌, nat_eq, length, get_elem?,
  length-append, chunks, All, In, ok, or_raise, >>=-eq-ok, ok-injective, Dict, contains,
  contains-last, contains-append, Text, codes, text_eq,
}

module _ {N : Type 0} ⦃e : Eq N⦄ (universe : List N) where
  -- The nodes that are not visited yet, of some list of nodes.
  unvisited_of : List N → List N → ℕ
  unvisited_of visited [] = 0
  unvisited_of visited (n ∷ nodes) =
      (if contains visited n then 0 else 1) + unvisited_of visited nodes

  abbrev unvisited : List N → ℕ
  unvisited visited = unvisited_of visited universe

  unvisited_of-le :
      (visited nodes : List N) (a : N)
      → unvisited_of (visited ++ a ∷ []) nodes ≤ unvisited_of visited nodes
  unfolding unvisited_of contains
  unvisited_of-le visited [] a = omega arith
  unvisited_of-le visited (n ∷ nodes) a =
      ground (arith, unvisited_of-le visited nodes a, contains-append visited (a ∷ []) n)

  unvisited_of-lt :
      (visited nodes : List N) (a : N)
      → In a nodes
      → contains visited a ≡ false
      → unvisited_of (visited ++ a ∷ []) nodes < unvisited_of visited nodes
  unfolding unvisited_of contains
  unvisited_of-lt visited (n ∷ nodes) a (inl same) new =
      let old : contains visited n ≡ false = ap (contains visited) same ∙ new in
      let now : contains (visited ++ a ∷ []) n ≡ true =
        ap (contains (visited ++ a ∷ [])) same ∙ contains-last visited a in
      let le = unvisited_of-le visited nodes a in rw (old, now) (omega (arith, le))
  unvisited_of-lt visited (n ∷ nodes) a (inr i) new =
      ground (arith, unvisited_of-lt visited nodes a i new, contains-append visited (a ∷ []) n)
  unvisited_of-lt visited [] a i new = absurd i

  unvisited_of-length : (visited nodes : List N) → unvisited_of visited nodes ≤ length nodes
  unfolding unvisited_of
  unvisited_of-length visited [] = omega arith
  unvisited_of-length visited (n ∷ nodes) = ground (arith, unvisited_of-length visited nodes)

  -- The nodes still to visit and those to browse next.
  abbrev work : Walk N → ℕ
  work w = unvisited w.visited + length w.next_frontier

  visit-work :
      (path : BrowsePath) (r : Reference N) (trace browse : Bool) (w : Walk N)
      → In r.node_id universe
      → contains w.visited r.node_id ≡ false
      → work (visit path r trace browse w) ≤ work w
  unfolding visit
  visit-work path r trace browse w known new = ground (
    arith,
    unvisited_of-lt w.visited universe r.node_id known new,
    length-append w.next_frontier (
        record {
          node_id = r.node_id;
          path = path ++ r.name ∷ [];
          parent = if is_variable r.node_class then some r.node_id else none;
        }
        ∷ []),
  )

  note_kept-work : (b : Bool) (n : N) (w : Walk N) → work (note_kept b n w) ≡ work w
  note_kept-work true n w = refl
  note_kept-work false n w = refl

  note_kept-visited : (b : Bool) (n : N) (w : Walk N) → (note_kept b n w).visited ≡ w.visited
  note_kept-visited true n w = refl
  note_kept-visited false n w = refl

  take_property-work :
      (parent : Option N) (r : Reference N) (w : Walk N) → work (take_property parent r w) ≡ work w
  take_property-work none r w = refl
  take_property-work (some parent) r w =
      unit_if (r.name == codes "EngineeringUnits") (r.name == codes "EURange")
    where
      unit_if :
          (b b' : Bool)
          → work (
              if b
              then record w { found = set_unit parent r.node_id w.found }
              else if b'
              then record w { found = set_range parent r.node_id w.found }
              else w)
            ≡ work w
      unit_if true b' = refl
      unit_if false true = refl
      unit_if false false = refl

  module _ (fnmatchcase : Text → Text → Bool) (sanitize : Text → Text) (filters : PathFilter) where
    visit_if-work :
        (b : Bool) (path : BrowsePath) (r : Reference N) (trace : Bool) (w : Walk N)
        → In r.node_id universe
        → contains w.visited r.node_id ≡ false
        → work (visit_if fnmatchcase sanitize filters b path r trace w) ≤ work w
    visit_if-work true path r trace w known new = visit-work path r trace true w known new
    visit_if-work false path r trace w known new = omega arith

    take_node-work :
        (path : BrowsePath) (r : Reference N) (w : Walk N)
        → In r.node_id universe
        → contains w.visited r.node_id ≡ false
        → work (take_node fnmatchcase sanitize filters path r w) ≤ work w
    unfolding take_node
    take_node-work path r w known new = filtered_if (is_active filters)
      where
        traced : BrowsePath
        traced = traced_path sanitize path r.name

        keeps : Bool
        keeps =
            if is_variable r.node_class
            then is_traced fnmatchcase filters traced
            else is_browsed fnmatchcase filters traced

        filtered_if :
            (b : Bool)
            → work (
                if b
                then visit_if fnmatchcase sanitize filters
                    (is_browsed fnmatchcase filters traced)
                    path
                    r
                    (is_traced fnmatchcase filters traced)
                    (note_kept keeps r.node_id w)
                else visit path r true true w)
              ≤ work w
        filtered_if true = rw (← note_kept-work keeps r.node_id w) (
            visit_if-work (is_browsed fnmatchcase filters traced) path r
              (is_traced fnmatchcase filters traced) (note_kept keeps r.node_id w) known
              (rw (note_kept-visited keeps r.node_id w) new))
        filtered_if false = visit-work path r true true w known new

    not_skipped :
        (r : Reference N) (w : Walk N)
        → is_skipped fnmatchcase sanitize filters r w ≡ false
        → contains w.visited r.node_id ≡ false
    not_skipped r w h = ground arith

    abbrev pub IsListed : Reference N → Type 0
    IsListed r = In r.node_id universe

    take_reference-work :
        (path : BrowsePath) (parent : Option N) (r : Reference N) (w : Walk N)
        → IsListed r
        → work (take_reference fnmatchcase sanitize filters path parent r w) ≤ work w
    unfolding take_reference
    take_reference-work path parent r w known =
        node_if r.is_property (is_skipped fnmatchcase sanitize filters r w) refl
      where
        node_if :
            (b b' : Bool)
            → is_skipped fnmatchcase sanitize filters r w ≡ b'
            → work (
                if b
                then take_property parent r w
                else if b'
                then w
                else take_node fnmatchcase sanitize filters path r w)
              ≤ work w
        node_if true b' s = omega (arith, take_property-work parent r w)
        node_if false true s = omega arith
        node_if false false s = take_node-work path r w known (not_skipped r w s)

    take_references-work :
        (path : BrowsePath) (parent : Option N) (refs : List (Reference N)) (w : Walk N)
        → All IsListed refs
        → work (take_references fnmatchcase sanitize filters path parent refs w) ≤ work w
    unfolding take_references
    take_references-work path parent [] w h = omega arith
    take_references-work path parent (r ∷ refs) w h =
        let next = take_reference fnmatchcase sanitize filters path parent r w in
        omega (
          arith,
          take_reference-work path parent r w h.0,
          take_references-work path parent refs next h.1,
        )

    take_pages-work :
        (batch : List (Entry N)) (pages : List (List (Reference N))) (w : Walk N) {w' : Walk N}
        → All (All IsListed) pages
        → take_pages fnmatchcase sanitize filters batch pages w ≡ ok w'
        → work w' ≤ work w
    unfolding take_pages
    take_pages-work [] [] w h t = omega (arith, ap work (ok-injective t))
    take_pages-work [] (refs ∷ pages) w h t = cc t
    take_pages-work (x ∷ batch) [] w h t = cc t
    take_pages-work (x ∷ batch) (refs ∷ pages) w h t =
        let next = take_references fnmatchcase sanitize filters x.path x.parent refs w in
        omega (
          arith,
          take_references-work x.path x.parent refs w h.0,
          take_pages-work batch pages next h.1 t,
        )

    take_pages-Ends :
        (batch : List (Entry N)) (pages : List (List (Reference N))) (w : Walk N)
        → Ends (take_pages fnmatchcase sanitize filters batch pages w)
    unfolding take_pages
    take_pages-Ends [] [] w = λ h. cc h
    take_pages-Ends [] (refs ∷ pages) w = λ h. cc h
    take_pages-Ends (x ∷ batch) [] w = λ h. cc h
    take_pages-Ends (x ∷ batch) (refs ∷ pages) w =
        take_pages-Ends batch pages
          (take_references fnmatchcase sanitize filters x.path x.parent refs w)

    or_raise-Ends : {A : Type 0} → (o : Option A) → Ends (or_raise o index_error)
    or_raise-Ends none = λ h. cc h
    or_raise-Ends (some a) = λ h. cc h

    failures-Ends :
        (batch : List (Entry N)) (bad : Dict ℕ Text)
        → Ends (failures fnmatchcase sanitize filters batch bad)
    unfolding failures
    failures-Ends batch [] = λ h. cc h
    failures-Ends batch ((i, status) ∷ bad) =
        Ends-bind (or_raise (get_elem? batch i) index_error) _ (or_raise-Ends (get_elem? batch i))
          (λ x t.
            Ends-bind (failures fnmatchcase sanitize filters batch bad) _ (failures-Ends batch bad)
              (λ rest t'. λ h. cc h))

    module _ {P : Type 0} (rpc : Rpc N (Reference N) P) (rank : P → ℕ) (pages chunk : ℕ)
        (paging : IsPaging rpc rank pages) (answering : IsAnswering IsListed rpc) where
      walk_batches-work :
          (batches : List (List (Entry N))) (w : Walk N) {w' : Walk N}
          → walk_batches fnmatchcase sanitize filters rpc pages chunk batches w ≡ ok w'
          → work w' ≤ work w
      unfolding walk_batches
      walk_batches-work [] w t = omega (arith, ap work (ok-injective t))
      walk_batches-work (batch ∷ rest) w t =
          let ids = map (λ x. x.node_id) batch in
          let (out, browsed, t1) = >>=-eq-ok (browse_batch rpc pages ids) _ t in
          let (more, named, t2) =
            >>=-eq-ok (failures fnmatchcase sanitize filters batch out.1) _ t1 in
          let noted = record w { failed = w.failed ++ more } in
          let (next, taken, t3) =
            >>=-eq-ok (take_pages fnmatchcase sanitize filters batch out.0 noted) _ t2 in
          let known = browse_batch-Known IsListed rpc answering pages ids browsed in
          let here : work next ≤ work w = take_pages-work batch out.0 noted known taken in
          omega (arith, here, walk_batches-work rest next t3)

      walk_batches-Ends :
          (batches : List (List (Entry N))) (w : Walk N)
          → Ends (walk_batches fnmatchcase sanitize filters rpc pages chunk batches w)
      unfolding walk_batches
      walk_batches-Ends [] w = λ h. cc h
      walk_batches-Ends (batch ∷ rest) w =
          let ids = map (λ x. x.node_id) batch in
          Ends-bind (browse_batch rpc pages ids) _ (browse_batch-Ends rpc rank pages paging ids)
            (λ out t.
              Ends-bind (failures fnmatchcase sanitize filters batch out.1) _
                (failures-Ends batch out.1)
                (λ more t'.
                  let noted = record w { failed = w.failed ++ more } in
                  Ends-bind (take_pages fnmatchcase sanitize filters batch out.0 noted) _
                    (take_pages-Ends batch out.0 noted) (λ next t''. walk_batches-Ends rest next)))

      walk_rounds-Ends :
          (fuel : ℕ) (frontier : List (Entry N)) (w : Walk N)
          → (0 < length frontier → unvisited w.visited < fuel)
          → Ends (walk_rounds fnmatchcase sanitize filters rpc pages chunk fuel frontier w)
      unfolding walk_rounds
      walk_rounds-Ends fuel [] w h = λ t. cc t
      walk_rounds-Ends zero (x ∷ frontier) w h = absurd (omega (arith, h (omega arith)))
      walk_rounds-Ends (suc fuel) (x ∷ frontier) w h =
          let blank_next = record w { next_frontier = [] } in
          let batches = chunks chunk (x ∷ frontier) in
          Ends-bind (walk_batches fnmatchcase sanitize filters rpc pages chunk batches blank_next) _
            (walk_batches-Ends batches blank_next)
            (λ next t. walk_rounds-Ends fuel next.next_frontier next (λ some_left.
              let le : work next ≤ unvisited w.visited + 0 =
                walk_batches-work batches blank_next t in
              let lt : unvisited w.visited < suc fuel = h (omega arith) in omega arith))

-- Where all nodes that the server refers to are among finitely many, and its continuation points run
-- out, the walk ends, whatever else the server answers and whatever the filters: with one round more
-- than there are nodes it is never out of fuel, cycles and nodes with several parents included.
pub walk-Ends :
    {N P : Type 0} ⦃e : Eq N⦄
    → (universe : List N) (fnmatchcase : Text → Text → Bool) (sanitize : Text → Text)
      (filters : PathFilter) (rpc : Rpc N (Reference N) P) (rank : P → ℕ) (pages chunk : ℕ)
      (objects server : N)
    → IsPaging rpc rank pages
    → IsAnswering (IsListed universe fnmatchcase sanitize filters) rpc
    → Ends (walk fnmatchcase sanitize filters rpc pages chunk (length universe + 1) objects server)
unfolding walk
walk-Ends universe fnmatchcase sanitize filters rpc rank pages chunk objects server paging
      answering =
    let from_start = start_walk fnmatchcase sanitize filters rpc pages chunk objects server in
    let entries = start_frontier fnmatchcase sanitize filters rpc pages chunk objects in
    Ends-bind
      (walk_rounds fnmatchcase sanitize filters rpc pages chunk (length universe + 1) entries
        from_start)
      _
      (walk_rounds-Ends universe fnmatchcase sanitize filters rpc rank pages chunk paging answering
        (length universe + 1) entries from_start
        (λ h. omega (arith, unvisited_of-length universe from_start.visited universe)))
      (λ w t. λ h. cc h)
