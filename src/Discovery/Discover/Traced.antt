-- ===== src/Discovery/Discover/Traced.antt =====
-- Where the nodes of a discovered map come from.
use mathlib.Core.Path.{subst}
use zelos_extension_opcua.Discovery.Browse.Known.{IsAnswered}
use zelos_extension_opcua.Discovery.Walk.Filtered.{views, IsVariable, IsTraced, walk-IsFound}
use zelos_extension_opcua.Discovery.Browse.{Rpc}
use zelos_extension_opcua.Discovery.Naming.Unambiguous.{place_all-ok}
use zelos_extension_opcua.Discovery.Filter.{PathFilter, is_active}
use zelos_extension_opcua.NodeMap.Ids.{NodeId}
use zelos_extension_opcua.Discovery.Naming.{
  Naming, Described, Placed, nodes_or, group, node_id_string, id_of, place_all, renamed, name_rows,
  assign_names,
}
use zelos_extension_opcua.Discovery.Discover.{
  no_walk, no_description, no_names, Discovery, raised_as, discover,
}
use zelos_extension_opcua.Discovery.Subtypes.{SubtypeError}
use zelos_extension_opcua.NodeMap.Node.{Datatype, Node}
use zelos_extension_opcua.Discovery.Datatypes.{
  Content, DataValue, Attribute, Types, value_of, is_array, field_datatype,
}
use zelos_extension_opcua.Discovery.Walk.{Reference, Found, traced_path, is_traced, walk}
use zelos_extension_opcua.Discovery.Describe.{
  or_not_read, Kept, Describing, properties, is_unreadable, screen_one, keep_or_skip, screen,
  property_values, vendor_subtypes, vendor_types, needs_value, describe_one, next_value,
  describe_all, describe,
}
use zelos_extension_opcua.Prelude.{
  ℕ, ◌+◌, ◌*◌, ◌≡◌, refl, sym, ap, ◌⊎◌, inl, inr, Bool, true, false, Option, none, some, List, [],
  ◌∷◌, ◌++◌, map, if◌then◌else◌, Eq, nat_eq, pair_eq, length, take, drop, All, In, All-append,
  Result, ok, raise, >>=-eq-ok, ok-injective, Dict, lookup, insert, All-lookup, All-insert, Text,
  codes, text_eq, sort_by, All-sort_by, text_le,
}

-- What holds of every Variable found holds of every Variable described.
module _ {N F : Type 0} (P : Found N → Type 0) where
  abbrev OfKept : Text ⊎ Kept N F → Type 0
  OfKept (inl reason) = Unit
  OfKept (inr k) = P k.var

  screen_one-OfKept :
      (var : Found N) (i : ℕ) (dvs : List (DataValue N F)) {one : Text ⊎ Kept N F}
      → P var
      → screen_one var i dvs ≡ ok one
      → OfKept one
  screen_one-OfKept var i (dtype ∷ rank ∷ access ∷ display ∷ description ∷ []) h made =
      let (unreadable, _, made1) = >>=-eq-ok (is_unreadable (value_of access)) _ made in
      subst OfKept (ok-injective made1) (of_tests unreadable (is_array (value_of rank)))
    where
      of_tests :
          (unreadable array : Bool)
          → OfKept (
              if unreadable
              then inl (codes "not readable")
              else if array
              then inl (codes "array")
              else inr (record {
                var = var;
                place = i;
                dtype = value_of dtype;
                rank = value_of rank;
                display = display;
                description = description;
              }))
      of_tests true array = tt
      of_tests false true = tt
      of_tests false false = h
  screen_one-OfKept var i [] h made = cc
  screen_one-OfKept var i (a ∷ []) h made = cc
  screen_one-OfKept var i (a ∷ b ∷ []) h made = cc
  screen_one-OfKept var i (a ∷ b ∷ c ∷ []) h made = cc
  screen_one-OfKept var i (a ∷ b ∷ c ∷ d ∷ []) h made = cc
  screen_one-OfKept var i (a ∷ b ∷ c ∷ d ∷ f ∷ g ∷ dvs) h made = cc

  keep_or_skip-All :
      (one : Text ⊎ Kept N F) (acc : List (Kept N F) × Dict Text ℕ)
      → OfKept one
      → All (λ k. P k.var) acc.0
      → All (λ k. P k.var) (keep_or_skip one acc).0
  keep_or_skip-All (inl reason) (kept, skipped) here all = all
  keep_or_skip-All (inr k) (kept, skipped) here all =
      All-append (λ x. P x.var) kept (k ∷ []) all (here, tt)

  screen-All :
      (i : ℕ) (found : List (Found N)) (dvs : List (DataValue N F))
      (acc : List (Kept N F) × Dict Text ℕ) {out : List (Kept N F) × Dict Text ℕ}
      → All P found
      → All (λ k. P k.var) acc.0
      → screen i found dvs acc ≡ ok out
      → All (λ k. P k.var) out.0
  unfolding screen
  screen-All i [] dvs acc h all made = subst (λ z. All (λ k. P k.var) z.0) (ok-injective made) all
  screen-All i (var ∷ found) dvs acc h all made =
      let (one, first, rest) = >>=-eq-ok (screen_one var i (take 5 (drop (i * 5) dvs))) _ made in
      let here = screen_one-OfKept var i (take 5 (drop (i * 5) dvs)) h.0 first in
      screen-All (i + 1) found dvs (keep_or_skip one acc) h.1 (keep_or_skip-All one acc here all)
        rest

  module _ ⦃e : Eq N⦄ (types : Types N) where
    describe_one-All :
        (general : F → Text) (props : List ((ℕ × Bool) × Option (Content N F))) (k : Kept N F)
        (verdict : Option Datatype × Text) (d : Describing N)
        → P k.var
        → All (λ o. P o.0) d.out
        → All (λ o. P o.0) (describe_one types general props k verdict d).out
    describe_one-All general props k (none, reason) d h all = all
    describe_one-All general props k (some datatype, reason) d h all =
        All-append (λ o. P o.0) d.out (_ ∷ []) all (h, tt)

    describe_all-All :
        (general : F → Text) (subtypes : Dict N Datatype)
        (props : List ((ℕ × Bool) × Option (Content N F))) (kept : List (Kept N F))
        (dvs : List (DataValue N F)) (d : Describing N) {out : Describing N}
        → All (λ k. P k.var) kept
        → All (λ o. P o.0) d.out
        → describe_all types general subtypes props kept dvs d ≡ ok out
        → All (λ o. P o.0) out.out
    unfolding describe_all
    describe_all-All general subtypes props [] dvs d h all made =
        subst (λ z. All (λ o. P o.0) z.out) (ok-injective made) all
    describe_all-All general subtypes props (k ∷ kept) dvs d h all made =
        let (next, _, rest) =
          >>=-eq-ok (next_value types (needs_value types subtypes k) dvs) _ made in
        let verdict = field_datatype types k.dtype next.0 subtypes in
        describe_all-All general subtypes props kept next.1
          (describe_one types general props k verdict d) h.1
          (describe_one-All general props k verdict d h.0 all) rest

    pub describe-All :
        (read : List (N × Option Attribute) → Result Text (List (DataValue N F)))
        (subtypes_of : List N → Result SubtypeError (Dict N Datatype)) (general : F → Text)
        (found : List (Found N)) {out : Describing N}
        → All P found
        → describe types read subtypes_of general found ≡ ok out
        → All (λ o. P o.0) out.out
    unfolding describe
    describe-All read subtypes_of general found h made =
        let (dvs, _, h1) = >>=-eq-ok (or_not_read (read _)) _ made in
        let (props, _, h2) =
          >>=-eq-ok (property_values (properties 0 found) (drop (length found * 5) dvs)) _ h1 in
        let (screened, kept, h3) = >>=-eq-ok (screen 0 found dvs ([], [])) _ h2 in
        let (subtypes, _, h4) =
          >>=-eq-ok (vendor_subtypes subtypes_of (vendor_types types screened.0)) _ h3 in
        let (values_read, _, h5) = >>=-eq-ok (or_not_read (read _)) _ h4 in
        describe_all-All general subtypes props screened.0 values_read
          (record { out = []; skipped = screened.1; variant = [] })
          (screen-All 0 found dvs ([], []) h tt kept) tt h5

-- What holds of every Variable's node id holds of every node named.
module _ {F : Type 0} (p : Naming F) (namespaces : List Text) (Q : Text → Type 0) where
  abbrev HasIds : Text × List (Node F) → Type 0
  HasIds e = All (λ n. Q n.node_id) e.1

  nodes_or-HasIds :
      (event : Text) (events : Dict Text (List (Node F))) (o : Option (List (Node F)))
      → All HasIds events
      → lookup event events ≡ o
      → All (λ n. Q n.node_id) (nodes_or o)
  nodes_or-HasIds event events none all h = tt
  nodes_or-HasIds event events (some nodes) all h = All-lookup HasIds event events all h

  group-HasIds :
      (rows : List (Placed F)) (events : Dict Text (List (Node F)))
      → All (λ r. Q r.1.node_id) rows
      → All HasIds events
      → All HasIds (group rows events)
  unfolding group
  group-HasIds [] events h all = all
  group-HasIds ((event, n) ∷ rows) events h all =
      let old = nodes_or (lookup event events) in
      let nodes = nodes_or-HasIds event events (lookup event events) all refl in
      group-HasIds rows (insert event (old ++ n ∷ []) events) h.1 (
        All-insert HasIds event (old ++ n ∷ []) events all
          (All-append (λ x. Q x.node_id) old (n ∷ []) nodes (h.0, tt)))

  of_texts : {A : Type 0} (f : A → Text) (xs : List A) → All Q (map f xs) → All (λ x. Q (f x)) xs
  of_texts f [] h = tt
  of_texts f (x ∷ xs) h = (h.0, of_texts f xs h.1)

  as_texts : {A : Type 0} (f : A → Text) (xs : List A) → All (λ x. Q (f x)) xs → All Q (map f xs)
  as_texts f [] h = tt
  as_texts f (x ∷ xs) h = (h.0, as_texts f xs h.1)

  assign_names-HasIds :
      (described : List Described) {out : Dict Text (List (Node F)) × List Text}
      → All (λ d. Q (id_of p namespaces d)) described
      → assign_names p namespaces described ≡ ok out
      → All HasIds out.0
  unfolding assign_names name_rows
  assign_names-HasIds described h made =
      let (placed_rows, placing, made1) = >>=-eq-ok (place_all p namespaces described) _ made in
      let (_, ids) = place_all-ok p namespaces described described (λ c i. i) placing in
      let all =
        of_texts (λ r. r.1.node_id) placed_rows
          (subst (All Q) (sym ids) (as_texts (id_of p namespaces) described h)) in
      let by_id : Placed F → Placed F → Bool = λ a b. text_le a.1.node_id b.1.node_id in
      let rows = sort_by by_id placed_rows in
      let sorted = All-sort_by by_id (λ r. Q r.1.node_id) placed_rows all in
      subst (λ z. All HasIds z.0) (ok-injective made1)
        (All-sort_by (λ a b. text_le a.0 b.0) HasIds (group (map (renamed p rows) rows) [])
          (group-HasIds (map (renamed p rows) rows) [] (map-renamed rows rows sorted) tt))
    where
      map-renamed :
          (all_rows rows : List (Placed F))
          → All (λ r. Q r.1.node_id) rows
          → All (λ r. Q r.1.node_id) (map (renamed p all_rows) rows)
      map-renamed all_rows [] h = tt
      map-renamed all_rows (r ∷ rows) h = (h.0, map-renamed all_rows rows h.1)

raised_as-ok :
    {E R A : Type 0} (reason : E → R) (x : Result E A) {a : A}
    → raised_as reason x ≡ ok a
    → x ≡ ok a
raised_as-ok reason (ok b) h = ap ok (ok-injective h)
raised_as-ok reason (raise e) h = cc

-- The node id of one of what the walk found, which is by its id and name a Variable in some answer
-- of the server, on a browse path that the filters include and do not exclude.
module _ {F P : Type 0} ⦃e : Eq NodeId⦄ (p : Naming F) (fnmatchcase : Text → Text → Bool)
    (filters : PathFilter) (rpc : Rpc NodeId (Reference NodeId) P) (pages chunk fuel : ℕ)
    (objects server : NodeId) (namespaces : List Text) where
  abbrev pub IsWalkedTo : Found NodeId → Type 0
  IsWalkedTo var =
      (walked : List (Found NodeId) × List Text × ℕ) × (walk fnmatchcase p.sanitize filters rpc
          pages chunk fuel objects server
        ≡ ok walked)
      × In var walked.0

  abbrev pub IsTracedId : Text → Type 0
  IsTracedId id =
      (var : Found NodeId) × IsWalkedTo var
      × IsVariable fnmatchcase p.sanitize filters (objects ∷ server ∷ []) (IsAnswered rpc)
          (var.node_id, (var.name, var.path))
      × (node_id_string p namespaces var.node_id ≡ id)
      × (is_traced fnmatchcase filters (traced_path p.sanitize var.path var.name) ≡ true)

module _ {F P : Type 0} ⦃e : Eq NodeId⦄ (p : Naming F) (fnmatchcase : Text → Text → Bool)
    (filters : PathFilter) (rpc : Rpc NodeId (Reference NodeId) P) (types : Types NodeId)
    (read : List (NodeId × Option Attribute) → Result Text (List (DataValue NodeId F)))
    (subtypes_of : List NodeId → Result SubtypeError (Dict NodeId Datatype)) (general : F → Text)
    (pages chunk fuel : ℕ) (objects server : NodeId) (namespaces : List Text) (name : Text) where
  traced_if_active : {b c : Bool} → b ≡ true → (b ≡ false) ⊎ (c ≡ true) → c ≡ true
  traced_if_active on (inl off) = cc
  traced_if_active on (inr t) = t

  abbrev IsOwnId : Text → Type 0
  IsOwnId = IsTracedId p fnmatchcase filters rpc pages chunk fuel objects server namespaces

  of_views :
      (found : List (Found NodeId))
      → is_active filters ≡ true
      → ((var : Found NodeId)
          → In var found
          → IsWalkedTo p fnmatchcase filters rpc pages chunk fuel objects server namespaces var)
      → All
          (IsTraced fnmatchcase p.sanitize filters (objects ∷ server ∷ []) (IsAnswered rpc))
          (views found)
      → All (λ var. IsOwnId (node_id_string p namespaces var.node_id)) found
  of_views [] active walked h = tt
  of_views (var ∷ found) active walked h = (
    (var, walked var (inl refl), h.0.1, refl, traced_if_active active h.0.0),
    of_views found active (λ x i. walked x (inr i)) h.1,
  )

  -- Where there are filters, and whatever the server answers, every node of a discovered map has
  -- the id of one of what its walk found: by its id and name a Variable in some answer of the
  -- server, on a sanitized browse path that the filters include and do not exclude.
  pub discover-IsTraced :
      {out : Discovery F}
      → is_active filters ≡ true
      → discover p fnmatchcase filters rpc types read subtypes_of general pages chunk fuel objects
          server namespaces name
        ≡ ok out
      → All
          (λ event.
            All
              (λ n.
                IsTracedId p fnmatchcase filters rpc pages chunk fuel objects server namespaces
                  n.node_id)
              event.1)
          out.node_map.events
  unfolding discover
  discover-IsTraced active h =
      let (walked, walking, h1) = >>=-eq-ok (raised_as no_walk _) _ h in
      let (d, describing, h2) = >>=-eq-ok (raised_as no_description _) _ h1 in
      let (named, naming, h3) = >>=-eq-ok (raised_as no_names _) _ h2 in
      let walks = raised_as-ok no_walk _ walking in
      let (_, traced, _) =
        walk-IsFound fnmatchcase p.sanitize filters rpc pages chunk fuel objects server walks in
      let described =
        describe-All (λ var. IsOwnId (node_id_string p namespaces var.node_id)) types read
          subtypes_of general walked.0
          (of_views walked.0 active (λ var i. (walked, walks, i)) traced)
          (raised_as-ok no_description _ describing) in
      subst (λ z. All (λ event. All (λ n. IsOwnId n.node_id) event.1) z.node_map.events)
        (ok-injective h3)
        (assign_names-HasIds p namespaces IsOwnId d.out described (raised_as-ok no_names _ naming))
