-- ===== src/NodeMap/Map/Load.antt =====
-- What a map that loads satisfies: collisions are errors, so nothing is dropped silently.
use mathlib.Core.List.{map-append}
use mathlib.Core.Path.{subst}
use zelos_extension_opcua.Prelude.{
  ◌≤◌, ◌≡◌, refl, ap, ◌∙◌, inl, inr, Bool, true, false, Option, none, some, List, [], ◌∷◌, ◌++◌,
  map, arith, ltb, Bool-cases, nat_eq, All, All-append, All-weaken, Result, ok, raise, raise_if,
  Result-cases, >>=-eq-ok, ok-injective, raise_if-ok, Dict, keys, contains, In-contains, Distinct,
  contains-append, Distinct-snoc, insert_new, All-insert, Text, codes, same_text_iff, text_eq,
}
use zelos_extension_opcua.NodeMap.Ids.{Codecs, ParsedId, parse_node_id}
use zelos_extension_opcua.NodeMap.Node.{NodeError, Node, make_node}
use zelos_extension_opcua.NodeMap.Map.{
  Interval, milliseconds, endless, nan, NodeMap, NameKind, field, event, RawNode, number, negative,
  too_large, no_number, RawEvent, node_list, object, RawMap, duplicate_event, duplicate_node,
  min_poll_interval, or_default, node_result, key_of, interval_of, load_node, load_nodes,
  load_interval, nodes_data, set_interval, Loaded, load_event, load_events, from_dict,
}

abbrev pub names : {F : Type 0} → List (Node F) → List Text
names = map (λ n. n.name)

-- A finite interval is at least the floor; NaN is not compared with it.
abbrev pub IsInterval : Interval → Type 0
IsInterval (milliseconds n) = min_poll_interval ≤ n
IsInterval endless = Unit
IsInterval nan = Unit

module _ {F : Type 0} (u : Codecs) where
  abbrev pub Parses : Node F → Type 0
  Parses n = (p : ParsedId) × (parse_node_id u n.node_id ≡ ok p)

  abbrev pub IsValidEvent : Text × List (Node F) → Type 0
  IsValidEvent e = Distinct (names e.1) × All Parses e.1

  pub record IsValidMap (m : NodeMap F) : Type 0 where
    -- no event stands twice
    pub events_distinct : Distinct (keys m.events)
    -- no name stands twice in an event, and every id parses
    pub events_valid : All IsValidEvent m.events
    -- a finite interval is at least the floor, and the event of an interval is there
    pub intervals_valid :
        All (λ i. IsInterval i.1 × (contains (keys m.events) i.0 ≡ true)) m.intervals

-- Splits what the loop's growing `seen` says of the later names.
later_names :
    {F : Type 0} (seen : List Text) (a : Text) (ns : List (Node F))
    → All (λ n. contains (seen ++ a ∷ []) n.name ≡ false) ns
    → (contains (names ns) a ≡ false) × All (λ n. contains seen n.name ≡ false) ns
unfolding contains
later_names seen a [] h = (refl, tt)
later_names seen a (n ∷ ns) h =
    let rest = later_names seen a ns h.1 in
    let apart = h.0 in
    (
      ground (
        arith,
        contains-append seen (a ∷ []) n.name,
        same_text_iff a n.name,
        same_text_iff n.name a,
      ),
      (ground (arith, contains-append seen (a ∷ []) n.name), rest.1),
    )

module _ {F : Type 0} (u : Codecs) where
  make_node-ok :
      (node_id name datatype unit : Text) (scale : F) (description : Text) (writable : Option Bool)
      {n : Node F}
      → make_node u node_id name datatype unit scale description writable ≡ ok n
      → (n.name ≡ name) × Parses u n
  unfolding make_node
  make_node-ok node_id name datatype unit scale description writable {n} h =
      elim (Result-cases (parse_node_id u node_id)) [
        | inl (p, parsed) ↦ (ground arith, (p, ground arith))
        | inr (e, failed) ↦ absurd (ground arith)
      ]

node_result-ok :
    {F : Type 0} (r : Result NodeError (Node F)) {n : Node F} → node_result r ≡ ok n → r ≡ ok n
node_result-ok (ok m) h = cc
node_result-ok (raise e) h = cc

module _ {F : Type 0} (u : Codecs) (one : F) (sanitize : NameKind → Text → Text) where
  load_node-ok :
      (event_name : Text) (seen : List Text) (r : RawNode F) {n : Node F}
      → load_node u one sanitize event_name seen r ≡ ok n
      → (contains seen n.name ≡ false) × Parses u n
  unfolding load_node
  load_node-ok event_name seen r {n} h =
      let (raw, _, h1) = >>=-eq-ok (key_of r.name "name") _ h in
      let name = sanitize field raw in
      let (_, fresh, h2) =
        >>=-eq-ok (raise_if (contains seen name) (duplicate_node name event_name)) _ h1 in
      let (node_id, _, h3) = >>=-eq-ok (key_of r.node_id "node_id") _ h2 in
      let (named, parses) =
        make_node-ok u node_id name (or_default r.datatype (codes "float32")) (or_default r.unit [])
          (or_default r.scale one) (or_default r.description []) r.writable (node_result-ok _ h3) in
      (ap (contains seen) named ∙ raise_if-ok _ _ fresh, parses)

  -- The names of the nodes loaded are distinct, and none is in `seen`.
  load_nodes-ok :
      (event_name : Text) (seen : List Text) (rs : List (RawNode F)) {ns : List (Node F)}
      → load_nodes u one sanitize event_name seen rs ≡ ok ns
      → Distinct (names ns) × All (λ n. contains seen n.name ≡ false) ns × All (Parses u) ns
  unfolding load_nodes
  load_nodes-ok event_name seen [] {ns} h =
      subst
        (λ ns. Distinct (names ns) × All (λ n. contains seen n.name ≡ false) ns × All (Parses u) ns)
        (ok-injective h) (tt, tt, tt)
  load_nodes-ok event_name seen (r ∷ rs) {ns} h =
      let (n, one_more, h1) = >>=-eq-ok (load_node u one sanitize event_name seen r) _ h in
      let (ms, rest, made) =
        >>=-eq-ok (load_nodes u one sanitize event_name (seen ++ n.name ∷ []) rs) _ h1 in
      let (fresh, parses) = load_node-ok event_name seen r one_more in
      let (distinct, apart, parse) = load_nodes-ok event_name (seen ++ n.name ∷ []) rs rest in
      let (new, unseen) = later_names seen n.name ms apart in
      subst
        (λ ns. Distinct (names ns) × All (λ n. contains seen n.name ≡ false) ns × All (Parses u) ns)
        (ok-injective made) ((new, distinct), (fresh, unseen), (parses, parse))

  abbrev HasFloor : Option Interval → Type 0
  HasFloor none = Unit
  HasFloor (some i) = IsInterval i

  load_interval-floor :
      (event_name : Text) (e : RawEvent F) {i : Interval}
      → load_interval u one sanitize event_name e ≡ ok (some i)
      → IsInterval i
  unfolding load_interval interval_of
  load_interval-floor event_name (node_list rs) h = cc
  load_interval-floor event_name (object [] nodes none) h = cc
  load_interval-floor event_name (object [] nodes (some no_number)) h = cc
  load_interval-floor event_name (object [] nodes (some negative)) h = cc
  load_interval-floor event_name (object [] nodes (some too_large)) h = cc
  load_interval-floor event_name (object [] nodes (some (number nan))) h =
      let same : some nan ≡ some _ = ok-injective h in subst HasFloor same tt
  load_interval-floor event_name (object [] nodes (some (number endless))) h =
      let same : some endless ≡ some _ = ok-injective h in subst HasFloor same tt
  load_interval-floor event_name (object [] nodes (some (number (milliseconds n)))) {i} h =
      elim (Bool-cases (ltb n min_poll_interval)) [
        | inl low ↦ cc (rw low at h)
        | inr high ↦
            let same : some (milliseconds n) ≡ some i = ok-injective (rw high at h) in
            subst HasFloor same (ground (arith, high))
      ]
  load_interval-floor event_name (object (k ∷ ks) nodes interval) h = cc

  abbrev IsLoaded : Loaded u one sanitize → Type 0
  IsLoaded l =
      Distinct (keys l.0)
      × All (IsValidEvent u) l.0
      × All (λ i. IsInterval i.1 × (contains (keys l.0) i.0 ≡ true)) l.1

  interval_floor :
      (name : Text) (e : RawEvent F) (interval : Option Interval)
      → load_interval u one sanitize name e ≡ ok interval
      → HasFloor interval
  interval_floor name e none h = tt
  interval_floor name e (some i) h = load_interval-floor name e h

  keys-snoc :
      (events : Dict Text (List (Node F))) (name : Text) (nodes : List (Node F))
      → keys (events ++ (name, nodes) ∷ []) ≡ keys events ++ name ∷ []
  keys-snoc events name nodes = rw map-append

  set_interval-All :
      (P : Text × Interval → Type 0) (name : Text) (interval : Option Interval)
      (intervals : Dict Text Interval)
      → All P intervals
      → ((i : Interval) → HasFloor (some i) → P (name, i))
      → HasFloor interval
      → All P (set_interval u one sanitize name interval intervals)
  set_interval-All P name none intervals h p floor = h
  set_interval-All P name (some i) intervals h p floor = All-insert P name i intervals h (p i floor)

  add_event :
      (events : Dict Text (List (Node F))) (intervals : Dict Text Interval) (name : Text)
      (nodes : List (Node F)) (interval : Option Interval)
      → IsLoaded (events, intervals)
      → contains (keys events) name ≡ false
      → IsValidEvent u (name, nodes)
      → HasFloor interval
      → IsLoaded (events ++ (name, nodes) ∷ [], set_interval u one sanitize name interval intervals)
  add_event events intervals name nodes interval (distinct, valid, floors) new good floor = (
    rw (keys-snoc events name nodes) (Distinct-snoc (keys events) name distinct new),
    All-append (IsValidEvent u) events ((name, nodes) ∷ []) valid (good, tt),
    rw (keys-snoc events name nodes) (
        set_interval-All (λ i. IsInterval i.1 × (contains (keys events ++ name ∷ []) i.0 ≡ true))
          name interval intervals
          (All-weaken _ _ intervals
            (λ i h. (h.0, ground (arith, contains-append (keys events) (name ∷ []) i.0))) floors)
          (λ i h. (h, last_key)) floor),
  )
    where
      last_key : contains (keys events ++ name ∷ []) name ≡ true
      last_key = ground (
        arith,
        contains-append (keys events) (name ∷ []) name,
        In-contains (name ∷ []) name (inl refl),
      )

  load_event-IsLoaded :
      (l l' : Loaded u one sanitize) (raw : Text) (e : RawEvent F)
      → IsLoaded l
      → load_event u one sanitize l raw e ≡ ok l'
      → IsLoaded l'
  unfolding load_event
  load_event-IsLoaded (events, intervals) l' raw e (distinct, valid, floors) h =
      let name = sanitize event raw in
      let (_, fresh, h1) =
        >>=-eq-ok (raise_if (contains (keys events) name) (duplicate_event name)) _ h in
      let (interval, timed, h2) = >>=-eq-ok (load_interval u one sanitize name e) _ h1 in
      let (nodes, loaded, made) =
        >>=-eq-ok (load_nodes u one sanitize name [] (nodes_data u one sanitize e)) _ h2 in
      let new = raise_if-ok _ _ fresh in
      let (names_distinct, _, parse) = load_nodes-ok name [] (nodes_data u one sanitize e) loaded in
      let added =
        add_event events intervals name nodes interval (distinct, valid, floors) new
          (names_distinct, parse) (interval_floor name e interval timed) in
      subst IsLoaded (ok-injective made) (rw (insert_new name nodes events new) added)

  load_events-IsLoaded :
      (l l' : Loaded u one sanitize) (raw : Dict Text (RawEvent F))
      → IsLoaded l
      → load_events u one sanitize l raw ≡ ok l'
      → IsLoaded l'
  unfolding load_events
  load_events-IsLoaded l l' [] valid h = subst IsLoaded (ok-injective h) valid
  load_events-IsLoaded l l' ((name, e) ∷ rest) valid h =
      let (next, one_more, more) = >>=-eq-ok (load_event u one sanitize l name e) _ h in
      load_events-IsLoaded next l' rest (load_event-IsLoaded l next name e valid one_more) more

  -- Every map that loads is valid: no event name and no node name within an event stands twice,
  -- every node id parses, and every interval belongs to an event and is at least the floor, or NaN.
  pub from_dict-IsValidMap :
      (raw : RawMap F) {m : NodeMap F} → from_dict u one sanitize raw ≡ ok m → IsValidMap u m
  unfolding from_dict
  from_dict-IsValidMap raw {m} h =
      let (l, loaded, made) =
        >>=-eq-ok (load_events u one sanitize ([], []) (or_default raw.events [])) _ h in
      let (distinct, valid, floors) =
        load_events-IsLoaded ([], []) l (or_default raw.events []) (tt, tt, tt) loaded in
      subst (IsValidMap u) (ok-injective made)
        (record { events_distinct = distinct; events_valid = valid; intervals_valid = floors })
