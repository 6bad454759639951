-- ===== src/NodeMap/Map/Export.antt =====
-- `to_dict`, read back by `from_dict`.
use mathlib.Core.List.{map-append}
use zelos_extension_opcua.Prelude.{
  ◌≡◌, refl, ◌∙◌, inl, inr, true, false, Option, none, some, List, [], ◌∷◌, ◌++◌, map, append-nil,
  append_assoc, arith, if◌then◌else◌, Bool-cases, ◌==◌, nat_eq, All, ok, Dict, keys, contains,
  Distinct, contains-append, Distinct-middle, lookup, lookup-insert, insert_new, Text, same_text,
  same_text_iff, text_eq,
}
use zelos_extension_opcua.NodeMap.Ids.{Codecs}
use zelos_extension_opcua.NodeMap.Node.{
  Datatype, bool, uint8, int8, uint16, int16, uint32, int32, float32, uint64, int64, float64,
  string, datatype_text, datatype_of, Node, make_node,
}
use zelos_extension_opcua.NodeMap.Map.{
  Interval, milliseconds, endless, nan, NodeMap, NameKind, field, event, source, RawNode,
  interval_of, load_node, load_nodes, load_interval, nodes_data, set_interval, Loaded, load_event,
  load_events, from_dict, to_row, to_event, to_events, to_dict,
}
use zelos_extension_opcua.NodeMap.Map.Load.{names, IsInterval, Parses, IsValidEvent, IsValidMap}

datatype_of-datatype_text : (d : Datatype) → datatype_of (datatype_text d) ≡ some d
unfolding datatype_of same_text
datatype_of-datatype_text bool = refl
datatype_of-datatype_text uint8 = refl
datatype_of-datatype_text int8 = refl
datatype_of-datatype_text uint16 = refl
datatype_of-datatype_text int16 = refl
datatype_of-datatype_text uint32 = refl
datatype_of-datatype_text int32 = refl
datatype_of-datatype_text float32 = refl
datatype_of-datatype_text uint64 = refl
datatype_of-datatype_text int64 = refl
datatype_of-datatype_text float64 = refl
datatype_of-datatype_text string = refl

-- The later names are none of those seen, nor this one.
unseen_later :
    {F : Type 0} (seen : List Text) (a : Text) (ns : List (Node F))
    → contains (names ns) a ≡ false
    → All (λ n. contains seen n.name ≡ false) ns
    → All (λ n. contains (seen ++ a ∷ []) n.name ≡ false) ns
unfolding contains
unseen_later seen a [] h k = tt
unseen_later seen a (n ∷ ns) h k = (
  ground
      (arith, contains-append seen (a ∷ []) n.name, same_text_iff a n.name, same_text_iff n.name a),
  unseen_later seen a ns (ground arith) k.1,
)

module _ {F : Type 0} (u : Codecs) (one : F) (sanitize : NameKind → Text → Text) where
  -- A node as `from_dict` reads back its row: the row has no scale.
  abbrev pub unscaled : Node F → Node F
  unscaled n = record n { scale = one }

  abbrev pub IsClean : Text × List (Node F) → Type 0
  IsClean e = (sanitize event e.0 ≡ e.0) × All (λ n. sanitize field n.name ≡ n.name) e.1

  load_node-to_row :
      (event_name : Text) (seen : List Text) (n : Node F)
      → contains seen n.name ≡ false
      → sanitize field n.name ≡ n.name
      → Parses u n
      → load_node u one sanitize event_name seen (to_row n) ≡ ok (unscaled n)
  unfolding load_node make_node
  load_node-to_row event_name seen n new clean (p, parsed) =
      rw (clean) (rw (new, datatype_of-datatype_text n.datatype, parsed) refl)

  All-unseen : (ns : List (Node F)) → All (λ n. contains [] n.name ≡ false) ns
  unfolding contains
  All-unseen [] = tt
  All-unseen (n ∷ ns) = (refl, All-unseen ns)

  load_nodes-to_row :
      (event_name : Text) (seen : List Text) (ns : List (Node F))
      → Distinct (names ns)
      → All (λ n. contains seen n.name ≡ false) ns
      → All (λ n. sanitize field n.name ≡ n.name) ns
      → All (Parses u) ns
      → load_nodes u one sanitize event_name seen (map to_row ns) ≡ ok (map unscaled ns)
  unfolding load_nodes
  load_nodes-to_row event_name seen [] d new clean parse = refl
  load_nodes-to_row event_name seen (n ∷ ns) d new clean parse =
      rw
        (
          load_node-to_row event_name seen n new.0 clean.0 parse.0,
          load_nodes-to_row event_name (seen ++ n.name ∷ []) ns d.1
              (unseen_later seen n.name ns d.0 new.1) clean.1 parse.1,
        )
        refl

  abbrev FloorOf : Option Interval → Type 0
  FloorOf none = Unit
  FloorOf (some i) = IsInterval i

  load_interval-to_event :
      (event_name : Text) (rows : List (RawNode F)) (o : Option Interval)
      → FloorOf o
      → load_interval u one sanitize event_name (to_event rows o) ≡ ok o
  unfolding load_interval interval_of
  load_interval-to_event event_name rows none h = refl
  load_interval-to_event event_name rows (some nan) h = refl
  load_interval-to_event event_name rows (some endless) h = refl
  load_interval-to_event event_name rows (some (milliseconds n)) h = ground arith

  nodes_data-to_event :
      (rows : List (RawNode F)) (o : Option Interval)
      → nodes_data u one sanitize (to_event rows o) ≡ rows
  nodes_data-to_event rows none = refl
  nodes_data-to_event rows (some i) = refl

  abbrev unscaled_events : Dict Text (List (Node F)) → Dict Text (List (Node F))
  unscaled_events = map (λ e. (e.0, map unscaled e.1))

  load_event-to_event :
      (acc : Loaded u one sanitize) (e : Text) (ns : List (Node F)) (o : Option Interval)
      → contains (keys acc.0) e ≡ false
      → FloorOf o
      → IsValidEvent u (e, ns)
      → IsClean (e, ns)
      → load_event u one sanitize acc e (to_event (map to_row ns) o)
        ≡ ok (acc.0 ++ (e, map unscaled ns) ∷ [], set_interval u one sanitize e o acc.1)
  unfolding load_event
  load_event-to_event acc e ns o new floor valid clean = rw clean.0 (
      rw
        (
          new,
          load_interval-to_event e (map to_row ns) o floor,
          nodes_data-to_event (map to_row ns) o,
          load_nodes-to_row e [] ns valid.0 (All-unseen ns) clean.1 valid.1,
          insert_new e (map unscaled ns) acc.0 new,
        )
        refl)

  -- The intervals as the loop sets them again.
  reloaded :
      Dict Text Interval → Dict Text Interval → Dict Text (List (Node F)) → Dict Text Interval
  reloaded intervals acc [] = acc
  reloaded intervals acc ((e, ns) ∷ rest) =
      reloaded intervals (set_interval u one sanitize e (lookup e intervals) acc) rest

  load_events-to_events :
      (intervals : Dict Text Interval) (acc : Loaded u one sanitize)
      (events : Dict Text (List (Node F)))
      → ((k : Text) → FloorOf (lookup k intervals))
      → Distinct (keys acc.0 ++ keys events)
      → All (IsValidEvent u) events
      → All IsClean events
      → load_events u one sanitize acc (to_events intervals events)
        ≡ ok (acc.0 ++ unscaled_events events, reloaded intervals acc.1 events)
  unfolding load_events to_events reloaded
  load_events-to_events intervals acc [] floor d valid clean = rw append-nil refl
  load_events-to_events intervals acc ((e, ns) ∷ rest) floor d valid clean =
      let o = lookup e intervals in
      let new = Distinct-middle (keys acc.0) e (keys rest) d in
      rw (load_event-to_event acc e ns o new (floor e) valid.0 clean.0) (
        load_events-to_events intervals
          (acc.0 ++ (e, map unscaled ns) ∷ [], set_interval u one sanitize e o acc.1) rest floor
          (rw (map-append, append_assoc) d) valid.1 clean.1
        ∙ rw append_assoc refl)

  abbrev or_else : Option Interval → Option Interval → Option Interval
  or_else none o = o
  or_else (some i) o = some i

  lookup-set_interval :
      (e : Text) (o : Option Interval) (acc : Dict Text Interval) (k : Text)
      → lookup k (set_interval u one sanitize e o acc)
        ≡ (if e == k then or_else o (lookup k acc) else lookup k acc)
  lookup-set_interval e none acc k = ground arith
  lookup-set_interval e (some i) acc k = lookup-insert e k i acc

  lookup-reloaded :
      (intervals acc : Dict Text Interval) (events : Dict Text (List (Node F))) (k : Text)
      → lookup k (reloaded intervals acc events) ≡ (
          if contains (keys events) k
          then or_else (lookup k intervals) (lookup k acc)
          else lookup k acc)
  unfolding reloaded contains
  lookup-reloaded intervals acc [] k = refl
  lookup-reloaded intervals acc ((e, ns) ∷ rest) k =
      let o = lookup e intervals in
      ground (
        arith,
        lookup-reloaded intervals (set_interval u one sanitize e o acc) rest k,
        lookup-set_interval e o acc k,
        same_text_iff e k,
      )

  abbrev HasEvent : Dict Text (List (Node F)) → Text × Interval → Type 0
  HasEvent events i = IsInterval i.1 × (contains (keys events) i.0 ≡ true)

  lookup-FloorOf :
      (events : Dict Text (List (Node F))) (intervals : Dict Text Interval) (k : Text)
      → All (HasEvent events) intervals
      → FloorOf (lookup k intervals)
  unfolding lookup
  lookup-FloorOf events [] k h = tt
  lookup-FloorOf events ((j, i) ∷ intervals) k h = elim (Bool-cases (j == k)) [
    | inl same ↦ rw same h.0.0
    | inr other ↦ rw other (lookup-FloorOf events intervals k h.1)
  ]

  lookup_no_event :
      (events : Dict Text (List (Node F))) (intervals : Dict Text Interval) (k : Text)
      → All (HasEvent events) intervals
      → contains (keys events) k ≡ false
      → lookup k intervals ≡ none
  unfolding lookup
  lookup_no_event events [] k h absent = refl
  lookup_no_event events ((j, i) ∷ intervals) k h absent = elim (Bool-cases (j == k)) [
    | inl same ↦ cc (h.0.1, absent, (same_text_iff j k).0 same)
    | inr other ↦ rw other (lookup_no_event events intervals k h.1 absent)
  ]

  lookup-reloaded-All :
      (events : Dict Text (List (Node F))) (intervals : Dict Text Interval) (k : Text)
      → All (HasEvent events) intervals
      → lookup k (reloaded intervals [] events) ≡ lookup k intervals
  unfolding lookup
  lookup-reloaded-All events intervals k h = elim (Bool-cases (contains (keys events) k)) [
    | inl here ↦
        rw (lookup-reloaded intervals [] events k, here) (or_else-none (lookup k intervals))
    | inr absent ↦
        rw
          (
            lookup-reloaded intervals [] events k,
            absent,
            lookup_no_event events intervals k h absent,
          )
          refl
  ]
    where
      or_else-none : (o : Option Interval) → or_else o none ≡ o
      or_else-none none = refl
      or_else-none (some i) = refl

  -- A valid map in which every event name, every node name and the map's own name are in their
  -- sanitized form, exported and loaded again, has the same name, description, events, nodes and intervals, with every node's scale back at the default:
  -- the exported rows do not hold the scale.
  pub from_dict-to_dict :
      (m : NodeMap F)
      → IsValidMap u m
      → All IsClean m.events
      → sanitize source m.name ≡ m.name
      → (r : NodeMap F) × (from_dict u one sanitize (to_dict m) ≡ ok r)
        × (r.events ≡ map (λ e. (e.0, map unscaled e.1)) m.events)
        × (r.name ≡ m.name)
        × (r.description ≡ m.description)
        × ((k : Text) → lookup k r.intervals ≡ lookup k m.intervals)
  unfolding from_dict to_dict
  from_dict-to_dict m valid clean named =
      let floor = λ (k : Text). lookup-FloorOf m.events m.intervals k valid.intervals_valid in
      let loaded =
        load_events-to_events m.intervals ([], []) m.events floor valid.events_distinct
          valid.events_valid clean in
      (
        record {
          events = unscaled_events m.events;
          name = m.name;
          description = m.description;
          intervals = reloaded m.intervals [] m.events;
        },
        rw (loaded, named) refl,
        refl,
        refl,
        refl,
        λ k. lookup-reloaded-All m.events m.intervals k valid.intervals_valid,
      )
