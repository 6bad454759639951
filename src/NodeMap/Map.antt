-- ===== src/NodeMap/Map.antt =====
-- `NodeMap` of zelos_extension_opcua/node_map.py: loading, export and lookup by name. Finite
-- intervals are whole milliseconds; `Raw...` are the shapes of the JSON file that the loader tells apart.
pub mod Load
pub mod Export
pub mod Find
use zelos_extension_opcua.Prelude.{
  ℕ, String, Bool, ◌||◌, Option, none, some, List, [], ◌∷◌, ◌++◌, map, ltb, if◌then◌else◌, ◌==◌,
  nat_eq, Result, ok, raise, ◌>>=◌, ◌>>◌, raise_if, Dict, keys, contains, lookup, insert, Text,
  codes, text_eq, is_empty, has_no,
}
use zelos_extension_opcua.NodeMap.Ids.{Codecs}
use zelos_extension_opcua.NodeMap.Node.{
  float32, datatype_text, NodeError, missing_key, Node, make_node,
}

-- An interval, a float that is not negative: it may be infinite, or NaN.
pub data Interval : Type 0 where
  milliseconds : ℕ → Interval
  endless : Interval
  nan : Interval

pub record NodeMap (F : Type 0) : Type 0 where
  pub events : Dict Text (List (Node F))
  pub name : Text
  pub description : Text
  pub intervals : Dict Text Interval

-- What `zelos_sdk.sanitize_name` is asked for.
pub data NameKind : Type 0 where
  field event source : NameKind

-- A node's JSON object: the keys that the loader reads.
pub record RawNode (F : Type 0) : Type 0 where
  pub name : Option Text
  pub node_id : Option Text
  pub datatype : Option Text
  pub unit : Option Text
  pub scale : Option F
  pub description : Option Text
  pub writable : Option Bool

-- A JSON value under `poll_interval`: a number that is no bool, or anything else. A number is one
-- that a float holds, or a negative one, or an integer too large for a float.
pub data RawInterval : Type 0 where
  number : Interval → RawInterval
  negative : RawInterval
  too_large : RawInterval
  no_number : RawInterval

-- An event: a list of nodes, or an object with its unknown keys, `nodes` and `poll_interval`.
pub data RawEvent (F : Type 0) : Type 0 where
  node_list : List (RawNode F) → RawEvent F
  object : List Text → Option (List (RawNode F)) → Option RawInterval → RawEvent F

pub record RawMap (F : Type 0) : Type 0 where
  pub events : Option (Dict Text (RawEvent F))
  pub name : Option Text
  pub description : Option Text

pub data MapError : Type 0 where
  duplicate_event : Text → MapError
  unknown_keys : Text → MapError
  bad_poll_interval : Text → MapError
  interval_overflow : MapError
  duplicate_node : Text → Text → MapError
  bad_node : NodeError → MapError
  ambiguous_name : Text → MapError

-- MIN_POLL_INTERVAL, 0.1 s
abbrev pub min_poll_interval : ℕ
min_poll_interval = 100

-- `data.get(key, default)`
abbrev pub or_default {ℓ} : {A : Type ℓ} → Option A → A → A
or_default none d = d
or_default (some a) d = a

abbrev pub node_result : {F : Type 0} → Result NodeError (Node F) → Result MapError (Node F)
node_result (ok n) = ok n
node_result (raise e) = raise (bad_node e)

abbrev pub key_of : Option Text → String → Result MapError Text
key_of (some s) key = ok s
key_of none key = raise (bad_node (missing_key (codes key)))

-- The test on `poll_interval`, and `float(interval)`: NaN is not less than the floor.
unfoldable pub interval_of : Text → RawInterval → Result MapError Interval
interval_of event_name no_number = raise (bad_poll_interval event_name)
interval_of event_name negative = raise (bad_poll_interval event_name)
interval_of event_name too_large = raise interval_overflow
interval_of event_name (number nan) = ok nan
interval_of event_name (number endless) = ok endless
interval_of event_name (number (milliseconds n)) =
    if ltb n min_poll_interval then raise (bad_poll_interval event_name) else ok (milliseconds n)

module _ {F : Type 0} (u : Codecs) (one : F) (sanitize : NameKind → Text → Text) where
  -- One pass of the loop over an event's nodes: the name, checked against `seen`, and the node.
  unfoldable pub load_node : Text → List Text → RawNode F → Result MapError (Node F)
  load_node event_name seen r = do
    raw ← key_of r.name "name"
    let name = sanitize field raw
    raise_if (contains seen name) (duplicate_node name event_name)
    node_id ← key_of r.node_id "node_id"
    node_result (
        make_node u node_id name (or_default r.datatype (codes "float32")) (or_default r.unit [])
          (or_default r.scale one) (or_default r.description []) r.writable)

  -- The loop over an event's nodes.
  unfoldable pub load_nodes : Text → List Text → List (RawNode F) → Result MapError (List (Node F))
  load_nodes event_name seen [] = ok []
  load_nodes event_name seen (r ∷ rs) = do
    n ← load_node event_name seen r
    ns ← load_nodes event_name (seen ++ n.name ∷ []) rs
    ok (n ∷ ns)

  -- An event's own interval.
  unfoldable pub load_interval : Text → RawEvent F → Result MapError (Option Interval)
  load_interval event_name (node_list rs) = ok none
  load_interval event_name (object [] nodes none) = ok none
  load_interval event_name (object [] nodes (some r)) = do i ← interval_of event_name r; ok (some i)
  load_interval event_name (object (k ∷ ks) nodes interval) = raise (unknown_keys event_name)

  abbrev pub nodes_data : RawEvent F → List (RawNode F)
  nodes_data (node_list rs) = rs
  nodes_data (object unknown nodes interval) = or_default nodes []

  abbrev pub set_interval : Text → Option Interval → Dict Text Interval → Dict Text Interval
  set_interval event_name none intervals = intervals
  set_interval event_name (some i) intervals = insert event_name i intervals

  abbrev pub Loaded : Type 0
  Loaded = Dict Text (List (Node F)) × Dict Text Interval

  -- One pass of the loop over the events.
  unfoldable pub load_event : Loaded → Text → RawEvent F → Result MapError Loaded
  load_event (events, intervals) raw_event_name event_data = do
    let event_name = sanitize event raw_event_name
    raise_if (contains (keys events) event_name) (duplicate_event event_name)
    interval ← load_interval event_name event_data
    nodes ← load_nodes event_name [] (nodes_data event_data)
    ok (insert event_name nodes events, set_interval event_name interval intervals)

  unfoldable pub load_events : Loaded → Dict Text (RawEvent F) → Result MapError Loaded
  load_events acc [] = ok acc
  load_events acc ((raw_event_name, event_data) ∷ rest) = do
    next ← load_event acc raw_event_name event_data
    load_events next rest

  -- `NodeMap.from_dict`
  unfoldable pub from_dict : RawMap F → Result MapError (NodeMap F)
  from_dict raw = do
    (events, intervals) ← load_events ([], []) (or_default raw.events [])
    ok (record {
      events = events;
      name = sanitize source (or_default raw.name (codes "opcua"));
      description = or_default raw.description [];
      intervals = intervals;
    })

-- `name.rpartition("/")`: what stands before the last slash, and after it.
unfoldable pub rpartition : Text → Text × Text
rpartition [] = ([], [])
rpartition (c ∷ s) =
    let (before, bare) = rpartition s in
    if has_no b'/' s then (if c == b'/' then ([], s) else ([], c ∷ s)) else (c ∷ before, bare)

module _ {F : Type 0} where
  -- A row of `to_dict`: the scale is not among its keys.
  abbrev pub to_row : Node F → RawNode F
  to_row n = record {
    name = some n.name;
    node_id = some n.node_id;
    datatype = some (datatype_text n.datatype);
    unit = some n.unit;
    scale = none;
    description = some n.description;
    writable = n.writable;
  }

  abbrev pub to_event : List (RawNode F) → Option Interval → RawEvent F
  to_event rows none = node_list rows
  to_event rows (some i) = object [] (some rows) (some (number i))

  unfoldable pub to_events : Dict Text Interval → Dict Text (List (Node F)) → Dict Text (RawEvent F)
  to_events intervals [] = []
  to_events intervals ((event_name, nodes) ∷ rest) =
      (event_name, to_event (map to_row nodes) (lookup event_name intervals))
      ∷ to_events intervals rest

  -- `NodeMap.to_dict`
  unfoldable pub to_dict : NodeMap F → RawMap F
  unfolding to_events
  to_dict m = record {
    events = some (to_events m.intervals m.events);
    name = some m.name;
    description = some m.description;
  }

  abbrev pub flat_values : Dict Text (List (Node F)) → List (Node F)
  flat_values [] = []
  flat_values ((e, ns) ∷ rest) = ns ++ flat_values rest

  -- The property `nodes`.
  unfoldable pub all_nodes : NodeMap F → List (Node F)
  all_nodes m = flat_values m.events

  abbrev pub event_matches : Text → Text → List (Node F) → List (Text × Node F)
  event_matches bare e [] = []
  event_matches bare e (n ∷ ns) =
      if n.name == bare then (e, n) ∷ event_matches bare e ns else event_matches bare e ns

  unfoldable pub name_matches : Text → Text → Dict Text (List (Node F)) → List (Text × Node F)
  name_matches wanted bare [] = []
  name_matches wanted bare ((e, ns) ∷ rest) =
      if is_empty wanted || e == wanted
      then event_matches bare e ns ++ name_matches wanted bare rest
      else name_matches wanted bare rest

  abbrev pub single_match : Text → List (Text × Node F) → Result MapError (Option (Node F))
  single_match name [] = ok none
  single_match name ((e, n) ∷ []) = ok (some n)
  single_match name _ = raise (ambiguous_name name)

  -- `NodeMap.get_by_name`
  unfoldable pub get_by_name : NodeMap F → Text → Result MapError (Option (Node F))
  unfolding rpartition name_matches
  get_by_name m name =
      let (wanted, bare) = rpartition name in single_match name (name_matches wanted bare m.events)
