-- ===== src/Tests/Maps.antt =====
-- Node maps.
use zelos_extension_opcua.NodeMap.Ids.{digits_value, parse_int, parse_node_id}
use zelos_extension_opcua.Tests.Ids.{ascii}
use zelos_extension_opcua.NodeMap.Map.Load.{IsValidMap, from_dict-IsValidMap}
use zelos_extension_opcua.NodeMap.Map.Find.{get_by_name-qualified}
use zelos_extension_opcua.NodeMap.Map.Export.{from_dict-to_dict}
use zelos_extension_opcua.NodeMap.Map.{
  milliseconds, NodeMap, NameKind, RawNode, number, node_list, object, RawMap, interval_of,
  load_node, load_nodes, load_interval, load_event, load_events, from_dict, to_dict, get_by_name,
}
use zelos_extension_opcua.NodeMap.Node.{int16, datatype_of, Node, make_node}
use zelos_extension_opcua.Prelude.{
  ℕ, ◌≡◌, refl, inl, none, some, [], ◌∷◌, nat_eq, ok, contains, lookup, insert, Text, codes,
  same_text, text_eq,
}

abbrev as_given : NameKind → Text → Text
as_given k s = s

abbrev raw_node : Text → RawNode ℕ
raw_node name = record {
  name = some name;
  node_id = some (codes "ns=2;i=7");
  datatype = some (codes "int16");
  unit = none;
  scale = some 3;
  description = none;
  writable = none;
}

abbrev raw_map : RawMap ℕ
raw_map = record {
  events = some (
      (codes "a/b", node_list (raw_node (codes "t") ∷ []))
      ∷ (codes "c", object [] (some (raw_node (codes "u") ∷ [])) (some (number (milliseconds 250))))
      ∷ []);
  name = some (codes "plc");
  description = none;
}

abbrev node : Text → ℕ → Node ℕ
node name scale = record {
  node_id = codes "ns=2;i=7";
  name = name;
  datatype = int16;
  unit = [];
  scale = scale;
  description = [];
  writable = none;
}

abbrev loaded : ℕ → NodeMap ℕ
loaded scale = record {
  events =
      (codes "a/b", node (codes "t") scale ∷ []) ∷ (codes "c", node (codes "u") scale ∷ []) ∷ [];
  name = codes "plc";
  description = [];
  intervals = (codes "c", milliseconds 250) ∷ [];
}

from_dict-IsValidMap_example : IsValidMap ascii (loaded 3)
unfolding from_dict load_events load_event contains load_interval load_nodes load_node make_node
    datatype_of same_text parse_node_id digits_value parse_int insert interval_of
from_dict-IsValidMap_example =
    from_dict-IsValidMap {F = ℕ} ascii 1 as_given raw_map {m = loaded 3} refl

loaded-IsValidMap : IsValidMap ascii (loaded 3)
unfolding from_dict load_events load_event contains load_interval load_nodes load_node make_node
    datatype_of same_text parse_node_id digits_value parse_int insert interval_of
loaded-IsValidMap = from_dict-IsValidMap {F = ℕ} ascii 1 as_given raw_map {m = loaded 3} loads
  where
    loads : from_dict ascii 1 as_given raw_map ≡ ok (loaded 3)
    loads = refl

get_by_name-qualified_example :
    get_by_name (loaded 3) (codes "a/b/t") ≡ ok (some (node (codes "t") 3))
get_by_name-qualified_example =
    get_by_name-qualified ascii (loaded 3) (codes "a/b") (node (codes "t") 3 ∷ [])
      (node (codes "t") 3) loaded-IsValidMap (inl refl) (inl refl) refl refl

from_dict-to_dict_example :
    (r : NodeMap ℕ) × (from_dict ascii 1 as_given (to_dict (loaded 3)) ≡ ok r)
    × (r.events ≡ (loaded 1).events)
    × (r.name ≡ codes "plc")
    × (r.description ≡ [])
    × ((k : Text) → lookup k r.intervals ≡ lookup k (loaded 3).intervals)
from_dict-to_dict_example =
    from_dict-to_dict ascii 1 as_given (loaded 3) loaded-IsValidMap
      ((refl, (refl, tt)), ((refl, (refl, tt)), tt)) refl
