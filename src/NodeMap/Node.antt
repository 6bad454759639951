-- ===== src/NodeMap/Node.antt =====
-- `Node` of zelos_extension_opcua/node_map.py. `F` is the type of Python floats, for the scale.
use zelos_extension_opcua.Prelude.{
  Bool, Option, List, [], ◌∷◌, ◌==◌, nat_eq, find_first, Result, ok, raise, ◌>>=◌, ◌>>◌, or_raise,
  Text, codes, text_eq,
}
use zelos_extension_opcua.NodeMap.Ids.{
  Codecs, IdError, Namespace, Identifier, ParsedId, parse_node_id,
}

-- The keys of DATATYPES.
pub data Datatype : Type 0 where
  bool uint8 int8 uint16 int16 uint32 int32 float32 uint64 int64 float64 string : Datatype

unfoldable pub datatype_text : Datatype → Text
datatype_text bool = codes "bool"
datatype_text uint8 = codes "uint8"
datatype_text int8 = codes "int8"
datatype_text uint16 = codes "uint16"
datatype_text int16 = codes "int16"
datatype_text uint32 = codes "uint32"
datatype_text int32 = codes "int32"
datatype_text float32 = codes "float32"
datatype_text uint64 = codes "uint64"
datatype_text int64 = codes "int64"
datatype_text float64 = codes "float64"
datatype_text string = codes "string"

abbrev pub datatypes : List Datatype
datatypes =
    bool ∷ uint8 ∷ int8 ∷ uint16 ∷ int16 ∷ uint32 ∷ int32 ∷ float32 ∷ uint64 ∷ int64 ∷ float64
    ∷ string ∷ []

-- `self.datatype not in DATATYPES`
unfoldable pub datatype_of : Text → Option Datatype
unfolding datatype_text
datatype_of s = find_first (λ d. datatype_text d == s) datatypes

pub data NodeError : Type 0 where
  -- KeyError of `node_data["name"]` and `node_data["node_id"]`
  missing_key : Text → NodeError
  invalid_datatype : NodeError
  invalid_node_id : IdError → NodeError

pub record Node (F : Type 0) : Type 0 where
  pub node_id : Text
  pub name : Text
  pub datatype : Datatype
  pub unit : Text
  pub scale : F
  pub description : Text
  pub writable : Option Bool

abbrev pub node_id_check : Result IdError ParsedId → Result NodeError (Unit {0})
node_id_check (ok p) = ok tt
node_id_check (raise e) = raise (invalid_node_id e)

module _ {F : Type 0} (u : Codecs) where
  -- `Node(...)` with `__post_init__`
  unfoldable pub make_node :
      Text → Text → Text → Text → F → Text → Option Bool → Result NodeError (Node F)
  make_node node_id name datatype unit scale description writable = do
    d ← or_raise (datatype_of datatype) invalid_datatype
    node_id_check (parse_node_id u node_id)
    ok (record {
      node_id = node_id;
      name = name;
      datatype = d;
      unit = unit;
      scale = scale;
      description = description;
      writable = writable;
    })

  -- The properties parse the id again.
  unfoldable pub namespace : Node F → Result IdError Namespace
  namespace n = do (ns, _, _) ← parse_node_id u n.node_id; ok ns

  unfoldable pub identifier_of : Node F → Result IdError Identifier
  identifier_of n = do (_, _, id) ← parse_node_id u n.node_id; ok id
