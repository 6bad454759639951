-- ===== src/Discovery/Discover.antt =====
-- One discovery: `discover` and `operation_limits` of zelos_extension_opcua/discovery.py. The time and
-- the limit_in of requests of a discovery are left out.
pub mod Traced
pub mod Limited
use zelos_extension_opcua.Discovery.Subtypes.{SubtypeError}
use zelos_extension_opcua.Discovery.Datatypes.{DataValue, Attribute, Types}
use zelos_extension_opcua.NodeMap.Ids.{NodeId}
use zelos_extension_opcua.NodeMap.Map.{NodeMap}
use zelos_extension_opcua.NodeMap.Node.{Datatype, NodeError}
use zelos_extension_opcua.Discovery.Reading.{ReadReply, read_many}
use zelos_extension_opcua.Discovery.Filter.{PathFilter}
use zelos_extension_opcua.Discovery.Browse.{Rpc, BrowseError}
use zelos_extension_opcua.Discovery.Walk.{Reference, walk}
use zelos_extension_opcua.Discovery.Naming.{Naming, node_id_string, assign_names}
use zelos_extension_opcua.Discovery.Describe.{DescribeError, describe}
use zelos_extension_opcua.Prelude.{
  ℕ, zero, suc, min, Bool, Option, none, some, List, [], ◌∷◌, map, eqb, if◌then◌else◌, Eq, nat_eq,
  pair_eq, Result, ok, raise, ◌>>=◌, ◌>>◌, Dict, insert, Text, codes, text_eq,
}

pub data DiscoverError : Type 0 where
  no_walk : BrowseError → DiscoverError
  no_description : DescribeError → DiscoverError
  no_names : NodeError → DiscoverError

-- `Discovery`
pub record Discovery (F : Type 0) : Type 0 where
  pub node_map : NodeMap F
  pub skipped : Dict Text ℕ
  pub renames : List Text
  pub browse_failed : List Text
  pub variant : List Text

-- What a step raises, among the reasons of the whole.
abbrev pub raised_as : {E R A : Type 0} → (E → R) → Result E A → Result R A
raised_as reason (ok a) = ok a
raised_as reason (raise e) = raise (reason e)

-- `if filtered: skipped["filtered"] = filtered`
abbrev pub with_filtered : ℕ → Dict Text ℕ → Dict Text ℕ
with_filtered filtered skipped =
    if eqb filtered 0 then skipped else insert (codes "filtered") filtered skipped

module _ {F P : Type 0} ⦃e : Eq NodeId⦄ (p : Naming F) (fnmatchcase : Text → Text → Bool)
    (filters : PathFilter) (rpc : Rpc NodeId (Reference NodeId) P) (types : Types NodeId)
    (read : List (NodeId × Option Attribute) → Result Text (List (DataValue NodeId F)))
    (subtypes_of : List NodeId → Result SubtypeError (Dict NodeId Datatype))
    (general : F → Text) where
  -- `discover`
  unfoldable pub discover :
      ℕ → ℕ → ℕ → NodeId → NodeId → List Text → Text → Result DiscoverError (Discovery F)
  discover pages chunk fuel objects server namespaces name = do
    (found, browse_failed, filtered) ←
        raised_as no_walk (walk fnmatchcase p.sanitize filters rpc pages chunk fuel objects server)
    d ← raised_as no_description (describe types read subtypes_of general found)
    (events, renames) ← raised_as no_names (assign_names p namespaces d.out)
    ok (record {
      node_map = record {
        events = events;
        name = name;
        description = codes "discovered";
        intervals = [];
      };
      skipped = with_filtered filtered d.skipped;
      renames = renames;
      browse_failed = browse_failed;
      variant = map (node_id_string p namespaces) d.variant;
    })

-- MAX_OPERATIONS
abbrev pub max_operations : ℕ
max_operations = 100

-- `min(int(v), MAX_OPERATIONS) if v else MAX_OPERATIONS`
abbrev pub limit_of : Option ℕ → ℕ
limit_of none = max_operations
limit_of (some zero) = max_operations
limit_of (some (suc n)) = min (suc n) max_operations

pub data LimitsError (E : Type 0) : Type 0 where
  limits_not_read : E → LimitsError E
  not_three : LimitsError E

abbrev pub three_limits : {E : Type 0} → List (Option ℕ) → Result (LimitsError E) (ℕ × ℕ × ℕ)
three_limits (browse ∷ read ∷ monitor ∷ []) = ok (limit_of browse, limit_of read, limit_of monitor)
three_limits _ = raise not_three

-- `operation_limits`, of the items of the three limits; `limit_in` is `value_of` for a UInt32.
unfoldable pub operation_limits :
    {I V E : Type 0}
    → (List I → ReadReply V E)
    → V
    → (V → Option ℕ)
    → List I
    → Result (LimitsError E) (ℕ × ℕ × ℕ)
operation_limits read spoiled limit_in items = do
  dvs ← raised_as limits_not_read (read_many read spoiled items max_operations)
  three_limits (map limit_in dvs)
