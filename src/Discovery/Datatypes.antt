-- ===== src/Discovery/Datatypes.antt =====
-- Values and datatypes of Variables: `value_of`, `_text`, `declared_datatype` and `field_datatype` of
-- zelos_extension_opcua/discovery.py. `N` are node ids and `F` floats.
use zelos_extension_opcua.NodeMap.Node.{Datatype, bool, float64, string}
use zelos_extension_opcua.NodeMap.Ids.{int, NodeId}
use zelos_extension_opcua.Discovery.Subtypes.{
  builtin_datatypes, abstract_datatypes, standard_id, is_resolved, integer_of,
}
use zelos_extension_opcua.Prelude.Int.{ℤ, pos, negsuc}
use zelos_extension_opcua.Prelude.{
  ℕ, Bool, false, not, ◌&&◌, ◌||◌, Option, none, some, List, [], ◌∷◌, eqb, if◌then◌else◌, Eq, ◌==◌,
  nat_eq, Dict, lookup, Text, codes, text_eq,
}

-- A variant's value.
pub data Content (N F : Type 0) : Type 0 where
  data_type : N → Content N F
  number : ℤ → Content N F
  localized : Option Text → Content N F
  eu_information : Option Text → Content N F
  eu_range : F → F → Content N F
  values_list : Content N F
  other_content : Content N F

-- Its type: one of VARIANT_DATATYPES, a structure, or another.
pub data VariantKind : Type 0 where
  basic : Datatype → VariantKind
  extension_object : VariantKind
  unsupported : VariantKind

-- None, Good or Uncertain; BadDecodingError; another Bad.
pub data ValueStatus : Type 0 where
  usable bad_decoding bad_value : ValueStatus

pub record DataValue (N F : Type 0) : Type 0 where
  pub status : ValueStatus
  pub variant : Option (VariantKind × Option (Content N F))

pub data Attribute : Type 0 where
  data_type_attribute value_rank access_level display_name description_attribute : Attribute

-- `_DESCRIBE_ATTRIBUTES`
abbrev pub describe_attributes : List Attribute
describe_attributes =
    data_type_attribute ∷ value_rank ∷ access_level ∷ display_name ∷ description_attribute ∷ []

-- The datatypes of a node id: those of `Discovery.Subtypes`, and those that it declares.
pub record Types (N : Type 0) : Type 0 where
  pub resolved : N → Bool
  pub integer : N → Option Datatype
  pub declared : N → Option Datatype
  -- BaseDataType
  pub base : N

abbrev pub or_abstract : Option Datatype → ℕ → Option Datatype
or_abstract (some d) i = some d
or_abstract none i = lookup i abstract_datatypes

-- `BUILTIN_DATATYPES.get(i) or ABSTRACT_DATATYPES.get(i)` in namespace 0
abbrev pub declared_of : NodeId → Option Datatype
declared_of n = elim (standard_id n) [
  | none ↦ none
  | some i ↦ or_abstract (lookup i builtin_datatypes) i
]

abbrev pub opcua_types : Types NodeId
opcua_types = record {
  resolved = is_resolved;
  integer = integer_of;
  declared = declared_of;
  base = record { ns = 0; identifier = int (pos 24) };
}

abbrev pub some_text : Option Text → Text
some_text none = []
some_text (some t) = t

abbrev pub or_subtype :
    {N : Type 0} ⦃e : Eq N⦄ → Option Datatype → N → Dict N Datatype → Option Datatype
or_subtype (some d) n subtypes = some d
or_subtype none n subtypes = lookup n subtypes

abbrev pub wide : Datatype → Datatype
wide bool = bool
wide string = string
wide _ = float64

abbrev pub of_kind : VariantKind → Option Datatype × Text
of_kind extension_object = (none, codes "struct")
of_kind unsupported = (none, codes "unsupported type")
of_kind (basic d) = (some (wide d), [])

module _ {N F : Type 0} where
  abbrev pub content_in : Option (VariantKind × Option (Content N F)) → Option (Content N F)
  content_in none = none
  content_in (some v) = v.1

  -- `value_of`
  abbrev pub value_if : ValueStatus → DataValue N F → Option (Content N F)
  value_if usable dv = content_in dv.variant
  value_if _ dv = none

  abbrev pub value_of : DataValue N F → Option (Content N F)
  value_of dv = value_if dv.status dv

  -- `_text`
  abbrev pub localized_text : Option (Content N F) → Text
  localized_text (some (localized t)) = some_text t
  localized_text _ = []

  abbrev pub unit_text : Option (Content N F) → Text
  unit_text (some (eu_information t)) = some_text t
  unit_text _ = []

  -- Scalar is -1, Any -2 and ScalarOrOneDimension -3.
  abbrev pub is_rank : ℕ → Option (Content N F) → Bool
  is_rank k (some (number (negsuc n))) = eqb n k
  is_rank k _ = false

  abbrev pub is_maybe_scalar : Option (Content N F) → Bool
  is_maybe_scalar rank = is_rank 1 rank || is_rank 2 rank

  -- `rank is not None and rank not in (_SCALAR, *_MAYBE_SCALAR)`
  abbrev pub is_array : Option (Content N F) → Bool
  is_array none = false
  is_array (some v) = not (is_rank 0 (some v)) && not (is_maybe_scalar (some v))

module _ {N F : Type 0} ⦃e : Eq N⦄ (types : Types N) where
  -- `declared_datatype`
  abbrev pub declared_datatype : Option (Content N F) → Dict N Datatype → Option Datatype
  declared_datatype (some (data_type n)) subtypes = or_subtype (types.declared n) n subtypes
  declared_datatype _ subtypes = none

  -- `dtype == _BASE_DATATYPE`
  abbrev pub is_base : Option (Content N F) → Bool
  is_base (some (data_type n)) = n == types.base
  is_base _ = false

  abbrev pub of_content :
      Option (Content N F) → VariantKind → Content N F → Option Datatype → Option Datatype × Text
  of_content dtype kind values_list declared = (none, codes "array")
  of_content dtype kind v (some d) = (some d, [])
  of_content dtype kind v none = if is_base dtype then (some string, []) else of_kind kind

  abbrev pub of_value :
      ValueStatus → Option (Content N F) → DataValue N F → Option Datatype → Option Datatype × Text
  of_value bad_decoding dtype dv declared = (none, codes "undecodable")
  of_value bad_value dtype dv declared = (none, codes "no value")
  of_value usable dtype dv declared = elim dv.variant [
    | none ↦ (none, codes "no value")
    | some v ↦ elim v.1 [
      | none ↦ (none, codes "no value")
      | some content ↦ of_content dtype v.0 content declared
    ]
  ]

  -- `field_datatype`
  unfoldable pub field_datatype :
      Option (Content N F) → Option (DataValue N F) → Dict N Datatype → Option Datatype × Text
  field_datatype dtype none subtypes = (declared_datatype dtype subtypes, [])
  field_datatype dtype (some dv) subtypes =
      of_value dv.status dtype dv (declared_datatype dtype subtypes)
