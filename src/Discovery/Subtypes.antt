-- ===== src/Discovery/Subtypes.antt =====
-- The integers that vendor datatypes derive from: `_Counter.supertypes`, `_builtin_or_abstract` and
-- `integer_subtypes` of zelos_extension_opcua/discovery.py. `up` is the inverse Browse of HasSubtype;
-- `order` is the order of the texts of the node ids. The numeric ids are those of OPC UA.
pub mod Picks
pub mod Climbing
use zelos_extension_opcua.NodeMap.Node.{
  Datatype, bool, uint8, int8, uint16, int16, uint32, int32, float32, uint64, int64, float64,
  string,
}
use zelos_extension_opcua.NodeMap.Ids.{Identifier, int, NodeId}
use zelos_extension_opcua.Discovery.Browse.{BrowseStatus, good_browse, BrowseResult}
use zelos_extension_opcua.Prelude.Int.{pos}
use zelos_extension_opcua.Prelude.{
  ℕ, zero, suc, Bool, true, false, not, Option, none, some, List, [], ◌∷◌, ◌++◌, map, leb, eqb,
  if◌then◌else◌, Eq, nat_eq, length, chunks, keep_if, Result, ok, raise, ◌>>=◌, ◌>>◌, or_raise,
  Dict, values, contains, lookup, Text, text_eq, sort_by,
}

-- BUILTIN_DATATYPES
abbrev pub builtin_datatypes : Dict ℕ Datatype
builtin_datatypes =
    (1, bool)
    ∷ (2, int8)
    ∷ (3, uint8)
    ∷ (4, int16)
    ∷ (5, uint16)
    ∷ (6, int32)
    ∷ (7, uint32)
    ∷ (8, int64)
    ∷ (9, uint64)
    ∷ (10, float32)
    ∷ (11, float64)
    ∷ (12, string)
    ∷ []

-- ABSTRACT_DATATYPES: Number, Integer and UInteger
abbrev pub abstract_datatypes : Dict ℕ Datatype
abstract_datatypes = (26, float64) ∷ (27, int64) ∷ (28, uint64) ∷ []

abbrev pub is_integer : Datatype → Bool
is_integer bool = false
is_integer float32 = false
is_integer float64 = false
is_integer string = false
is_integer _ = true

-- The number of an id of namespace 0.
abbrev pub numeric : Identifier → Option ℕ
numeric (int (pos n)) = some n
numeric _ = none

abbrev pub standard_id : NodeId → Option ℕ
standard_id n = if eqb n.ns 0 then numeric n.identifier else none

-- `_builtin_or_abstract`: up to Enumeration. A numeric identifier is unsigned.
unfoldable pub is_resolved : NodeId → Bool
is_resolved n = elim (standard_id n) [ none ↦ false | some i ↦ leb i 29 ]

abbrev pub if_integer : Option Datatype → Option Datatype
if_integer none = none
if_integer (some d) = if is_integer d then some d else none

-- `BUILTIN_DATATYPES[a.Identifier]` of the `_INTEGER_TYPES`
unfoldable pub integer_of : NodeId → Option Datatype
integer_of n = elim (standard_id n) [
  | none ↦ none
  | some i ↦ if_integer (lookup i builtin_datatypes)
]

pub data SubtypeError : Type 0 where
  not_browsed : Text → SubtypeError
  uneven_zip : SubtypeError
  no_key : SubtypeError

abbrev pub or_not_browsed : {A : Type 0} → Result Text A → Result SubtypeError A
or_not_browsed (ok a) = ok a
or_not_browsed (raise e) = raise (not_browsed e)

abbrev pub first_reference : {N : Type 0} → List N → Option N
first_reference [] = none
first_reference (n ∷ refs) = some n

module _ {N P : Type 0} where
  -- `_local(r.References[0].NodeId) if r.StatusCode.is_good() and r.References else None`
  abbrev pub parent_in : BrowseStatus → BrowseResult N P → Option N
  parent_in good_browse r = first_reference r.references
  parent_in _ r = none

  -- `supertypes`, over the chunks
  unfoldable pub supertypes :
      (List N → Result Text (List (BrowseResult N P)))
      → List (List N)
      → Result SubtypeError (List (Option N))
  supertypes up [] = ok []
  supertypes up (types ∷ rest) = do
    page ← or_not_browsed (up types)
    more ← supertypes up rest
    ok (map (λ r. parent_in r.status r) page ++ more)

-- `dict(zip(keys, values, strict=True))`
unfoldable pub zip_dict :
    {N V : Type 0} ⦃e : Eq N⦄ → List N → List V → Result SubtypeError (Dict N V)
zip_dict [] [] = ok []
zip_dict (n ∷ ns) (v ∷ vs) = do rest ← zip_dict ns vs; ok ((n, v) ∷ rest)
zip_dict _ _ = raise uneven_zip

module _ {N : Type 0} ⦃e : Eq N⦄ where
  -- `{x for x in xs}`
  unfoldable pub set_of : List N → List N
  set_of [] = []
  set_of (n ∷ ns) = let rest = set_of ns in if contains rest n then rest else n ∷ rest

abbrev pub put_some : {N V : Type 0} → N → Option V → Dict N V → Dict N V
put_some n none m = m
put_some n (some v) m = (n, v) ∷ m

-- `{n: f(a) for n, a in m.items() if f(a) is not None}`
unfoldable pub pick_values : {N A V : Type 0} → (A → Option V) → Dict N A → Dict N V
pick_values f [] = []
pick_values f ((n, a) ∷ m) = put_some n (f a) (pick_values f m)

module _ {N : Type 0} ⦃e : Eq N⦄ (resolved : N → Bool) (integer : N → Option Datatype) where
  -- The ancestors that are not resolved.
  abbrev pub pending_of : (N → N → Bool) → Dict N N → List N
  pending_of order ancestor =
      sort_by order (set_of (keep_if (λ a. not (resolved a)) (values ancestor)))

  abbrev pub parent_at : Bool → N → Dict N (Option N) → Result SubtypeError (Option N)
  parent_at true a parents = ok (some a)
  parent_at false a parents = or_raise (lookup a parents) no_key

  -- One level up.
  unfoldable pub advance : Dict N (Option N) → Dict N N → Result SubtypeError (Dict N N)
  advance parents [] = ok []
  advance parents ((t, a) ∷ ancestor) = do
    parent ← parent_at (resolved a) a parents
    rest ← advance parents ancestor
    ok (put_some t parent rest)

  module _ {P : Type 0} (up : List N → Result Text (List (BrowseResult N P))) (order : N → N → Bool)
      (chunk : ℕ) where
    -- `for _ in range(_TYPE_DEPTH)`
    unfoldable pub climb_levels : ℕ → Dict N N → Result SubtypeError (Dict N N)
    climb_levels zero ancestor = ok ancestor
    climb_levels (suc levels) ancestor =
        let pending = pending_of order ancestor in
        if eqb (length pending) 0 then ok ancestor else (do
          found ← supertypes up (chunks chunk pending)
          parents ← zip_dict pending found
          next ← advance parents ancestor
          climb_levels levels next)

    -- `integer_subtypes`; `types` is a set
    unfoldable pub integer_subtypes : List N → Result SubtypeError (Dict N Datatype)
    integer_subtypes types = do
      ancestor ← climb_levels 8 (map (λ t. (t, t)) types)
      ok (pick_values integer ancestor)
