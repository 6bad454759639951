-- ===== src/Discovery/Describe.antt =====
-- What a walk found, described: `describe` of zelos_extension_opcua/discovery.py. `N` are node ids
-- and `F` floats. A Variable's properties are known by its place in the list, under which no other
-- stands.
pub mod Counted
pub mod Returns
use zelos_extension_opcua.Discovery.Datatypes.{
  Content, data_type, number, eu_range, DataValue, Attribute, describe_attributes, Types, value_of,
  localized_text, unit_text, is_maybe_scalar, is_array, declared_datatype, is_base, field_datatype,
}
use zelos_extension_opcua.Discovery.Walk.{Found}
use zelos_extension_opcua.NodeMap.Node.{Datatype, datatype_text}
use zelos_extension_opcua.NodeMap.Ids.{strip_left}
use zelos_extension_opcua.Discovery.Subtypes.{SubtypeError}
use zelos_extension_opcua.Prelude.Int.{pos, negsuc}
use zelos_extension_opcua.Prelude.{
  ℕ, ◌+◌, ◌*◌, ◌%◌, ◌⊎◌, inl, inr, Bool, true, false, not, ◌&&◌, ◌||◌, Option, none, some, List, [],
  ◌∷◌, ◌++◌, map, eqb, if◌then◌else◌, Eq, ◌==◌, nat_eq, length, take, drop, keep_if, Result, ok,
  raise, ◌>>=◌, ◌>>◌, Dict, values, contains, lookup, insert, Text, codes, text_eq, text_or,
}

pub data DescribeError : Type 0 where
  not_read : Text → DescribeError
  no_subtypes : SubtypeError → DescribeError
  -- a list of another length than was asked for
  wrong_shape : DescribeError
  -- `access & _CURRENT_READ` of what is no integer
  type_error : DescribeError

abbrev pub or_not_read : {A : Type 0} → Result Text A → Result DescribeError A
or_not_read (ok a) = ok a
or_not_read (raise e) = raise (not_read e)

abbrev pub or_no_subtypes : {A : Type 0} → Result SubtypeError A → Result DescribeError A
or_no_subtypes (ok a) = ok a
or_no_subtypes (raise e) = raise (no_subtypes e)

abbrev pub same_flag : Bool → Bool → Bool
same_flag true b = b
same_flag false b = not b

-- `counter[reason] += 1`
abbrev pub count_or : Option ℕ → ℕ
count_or none = 0
count_or (some n) = n

abbrev pub bump : Text → Dict Text ℕ → Dict Text ℕ
bump reason counter = insert reason (count_or (lookup reason counter) + 1) counter

-- The attributes of a Variable that is kept.
pub record Kept (N F : Type 0) : Type 0 where
  pub var : Found N
  pub place : ℕ
  pub dtype : Option (Content N F)
  pub rank : Option (Content N F)
  pub display : DataValue N F
  pub description : DataValue N F

abbrev pub is_undeclared : Option Datatype → Bool
is_undeclared none = true
is_undeclared (some d) = false

-- The locals of the last loop; a described Variable with its datatype's text.
pub record Describing (N : Type 0) : Type 0 where
  pub out : List (Found N × Text × Text × Text)
  pub skipped : Dict Text ℕ
  pub variant : List N

abbrev pub description_of : Text → Text → Text → Text
description_of name display description =
    text_or description (if display == name then [] else display)

module _ {N : Type 0} where
  -- The properties that are there, each with its Variable's place and whether it is the unit.
  abbrev pub property_if : ℕ → Bool → Option N → List ((ℕ × Bool) × N)
  property_if i is_unit none = []
  property_if i is_unit (some n) = ((i, is_unit), n) ∷ []

  unfoldable pub properties : ℕ → List (Found N) → List ((ℕ × Bool) × N)
  properties i [] = []
  properties i (var ∷ found) =
      property_if i true var.eu ++ property_if i false var.eu_range ++ properties (i + 1) found

  -- The items of the first Read.
  unfoldable pub attribute_items : List (Found N) → List (N × Option Attribute)
  attribute_items [] = []
  attribute_items (var ∷ found) =
      map (λ a. (var.node_id, some a)) describe_attributes ++ attribute_items found

module _ {N F : Type 0} where
  -- `access is not None and not access & _CURRENT_READ`
  abbrev pub is_unreadable : Option (Content N F) → Result DescribeError Bool
  is_unreadable none = ok false
  is_unreadable (some (number (pos n))) = ok (eqb (n % 2) 0)
  is_unreadable (some (number (negsuc n))) = ok (not (eqb (n % 2) 0))
  is_unreadable (some _) = raise type_error

  -- Its DataType, rank and AccessLevel, read in this order.
  abbrev pub screen_one :
      Found N → ℕ → List (DataValue N F) → Result DescribeError (Text ⊎ Kept N F)
  screen_one var i (dtype ∷ rank ∷ access ∷ display ∷ description ∷ []) = do
    unreadable ← is_unreadable (value_of access)
    ok (
        if unreadable
        then inl (codes "not readable")
        else if is_array (value_of rank)
        then inl (codes "array")
        else inr (record {
          var = var;
          place = i;
          dtype = value_of dtype;
          rank = value_of rank;
          display = display;
          description = description;
        }))
  screen_one var i _ = raise wrong_shape

  abbrev pub keep_or_skip :
      Text ⊎ Kept N F → List (Kept N F) × Dict Text ℕ → List (Kept N F) × Dict Text ℕ
  keep_or_skip (inl reason) (kept, skipped) = (kept, bump reason skipped)
  keep_or_skip (inr k) (kept, skipped) = (kept ++ k ∷ [], skipped)

  -- `for i, var in enumerate(found)`
  unfoldable pub screen :
      ℕ
      → List (Found N)
      → List (DataValue N F)
      → List (Kept N F) × Dict Text ℕ
      → Result DescribeError (List (Kept N F) × Dict Text ℕ)
  screen i [] dvs acc = ok acc
  screen i (var ∷ found) dvs acc = do
    one ← screen_one var i (take 5 (drop (i * 5) dvs))
    screen (i + 1) found dvs (keep_or_skip one acc)

  -- `zip(props, dvs, strict=True)`
  unfoldable pub property_values :
      List ((ℕ × Bool) × N)
      → List (DataValue N F)
      → Result DescribeError (List ((ℕ × Bool) × Option (Content N F)))
  property_values [] [] = ok []
  property_values ((key, n) ∷ props) (dv ∷ dvs) = do
    rest ← property_values props dvs
    ok ((key, value_of dv) ∷ rest)
  property_values _ _ = raise wrong_shape

  -- `prop_values.get((id(var), key))`
  unfoldable pub property_of :
      ℕ → Bool → List ((ℕ × Bool) × Option (Content N F)) → Option (Content N F)
  property_of i is_unit [] = none
  property_of i is_unit (((j, unit), v) ∷ props) =
      let rest = property_of i is_unit props in
      if eqb j i && same_flag unit is_unit then v else rest

-- `await integer_subtypes(...) if vendor else {}`
abbrev pub vendor_subtypes :
    {N : Type 0}
    → (List N → Result SubtypeError (Dict N Datatype))
    → List N
    → Result DescribeError (Dict N Datatype)
vendor_subtypes subtypes_of vendor =
    if eqb (length vendor) 0 then ok [] else or_no_subtypes (subtypes_of vendor)

module _ {N F : Type 0} ⦃e : Eq N⦄ (types : Types N) where
  -- `set(d for ... if isinstance(d, NodeId) and not _builtin_or_abstract(d))`
  unfoldable pub vendor_types : List (Kept N F) → List N
  vendor_types [] = []
  vendor_types (k ∷ kept) =
      let rest = vendor_types kept in
      elim k.dtype [
        | some (data_type n) ↦ if types.resolved n || contains rest n then rest else n ∷ rest
        | _ ↦ rest
      ]

  abbrev pub needs_value : Dict N Datatype → Kept N F → Bool
  needs_value subtypes k =
      is_undeclared (declared_datatype types k.dtype subtypes) || is_maybe_scalar k.rank

  -- `f"{description} (range {rng.Low:g}..{rng.High:g})".lstrip()`
  abbrev pub with_range : (F → Text) → Option (Content N F) → Text → Text
  with_range general (some (eu_range low high)) description =
      strip_left
        (description ++ codes " (range " ++ general low ++ codes ".." ++ general high ++ codes ")")
  with_range general _ description = description

  -- One Variable of the last loop, with its datatype or the reason to skip it.
  abbrev pub describe_one :
      (F → Text)
      → List ((ℕ × Bool) × Option (Content N F))
      → Kept N F
      → Option Datatype × Text
      → Describing N
      → Describing N
  describe_one general props k (none, reason) d = record d { skipped = bump reason d.skipped }
  describe_one general props k (some datatype, _) d =
      let description =
        description_of k.var.name (localized_text (value_of k.display))
          (localized_text (value_of k.description)) in
      record d {
        out =
            d.out
            ++ (
              k.var,
              datatype_text datatype,
              unit_text (property_of k.place true props),
              with_range general (property_of k.place false props) description,
            )
              ∷ [];
        variant = if is_base types k.dtype then d.variant ++ k.var.node_id ∷ [] else d.variant;
      }

  -- `next(values)`, where a value is needed
  abbrev pub next_value :
      Bool
      → List (DataValue N F)
      → Result DescribeError (Option (DataValue N F) × List (DataValue N F))
  next_value false values = ok (none, values)
  next_value true [] = raise wrong_shape
  next_value true (dv ∷ values) = ok (some dv, values)

  -- The last loop.
  unfoldable pub describe_all :
      (F → Text)
      → Dict N Datatype
      → List ((ℕ × Bool) × Option (Content N F))
      → List (Kept N F)
      → List (DataValue N F)
      → Describing N
      → Result DescribeError (Describing N)
  describe_all general subtypes props [] dvs d = ok d
  describe_all general subtypes props (k ∷ kept) dvs d = do
    (dv, rest) ← next_value (needs_value subtypes k) dvs
    describe_all general subtypes props kept rest
        (describe_one general props k (field_datatype types k.dtype dv subtypes) d)

  -- `describe`; `read` is `rpc.read` with its chunk, `subtypes_of` the vendor datatypes' integers
  unfoldable pub describe :
      (List (N × Option Attribute) → Result Text (List (DataValue N F)))
      → (List N → Result SubtypeError (Dict N Datatype))
      → (F → Text)
      → List (Found N)
      → Result DescribeError (Describing N)
  describe read subtypes_of general found = do
    let props = properties 0 found
    let asked = attribute_items found ++ map (λ p. (p.1, none)) props
    dvs ← or_not_read (read asked)
    prop_values ← property_values props (drop (length found * 5) dvs)
    (kept, skipped) ← screen 0 found dvs ([], [])
    subtypes ← vendor_subtypes subtypes_of (vendor_types kept)
    values ←
        or_not_read (read (map (λ k. (k.var.node_id, none)) (keep_if (needs_value subtypes) kept)))
    describe_all general subtypes prop_values kept values
        (record { out = []; skipped = skipped; variant = [] })
