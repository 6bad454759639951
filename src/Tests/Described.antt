-- ===== src/Tests/Described.antt =====
-- Describing two variables, of which one cannot be read.
use zelos_extension_opcua.Discovery.Describe.Returns.{describe-returns}
use zelos_extension_opcua.NodeMap.Node.{datatype_text}
use zelos_extension_opcua.Discovery.Walk.{Found}
use zelos_extension_opcua.Discovery.Subtypes.{is_resolved, integer_of}
use zelos_extension_opcua.Tests.Types.{standard}
use zelos_extension_opcua.Tests.Walks.{speed}
use zelos_extension_opcua.Discovery.Describe.{
  Describing, properties, attribute_items, screen, property_values, property_of, vendor_types,
  describe_all, describe,
}
use zelos_extension_opcua.Discovery.Describe.Counted.{total}
use zelos_extension_opcua.Discovery.Datatypes.{
  Content, data_type, number, localized, eu_information, unsupported, usable, DataValue, Attribute,
  data_type_attribute, value_rank, access_level, display_name, description_attribute, Types,
  declared_of, field_datatype,
}
use zelos_extension_opcua.Prelude.Int.{pos, negsuc}
use zelos_extension_opcua.Prelude.{
  ℕ, ◌+◌, ◌%◌, ◌≡◌, refl, Option, none, some, List, [], ◌∷◌, map, eqb, if◌then◌else◌, nat_eq,
  pair_eq, length, Result, ok, lookup, insert, Text, codes, text_eq,
}

abbrev number_types : Types ℕ
number_types = record {
  resolved = λ n. is_resolved (standard n);
  integer = λ n. integer_of (standard n);
  declared = λ n. declared_of (standard n);
  base = 24;
}

abbrev good_value : Content ℕ ℕ → DataValue ℕ ℕ
good_value v = record { status = usable; variant = some (unsupported, some v) }

abbrev attribute_of : ℕ → Option Attribute → DataValue ℕ ℕ
attribute_of n none = good_value (eu_information (some (codes "rpm")))
attribute_of n (some data_type_attribute) = good_value (data_type 6)
attribute_of n (some value_rank) = good_value (number (negsuc 0))
attribute_of n (some access_level) = good_value (number (pos (if eqb n 2 then 1 else 2)))
attribute_of n (some display_name) = good_value (localized none)
attribute_of n (some description_attribute) = good_value (localized (some (codes "speed")))

abbrev read_all : List (ℕ × Option Attribute) → Result Text (List (DataValue ℕ ℕ))
read_all items = ok (map (λ i. attribute_of i.0 i.1) items)

abbrev hidden_speed : Found ℕ
hidden_speed = record { node_id = 5; name = codes "Secret"; path = []; eu = none; eu_range = none }

abbrev described_speed : Describing ℕ
described_speed = record {
  out = (speed, codes "int32", codes "rpm", codes "speed") ∷ [];
  skipped = (codes "not readable", 1) ∷ [];
  variant = [];
}

speed_described :
    describe number_types read_all (λ types. ok []) (λ f. codes "0") (speed ∷ hidden_speed ∷ [])
    ≡ ok described_speed
unfolding describe property_values properties attribute_items screen vendor_types is_resolved
    describe_all lookup field_datatype datatype_text property_of insert
speed_described = refl

abbrev answers : ℕ × Option Attribute → DataValue ℕ ℕ
answers i = attribute_of i.0 i.1

describe-returns_example :
    (out : Describing ℕ) × (describe number_types read_all
        (λ types. ok [])
        (λ f. codes "0")
        (speed ∷ hidden_speed ∷ [])
      ≡ ok out)
    × (length out.out + total out.skipped ≡ length (speed ∷ hidden_speed ∷ []))
describe-returns_example =
    describe-returns answers number_types read_all (λ types. ok []) (λ f. codes "0")
      (speed ∷ hidden_speed ∷ []) (λ items. refl)
      (λ n. (eqb ((if eqb n 2 then 1 else 2) % 2) 0, refl)) (λ types. ([], refl))
