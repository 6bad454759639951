-- ===== src/Tests/Types.antt =====
-- Vendor datatypes: 200 derives from 100, which derives from Int64; 300 derives from a string.
use zelos_extension_opcua.Discovery.Subtypes.{
  is_resolved, integer_of, parent_in, supertypes, zip_dict, set_of, pick_values, advance,
  climb_levels, integer_subtypes,
}
use zelos_extension_opcua.Discovery.Subtypes.Climbing.{climb, integer_subtypes-climb}
use zelos_extension_opcua.NodeMap.Ids.{int, NodeId}
use zelos_extension_opcua.Discovery.Browse.{good_browse, BrowseResult}
use zelos_extension_opcua.NodeMap.Node.{Datatype, int64}
use zelos_extension_opcua.Prelude.Int.{pos}
use zelos_extension_opcua.Prelude.{
  ℕ, ◌≡◌, refl, Bool, Option, none, List, [], ◌∷◌, map, arith, leb, eqb, if◌then◌else◌, nat_eq,
  chunks_from, All, Result, ok, Dict, contains, lookup, Text, text_eq, insert_by, sort_by,
}

-- A number as an id of namespace 0.
abbrev pub standard : ℕ → NodeId
standard n = record { ns = 0; identifier = int (pos n) }

abbrev known : ℕ → Bool
known n = is_resolved (standard n)

abbrev whole : ℕ → Option Datatype
whole n = integer_of (standard n)

abbrev derives_from : ℕ → BrowseResult ℕ ℕ
derives_from n = record {
  status = good_browse;
  references =
      if eqb n 200
      then 100 ∷ []
      else if eqb n 100
      then 8 ∷ []
      else if eqb n 300
      then 12 ∷ []
      else [];
  continuation = none;
}

abbrev browse_up : List ℕ → Result Text (List (BrowseResult ℕ ℕ))
browse_up types = ok (map derives_from types)

integer_subtypes-climb_example :
    (out : Dict ℕ Datatype) × (integer_subtypes known whole browse_up leb 2 (200 ∷ 300 ∷ 100 ∷ [])
      ≡ ok out)
    × All
        (λ t.
          lookup t out
          ≡ climb known whole (λ a. parent_in (derives_from a).status (derives_from a)) 8 t)
        (200 ∷ 300 ∷ 100 ∷ [])
unfolding contains
integer_subtypes-climb_example =
    integer_subtypes-climb known whole browse_up leb 2 derives_from (λ types. refl) (omega arith)
      (200 ∷ 300 ∷ 100 ∷ []) (refl, (refl, (refl, tt)))

subtypes_found :
    integer_subtypes known whole browse_up leb 2 (200 ∷ 300 ∷ 100 ∷ [])
    ≡ ok ((200, int64) ∷ (100, int64) ∷ [])
unfolding integer_subtypes climb_levels sort_by set_of is_resolved contains insert_by supertypes
    chunks_from zip_dict advance lookup pick_values integer_of
subtypes_found = refl
