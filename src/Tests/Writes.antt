-- ===== src/Tests/Writes.antt =====
-- Writing by name.
use zelos_extension_opcua.Actions.Listing.{nodes_of, is_known_writable, known_writable_nodes}
use zelos_extension_opcua.NodeMap.Map.{get_by_name}
use zelos_extension_opcua.Tests.Ids.{ascii}
use zelos_extension_opcua.Tests.Numbers.{whole_only}
use zelos_extension_opcua.Actions.Listing.Sendable.{
  IsSendable, IsUnproven, known_writable_nodes-AreSendable,
}
use zelos_extension_opcua.Actions.Permitted.{IsPermitted, write_named_node-IsPermitted}
use zelos_extension_opcua.Actions.{
  ServerClient, Failure, get_node, VariantType, listed_type, Request, write_named_node,
}
use zelos_extension_opcua.Client.Values.{int, coerce_text, encode_value}
use zelos_extension_opcua.NodeMap.Node.{uint8, Node}
use zelos_extension_opcua.Prelude.Int.{ℤ, pos}
use zelos_extension_opcua.Prelude.{
  refl, Bool, true, false, not, Option, none, some, [], ◌∷◌, nat_eq, keep_if, All, Result, ok,
  lookup, Text, codes, same_text, text_eq,
}
use zelos_extension_opcua.NodeMap.Ids.{parse_int}

abbrev level : Node (Option ℤ)
level = record {
  node_id = codes "ns=2;i=7";
  name = codes "level";
  datatype = uint8;
  unit = [];
  scale = some (pos 1);
  description = [];
  writable = none;
}

abbrev tank : ServerClient (Option ℤ)
tank = record {
  name = codes "plc";
  node_map = some (record {
    events = (codes "tank", level ∷ []) ∷ [];
    name = codes "plc";
    description = [];
    intervals = [];
  });
  discovery = false;
  writable_cache = [];
}

abbrev says_writable : Text → Option Bool
says_writable id = some true

abbrev is_byte : Text → Result Failure (Option VariantType)
is_byte id = ok (some (listed_type uint8))

abbrev accepts : Request ascii whole_only → Result Failure (Unit {0})
accepts request = ok tt

abbrev five_sent : Request ascii whole_only
five_sent = record {
  node_id = codes "ns=2;i=7";
  value = int (pos 5);
  type_given = some (listed_type uint8);
}

write_named_node-IsPermitted_example :
    IsPermitted ascii whole_only says_writable is_byte accepts tank
      (codes "level")
      (codes "5")
      five_sent
unfolding write_named_node get_node get_by_name same_text coerce_text parse_int lookup encode_value
write_named_node-IsPermitted_example =
    write_named_node-IsPermitted ascii whole_only says_writable is_byte accepts tank (codes "level")
      (codes "5") {out = five_sent} refl

-- One node is proven as writable.
abbrev proven_tank : ServerClient (Option ℤ)
proven_tank = record tank { writable_cache = (codes "ns=2;i=7", true) ∷ [] }

known_writable_nodes-AreSendable_example :
    All
      (IsSendable ascii whole_only says_writable is_byte accepts proven_tank (int (pos 5)))
      (known_writable_nodes proven_tank)
    × All
        (IsUnproven ascii whole_only says_writable is_byte accepts proven_tank (int (pos 5)))
        (keep_if (λ n. not (is_known_writable proven_tank n)) (nodes_of proven_tank.node_map))
known_writable_nodes-AreSendable_example =
    known_writable_nodes-AreSendable ascii whole_only says_writable is_byte accepts proven_tank
      (int (pos 5))
