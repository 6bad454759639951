-- ===== src/Tests/Discovers.antt =====
-- A discovery of one Variable, and the limits of a server.
use zelos_extension_opcua.Tests.Names.{uris, libraries}
use zelos_extension_opcua.Discovery.Subtypes.{is_resolved, integer_of}
use zelos_extension_opcua.Discovery.Datatypes.{
  Content, data_type, number, localized, unsupported, usable, DataValue, Attribute,
  data_type_attribute, value_rank, access_level, display_name, description_attribute, Types,
  declared_of, field_datatype,
}
use zelos_extension_opcua.Discovery.Reading.{ReadReply, values}
use zelos_extension_opcua.Prelude.Int.{pos, negsuc}
use zelos_extension_opcua.Discovery.Browse.{
  good_browse, BrowseResult, Rpc, no_refs, take_results, take_page, follow, browse_once,
  browse_refused, browse_batch,
}
use zelos_extension_opcua.NodeMap.Node.{int16, datatype_text, datatype_of, Node, make_node}
use zelos_extension_opcua.Discovery.Naming.{
  index_text, split_quoted, before_quote, siemens, head_rest, codesys, br_task, inner_dot, dotted,
  last_is, group, node_id_string, place_all, hashed, is_collided, collider_name, name_rows,
  assign_names,
}
use zelos_extension_opcua.Discovery.Filter.{
  any_suffix, prefixes, match_path, below, PathFilter, excluded, included, reachable,
}
use zelos_extension_opcua.Discovery.Describe.{
  Describing, properties, attribute_items, screen, property_values, property_of, vendor_types,
  describe_all, describe,
}
use zelos_extension_opcua.Discovery.Walk.{
  variable, Reference, Found, add_to, set_unit, set_range, visit, take_node, take_reference,
  take_references, take_pages, failures, walk_batches, walk_rounds, walk,
}
use zelos_extension_opcua.Discovery.Discover.{Discovery, discover}
use zelos_extension_opcua.Discovery.Discover.Traced.{IsTracedId, discover-IsTraced}
use zelos_extension_opcua.NodeMap.Ids.{
  Identifier, str, int, guid, opaque, span, strip_prefix, match_rest, match_tail, match_node_id,
  digits_value, underscored, is_space, strip_left, strip_right, parse_int, hex_value, escape,
  unescape, unquote_runs, unquote, replace_char, parse_identifier, namespace_of, parse_node_id,
  format_nsu_node_id, NodeId,
}
use zelos_extension_opcua.Prelude.{
  ℕ, ◌≡◌, refl, sym, ap, ◌∙◌, ◌↔◌, Bool, true, false, Option, none, some, List, [], ◌∷◌, map, eqb,
  if◌then◌else◌, Eq, ◌==◌, nat_eq, pair_eq, chunks_from, All, Result, ok, contains, lookup, insert,
  Text, codes, same_text, same_text_iff, text_eq, split_parts, join, insert_by, sort_by, text_le,
  count_of,
}

-- Node ids as numbers, to compare them.
abbrev identifier_key : Identifier → Text
identifier_key (str s) = 0 ∷ s
identifier_key (int (pos n)) = 1 ∷ n ∷ []
identifier_key (int (negsuc n)) = 2 ∷ n ∷ []
identifier_key (guid n) = 3 ∷ n ∷ []
identifier_key (opaque b) = 4 ∷ b

first_of : Text → ℕ
first_of [] = 0
first_of (n ∷ s) = n

identifier_of_key : Text → Identifier
identifier_of_key [] = str []
identifier_of_key (k ∷ s) =
    if eqb k 0
    then str s
    else if eqb k 1
    then int (pos (first_of s))
    else if eqb k 2
    then int (negsuc (first_of s))
    else if eqb k 3
    then guid (first_of s)
    else opaque s

identifier_of_key-inverse : (i : Identifier) → identifier_of_key (identifier_key i) ≡ i
unfolding identifier_of_key first_of
identifier_of_key-inverse (str s) = refl
identifier_of_key-inverse (int (pos n)) = refl
identifier_of_key-inverse (int (negsuc n)) = refl
identifier_of_key-inverse (guid n) = refl
identifier_of_key-inverse (opaque b) = refl

abbrev node_key : NodeId → Text
node_key n = n.ns ∷ identifier_key n.identifier

node_of_key : Text → NodeId
node_of_key [] = record { ns = 0; identifier = str [] }
node_of_key (ns ∷ s) = record { ns = ns; identifier = identifier_of_key s }

node_of_key-inverse : (n : NodeId) → node_of_key (node_key n) ≡ n
unfolding node_of_key
node_of_key-inverse n =
    ap (λ i. record { ns = n.ns; identifier = i }) (identifier_of_key-inverse n.identifier)

same_node_iff : (a b : NodeId) → (same_text (node_key a) (node_key b) ≡ true) ↔ (a ≡ b)
same_node_iff a b = (
  (λ h.
      sym (node_of_key-inverse a)
      ∙ ap node_of_key ((same_text_iff (node_key a) (node_key b)).0 h)
      ∙ node_of_key-inverse b),
  (λ h. (same_text_iff (node_key a) (node_key b)).1 (ap node_key h)),
)

instance abbrev node_eq : Eq NodeId
node_eq = record { equals = λ a b. same_text (node_key a) (node_key b); equals_iff = same_node_iff }

abbrev node_at : ℕ → ℕ → NodeId
node_at ns n = record { ns = ns; identifier = int (pos n) }

abbrev speed_reference : Reference NodeId
speed_reference = record {
  node_id = node_at 1 7;
  server_index = 0;
  name = codes "Speed";
  is_property = false;
  node_class = variable;
}

abbrev references_at : NodeId → BrowseResult (Reference NodeId) ℕ
references_at n = record {
  status = good_browse;
  references = if eqb n.ns 0 then speed_reference ∷ [] else [];
  continuation = none;
}

abbrev one_node_server : Rpc NodeId (Reference NodeId) ℕ
one_node_server = record {
  browse = λ nodes. ok (map references_at nodes);
  browse_next = λ points. ok [];
}

abbrev not_office : PathFilter
not_office = record { included_globs = []; excluded_globs = (codes "Office" ∷ []) ∷ [] }

abbrev same_name : Text → Text → Bool
same_name name pattern = name == pattern

abbrev speed_at : Found NodeId
speed_at = record {
  node_id = node_at 1 7;
  name = codes "Speed";
  path = [];
  eu = none;
  eu_range = none;
}

walked :
    walk same_name (λ s. s) not_office one_node_server 1 10 3 (node_at 0 85) (node_at 0 2253)
    ≡ ok (speed_at ∷ [], [], 0)
unfolding walk walk_rounds walk_batches chunks_from browse_batch browse_once take_results lookup
    no_refs follow browse_refused failures take_pages insert take_references take_reference contains
    take_page any_suffix below excluded included match_path prefixes reachable add_to set_range
    set_unit take_node visit join same_text
walked = refl

abbrev node_types : Types NodeId
node_types = record {
  resolved = is_resolved;
  integer = integer_of;
  declared = declared_of;
  base = node_at 0 24;
}

abbrev good_at : Content NodeId ℕ → DataValue NodeId ℕ
good_at v = record { status = usable; variant = some (unsupported, some v) }

abbrev attribute_at : Option Attribute → DataValue NodeId ℕ
attribute_at none = good_at (number (pos 0))
attribute_at (some data_type_attribute) = good_at (data_type (node_at 0 4))
attribute_at (some value_rank) = good_at (number (negsuc 0))
attribute_at (some access_level) = good_at (number (pos 1))
attribute_at (some display_name) = good_at (localized none)
attribute_at (some description_attribute) = good_at (localized none)

abbrev read_at : List (NodeId × Option Attribute) → Result Text (List (DataValue NodeId ℕ))
read_at items = ok (map (λ i. attribute_at i.1) items)

abbrev one_described : Describing NodeId
one_described = record { out = (speed_at, codes "int16", [], []) ∷ []; skipped = []; variant = [] }

described :
    describe node_types read_at (λ types. ok []) (λ f. codes "0") (speed_at ∷ []) ≡ ok one_described
unfolding describe property_values properties attribute_items screen vendor_types is_resolved
    describe_all lookup field_datatype datatype_text property_of insert same_text
described = refl

abbrev one_node : Node ℕ
one_node = record {
  node_id = codes "nsu=urn:x;i=7";
  name = codes "Speed";
  datatype = int16;
  unit = [];
  scale = 1;
  description = [];
  writable = some false;
}

one_named :
    assign_names libraries uris one_described.out ≡ ok ((codes "Objects", one_node ∷ []) ∷ [], [])
unfolding assign_names place_all make_node datatype_of same_text parse_node_id node_id_string
    format_nsu_node_id replace_char parse_int name_rows sort_by group insert_by text_le insert
    is_collided join count_of siemens before_quote br_task codesys collider_name dotted hashed
    head_rest index_text inner_dot last_is split_quoted digits_value escape hex_value is_space
    match_node_id match_rest match_tail namespace_of parse_identifier span strip_left strip_prefix
    strip_right underscored unescape unquote unquote_runs datatype_text lookup split_parts
one_named = refl

abbrev one_discovery : Discovery ℕ
one_discovery = record {
  node_map = record {
    events = (codes "Objects", one_node ∷ []) ∷ [];
    name = codes "plc";
    description = codes "discovered";
    intervals = [];
  };
  skipped = [];
  renames = [];
  browse_failed = [];
  variant = [];
}

discovered :
    discover libraries same_name not_office one_node_server node_types read_at
      (λ types. ok [])
      (λ f. codes "0")
      1
      10
      3
      (node_at 0 85)
      (node_at 0 2253)
      uris
      (codes "plc")
    ≡ ok one_discovery
unfolding discover
discovered = rw (walked, described, one_named) refl

discover-IsTraced_example :
    All
      (λ event.
        All
          (λ n.
            IsTracedId libraries same_name not_office one_node_server 1 10 3
              (node_at 0 85)
              (node_at 0 2253)
              uris
              n.node_id)
          event.1)
      one_discovery.node_map.events
discover-IsTraced_example =
    discover-IsTraced libraries same_name not_office one_node_server node_types read_at
      (λ types. ok []) (λ f. codes "0") 1 10 3 (node_at 0 85) (node_at 0 2253) uris (codes "plc")
      {out = one_discovery} refl discovered

abbrev three_answers : List ℕ → ReadReply (Option ℕ) Text
three_answers items = values (map some items)
