-- ===== src/Discovery/Naming.antt =====
-- The names of what a walk found: `assign_names`, `vendor_segments` and `node_id_string` of
-- zelos_extension_opcua/discovery.py. What they use of the libraries is the record `Naming`.
pub mod Groups
pub mod Unambiguous
use zelos_extension_opcua.Discovery.Filter.{BrowsePath}
use zelos_extension_opcua.NodeMap.Node.{NodeError, Node, make_node}
use zelos_extension_opcua.Discovery.Walk.{Found}
use zelos_extension_opcua.Prelude.{
  ℕ, zero, suc, ◌+◌, ◌-◌, ◌/◌, ◌%◌, Bool, true, false, not, ◌&&◌, ◌||◌, Option, none, some, List,
  [], ◌∷◌, ◌++◌, map, ltb, leb, eqb, if◌then◌else◌, ◌==◌, nat_eq, pair_eq, length, take, get_elem?,
  keep_if, all_of, Result, ok, ◌>>=◌, ◌>>◌, Dict, lookup, insert, Text, codes, text_eq, is_empty,
  cut_cons, cut_new, split, join, sort_by, text_le, count_of,
}
use zelos_extension_opcua.NodeMap.Ids.{
  Codecs, Identifier, str, span, strip_prefix, match_rest, format_nsu_node_id, NodeId,
}

pub record Naming (F : Type 0) : Type 0 where
  pub codecs : Codecs
  -- the default scale
  pub one : F
  -- `sanitize_name(name, kind="field")`
  pub sanitize : Text → Text
  -- `NodeId.to_string()` in namespace 0
  pub bare : Identifier → Text
  -- `hashlib.sha1(node_id.encode()).hexdigest()`
  pub sha1 : Text → Text

-- A described Variable: its datatype, its unit and its description.
abbrev pub Described : Type 0
Described = Found NodeId × Text × Text × Text

-- `str(n)` of a number with at most that many digits and one more
unfoldable pub index_text : ℕ → ℕ → Text
index_text zero n = (b'0' + n % 10) ∷ []
index_text (suc digits) n =
    let rest = index_text digits (n / 10) in (if ltb n 10 then [] else rest) ++ (b'0' + n % 10) ∷ []

-- `'"."'.join` undone: the pieces between the separators of three characters.
unfoldable pub split_quoted : Text → Text × List Text
split_quoted [] = ([], [])
split_quoted (c ∷ []) = (c ∷ [], [])
split_quoted (c ∷ d ∷ []) = (c ∷ d ∷ [], [])
split_quoted (c ∷ d ∷ f ∷ s) = elim (c == b'"' && d == b'.' && f == b'"') [
  | true ↦ cut_new (split_quoted s)
  | false ↦ cut_cons c (split_quoted (d ∷ f ∷ s))
]

-- The text without its last character, which is the quote.
unfoldable pub before_quote : Text → Option Text
before_quote [] = none
before_quote (c ∷ []) = if c == b'"' then some [] else none
before_quote (c ∷ d ∷ s) = elim (before_quote (d ∷ s)) [ none ↦ none | some t ↦ some (c ∷ t) ]

-- `^"(.+)"$`, split at `"."`
abbrev pub between_quotes : Option Text → Option (List Text)
between_quotes none = none
between_quotes (some []) = none
between_quotes (some (c ∷ s)) = let pieces = split_quoted (c ∷ s) in some (pieces.0 ∷ pieces.1)

unfoldable pub siemens : Text → Option (List Text)
siemens [] = none
siemens (q ∷ s) =
    if q == b'"'
    then elim (match_rest s) [ none ↦ none | some body ↦ between_quotes (before_quote body) ]
    else none

-- `[^.]+\.(.+)$` and `[^:]+:(.+)$`: the head, and the rest.
unfoldable pub head_rest : ℕ → Text → Option (Text × Text)
unfolding span match_rest
head_rest sep s =
    let (head, after) = span (λ c. not (c == sep)) s in
    if is_empty head then none else elim after [
      | [] ↦ none
      | c ∷ rest ↦ elim (match_rest rest) [ none ↦ none | some body ↦ some (head, body) ]
    ]

-- `^\|var\|[^.]+\.(.+)$`, split at the dots
unfoldable pub codesys : Text → Option (List Text)
codesys s = elim (strip_prefix (codes "|var|") s) [
  | none ↦ none
  | some t ↦ elim (head_rest b'.' t) [ none ↦ none | some r ↦ some (split b'.' r.1) ]
]

-- `^::([^:]+):(.+)$`
unfoldable pub br_task : Text → Option (List Text)
br_task s = elim (strip_prefix (codes "::") s) [
  | none ↦ none
  | some t ↦ elim (head_rest b':' t) [ none ↦ none | some r ↦ some (r.0 ∷ split b'.' r.1) ]
]

-- A dot before the last character.
unfoldable pub inner_dot : Text → Bool
inner_dot [] = false
inner_dot (c ∷ []) = false
inner_dot (c ∷ d ∷ s) = c == b'.' || inner_dot (d ∷ s)

-- `^[^"|:]+\.[^"|:]+$`
unfoldable pub dotted : Text → Option (List Text)
dotted [] = none
dotted (c ∷ s) =
    if all_of (λ x. not (x == b'"' || x == b'|' || x == b':')) (c ∷ s) && inner_dot s
    then some (split b'.' (c ∷ s))
    else none

-- VENDOR_IDS, the first pattern that matches
abbrev pub first_match : Option (List Text) → Option (List Text) → Option (List Text)
first_match none other = other
first_match (some segments) other = some segments

abbrev pub vendor_match : Text → Option (List Text)
vendor_match s =
    first_match (siemens s) (first_match (codesys s) (first_match (br_task s) (dotted s)))

unfoldable pub last_is : Text → List Text → Bool
last_is name [] = false
last_is name (s ∷ []) = s == name
last_is name (s ∷ t ∷ ts) = last_is name (t ∷ ts)

abbrev pub agreed : Text → Option (List Text) → Option (List Text)
agreed name none = none
agreed name (some segments) =
    if leb 2 (length segments) && all_of (λ s. not (is_empty s)) segments && last_is name segments
    then some segments
    else none

-- `vendor_segments`
abbrev pub vendor_of : Identifier → Text → Option (List Text)
vendor_of (str s) name = agreed name (vendor_match s)
vendor_of _ name = none

-- `segments[:-1]`
abbrev pub all_but_last : List Text → List Text
all_but_last segments = take (length segments - 1) segments

abbrev pub parts_of : Option (List Text) → BrowsePath → List Text
parts_of (some segments) path = all_but_last segments
parts_of none [] = codes "Objects" ∷ []
parts_of none (x ∷ path) = x ∷ path

-- An event and a node of it.
abbrev pub Placed : Type 0 → Type 0
Placed F = Text × Node F

module _ {F : Type 0} where
  abbrev pub row_key : Placed F → Text × Text
  row_key r = (r.0, r.1.name)

  -- `events.setdefault(event, []).append(node)`
  abbrev pub nodes_or : Option (List (Node F)) → List (Node F)
  nodes_or none = []
  nodes_or (some nodes) = nodes

  unfoldable pub group : List (Placed F) → Dict Text (List (Node F)) → Dict Text (List (Node F))
  group [] events = events
  group ((event, n) ∷ rows) events =
      group rows (insert event (nodes_or (lookup event events) ++ n ∷ []) events)

module _ {F : Type 0} (p : Naming F) (namespaces : List Text) where
  -- `node_id_string`, with `to_nsu_string`
  unfoldable pub node_id_string : NodeId → Text
  node_id_string n =
      let plain = codes "ns=" ++ index_text 4 n.ns ++ b';' ∷ p.bare n.identifier in
      if eqb n.ns 0 then plain else elim (get_elem? namespaces n.ns) [
        | none ↦ plain
        | some u ↦ format_nsu_node_id u (p.bare n.identifier)
      ]

  -- The event and the node of a described Variable.
  abbrev pub event_of : Described → Text
  event_of (var, _, _, _) =
      join b'/' (map p.sanitize (parts_of (vendor_of var.node_id.identifier var.name) var.path))

  abbrev pub field_of : Described → Text
  field_of (var, _, _, _) = p.sanitize var.name

  abbrev pub id_of : Described → Text
  id_of (var, _, _, _) = node_id_string var.node_id

  abbrev pub placed : Described → Result NodeError (Placed F)
  placed (var, datatype, unit, description) = do
    n ←
        make_node p.codecs (node_id_string var.node_id) (p.sanitize var.name) datatype unit p.one
          description (some false)
    ok (event_of (var, datatype, unit, description), n)

  unfoldable pub place_all : List Described → Result NodeError (List (Placed F))
  place_all [] = ok []
  place_all (d ∷ described) = do row ← placed d; rows ← place_all described; ok (row ∷ rows)

module _ {F : Type 0} (p : Naming F) where
  -- `_hashed`
  unfoldable pub hashed : Text → Text → ℕ → Text
  hashed name node_id digits = name ++ b'_' ∷ take digits (p.sha1 node_id)

  module _ (rows : List (Placed F)) where
    -- `taken[(event, node.name)] > 1`
    unfoldable pub is_collided : Placed F → Bool
    is_collided r = ltb 1 (count_of row_key rows (row_key r))

    -- `hashed.get(id(node), node.name)`
    abbrev pub short_name : Placed F → Text
    short_name r = if is_collided r then hashed r.1.name r.1.node_id 6 else r.1.name

    abbrev pub short_key : Placed F → Text × Text
    short_key r = (r.0, short_name r)

    -- The name of a collider: `again[(event, name)] > 1` for the short one.
    unfoldable pub collider_name : Placed F → Text
    collider_name r =
        if ltb 1 (count_of short_key rows (r.0, hashed r.1.name r.1.node_id 6))
        then hashed r.1.name r.1.node_id 10
        else hashed r.1.name r.1.node_id 6

    abbrev pub final_name : Placed F → Text
    final_name r = if is_collided r then collider_name r else r.1.name

    abbrev pub renamed : Placed F → Placed F
    renamed r = (r.0, record r.1 { name = final_name r })

    abbrev pub rename_text : Placed F → Text
    rename_text r =
        r.0
        ++ b'/' ∷ r.1.name
        ++ codes " -> "
        ++ collider_name r
        ++ codes " ("
        ++ r.1.node_id
        ++ codes ")"

  -- The rows named, in the order of their node ids.
  unfoldable pub name_rows : List (Placed F) → Dict Text (List (Node F)) × List Text
  name_rows placed_rows =
      let rows = sort_by (λ a b. text_le a.1.node_id b.1.node_id) placed_rows in
      (
        sort_by (λ a b. text_le a.0 b.0) (group (map (renamed rows) rows) []),
        map (rename_text rows) (keep_if (is_collided rows) rows),
      )

  -- `assign_names`: the events with their nodes, and the renames
  unfoldable pub assign_names :
      List Text → List Described → Result NodeError (Dict Text (List (Node F)) × List Text)
  assign_names namespaces described = do
    rows ← place_all p namespaces described
    ok (name_rows rows)
