-- ===== src/Actions/Listing.antt =====
-- The actions that list nodes: `_clients_for`, `list_nodes` and `list_writable_nodes` of
-- zelos_extension_opcua/actions.py, with `known_writable_nodes` of zelos_extension_opcua/client.py.
-- A listed node stands for its fields.
pub mod Sendable
use zelos_extension_opcua.Actions.{ServerClient, ActionError, get_client}
use zelos_extension_opcua.NodeMap.Map.{NodeMap, all_nodes}
use zelos_extension_opcua.NodeMap.Node.{Node}
use zelos_extension_opcua.Prelude.{
  Bool, false, Option, none, some, List, [], ◌∷◌, ◌++◌, map, if◌then◌else◌, nat_eq, keep_if, Result,
  ok, raise, ◌>>=◌, ◌>>◌, Dict, values, lookup, Text, text_eq, is_empty,
}

-- `self._writable_cache.get(id, False)`
abbrev pub or_unproven : Option Bool → Bool
or_unproven none = false
or_unproven (some b) = b

abbrev pub is_writable : Option Bool → Option Bool → Bool
is_writable (some declared) cached = declared
is_writable none cached = or_unproven cached

module _ {F : Type 0} where
  abbrev pub nodes_of : Option (NodeMap F) → List (Node F)
  nodes_of none = []
  nodes_of (some m) = all_nodes m

  abbrev pub is_known_writable : ServerClient F → Node F → Bool
  is_known_writable c n = is_writable n.writable (lookup n.node_id c.writable_cache)

  -- `known_writable_nodes`
  unfoldable pub known_writable_nodes : ServerClient F → List (Node F)
  known_writable_nodes c = keep_if (is_known_writable c) (nodes_of c.node_map)

  abbrev pub only_one :
      Result ActionError (ServerClient F) → Result ActionError (List (ServerClient F))
  only_one (ok c) = ok (c ∷ [])
  only_one (raise e) = raise e

  -- `_clients_for`
  unfoldable pub clients_for :
      (Text → Text) → Dict Text (ServerClient F) → Text → Result ActionError (List (ServerClient F))
  clients_for sanitize clients server =
      if is_empty server then ok (values clients) else only_one (get_client sanitize clients server)

  -- A row of a list: the server, the event where it is shown, and the node.
  abbrev pub rows_of : ServerClient F → List (Node F) → List (Text × Node F)
  rows_of c nodes = map (λ n. (c.name, n)) nodes

  unfoldable pub writable_rows : List (ServerClient F) → List (Text × Node F)
  writable_rows [] = []
  writable_rows (c ∷ cs) = rows_of c (known_writable_nodes c) ++ writable_rows cs

  -- `list_writable_nodes`
  unfoldable pub list_writable_nodes :
      (Text → Text) → Dict Text (ServerClient F) → Text → Result ActionError (List (Text × Node F))
  list_writable_nodes sanitize clients server = do
    cs ← clients_for sanitize clients server
    ok (writable_rows cs)

  unfoldable pub event_rows : Text → Dict Text (List (Node F)) → List (Text × Text × Node F)
  event_rows server [] = []
  event_rows server ((event_name, nodes) ∷ events) =
      map (λ n. (server, event_name, n)) nodes ++ event_rows server events

  abbrev pub events_of : Option (NodeMap F) → Dict Text (List (Node F))
  events_of none = []
  events_of (some m) = m.events

  unfoldable pub node_rows : List (ServerClient F) → List (Text × Text × Node F)
  node_rows [] = []
  node_rows (c ∷ cs) = event_rows c.name (events_of c.node_map) ++ node_rows cs

  -- `list_nodes`
  unfoldable pub list_nodes :
      (Text → Text)
      → Dict Text (ServerClient F)
      → Text
      → Result ActionError (List (Text × Text × Node F))
  list_nodes sanitize clients server = do
    cs ← clients_for sanitize clients server
    ok (node_rows cs)
