-- ===== src/Client/Connect.antt =====
-- Setting up a connection: `connect`, `_namespace_array` and the reset of `_resume_on_open` of
-- zelos_extension_opcua/client.py. What each awaited request meets is an argument; the parts that
-- they call (`_discover`, `_resolve_nodes`, `_start_transport`) succeed or fail as a whole, so what a
-- failed `_start_transport` has subscribed is left out.
pub mod Kept
use zelos_extension_opcua.Prelude.{
  ℕ, Bool, true, false, not, ◌&&◌, ◌||◌, Option, none, some, List, [], ◌∷◌, if◌then◌else◌, ◌==◌,
  nat_eq, Text, text_eq,
}

-- How the session opens: not at all, after or before its hook has found that a new session
-- follows (`resume` of `_resume_on_open`); as a new session; or resumed.
pub data Opening : Type 0 where
  unopened : Bool → Opening
  created : Opening
  resumed_one : Opening

-- What the requests of one `connect` meet.
pub record Meeting : Type 0 where
  pub opened : Opening
  pub limits_read : Bool
  -- the server's NamespaceArray, none if it cannot be read
  pub array : Option (List Text)
  -- whether the nodes or their variants changed, none if the discovery fails
  pub discovered : Option Bool
  -- some node id of the map has a URI
  pub uses_uris : Bool
  pub nodes_resolved : Bool
  -- the new subscriptions, none if they cannot be made
  pub started : Option (List ℕ)

-- The client's fields that a connect writes.
pub record Session : Type 0 where
  pub discovery : Bool
  pub connected : Bool
  pub ready : Bool
  pub ever_connected : Bool
  pub namespaces : Option (List Text)
  pub subs : List ℕ

-- Whether to go on, and the state: an exception stops with the state so far.
abbrev pub Stage : Type 0
Stage = Bool × Session

abbrev pub go_on : Stage → (Session → Stage) → Stage
go_on (true, st) next = next st
go_on (false, st) next = (false, st)

unfoldable pub same_texts : List Text → List Text → Bool
same_texts [] [] = true
same_texts (s ∷ ss) (t ∷ ts) = s == t && same_texts ss ts
same_texts _ _ = false

abbrev pub fetched : Option (List Text) → Session → Stage
fetched none st = (false, st)
fetched (some array) st = (true, record st { namespaces = some array })

-- `_namespace_array`, once per connection
abbrev pub fetch_when : Option (List Text) → Meeting → Session → Stage
fetch_when (some known) s st = (true, st)
fetch_when none s st = fetched s.array st

abbrev pub fetch : Meeting → Session → Stage
fetch s st = fetch_when st.namespaces s st

abbrev pub differs : Option (List Text) → Option (List Text) → Bool
differs (some known) (some array) = not (same_texts array known)
differs _ _ = false

-- The rebuild: the old subscriptions go, the nodes are resolved, the transport is started.
abbrev pub started_with : Option (List ℕ) → Session → Stage
started_with none st = (false, st)
started_with (some subs) st = (true, record st { subs = subs; ready = true })

abbrev pub resolve_nodes : Meeting → Session → Stage
resolve_nodes s st =
    if s.uses_uris
    then go_on (fetch s st) (λ st'. (s.nodes_resolved, st'))
    else (s.nodes_resolved, st)

unfoldable pub rebuild_session : Meeting → Session → Stage
rebuild_session s st =
    go_on (resolve_nodes s (record st { ready = false })) (started_with s.started)

-- The discovery, and whether it changes the nodes.
abbrev pub discover_changes : Option Bool → Session → (Bool → Session → Stage) → Stage
discover_changes none st next = (false, st)
discover_changes (some changed) st next = next changed st

unfoldable pub set_up : Meeting → Bool → Bool → Session → Stage
unfolding rebuild_session
set_up s resumed rebuild st = if resumed && not rebuild then (true, st) else rebuild_session s st

unfoldable pub discover_first : Meeting → Bool → Bool → Session → Stage
unfolding set_up
discover_first s resumed rebuild st =
    if st.discovery
    then go_on (fetch s st) (λ st'.
      discover_changes s.discovered st' (λ changed. set_up s resumed (rebuild || changed)))
    else set_up s resumed rebuild st

-- What a resumed session needs: complete before, and the namespaces as they were.
abbrev pub resume_with : Option (List Text) → Meeting → Session → Stage
resume_with none s st = discover_first s true false st
resume_with (some known) s st =
    go_on (fetch s st) (λ st'. discover_first s true (differs (some known) st'.namespaces) st')

-- The session opens, or does not: a new one is not ready, `self._ready = False` of the hook.
abbrev pub open_session : Opening → Meeting → Session → Stage
open_session (unopened true) s st = (false, record st { ready = false })
open_session (unopened false) s st = (false, st)
open_session created s st =
    let new = record st { connected = true; ready = false; namespaces = none; subs = [] } in
    if s.limits_read then discover_first s false false new else (false, new)
open_session resumed_one s st =
    let same = record st { connected = true; namespaces = none } in
    if st.ready then resume_with st.namespaces s same else discover_first s true true same

abbrev pub finish : Stage → Stage
finish (true, st) = (true, record st { ever_connected = true })
finish (false, st) = (false, record st { connected = false })

unfoldable pub connect : Meeting → Session → Stage
connect s st = finish (open_session s.opened s st)
