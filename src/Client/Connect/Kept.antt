-- ===== src/Client/Connect/Kept.antt =====
-- When the subscriptions of a resumed session are kept.

use zelos_extension_opcua.Client.Connect.{
  Opening, unopened, created, resumed_one, Meeting, Session, Stage, differs,
}
use zelos_extension_opcua.Prelude.{◌≡◌, ◌⊎◌, Bool, true, false, none, some, []}

module _ (s : Meeting) (st : Session) where
  -- The session is resumed, its set-up was complete, and its namespaces are those known.
  abbrev pub IsResumed : Type 0
  IsResumed = (s.opened ≡ resumed_one) × (st.ready ≡ true) × (differs st.namespaces s.array ≡ false)

  -- Nor did a discovery find a change.
  abbrev pub IsUnchanged : Type 0
  IsUnchanged = IsResumed × ((st.discovery ≡ false) ⊎ (s.discovered ≡ some false))

  -- A new session follows, whether it is opened or not.
  abbrev pub is_new : Opening → Bool
  is_new (unopened anew) = anew
  is_new created = true
  is_new resumed_one = false

  -- What a failure leaves: a set-up that is to be made again, or one that was complete with its
  -- subscriptions, and no new session.
  abbrev pub IsLeft : Session → Type 0
  IsLeft after =
      (after.ready ≡ false)
      ⊎ ((is_new s.opened ≡ false) × (after.ready ≡ st.ready) × (after.subs ≡ st.subs))

  -- A success is connected and ready, with the old subscriptions where that is allowed, or new ones.
  abbrev pub IsSetUp : Stage → Type 0
  IsSetUp (false, after) = IsLeft after
  IsSetUp (true, after) =
      (after.connected ≡ true)
      × (after.ready ≡ true)
      × ((IsUnchanged × (after.subs ≡ st.subs)) ⊎ (s.started ≡ some after.subs))

  -- The fields that reading the NamespaceArray leaves as they are.
  abbrev Same : Session → Stage → Type 0
  Same mid out =
      (out.1.connected ≡ mid.connected)
      × (out.1.ready ≡ mid.ready)
      × (out.1.subs ≡ mid.subs)
      × (out.1.discovery ≡ mid.discovery)

  abbrev reopened : Session
  reopened = record st { connected = true; namespaces = none }

  abbrev anew : Session
  anew = record reopened { ready = false; subs = [] }

  -- A failure is not connected, a success has been connected.
  abbrev pub IsConnectResult : Stage → Type 0
  IsConnectResult (true, after) = IsSetUp (true, after) × (after.ever_connected ≡ true)
  IsConnectResult (false, after) = (after.connected ≡ false) × IsLeft after
