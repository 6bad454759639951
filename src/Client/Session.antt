-- ===== src/Client/Session.antt =====
-- The session of a connection that ended: `_Detached`, `_ensure_connected`, `_detach` and
-- `_resume_on_open` of zelos_extension_opcua/client.py. What the requests do is their outcome, an
-- argument; the time-outs are among the failures.
pub mod Fates
use zelos_extension_opcua.Prelude.{
  ℕ, Bool, true, false, not, ◌&&◌, Option, none, some, if◌then◌else◌, Text,
}

-- `_Detached`
pub record Detached : Type 0 where
  pub token : Text
  pub nonce : Text
  pub policies : Text
  pub keep : Bool

-- The client's fields that the four write.
pub record Holder : Type 0 where
  pub detached : Option Detached
  pub connected : Bool
  pub fresh : Bool
  pub ready : Bool
  pub resumed : Bool

-- `client.uaclient.protocol`
pub record Protocol : Type 0 where
  pub has_transport : Bool
  pub is_closed : Bool

-- What asyncua's client holds of a session.
pub record Channel : Type 0 where
  pub token : Text
  pub nonce : Text
  pub policies : Text
  pub has_session : Bool
  pub protocol : Option Protocol

-- A request that succeeds, or raises: a connection error or not, with a status code or without.
pub data RequestOutcome : Type 0 where
  succeeds : RequestOutcome
  raises : Bool → Option ℕ → RequestOutcome

abbrev pub is_success : RequestOutcome → Bool
is_success succeeds = true
is_success (raises link code) = false

abbrev pub detached_of : Channel → Bool → Detached
detached_of ch keep = record {
  token = ch.token;
  nonce = ch.nonce;
  policies = ch.policies;
  keep = keep;
}

-- `protocol is not None and protocol.transport is not None`
abbrev pub is_up : Option Protocol → Bool
is_up none = false
is_up (some p) = p.has_transport

-- `protocol is not None and not protocol.is_closed`
abbrev pub is_open : Option Protocol → Bool
is_open none = false
is_open (some p) = not p.is_closed

-- Whether `_detach` closes the session on its own channel.
unfoldable pub is_closed_here : Channel → Bool → RequestOutcome → Bool
is_closed_here ch keep close =
    if keep && is_up ch.protocol
    then false
    else not keep && ch.has_session && is_open ch.protocol && is_success close

-- `_detach`, with the outcome of its CloseSession
unfoldable pub detach : Channel → Bool → RequestOutcome → Holder → Holder
detach ch keep close h =
    if ch.has_session && not (is_closed_here ch keep close)
    then record h { detached = some (detached_of ch keep) }
    else h

-- `_ensure_connected` up to the connect: none where it is connected, and the client that is there.
unfoldable pub ensure_connected : Option Channel → RequestOutcome → Holder → Option Holder
ensure_connected none close h = some (record h { connected = false; fresh = false })
ensure_connected (some ch) close h =
    if h.connected
    then none
    else some (record (detach ch (not h.fresh) close h) { connected = false; fresh = false })

-- `resume` returns whether the session was resumed, or raises.
pub data Answer : Type 0 where
  returns : Bool → Answer
  channel_failed : Answer

-- `code not in SESSION_GONE_CODES`
abbrev pub is_left : (ℕ → Bool) → Option ℕ → Bool
is_left gone none = true
is_left gone (some code) = not (gone code)

-- A new session follows.
abbrev pub start_anew : Holder → Answer × Holder
start_anew h = (returns false, record h { detached = none; ready = false })

abbrev pub after_activate : (ℕ → Bool) → RequestOutcome → Detached → Holder → Answer × Holder
after_activate gone succeeds d h =
    if d.keep then (returns true, record h { detached = none; resumed = true }) else start_anew h
after_activate gone (raises link code) d h =
    if d.keep && link && is_left gone code
    then (channel_failed, record h { detached = some d })
    else start_anew h

-- `resume` of `_resume_on_open`, with the outcome of ActivateSession. A session that is not kept is
-- closed next, whatever comes of that.
unfoldable pub resume : (ℕ → Bool) → RequestOutcome → Holder → Answer × Holder
resume gone activate h = elim h.detached [
  | none ↦ start_anew h
  | some d ↦ after_activate gone activate d h
]
