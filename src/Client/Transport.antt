-- ===== src/Client/Transport.antt =====
-- Subscribing: `OPCUAClient._subscribe` and `_Sub` of zelos_extension_opcua/client.py.
-- Times and intervals are whole milliseconds. The server's answers are a function of the request:
-- no two requests of a run are alike. `T` is a target, `(event, node, resolved id)`.
pub mod Coverage
pub mod Cadence
pub mod Others
use zelos_extension_opcua.Prelude.{
  ℕ, ◌+◌, ◌-◌, ◌*◌, ◌/◌, max, Bool, Option, none, some, List, [], ◌∷◌, ◌++◌, map, eqb,
  if◌then◌else◌, nat_eq, length, chunks, keep_if, Result, ok, raise, ◌>>=◌, ◌>>◌, Dict, keys,
  contains, insert, erase, Text, text_eq,
}

pub record Status : Type 0 where
  pub code : ℕ
  pub name : Text

-- The status codes that the client tells apart: SERVER_FULL_CODES and CONNECTION_STATUS_CODES.
pub record CodeSets : Type 0 where
  pub server_full : ℕ → Bool
  pub connection : ℕ → Bool

-- The request of a subscription.
pub record SubscriptionRequest : Type 0 where
  pub publishing_interval : ℕ
  pub lifetime_count : ℕ
  pub max_keepalive_count : ℕ

-- The reply, with the time at which it is there.
pub data SubscriptionReply : Type 0 where
  created : ℕ → ℕ → ℕ → ℕ → SubscriptionReply
  refused : Status → SubscriptionReply

pub data ItemResult : Type 0 where
  good : ItemResult
  bad : Status → ItemResult

-- The reply to CreateMonitoredItems, with the time at which it is there.
pub data ItemsReply : Type 0 where
  results : ℕ → List ItemResult → ItemsReply
  fault : ℕ → Status → ItemsReply

pub data DeleteReply : Type 0 where
  deleted : DeleteReply
  delete_refused : DeleteReply

pub record Server (T : Type 0) : Type 0 where
  pub create_subscription : SubscriptionRequest → SubscriptionReply
  pub create_items : ℕ → List (ℕ × T) → ItemsReply
  pub delete_subscription : ℕ → DeleteReply

pub data Stall : Type 0 where
  no_keepalive : Stall
  ended : Text → Stall
  lost : List ℕ → Text → Stall

-- `_Sub`
pub record Sub (T : Type 0) : Type 0 where
  pub interval : ℕ
  pub items : List (ℕ × T)
  pub deadline : ℕ
  pub heard : ℕ
  pub expected : ℕ
  pub stalled : Option Stall

-- The client's fields of one connection that the transport keeps.
pub record Transport (T : Type 0) : Type 0 where
  pub monitored : Dict ℕ T
  pub stale : Dict ℕ ℕ
  pub stale_after : ℕ
  pub subs : Dict ℕ (Sub T)

-- A connection error that `connect` catches, or `zip(strict=True)` over lists of two lengths.
pub data TransportError : Type 0 where
  connection_lost : Status → TransportError
  wrong_length : TransportError

abbrev pub ceil_div : ℕ → ℕ → ℕ
ceil_div a b = (a + (b - 1)) / b

abbrev pub keepalive_ms : ℕ
keepalive_ms = 10000

abbrev pub lifetime_keepalives : ℕ
lifetime_keepalives = 10

abbrev pub session_timeout_ms : ℕ
session_timeout_ms = 120000

abbrev pub keepalive_margin : ℕ
keepalive_margin = 1000

unfoldable pub subscription_request : ℕ → SubscriptionRequest
subscription_request interval =
    let keepalive = max 1 (ceil_div keepalive_ms interval) in
    record {
      publishing_interval = interval;
      lifetime_count = max (keepalive * lifetime_keepalives) (ceil_div session_timeout_ms interval);
      max_keepalive_count = keepalive;
    }

-- `self._stale[h] = now; self._stale.move_to_end(h)`
abbrev pub touch : ℕ → ℕ → Dict ℕ ℕ → Dict ℕ ℕ
touch h now stale = erase h stale ++ (h, now) ∷ []

-- The refused pairs, and a status that means the server takes no more.
abbrev pub Refusals : Type 0 → Type 0
Refusals T = List (T × Text) × Option Text

abbrev pub full_of : CodeSets → Status → Option Text → Option Text
full_of c s full = if c.server_full s.code then some s.name else full

module _ {T : Type 0} where
  -- `self._monitored.update(chunk)`
  unfoldable pub register : List (ℕ × T) → Dict ℕ T → Dict ℕ T
  register [] m = m
  register ((h, t) ∷ chunk) m = register chunk (insert h t m)

  abbrev pub refuse_all : Text → List (ℕ × T) → List (T × Text)
  refuse_all name = map (λ i. (i.1, name))

  -- The loop over the results of one request.
  unfoldable pub settle :
      CodeSets
      → ℕ
      → List (ℕ × T)
      → List ItemResult
      → Option Text
      → Transport T
      → Result TransportError (Refusals T × Transport T)
  settle c now [] [] full st = ok (([], full), st)
  settle c now ((h, t) ∷ items) (good ∷ rs) full st =
      settle c now items rs full (record st { stale = touch h now st.stale })
  settle c now ((h, t) ∷ items) (bad s ∷ rs) full st = do
    ((more, full'), st') ←
        settle c now items rs (full_of c s full) (record st { monitored = erase h st.monitored })
    ok (((t, s.name) ∷ more, full'), st')
  settle c now _ _ full st = raise wrong_length

  abbrev pub all_bad : Status → List (ℕ × T) → List ItemResult
  all_bad s = map (λ i. bad s)

  abbrev pub settle_reply :
      CodeSets
      → ItemsReply
      → List (ℕ × T)
      → Transport T
      → Result TransportError (Refusals T × Transport T)
  settle_reply c (results now rs) chunk st = settle c now chunk rs none st
  settle_reply c (fault now s) chunk st =
      if c.connection s.code
      then raise (connection_lost s)
      else settle c now chunk (all_bad s chunk) none st

  -- The loop over the chunks of one subscription.
  unfoldable pub add_items :
      CodeSets
      → Server T
      → ℕ
      → List (List (ℕ × T))
      → Option Text
      → Transport T
      → Result TransportError (Refusals T × Transport T)
  add_items c sv sid [] full st = ok (([], full), st)
  add_items c sv sid (chunk ∷ rest) (some name) st = do
    ((more, full'), st') ← add_items c sv sid rest (some name) st
    ok ((refuse_all name chunk ++ more, full'), st')
  add_items c sv sid (chunk ∷ rest) none st = do
    ((these, full1), st1) ←
        settle_reply c (sv.create_items sid chunk) chunk
          (record st { monitored = register chunk st.monitored })
    ((more, full2), st2) ← add_items c sv sid rest full1 st1
    ok ((these ++ more, full2), st2)

  abbrev pub keep_monitored : Dict ℕ T → List (ℕ × T) → List (ℕ × T)
  keep_monitored m = keep_if (λ i. contains (keys m) i.0)

  -- An empty subscription is deleted; the record goes only where the server agrees.
  abbrev pub drop_empty : DeleteReply → ℕ → Transport T → Transport T
  drop_empty deleted sid st = record st { subs = erase sid st.subs }
  drop_empty delete_refused sid st = st

  abbrev pub new_sub : ℕ → List (ℕ × T) → ℕ → ℕ → ℕ → Sub T
  new_sub interval items revised keepalive now = record {
    interval = interval;
    items = items;
    deadline = revised * (keepalive + 1) + keepalive_margin;
    heard = now;
    expected = 1;
    stalled = none;
  }

  abbrev pub keep_sub : ℕ → Sub T → ℕ → Transport T → Transport T
  keep_sub sid sub revised st = record st {
    subs = insert sid (record sub { items = keep_monitored st.monitored sub.items }) st.subs;
    stale_after = max st.stale_after revised;
  }

  -- `_subscribe` once the server has made the subscription.
  unfoldable pub fill_subscription :
      CodeSets
      → Server T
      → ℕ
      → ℕ
      → ℕ
      → Sub T
      → Transport T
      → Result TransportError (Refusals T × Transport T)
  fill_subscription c sv chunk sid revised sub st = do
    ((out, full), st1) ←
        add_items c sv sid (chunks chunk sub.items) none
          (record st { subs = insert sid sub st.subs })
    if eqb (length out) (length sub.items)
        then ok ((out, full), drop_empty (sv.delete_subscription sid) sid st1)
        else ok ((out, full), keep_sub sid sub revised st1)

  abbrev pub subscribe_reply :
      CodeSets
      → Server T
      → ℕ
      → ℕ
      → List (ℕ × T)
      → Transport T
      → SubscriptionReply
      → Result TransportError (Refusals T × Transport T)
  subscribe_reply c sv chunk interval items st (refused s) =
      if c.connection s.code
      then raise (connection_lost s)
      else ok ((refuse_all s.name items, full_of c s none), st)
  subscribe_reply c sv chunk interval items st (created sid revised keepalive now) =
      fill_subscription c sv chunk sid revised (new_sub interval items revised keepalive now) st

  -- `_subscribe`; `chunk` is `_monitor_chunk`
  unfoldable pub subscribe :
      CodeSets
      → Server T
      → ℕ
      → ℕ
      → List (ℕ × T)
      → Option Text
      → Transport T
      → Result TransportError (Refusals T × Transport T)
  subscribe c sv chunk interval items (some name) st = ok ((refuse_all name items, some name), st)
  subscribe c sv chunk interval items none st =
      subscribe_reply c sv chunk interval items st
        (sv.create_subscription (subscription_request interval))
