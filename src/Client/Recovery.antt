-- ===== src/Client/Recovery.antt =====
-- What the client does when a subscription fails: `_recreate` and `_poll_everything` of
-- zelos_extension_opcua/client.py. The deletion of the old subscriptions is best effort: its
-- outcome is not looked at. Nothing else runs while `_recreate` waits.
pub mod Restores
use zelos_extension_opcua.Client.Schedule.{Work, ScheduleError, schedule}
use zelos_extension_opcua.Client.Loop.{Job}
use zelos_extension_opcua.Client.Transport.{
  CodeSets, Server, Sub, Transport, TransportError, subscribe,
}
use zelos_extension_opcua.Prelude.{
  ℕ, Bool, true, false, ◌||◌, none, List, [], ◌∷◌, eqb, if◌then◌else◌, nat_eq, length, Result, ok,
  ◌>>=◌, ◌>>◌, Dict, erase, Text, text_eq,
}

-- The fields of the client that the two write.
pub record Connection (T : Type 0) : Type 0 where
  pub transport : Transport T
  pub connected : Bool
  pub fresh : Bool
  pub ready : Bool
  pub subscribing : Bool
  pub polled : ℕ
  pub jobs : List (Job × Work T)

module _ {T : Type 0} where
  abbrev pub forget_sub : ℕ → Transport T → Transport T
  forget_sub sid st = record st { subs = erase sid st.subs }

  -- `_recreate` once the items are asked for again.
  abbrev pub recreated : List (T × Text) → Transport T → Connection T → Connection T
  recreated [] st link = record link { transport = st; ready = true }
  recreated (r ∷ out) st link = record link {
    transport = st;
    connected = false;
    fresh = true;
    ready = false;
  }

  -- `_recreate`, up to the read of the items
  unfoldable pub recreate :
      CodeSets → Server T → ℕ → ℕ → Sub T → Connection T → Result TransportError (Connection T)
  recreate c sv chunk sid sub link = do
    ((out, full), st) ← subscribe c sv chunk sub.interval sub.items none link.transport
    ok (recreated out (forget_sub sid st) link)

  abbrev pub no_subscriptions : Transport T → Transport T
  no_subscriptions st = record st { monitored = []; stale = []; subs = [] }

  -- `_poll_everything`, with the plan of the schedule and the targets of each interval
  unfoldable pub poll_everything :
      ℕ → ℕ → ℕ → Dict ℕ (List T) → ℕ → Connection T → Result ScheduleError (Connection T)
  poll_everything now poll_interval read_chunk groups targets link =
      if link.subscribing || eqb (length link.transport.monitored) 0 then ok link else do
        jobs ←
            schedule now
              (record {
                poll_interval = poll_interval;
                read_chunk = read_chunk;
                has_subs = false;
                monitored = [];
                stale_after = link.transport.stale_after;
              })
              groups
        ok (record link {
          transport = no_subscriptions link.transport;
          polled = targets;
          jobs = jobs;
        })
