-- ===== src/Client/Start.antt =====
-- Starting the transport of a connection: `_start_transport` of zelos_extension_opcua/client.py.
-- A Publish response that cannot be decoded while the items are subscribed is the argument
-- `publish_failed`; nothing else of what the server sends meanwhile is looked at here.
pub mod Groups
pub mod Group
pub mod Served
use zelos_extension_opcua.Client.Transport.{CodeSets, Server, Transport, TransportError, subscribe}
use zelos_extension_opcua.Client.Schedule.{ScheduleError, Plan, schedule}
use zelos_extension_opcua.Client.Recovery.{Connection, poll_everything}
use zelos_extension_opcua.Prelude.{
  ℕ, ◌+◌, Bool, false, not, Option, none, some, List, [], ◌∷◌, ◌++◌, map, eqb, if◌then◌else◌,
  nat_eq, length, keep_if, Result, ok, raise, ◌>>=◌, ◌>>◌, Dict, lookup, insert, Text, text_eq,
}

-- What it reads of the client.
pub record Setup (T : Type 0) : Type 0 where
  -- `transport == "poll"`
  pub polling : Bool
  pub poll_interval : ℕ
  -- `intervals.get(target[0], self.poll_interval)`
  pub interval_for : T → ℕ
  -- `target[1].node_id in self._variant`
  pub is_variant : T → Bool
  pub monitor_chunk : ℕ
  pub read_chunk : ℕ
  pub min_update_interval : ℕ

pub data StartError : Type 0 where
  not_subscribed : TransportError → StartError
  not_scheduled : ScheduleError → StartError

abbrev pub or_unsubscribed : {A : Type 0} → Result TransportError A → Result StartError A
or_unsubscribed (ok a) = ok a
or_unsubscribed (raise e) = raise (not_subscribed e)

abbrev pub or_unscheduled : {A : Type 0} → Result ScheduleError A → Result StartError A
or_unscheduled (ok a) = ok a
or_unscheduled (raise e) = raise (not_scheduled e)

abbrev pub list_or : {A : Type 0} → Option (List A) → List A
list_or none = []
list_or (some xs) = xs

-- `dict.setdefault(k, []).append(x)`
abbrev pub append_at : {A : Type 0} → ℕ → A → Dict ℕ (List A) → Dict ℕ (List A)
append_at k x m = insert k (list_or (lookup k m) ++ x ∷ []) m

-- The locals of the loop, and the transport.
pub record Starting (T : Type 0) : Type 0 where
  pub polled : Dict ℕ (List T)
  pub polled_variant : ℕ
  pub full : Option Text
  pub transport : Transport T

module _ {T : Type 0} where
  -- `enumerate(targets, n)`
  unfoldable pub enumerate_from : ℕ → List T → List (ℕ × T)
  enumerate_from n [] = []
  enumerate_from n (t ∷ targets) = (n, t) ∷ enumerate_from (n + 1) targets

  -- The items of each interval.
  unfoldable pub group_items :
      (T → ℕ) → List (ℕ × T) → Dict ℕ (List (ℕ × T)) → Dict ℕ (List (ℕ × T))
  group_items interval_for [] groups = groups
  group_items interval_for ((h, t) ∷ items) groups =
      group_items interval_for items (append_at (interval_for t) (h, t) groups)

  abbrev pub targets_of : List (ℕ × T) → List T
  targets_of = map (λ i. i.1)

  -- `for target, reason in rejected: polled.setdefault(interval, []).append(target)`
  unfoldable pub poll_rejected : ℕ → List (T × Text) → Dict ℕ (List T) → Dict ℕ (List T)
  poll_rejected interval [] polled = polled
  poll_rejected interval ((t, reason) ∷ rejected) polled =
      poll_rejected interval rejected (append_at interval t polled)

  -- The rest of the loop's body: the items to subscribe to.
  abbrev pub subscribe_group :
      CodeSets → Server T → ℕ → ℕ → List (ℕ × T) → Starting T → Result StartError (Starting T)
  subscribe_group c sv chunk interval items s = do
    ((rejected, full), st) ←
        or_unsubscribed (subscribe c sv chunk interval items s.full s.transport)
    ok (record s { polled = poll_rejected interval rejected s.polled; full = full; transport = st })

  -- The items whose type may change are polled.
  abbrev pub poll_variants : ℕ → List (ℕ × T) → Starting T → Starting T
  poll_variants interval [] s = s
  poll_variants interval (i ∷ items) s = record s {
    polled = insert interval (targets_of (i ∷ items)) s.polled;
    polled_variant = s.polled_variant + length (i ∷ items);
  }

  abbrev pub subscribe_rest :
      CodeSets
      → Server T
      → ℕ
      → ℕ
      → List (ℕ × T)
      → List (ℕ × T)
      → Starting T
      → Result StartError (Starting T)
  subscribe_rest c sv chunk interval (v ∷ variant) [] s = ok s
  subscribe_rest c sv chunk interval variant items s = subscribe_group c sv chunk interval items s

  -- `sum(len(t) for t in polled.values())`
  unfoldable pub count_polled : Dict ℕ (List T) → ℕ
  count_polled [] = 0
  count_polled ((interval, targets) ∷ polled) = length targets + count_polled polled

  module _ (p : Setup T) where
    abbrev pub start_state : Starting T
    start_state = record {
      polled = [];
      polled_variant = 0;
      full = none;
      transport = record {
        monitored = [];
        stale = [];
        stale_after = p.min_update_interval;
        subs = [];
      };
    }

    abbrev pub groups_of : List T → Dict ℕ (List (ℕ × T))
    groups_of targets = group_items p.interval_for (enumerate_from 1 targets) []

    -- `self._groups`
    abbrev pub target_groups : List T → Dict ℕ (List T)
    target_groups targets = map (λ g. (g.0, targets_of g.1)) (groups_of targets)

    abbrev pub plan_of : Transport T → Plan T
    plan_of st = record {
      poll_interval = p.poll_interval;
      read_chunk = p.read_chunk;
      has_subs = not (eqb (length st.subs) 0);
      monitored = st.monitored;
      stale_after = st.stale_after;
    }

  module _ (c : CodeSets) (sv : Server T) (p : Setup T) where
    unfoldable pub start_group : ℕ → List (ℕ × T) → Starting T → Result StartError (Starting T)
    start_group interval items s =
        if p.polling
        then ok (record s { polled = insert interval (targets_of items) s.polled })
        else (let variant = keep_if (λ i. p.is_variant i.1) items in
            subscribe_rest c sv p.monitor_chunk interval variant
              (keep_if (λ i. not (p.is_variant i.1)) items) (poll_variants interval variant s))

    unfoldable pub start_groups :
        Dict ℕ (List (ℕ × T)) → Starting T → Result StartError (Starting T)
    start_groups [] s = ok s
    start_groups ((interval, items) ∷ groups) s = do
      s' ← start_group interval items s
      start_groups groups s'

    -- `_start_transport`
    unfoldable pub start_transport :
        ℕ → List T → Bool → Connection T → Result StartError (Connection T)
    start_transport now targets publish_failed link = do
      s ← start_groups (groups_of p targets) (start_state p)
      jobs ← or_unscheduled (schedule now (plan_of p s.transport) s.polled)
      let started = record link {
        transport = s.transport;
        polled = count_polled s.polled;
        jobs = jobs;
        subscribing = false;
      }
      if publish_failed
          then or_unscheduled (
              poll_everything now p.poll_interval p.read_chunk (target_groups p targets)
                (length targets) started)
          else ok started
