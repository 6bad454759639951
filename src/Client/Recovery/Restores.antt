-- ===== src/Client/Recovery/Restores.antt =====
-- After a failure every item is monitored again, polled, or left to a new connection.
use mathlib.Core.Path.{subst}
use zelos_extension_opcua.Client.Recovery.{
  Connection, forget_sub, recreated, recreate, poll_everything,
}
use zelos_extension_opcua.Client.Schedule.Polls.{all_polled, to_poll, schedule-polled}
use zelos_extension_opcua.Client.Schedule.{Plan, schedule}
use zelos_extension_opcua.Client.Transport.Coverage.{
  handles, targets, IsCovered, subscribe-IsCovered,
}
use zelos_extension_opcua.Client.Transport.{CodeSets, Server, Sub, Transport, subscribe}
use zelos_extension_opcua.Prelude.{
  ℕ, ◌<◌, ◌≡◌, refl, ◌⊎◌, inl, inr, true, false, none, some, List, [], ◌∷◌, arith, eqb, eqb_iff,
  nat_eq, length, All, All-weaken, ok, >>=-eq-ok, ok-injective, Dict, Distinct, lookup, Text,
  text_eq,
}

module _ {T : Type 0} where
  -- Each item is monitored under its handle.
  abbrev pub AllMonitored : Connection T → List (ℕ × T) → Type 0
  AllMonitored link items = All (λ i. lookup i.0 link.transport.monitored ≡ some i.1) items

  abbrev pub IsRestored : Connection T → List (ℕ × T) → Type 0
  IsRestored link items =
      ((link.ready ≡ true) × AllMonitored link items)
      ⊎ ((link.connected ≡ false) × (link.fresh ≡ true))

  none_refused : (m : Dict ℕ T) (i : ℕ × T) → IsCovered m [] i → lookup i.0 m ≡ some i.1
  none_refused m i (inl e) = e
  none_refused m i (inr h) = absurd h

  recreated-IsRestored :
      (out : List (T × Text)) (st : Transport T) (link : Connection T) (items : List (ℕ × T))
      → All (IsCovered st.monitored out) items
      → IsRestored (recreated out st link) items
  recreated-IsRestored [] st link items h =
      inl (refl, All-weaken _ _ items (none_refused st.monitored) h)
  recreated-IsRestored (r ∷ out) st link items h = inr (refl, refl)

  -- For items with distinct handles, in requests of at least one item, and short of a lost
  -- connection: recreating a subscription leaves the client ready with every item
  -- of it monitored again, or, where the server refuses one, disconnected for a new session.
  pub recreate-IsRestored :
      (c : CodeSets) (sv : Server T) (chunk sid : ℕ) (sub : Sub T) (link : Connection T)
      {after : Connection T}
      → 0 < chunk
      → Distinct (handles sub.items)
      → recreate c sv chunk sid sub link ≡ ok after
      → IsRestored after sub.items
  unfolding recreate
  recreate-IsRestored c sv chunk sid sub link {after} pos d h =
      let (x, subscribed, made) =
        >>=-eq-ok (subscribe c sv chunk sub.interval sub.items none link.transport) _ h in
      let covered =
        subscribe-IsCovered c sv chunk sub.interval sub.items none link.transport pos d
          subscribed in
      subst (λ z. IsRestored z sub.items) (ok-injective made)
        (recreated-IsRestored x.0.0 (forget_sub sid x.1) link sub.items covered)

  pub poll_everything-idle :
      (now poll_interval read_chunk : ℕ) (groups : Dict ℕ (List T)) (targets : ℕ)
      (link : Connection T)
      → link.subscribing ≡ false
      → eqb (length link.transport.monitored) 0 ≡ true
      → poll_everything now poll_interval read_chunk groups targets link ≡ ok link
  unfolding poll_everything
  poll_everything-idle now poll_interval read_chunk groups targets link idle none_left =
      rw (idle, none_left) refl

  -- With requests of at least one item, and where the schedule is made: after a response that cannot be decoded, a connection that is not being set up and has
  -- monitored items monitors none, keeps no subscription, and polls every target, each in its own
  -- interval.
  pub poll_everything-polled :
      (now poll_interval read_chunk : ℕ) (groups : Dict ℕ (List T)) (targets : ℕ)
      (link : Connection T) {after : Connection T}
      → 0 < read_chunk
      → link.subscribing ≡ false
      → 0 < length link.transport.monitored
      → poll_everything now poll_interval read_chunk groups targets link ≡ ok after
      → (after.transport.monitored ≡ [])
        × (after.transport.subs ≡ [])
        × (all_polled after.jobs ≡ to_poll groups)
  unfolding poll_everything
  poll_everything-polled now poll_interval read_chunk groups targets link {after} pos idle
        some_items h =
      let busy : eqb (length link.transport.monitored) 0 ≡ false =
        ground (arith, eqb_iff (length link.transport.monitored) 0) in
      let plan : Plan T = record {
        poll_interval = poll_interval;
        read_chunk = read_chunk;
        has_subs = false;
        monitored = [];
        stale_after = link.transport.stale_after;
      } in
      let (jobs, planned, made) = >>=-eq-ok (schedule now plan groups) _ (rw (idle, busy) at h) in
      let all = schedule-polled now plan groups pos planned in
      subst
        (λ z.
          (z.transport.monitored ≡ [])
          × (z.transport.subs ≡ [])
          × (all_polled z.jobs ≡ to_poll groups))
        (ok-injective made) (refl, refl, all)
