-- ===== src/Client/Start/Served.antt =====
-- Every target is served: monitored, or polled at its interval.
use zelos_extension_opcua.Client.Start.Group.{unscheduled-ok, IsServed, start_group-Does}
use mathlib.Core.Path.{subst}
use zelos_extension_opcua.Client.Recovery.Restores.{poll_everything-idle, poll_everything-polled}
use zelos_extension_opcua.Client.Recovery.{Connection, poll_everything}
use zelos_extension_opcua.Client.Schedule.Polls.{all_polled, to_poll, schedule-polled}
use zelos_extension_opcua.Client.Transport.{CodeSets, Server}
use zelos_extension_opcua.Client.Schedule.{schedule}
use zelos_extension_opcua.Client.Transport.Coverage.{handles, targets}
use zelos_extension_opcua.Client.Start.Groups.{AreApart, group_items-In, groups-AreApart}
use zelos_extension_opcua.Client.Start.{
  Setup, StartError, or_unscheduled, list_or, Starting, enumerate_from, targets_of, count_polled,
  start_state, groups_of, target_groups, plan_of, start_group, start_groups, start_transport,
}
use zelos_extension_opcua.Prelude.{
  ℕ, ◌+◌, ◌<◌, ◌≡◌, refl, sym, ◌∙◌, ◌⊎◌, inl, inr, Bool, true, false, Option, none, some, List, [],
  ◌∷◌, map, arith, eqb, if◌then◌else◌, eqb_iff, Bool-cases, nat_eq, length, All, In, In-append_left,
  In-append_right, All-In, All-weaken, In-map, All-zip, Result, ok, >>=-eq-ok, ok-injective, Dict,
  keys, contains, lookup, All-lookup, text_eq,
}

module _ {T : Type 0} where
  -- A target is monitored, or a job polls it at its interval.
  abbrev pub IsServedBy : Setup T → Connection T → T → Type 0
  IsServedBy p link t =
      ((h : ℕ) × (lookup h link.transport.monitored ≡ some t))
      ⊎ In (p.interval_for t, t) (all_polled link.jobs)

  module _ (c : CodeSets) (sv : Server T) (p : Setup T) (pos : 0 < p.monitor_chunk) where
    -- Later groups leave a served item served.
    start_groups-keeps :
        (groups : Dict ℕ (List (ℕ × T))) (s : Starting T) (j : ℕ) (x : ℕ × T) {s' : Starting T}
        → AreApart groups
        → contains (keys groups) j ≡ false
        → All (λ g. contains (handles g.1) x.0 ≡ false) groups
        → start_groups c sv p groups s ≡ ok s'
        → IsServed s j x
        → IsServed s' j x
    unfolding start_groups contains
    start_groups-keeps [] s j x apart absent unseen h served =
        subst (λ z. IsServed z j x) (ok-injective h) served
    start_groups-keeps ((i, items) ∷ groups) s j x apart absent unseen h served =
        let (next, one, rest) = >>=-eq-ok (start_group c sv p i items s) _ h in
        let (_, _, (polls, monitors)) = start_group-Does c sv p pos i items s apart.0 one in
        let other : eqb i j ≡ false = ground (arith, absent) in
        start_groups-keeps groups next j x apart.3 (ground (arith, absent)) unseen.1 rest
          (elim served [
            | inl m ↦ inl (monitors x.0 unseen.0 ∙ m)
            | inr i ↦ inr (rw (polls j other) i)
          ])

    start_groups-IsServed :
        (groups : Dict ℕ (List (ℕ × T))) (s : Starting T) {s' : Starting T}
        → AreApart groups
        → start_groups c sv p groups s ≡ ok s'
        → All (λ g. All (IsServed s' g.0) g.1) groups
    unfolding start_groups
    start_groups-IsServed [] s apart h = tt
    start_groups-IsServed ((i, items) ∷ groups) s {s'} apart h =
        let (next, one, rest) = >>=-eq-ok (start_group c sv p i items s) _ h in
        let (_, own, _) = start_group-Does c sv p pos i items s apart.0 one in
        (
          All-zip (IsServed next i) (λ x. All (λ o. contains (handles o.1) x.0 ≡ false) groups)
              (IsServed s' i) items
              (λ x served unseen.
                start_groups-keeps groups next i x apart.3 apart.1 unseen rest served)
              own apart.2,
          start_groups-IsServed groups next apart.3 rest,
        )

    lookup-to_poll :
        (interval : ℕ) (t : T) (polled : Dict ℕ (List T))
        → In t (list_or (lookup interval polled))
        → In (interval, t) (to_poll polled)
    unfolding lookup
    lookup-to_poll interval t [] h = h
    lookup-to_poll interval t ((i, us) ∷ polled) h = elim (Bool-cases (eqb i interval)) [
      | inl y ↦
          let same : i ≡ interval = (eqb_iff i interval).0 y in
          let here : In t us = rw y at h in
          subst (λ k. In (k, t) (to_poll ((i, us) ∷ polled))) same
            (In-append_left (i, t) (map (λ u. (i, u)) us) (to_poll polled)
              (In-map (λ u. (i, u)) t us here))
      | inr n ↦
          In-append_right (interval, t) (map (λ u. (i, u)) us) (to_poll polled)
            (lookup-to_poll interval t polled (rw n at h))
    ]

    lookup-groups :
        (interval : ℕ) (x : ℕ × T) (groups : Dict ℕ (List (ℕ × T)))
        → In x (list_or (lookup interval groups))
        → In x.1 (list_or (lookup interval (map (λ g. (g.0, targets_of g.1)) groups)))
    unfolding lookup
    lookup-groups interval x [] h = h
    lookup-groups interval x ((i, items) ∷ groups) h = elim (Bool-cases (eqb i interval)) [
      | inl y ↦ rw y (In-map (λ z. z.1) x items (rw y at h))
      | inr n ↦ rw n (lookup-groups interval x groups (rw n at h))
    ]

    lookup-IsServed :
        (s : Starting T) (groups : Dict ℕ (List (ℕ × T))) (i : ℕ) (x : ℕ × T)
        → All (λ g. All (IsServed s g.0) g.1) groups
        → In x (list_or (lookup i groups))
        → IsServed s i x
    lookup-IsServed s groups i x all h = by_lookup (lookup i groups) refl h
      where
        by_lookup :
            (o : Option (List (ℕ × T))) → lookup i groups ≡ o → In x (list_or o) → IsServed s i x
        by_lookup none found i = absurd i
        by_lookup (some items) found k =
            All-In (IsServed s i) x items
              (All-lookup (λ g. All (IsServed s g.0) g.1) i groups all found) k

    enumerate_from-All :
        (P : T → Type 0) (n : ℕ) (targets : List T)
        → All (λ x. P x.1) (enumerate_from n targets)
        → All P targets
    unfolding enumerate_from
    enumerate_from-All P n [] h = tt
    enumerate_from-All P n (t ∷ targets) h = (h.0, enumerate_from-All P (n + 1) targets h.1)

    -- What is done where a Publish failed meanwhile, and where none did.
    finished-IsServedBy :
        (now count : ℕ) (groups : Dict ℕ (List T)) (failed : Bool) (link : Connection T) (t : T)
        {after : Connection T}
        → 0 < p.read_chunk
        → link.subscribing ≡ false
        → In (p.interval_for t, t) (to_poll groups)
        → IsServedBy p link t
        → if◌then◌else◌ {A = Result StartError (Connection T)} failed
            (or_unscheduled (poll_everything now p.poll_interval p.read_chunk groups count link))
            (ok link)
          ≡ ok after
        → IsServedBy p after t
    finished-IsServedBy now count groups false link t chunk idle grouped served h =
        subst (λ z. IsServedBy p z t) (ok-injective h) served
    finished-IsServedBy now count groups true link t {after} chunk idle grouped served h =
        by_monitored (Bool-cases (eqb (length link.transport.monitored) 0))
      where
        ran : poll_everything now p.poll_interval p.read_chunk groups count link ≡ ok after
        ran = unscheduled-ok (poll_everything now p.poll_interval p.read_chunk groups count link) h

        by_monitored :
            (eqb (length link.transport.monitored) 0 ≡ true)
              ⊎ (eqb (length link.transport.monitored) 0 ≡ false)
            → IsServedBy p after t
        by_monitored (inl y) =
            subst (λ z. IsServedBy p z t)
              (ok-injective (
                sym (poll_everything-idle now p.poll_interval p.read_chunk groups count link idle y)
                ∙ ran))
              served
        by_monitored (inr n) =
            let (_, _, polled) =
              poll_everything-polled now p.poll_interval p.read_chunk groups count link chunk idle
                (ground (arith, n)) ran in
            inr (subst (In (p.interval_for t, t)) (sym polled) grouped)

    -- With requests of at least one item: when the transport is started, whatever the server answers
    -- short of a lost connection, every target is monitored, or polled at its interval, also where a
    -- response could not be decoded meanwhile.
    pub start_transport-IsServedBy :
        (now : ℕ) (targets : List T) (publish_failed : Bool) (link : Connection T)
        {after : Connection T}
        → 0 < p.read_chunk
        → start_transport c sv p now targets publish_failed link ≡ ok after
        → All (IsServedBy p after) targets
    unfolding start_transport
    start_transport-IsServedBy now targets publish_failed link {after} chunk h =
        let numbered = enumerate_from 1 targets in
        let groups = groups_of p targets in
        let (s, started, h1) = >>=-eq-ok (start_groups c sv p groups (start_state p)) _ h in
        let (jobs, planned, h2) =
          >>=-eq-ok (or_unscheduled (schedule now (plan_of p s.transport) s.polled)) _ h1 in
        let plan =
          schedule-polled now (plan_of p s.transport) s.polled chunk
            (unscheduled-ok (schedule now (plan_of p s.transport) s.polled) planned) in
        let all =
          start_groups-IsServed groups (start_state p) (groups-AreApart p.interval_for targets)
            started in
        let next : Connection T = record link {
          transport = s.transport;
          polled = count_polled s.polled;
          jobs = jobs;
          subscribing = false;
        } in
        enumerate_from-All (IsServedBy p after) 1 targets (
          All-weaken (λ x. In x (list_or (lookup (p.interval_for x.1) groups)))
            (λ x. IsServedBy p after x.1) numbered
            (λ x i.
              finished-IsServedBy now (length targets) (target_groups p targets) publish_failed next
                x.1 chunk refl
                (lookup-to_poll (p.interval_for x.1) x.1 (target_groups p targets)
                  (lookup-groups (p.interval_for x.1) x groups i))
                (elim (lookup-IsServed s groups (p.interval_for x.1) x all i) [
                  | inl m ↦ inl (x.0, m)
                  | inr k ↦ inr (
                      subst (In (p.interval_for x.1, x.1)) (sym plan)
                        (lookup-to_poll (p.interval_for x.1) x.1 s.polled k))
                ])
                h2)
            (group_items-In p.interval_for numbered []))
