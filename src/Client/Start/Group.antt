-- ===== src/Client/Start/Group.antt =====
-- What the start of one group does: its items are served, and the others are left alone.
use mathlib.Core.Path.{subst}
use zelos_extension_opcua.Client.Transport.{CodeSets, Server, TransportError, subscribe}
use zelos_extension_opcua.Client.Schedule.{ScheduleError}
use zelos_extension_opcua.Client.Transport.Coverage.{
  handles, targets, IsCovered, subscribe-IsCovered,
}
use zelos_extension_opcua.Client.Transport.Others.{subscribe-Keeps}
use zelos_extension_opcua.Client.Start.Groups.{append_at-old, append_at-new}
use zelos_extension_opcua.Client.Start.{
  Setup, StartError, or_unsubscribed, or_unscheduled, list_or, append_at, Starting, targets_of,
  poll_rejected, subscribe_group, poll_variants, subscribe_rest, start_group,
}
use zelos_extension_opcua.Prelude.{
  ℕ, ◌<◌, ◌≡◌, refl, ◌∙◌, ◌⊎◌, inl, inr, Bool, true, false, not, some, List, [], ◌∷◌, ◌++◌, arith,
  eqb, if◌then◌else◌, Bool-cases, nat_eq, ==_refl, keep_if, All, In, All-weaken, In-map, All-self,
  All-split, Result, ok, raise, >>=-eq-ok, ok-injective, Dict, contains, Distinct, lookup, insert,
  lookup-insert, Text, text_eq,
}

unsubscribed-ok :
    {A : Type 0} (r : Result TransportError A) {a : A} → or_unsubscribed r ≡ ok a → r ≡ ok a
unsubscribed-ok (ok x) h = cc
unsubscribed-ok (raise e) h = cc h

pub unscheduled-ok :
    {A : Type 0} (r : Result ScheduleError A) {a : A} → or_unscheduled r ≡ ok a → r ≡ ok a
unscheduled-ok (ok x) h = cc
unscheduled-ok (raise e) h = cc h

module _ {T : Type 0} where
  -- An item is monitored under its handle, or its target is polled at the interval.
  abbrev pub IsServed : Starting T → ℕ → ℕ × T → Type 0
  IsServed s interval x =
      (lookup x.0 s.transport.monitored ≡ some x.1) ⊎ In x.1 (list_or (lookup interval s.polled))

  poll_rejected-old :
      (interval j : ℕ) (t : T) (rejected : List (T × Text)) (polled : Dict ℕ (List T))
      → In t (list_or (lookup j polled))
      → In t (list_or (lookup j (poll_rejected interval rejected polled)))
  unfolding poll_rejected
  poll_rejected-old interval j t [] polled h = h
  poll_rejected-old interval j t ((u, reason) ∷ rejected) polled h =
      poll_rejected-old interval j t rejected (append_at interval u polled)
        (append_at-old j interval u t polled h)

  poll_rejected-new :
      (interval : ℕ) (t : T) (rejected : List (T × Text)) (polled : Dict ℕ (List T))
      → In t (targets rejected)
      → In t (list_or (lookup interval (poll_rejected interval rejected polled)))
  unfolding poll_rejected
  poll_rejected-new interval t [] polled h = absurd h
  poll_rejected-new interval t ((u, reason) ∷ rejected) polled (inl e) =
      poll_rejected-old interval interval t rejected (append_at interval u polled) (
        subst (λ z. In z (list_or (lookup interval (append_at interval u polled)))) e
          (append_at-new interval u polled))
  poll_rejected-new interval t ((u, reason) ∷ rejected) polled (inr i) =
      poll_rejected-new interval t rejected (append_at interval u polled) i

  poll_rejected-other :
      (interval j : ℕ) (rejected : List (T × Text)) (polled : Dict ℕ (List T))
      → eqb interval j ≡ false
      → lookup j (poll_rejected interval rejected polled) ≡ lookup j polled
  unfolding poll_rejected
  poll_rejected-other interval j [] polled other = refl
  poll_rejected-other interval j ((u, reason) ∷ rejected) polled other =
      poll_rejected-other interval j rejected (append_at interval u polled) other
      ∙ (lookup-insert interval j (list_or (lookup interval polled) ++ u ∷ []) polled
          ∙ rw other refl)

  insert-served :
      (interval : ℕ) (items : List (ℕ × T)) (polled : Dict ℕ (List T))
      → All
          (λ x. In x.1 (list_or (lookup interval (insert interval (targets_of items) polled))))
          items
  insert-served interval items polled =
      All-weaken (λ x. In x items)
        (λ x. In x.1 (list_or (lookup interval (insert interval (targets_of items) polled)))) items
        (λ x i.
          rw (lookup-insert interval interval (targets_of items) polled, ==_refl interval)
            (In-map (λ y. y.1) x items i))
        (All-self items items (λ x i. i))

  poll_variants-served :
      (interval : ℕ) (variant : List (ℕ × T)) (s : Starting T)
      → All
          (λ x. In x.1 (list_or (lookup interval (poll_variants interval variant s).polled)))
          variant
  poll_variants-served interval [] s = tt
  poll_variants-served interval (v ∷ variant) s = insert-served interval (v ∷ variant) s.polled

  contains-keep_if :
      (b : ℕ × T → Bool) (h : ℕ) (items : List (ℕ × T))
      → contains (handles items) h ≡ false
      → contains (handles (keep_if b items)) h ≡ false
  unfolding contains
  contains-keep_if b h [] absent = refl
  contains-keep_if b h (x ∷ items) absent =
      ground (arith, contains-keep_if b h items (ground (arith, absent)), absent)

  Distinct-keep_if :
      (b : ℕ × T → Bool) (items : List (ℕ × T))
      → Distinct (handles items)
      → Distinct (handles (keep_if b items))
  Distinct-keep_if b [] d = tt
  Distinct-keep_if b (x ∷ items) d = elim (Bool-cases (b x)) [
    | inl t ↦ rw t (contains-keep_if b x.0 items d.0, Distinct-keep_if b items d.1)
    | inr f ↦ rw f (Distinct-keep_if b items d.1)
  ]

  module _ (c : CodeSets) (sv : Server T) (p : Setup T) (pos : 0 < p.monitor_chunk) where
    -- The other intervals and handles are left alone.
    abbrev pub Leaves : ℕ → List (ℕ × T) → Starting T → Starting T → Type 0
    Leaves interval items s s' =
        ((j : ℕ) → eqb interval j ≡ false → lookup j s'.polled ≡ lookup j s.polled)
        × ((h : ℕ)
            → contains (handles items) h ≡ false
            → lookup h s'.transport.monitored ≡ lookup h s.transport.monitored)

    subscribe_group-own :
        (interval : ℕ) (items : List (ℕ × T)) (s : Starting T) {s' : Starting T}
        → Distinct (handles items)
        → subscribe_group c sv p.monitor_chunk interval items s ≡ ok s'
        → All (IsServed s' interval) items
          × ((t : T)
              → In t (list_or (lookup interval s.polled))
              → In t (list_or (lookup interval s'.polled)))
          × Leaves interval items s s'
    subscribe_group-own interval items s {s'} d h =
        let (x, asked, made) =
          >>=-eq-ok
            (or_unsubscribed (subscribe c sv p.monitor_chunk interval items s.full s.transport)) _
            h in
        let run =
          unsubscribed-ok (subscribe c sv p.monitor_chunk interval items s.full s.transport)
            asked in
        let covered =
          subscribe-IsCovered c sv p.monitor_chunk interval items s.full s.transport pos d run in
        subst
          (λ z.
            All (IsServed z interval) items
            × ((t : T)
                → In t (list_or (lookup interval s.polled))
                → In t (list_or (lookup interval z.polled)))
            × Leaves interval items s z)
          (ok-injective made)
          (
            All-weaken (IsCovered x.1.monitored x.0.0)
                (λ i.
                  (lookup i.0 x.1.monitored ≡ some i.1)
                  ⊎ In i.1 (list_or (lookup interval (poll_rejected interval x.0.0 s.polled))))
                items
                (λ i out. elim out [
                  | inl m ↦ inl m
                  | inr r ↦ inr (poll_rejected-new interval i.1 x.0.0 s.polled r)
                ])
                covered,
            (λ t i. poll_rejected-old interval interval t x.0.0 s.polled i),
            (
              (λ j other. poll_rejected-other interval j x.0.0 s.polled other),
              (λ k absent.
                  subscribe-Keeps c sv p.monitor_chunk pos k interval items s.full s.transport
                    absent run),
            ),
          )

    poll_variants-Leaves :
        (interval : ℕ) (variant items : List (ℕ × T)) (s : Starting T)
        → Leaves interval items s (poll_variants interval variant s)
    poll_variants-Leaves interval [] items s = ((λ j other. refl), (λ h absent. refl))
    poll_variants-Leaves interval (v ∷ variant) items s = (
      (λ j other. lookup-insert interval j (targets_of (v ∷ variant)) s.polled ∙ rw other refl),
      (λ h absent. refl),
    )

    -- What is done for a group: the variants, the others, and what is left alone.
    abbrev pub Does : ℕ → List (ℕ × T) → List (ℕ × T) → Starting T → Starting T → Type 0
    Does interval variant items s s' =
        All (IsServed s' interval) variant
        × All (IsServed s' interval) items
        × Leaves interval items s s'

    subscribed-Does :
        (interval : ℕ) (variant items : List (ℕ × T)) (s : Starting T) {s' : Starting T}
        → Distinct (handles items)
        → subscribe_group c sv p.monitor_chunk interval items (poll_variants interval variant s)
          ≡ ok s'
        → Does interval variant items s s'
    subscribed-Does interval variant items s {s'} d h =
        let (own, keeps, (polls, monitors)) =
          subscribe_group-own interval items (poll_variants interval variant s) d h in
        let (first, second) = poll_variants-Leaves interval variant items s in
        (
          All-weaken
              (λ x. In x.1 (list_or (lookup interval (poll_variants interval variant s).polled)))
              (IsServed s' interval) variant (λ x i. inr (keeps x.1 i))
              (poll_variants-served interval variant s),
          own,
          (
            (λ j other. polls j other ∙ first j other),
            (λ k absent. monitors k absent ∙ second k absent),
          ),
        )

    subscribe_rest-Does :
        (interval : ℕ) (variant items : List (ℕ × T)) (s : Starting T) {s' : Starting T}
        → Distinct (handles items)
        → subscribe_rest c sv p.monitor_chunk interval variant items
            (poll_variants interval variant s)
          ≡ ok s'
        → Does interval variant items s s'
    subscribe_rest-Does interval (v ∷ variant) [] s d h =
        subst (Does interval (v ∷ variant) [] s) (ok-injective h) (
          All-weaken
              (λ x.
                In x.1 (list_or (lookup interval (poll_variants interval (v ∷ variant) s).polled)))
              (IsServed (poll_variants interval (v ∷ variant) s) interval) (v ∷ variant)
              (λ x i. inr i) (poll_variants-served interval (v ∷ variant) s),
          tt,
          poll_variants-Leaves interval (v ∷ variant) [] s,
        )
    subscribe_rest-Does interval [] items s d h = subscribed-Does interval [] items s d h
    subscribe_rest-Does interval (v ∷ variant) (i ∷ items) s d h =
        subscribed-Does interval (v ∷ variant) (i ∷ items) s d h

    pub start_group-Does :
        (interval : ℕ) (items : List (ℕ × T)) (s : Starting T) {s' : Starting T}
        → Distinct (handles items)
        → start_group c sv p interval items s ≡ ok s'
        → Does interval [] items s s'
    unfolding start_group
    start_group-Does interval items s {s'} d h = by_transport p.polling h
      where
        variant : List (ℕ × T)
        variant = keep_if (λ i. p.is_variant i.1) items

        others : List (ℕ × T)
        others = keep_if (λ i. not (p.is_variant i.1)) items

        by_transport :
            (b : Bool)
            → if◌then◌else◌ {A = Result StartError (Starting T)} b
                (ok (record s { polled = insert interval (targets_of items) s.polled }))
                (subscribe_rest c sv p.monitor_chunk interval variant others
                  (poll_variants interval variant s))
              ≡ ok s'
            → Does interval [] items s s'
        by_transport true run = subst (Does interval [] items s) (ok-injective run) (
          tt,
          All-weaken
              (λ x.
                In x.1 (list_or (lookup interval (insert interval (targets_of items) s.polled))))
              (IsServed (record s { polled = insert interval (targets_of items) s.polled })
                interval)
              items (λ x i. inr i) (insert-served interval items s.polled),
          (
            (λ j other. lookup-insert interval j (targets_of items) s.polled ∙ rw other refl),
            (λ k absent. refl),
          ),
        )
        by_transport false run =
            let done =
              subscribe_rest-Does interval variant others s
                (Distinct-keep_if (λ i. not (p.is_variant i.1)) items d) run in
            (
              tt,
              All-split (IsServed s' interval) (λ i. p.is_variant i.1) items done.0 done.1,
              (
                done.2.0,
                (λ k absent.
                    done.2.1 k (contains-keep_if (λ i. not (p.is_variant i.1)) k items absent)),
              ),
            )
