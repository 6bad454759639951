-- ===== src/Client/Publish/Gaps.antt =====
-- No notification of a gap is lost in silence.
use mathlib.Core.Path.{subst}
use zelos_extension_opcua.Client.Publish.{
  Notification, data_change, status_change, other, Message, Feed, RepublishReply, answer,
  link_failed, declined, Recovery, count_up, range, touch_all, all_samples, status_changed, notify,
  deliver, recover_one, recover, mark_lost, wanted, unrecovered, republish, heard_from, deliver_if,
  on_publish,
}
use zelos_extension_opcua.Client.Transport.{Status, Stall}
use zelos_extension_opcua.Prelude.{
  ℕ, zero, suc, ◌+◌, ◌-◌, ◌≤◌, ◌<◌, ◌≡◌, refl, sym, ap, ◌∙◌, ◌⊎◌, inl, inr, Bool, true, false, not,
  Option, none, some, List, [], ◌∷◌, ◌++◌, arith, ltb, eqb, ltb→lt, eqb_iff, Bool-cases, nat_eq,
  keep_if, In, In-append_left, In-append_right, Dict, contains, contains-In, Text, text_eq,
}

abbrev IsStalled : Option Stall → Type 0
IsStalled none = ⊥
IsStalled (some s) = Unit

In-snoc : {A : Type 0} → (a : A) (xs : List A) → In a (xs ++ a ∷ [])
In-snoc a xs = In-append_right a xs (a ∷ []) (inl refl)

keep_if-In :
    {A : Type 0} → (p : A → Bool) (a : A) (xs : List A) → In a xs → p a ≡ true → In a (keep_if p xs)
keep_if-In p a (x ∷ xs) (inl e) t = let px : p x ≡ true = ap p e ∙ t in rw px (inl e)
keep_if-In p a (x ∷ xs) (inr i) t =
    let rest = keep_if-In p a xs i t in
    elim (Bool-cases (p x)) [ inl px ↦ rw px (inr rest) | inr px ↦ rw px rest ]
keep_if-In p a [] i t = absurd i

count_up-In : (first count n : ℕ) → first ≤ n → n < first + count → In n (count_up first count)
unfolding count_up
count_up-In first zero n h h' = absurd (omega arith)
count_up-In first (suc count) n h h' = elim (Bool-cases (eqb first n)) [
  | inl t ↦ inl ((eqb_iff first n).0 t)
  | inr f ↦ inr (count_up-In (first + 1) count n (ground (arith, eqb_iff first n)) (omega arith))
]

range-In : (start stop n : ℕ) → start ≤ n → n < stop → In n (range start stop)
range-In start stop n h h' = count_up-In start (stop - start) n h (omega arith)

module _ {T V : Type 0} (monitored : Dict ℕ T) (link_lost : ℕ → Bool) where
  -- What a step keeps of the pending acknowledgements and of the batches logged.
  abbrev Extends : Feed T V → Feed T V → Type 0
  Extends st st' =
      ((n : ℕ) → In n st.acks → In n st'.acks)
      × ((b : List (T × V)) → In b st.logged → In b st'.logged)

  Extends-trans : (a b c : Feed T V) → Extends a b → Extends b c → Extends a c
  Extends-trans a b c (f, g) (f', g') = (λ n i. f' n (f n i), λ x i. g' x (g x i))

  abbrev Keeps : Feed T V → Feed T V → Type 0
  Keeps st st' =
      (st'.acks ≡ st.acks)
      × (st'.logged ≡ st.logged)
      × (st'.sub.expected ≡ st.sub.expected)
      × (IsStalled st.sub.stalled → IsStalled st'.sub.stalled)

  status_changed-Keeps :
      (is_good : Bool) (s : Status) (st : Feed T V)
      → Keeps st (status_changed monitored link_lost is_good s st)
  status_changed-Keeps true s st = (refl, refl, refl, λ h. h)
  status_changed-Keeps false s st = elim (Bool-cases (link_lost s.code)) [
    | inl t ↦ rw t (refl, refl, refl, λ h. h)
    | inr f ↦ rw f (refl, refl, refl, λ h. tt)
  ]

  notify-Keeps :
      (now : ℕ) (ns : List (Notification V)) (st : Feed T V)
      → Keeps st (notify monitored link_lost now ns st)
  unfolding notify
  notify-Keeps now [] st = (refl, refl, refl, λ h. h)
  notify-Keeps now (data_change items ∷ ns) st =
      notify-Keeps now ns (record st { stale = touch_all monitored link_lost now items st.stale })
  notify-Keeps now (status_change is_good s ∷ ns) st =
      let one = status_changed-Keeps is_good s st in
      let rest = notify-Keeps now ns (status_changed monitored link_lost is_good s st) in
      (rest.0 ∙ one.0, rest.1 ∙ one.1, rest.2 ∙ one.2, λ h. rest.3 (one.3 h))
  notify-Keeps now (other ∷ ns) st = notify-Keeps now ns st

  -- The samples of a message with this number are logged, and it is acknowledged.
  abbrev IsRecovered : (ℕ → RepublishReply V) → Feed T V → ℕ → Type 0
  IsRecovered server st n =
      In n st.acks
      × (m : Message V) × (server n ≡ answer m)
      × (m.sequence ≡ n)
      × In (all_samples monitored link_lost m.notifications) st.logged

  IsRecovered-Extends :
      (server : ℕ → RepublishReply V) (a b : Feed T V)
      → Extends a b
      → (n : ℕ) → IsRecovered server a n
      → IsRecovered server b n
  IsRecovered-Extends server a b (f, g) n (i, m, e, e', l) = (f n i, m, e, e', g _ l)

  deliver-Extends :
      (now : ℕ) (m : Message V) (st : Feed T V) → Extends st (deliver monitored link_lost now m st)
  unfolding deliver
  deliver-Extends now m st =
      let k = notify-Keeps now m.notifications st in
      (λ n i. subst (In n) (sym k.0) i, λ b i. In-append_left b _ _ (subst (In b) (sym k.1) i))

  deliver-logs :
      (now : ℕ) (m : Message V) (st : Feed T V)
      → In
          (all_samples monitored link_lost m.notifications)
          (deliver monitored link_lost now m st).logged
  unfolding deliver
  deliver-logs now m st = In-snoc _ _

  module _ (now : ℕ) (server : ℕ → RepublishReply V) where
    abbrev acknowledge : ℕ → Feed T V → Feed T V
    acknowledge seq st = record st { acks = st.acks ++ seq ∷ [] }

    acknowledge-Extends : (seq : ℕ) (st : Feed T V) → Extends st (acknowledge seq st)
    acknowledge-Extends seq st = (λ n i. In-append_left n st.acks (seq ∷ []) i, λ b i. i)

    -- What the loop recovers is delivered and acknowledged; it ends at `stop`, or, where the link
    -- failed, at the number that is expected again.
    abbrev IsSound : ℕ → Feed T V → Recovery T V → Type 0
    IsSound stop st r =
        Extends st r.feed
        × ((n : ℕ) → In n r.recovered → IsRecovered server r.feed n)
        × ((r.end ≡ stop) ⊎ (r.feed.sub.expected ≡ r.end))

    recover-IsSound :
        (seqs : List ℕ) (stop : ℕ) (st : Feed T V)
        → IsSound stop st (recover monitored link_lost now server seqs stop st)
    unfolding recover
    recover-IsSound [] stop st = ((λ n i. i, λ b i. i), λ n i. absurd i, inl refl)
    recover-IsSound (seq ∷ rest) stop st =
        one (server seq) refl (λ st'. recover-IsSound rest stop st')
      where
        next : Message V → Feed T V
        next m = deliver monitored link_lost now m (acknowledge seq st)

        one :
            (reply : RepublishReply V)
            → server seq ≡ reply
            → ((st' : Feed T V)
                → IsSound stop st' (recover monitored link_lost now server rest stop st'))
            → IsSound stop st (
                recover_one monitored link_lost now server reply seq stop st (λ m.
                  recover monitored link_lost now server rest stop
                    (deliver monitored link_lost now m (acknowledge seq st))))
        one (declined why) e after_rest = ((λ n i. i, λ b i. i), λ n i. absurd i, inl refl)
        one link_failed e after_rest = ((λ n i. i, λ b i. i), λ n i. absurd i, inr refl)
        one (answer m) e after_rest = elim (Bool-cases (eqb m.sequence seq)) [
          | inl t ↦
              let own = acknowledge seq st in
              let after = deliver monitored link_lost now m own in
              let (grown, all, ends) = after_rest after in
              let step = deliver-Extends now m own in
              let here : IsRecovered server after seq = (
                step.0 seq (In-snoc seq st.acks),
                m,
                e,
                (eqb_iff m.sequence seq).0 t,
                deliver-logs now m own,
              ) in
              let r = recover monitored link_lost now server rest stop after in
              let every : (n : ℕ) → In n (seq ∷ r.recovered) → IsRecovered server r.feed n = λ n i.
                elim i [
                  | inl same ↦
                      subst (IsRecovered server r.feed) same
                        (IsRecovered-Extends server after r.feed grown seq here)
                  | inr j ↦ all n j
                ] in
              rw t (
                Extends-trans st after r.feed
                    (Extends-trans st own after (acknowledge-Extends seq st) step) grown,
                every,
                ends,
              )
          | inr f ↦ rw f ((λ n i. i, λ b i. i), λ n i. absurd i, inl refl)
        ]

    mark_lost-stalls :
        (ns : List ℕ) (why : Text) (st : Feed T V) (n : ℕ)
        → In n ns
        → IsStalled (mark_lost monitored link_lost now server ns why st).sub.stalled
    mark_lost-stalls [] why st n i = absurd i
    mark_lost-stalls (x ∷ ns) why st n i = tt

    mark_lost-keeps :
        (ns : List ℕ) (why : Text) (st : Feed T V)
        → Extends st (mark_lost monitored link_lost now server ns why st)
          × ((mark_lost monitored link_lost now server ns why st).sub.expected ≡ st.sub.expected)
    mark_lost-keeps [] why st = ((λ n i. i, λ b i. i), refl)
    mark_lost-keeps (x ∷ ns) why st = ((λ n i. i, λ b i. i), refl)

    -- Recovered, or its subscription is stalled, or it is expected again.
    abbrev pub IsAccounted : Feed T V → ℕ → Type 0
    IsAccounted st n = IsRecovered server st n ⊎ IsStalled st.sub.stalled ⊎ (st.sub.expected ≤ n)

    republish-accounts :
        (start stop : ℕ) (held : List ℕ) (st : Feed T V) (n : ℕ)
        → start ≤ n
        → n < stop
        → IsAccounted (republish monitored link_lost now server start stop held st).0 n
    unfolding republish
    republish-accounts start stop held st n h h' =
        let r =
          recover monitored link_lost now server
            (wanted monitored link_lost now server held start stop) stop st in
        let (grown, all, ends) =
          recover-IsSound (wanted monitored link_lost now server held start stop) stop st in
        let gone = unrecovered monitored link_lost now server start r in
        let (kept, same) = mark_lost-keeps gone r.why r.feed in
        let final = mark_lost monitored link_lost now server gone r.why r.feed in
        elim (Bool-cases (ltb n r.end)) [
          | inl below ↦ elim (Bool-cases (contains r.recovered n)) [
            | inl t ↦ inl (
                IsRecovered-Extends server r.feed final kept n
                  (all n (contains-In r.recovered n t)))
            | inr f ↦ inr (
                inl (
                  mark_lost-stalls gone r.why r.feed n (
                    keep_if-In (λ k. not (contains r.recovered k)) n (range start r.end)
                      (range-In start r.end n h (ltb→lt n r.end below)) (ap not f))))
          ]
          | inr above ↦ elim ends [
            | inl e ↦ absurd (ground arith)
            | inr e ↦ inr (inr (ground arith))
          ]
        ]

    deliver-accounts :
        (m : Message V) (st : Feed T V) (n : ℕ)
        → IsAccounted st n
        → IsAccounted (deliver monitored link_lost now m st) n
    unfolding deliver
    deliver-accounts m st n (inl r) = inl (
        IsRecovered-Extends server st (deliver monitored link_lost now m st)
          (deliver-Extends now m st) n r)
    deliver-accounts m st n (inr (inl h)) =
        let (_, _, _, stalls) = notify-Keeps now m.notifications st in inr (inl (stalls h))
    deliver-accounts m st n (inr (inr h)) =
        let (_, _, same, _) = notify-Keeps now m.notifications st in inr (inr (rw same h))

    deliver_if-accounts :
        (b : Bool) (m : Message V) (st : Feed T V) (n : ℕ)
        → IsAccounted st n
        → IsAccounted (deliver_if monitored link_lost now server b m st) n
    deliver_if-accounts true m st n h = deliver-accounts m st n h
    deliver_if-accounts false m st n h = h

    -- When a message of the server comes with a number above the expected one, every number that
    -- it skips is recovered (its samples logged, and acknowledged), or the subscription is marked
    -- stalled, which has it recreated and read again, or, after a failed link, the subscription
    -- expects that number again.
    pub on_publish-accounts :
        (m : Message V) (held : List ℕ) (st : Feed T V) (n : ℕ)
        → 0 < m.sequence
        → st.sub.expected ≤ n
        → n < m.sequence
        → IsAccounted (on_publish monitored link_lost now server m held st) n
    unfolding on_publish
    on_publish-accounts m held st n pos h h' =
        let numbered : eqb m.sequence 0 ≡ false = ground (arith, eqb_iff m.sequence 0) in
        let gap : ltb st.sub.expected m.sequence ≡ true = ground arith in
        let heard = heard_from monitored link_lost now server m st in
        let (after, done) =
          republish monitored link_lost now server st.sub.expected m.sequence held heard in
        rw (numbered, gap)
          (deliver_if-accounts done m after n
            (republish-accounts st.sub.expected m.sequence held heard n h h'))
