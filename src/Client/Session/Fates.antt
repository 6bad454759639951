-- ===== src/Client/Session/Fates.antt =====
-- What becomes of a session whose connection ended, told from how the requests end.
use mathlib.Core.Path.{subst}
use zelos_extension_opcua.Client.Session.{
  Detached, Holder, Channel, RequestOutcome, succeeds, raises, detached_of, is_open, is_closed_here,
  detach, Answer, returns, channel_failed, is_left, start_anew, after_activate, resume,
}
use zelos_extension_opcua.Prelude.{
  ℕ, ◌≡◌, refl, sym, ap, ◌∙◌, ◌⊎◌, inl, inr, Bool, true, false, not, ◌&&◌, Option, none, some, List,
  [], ◌∷◌, ◌++◌, arith, if◌then◌else◌, Bool-cases, if-true, All,
}

-- In use, left on the server to be resumed or else to be closed, or given up.
pub data Fate : Type 0 where
  held : Fate
  parked : Bool → Fate
  ended : Fate

abbrev pub fate_of : Option Detached → Fate
fate_of none = ended
fate_of (some d) = parked d.keep

abbrev pub fate_after : Answer × Holder → Fate
fate_after (returns true, h) = held
fate_after (returns false, h) = fate_of h.detached
fate_after (channel_failed, h) = fate_of h.detached

abbrev pub go_on : Answer × Holder → (Holder → Answer × Holder) → Answer × Holder
go_on (returns b, h) next = (returns b, h)
go_on (channel_failed, h) next = next h

-- Opening channels until one takes the session back or starts a new one.
unfoldable pub openings : (ℕ → Bool) → List RequestOutcome → Holder → Answer × Holder
openings gone [] h = (channel_failed, h)
openings gone (a ∷ activates) h = go_on (resume gone a h) (openings gone activates)

-- Leaving the connection, and the openings after it.
unfoldable pub life :
    (ℕ → Bool) → Channel → Bool → RequestOutcome → List RequestOutcome → Holder → Fate
life gone ch keep close activates h =
    if is_closed_here ch keep close
    then ended
    else fate_after (openings gone activates (detach ch keep close h))

module _ (gone : ℕ → Bool) where
  -- The code of a failure is that of a session that the server has no more.
  abbrev IsGone : Option ℕ → Type 0
  IsGone none = ⊥
  IsGone (some code) = gone code ≡ true

  abbrev IsNotGone : Option ℕ → Type 0
  IsNotGone none = Unit
  IsNotGone (some code) = gone code ≡ false

  -- The channel failed, and not the session.
  abbrev IsChannelFailure : RequestOutcome → Type 0
  IsChannelFailure succeeds = ⊥
  IsChannelFailure (raises link code) = (link ≡ true) × IsNotGone code

  -- The session is gone, or the failure is none of the connection.
  abbrev IsRefusal : RequestOutcome → Type 0
  IsRefusal succeeds = ⊥
  IsRefusal (raises link code) = (link ≡ false) ⊎ IsGone code

  -- After channels that failed comes an opening of the kind.
  abbrev FirstIs : (RequestOutcome → Type 0) → List RequestOutcome → Type 0
  FirstIs IsKind activates =
      (failed : List RequestOutcome) × (a : RequestOutcome) × (rest : List RequestOutcome)
      × (activates ≡ failed ++ a ∷ rest)
      × All IsChannelFailure failed
      × IsKind a

  -- A kept session is taken back, given up, or still left; another one is given up by the first
  -- opening.
  abbrev IsFateOf : Bool → List RequestOutcome → Fate → Type 0
  IsFateOf true activates fate =
      ((fate ≡ held) × FirstIs (λ a. a ≡ succeeds) activates)
      ⊎ ((fate ≡ ended) × FirstIs IsRefusal activates)
      ⊎ ((fate ≡ parked true) × All IsChannelFailure activates)
  IsFateOf false [] fate = fate ≡ parked false
  IsFateOf false (a ∷ activates) fate = fate ≡ ended

  abbrev IsRaised : RequestOutcome → Type 0
  IsRaised succeeds = ⊥
  IsRaised (raises link code) = Unit

  -- Closed on its own channel, or not and then as the openings end.
  abbrev pub IsFate : Channel → Bool → RequestOutcome → List RequestOutcome → Fate → Type 0
  IsFate ch keep close activates fate =
      ((keep ≡ false) × (is_open ch.protocol ≡ true) × (close ≡ succeeds) × (fate ≡ ended))
      ⊎ (((keep ≡ true) ⊎ (is_open ch.protocol ≡ false) ⊎ IsRaised close)
          × IsFateOf keep activates fate)

  FirstIs-after :
      (IsKind : RequestOutcome → Type 0) (a : RequestOutcome) (activates : List RequestOutcome)
      → IsChannelFailure a
      → FirstIs IsKind activates
      → FirstIs IsKind (a ∷ activates)
  FirstIs-after IsKind a activates here (failed, b, rest, e, all, kind) =
      (a ∷ failed, b, rest, ap (λ xs. a ∷ xs) e, (here, all), kind)

  IsFateOf-after :
      (a : RequestOutcome) (activates : List RequestOutcome) (fate : Fate)
      → IsChannelFailure a
      → IsFateOf true activates fate
      → IsFateOf true (a ∷ activates) fate
  IsFateOf-after a activates fate here (inl (is, first)) =
      inl (is, FirstIs-after (λ b. b ≡ succeeds) a activates here first)
  IsFateOf-after a activates fate here (inr (inl (is, first))) =
      inr (inl (is, FirstIs-after IsRefusal a activates here first))
  IsFateOf-after a activates fate here (inr (inr (is, all))) = inr (inr (is, (here, all)))

  -- What the next channel does with a session that was left.
  resumed_left :
      (a : RequestOutcome) (d : Detached) (h : Holder)
      → h.detached ≡ some d
      → resume gone a h ≡ after_activate gone a d h
  unfolding resume
  resumed_left a d h e = by_detached h.detached e
    where
      by_detached :
          (o : Option Detached)
          → o ≡ some d
          → (elim o [ none ↦ start_anew h | some c ↦ after_activate gone a c h ])
            ≡ after_activate gone a d h
      by_detached o e = rw e refl

  failure-cases :
      (link : Bool) (code : Option ℕ)
      → (((link && is_left gone code) ≡ true) × IsChannelFailure (raises link code))
        ⊎ (((link && is_left gone code) ≡ false) × IsRefusal (raises link code))
  failure-cases false code = inr (refl, inl refl)
  failure-cases true none = inl (refl, (refl, tt))
  failure-cases true (some code) = elim (Bool-cases (gone code)) [
    | inl t ↦ inr (rw t refl, inr t)
    | inr f ↦ inl (rw f refl, (refl, f))
  ]

  -- The openings of a session that was left.
  openings-IsFateOf :
      (keep : Bool) (activates : List RequestOutcome) (h : Holder) (d : Detached)
      → d.keep ≡ keep
      → h.detached ≡ some d
      → IsFateOf keep activates (fate_after (openings gone activates h))
  unfolding openings
  openings-IsFateOf true [] h d k e = inr (inr (rw (e, k) refl, tt))
  openings-IsFateOf false [] h d k e = rw (e, k) refl
  openings-IsFateOf true (succeeds ∷ activates) h d k e =
      inl (rw (resumed_left succeeds d h e, k) refl, ([], succeeds, activates, refl, tt, refl))
  openings-IsFateOf false (succeeds ∷ activates) h d k e = rw (resumed_left succeeds d h e, k) refl
  openings-IsFateOf false (raises link code ∷ activates) h d k e =
      rw (resumed_left (raises link code) d h e, k) refl
  openings-IsFateOf true (raises link code ∷ activates) h d k e = elim (failure-cases link code) [
    | inl (left, failure) ↦
        let left_again = record h { detached = some d } in
        let both : (d.keep && link && is_left gone code) ≡ true = rw (k, left) refl in
        let step =
          resumed_left (raises link code) d h e
          ∙ if-true (channel_failed, left_again) (start_anew h) both in
        subst (IsFateOf true (raises link code ∷ activates))
          (sym (ap (λ o. fate_after (go_on o (openings gone activates))) step))
          (IsFateOf-after (raises link code) activates
            (fate_after (openings gone activates left_again)) failure
            (openings-IsFateOf true activates left_again d k refl))
    | inr (over, refusal) ↦ inr (
        inl (
          rw (resumed_left (raises link code) d h e, k, over) refl,
          ([], raises link code, activates, refl, tt, refusal),
        ))
  ]

  detach-left :
      (ch : Channel) (keep : Bool) (close : RequestOutcome) (h : Holder)
      → ch.has_session ≡ true
      → is_closed_here ch keep close ≡ false
      → (detach ch keep close h).detached ≡ some (detached_of ch keep)
  unfolding detach
  detach-left ch keep close h has here =
      by_session ch.has_session has (is_closed_here ch keep close) here
    where
      by_session :
          (b : Bool)
          → b ≡ true
          → (c : Bool) → c ≡ false
          → (if◌then◌else◌ {A = Holder}
              (b && not c)
              (record h { detached = some (detached_of ch keep) })
              h).detached
            ≡ some (detached_of ch keep)
      by_session true t false f = refl
      by_session true t true f = cc f
      by_session false t c f = cc t

  closed-cases :
      (ch : Channel) (keep : Bool) (close : RequestOutcome)
      → ch.has_session ≡ true
      → ((is_closed_here ch keep close ≡ true)
          × (keep ≡ false)
          × (is_open ch.protocol ≡ true)
          × (close ≡ succeeds))
        ⊎ ((is_closed_here ch keep close ≡ false)
            × ((keep ≡ true) ⊎ (is_open ch.protocol ≡ false) ⊎ IsRaised close))
  unfolding is_closed_here
  closed-cases ch true close has = inr (ground arith, inl refl)
  closed-cases ch false (raises link code) has = inr (ground arith, inr (inr tt))
  closed-cases ch false succeeds has = elim (Bool-cases (is_open ch.protocol)) [
    | inl t ↦ inl (rw (has, t) refl, refl, t, refl)
    | inr f ↦ inr (rw (has, f) refl, inr (inl f))
  ]

  -- A connection with a session ends. If its session is not kept, its channel is open and the
  -- CloseSession succeeds, the session has ended. Otherwise it is left to the next openings, a list
  -- of how their ActivateSession ends: a kept session is taken back where, after channels that
  -- failed (a connection error without the code of a session that is gone), the first other outcome
  -- is a success; it is given up where that is any other failure; and it is left still where all
  -- channels failed. One that is not kept is given up by the first opening, whatever it meets.
  pub life-IsFate :
      (ch : Channel) (keep : Bool) (close : RequestOutcome) (activates : List RequestOutcome)
      (h : Holder)
      → ch.has_session ≡ true
      → IsFate ch keep close activates (life gone ch keep close activates h)
  unfolding life
  life-IsFate ch keep close activates h has = elim (closed-cases ch keep close has) [
    | inl (here, unkept, up, closed) ↦ inl (unkept, up, closed, rw here refl)
    | inr (away, why) ↦ inr (
      why,
      rw away (
          openings-IsFateOf keep activates (detach ch keep close h) (detached_of ch keep) refl
            (detach-left ch keep close h has away)),
    )
  ]
