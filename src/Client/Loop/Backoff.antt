-- ===== src/Client/Loop/Backoff.antt =====
-- Bounds of the loop's counters, and the time that a server that is down costs.
use zelos_extension_opcua.Client.Loop.{
  reconnect_initial, reconnect_max, poll_failures_before_reconnect, Loop, is_to_renew, Outcome,
  shutdown, no_connection, ended_in_wait, completed, link_lost, poll_failed, Turn, start, back_off,
  turn, after, run,
}
use zelos_extension_opcua.Prelude.{
  ℕ, ◌+◌, ◌*◌, ◌≤◌, ◌<◌, inl, inr, Bool, true, false, Option, none, some, List, [], ◌∷◌, arith, ltb,
  leb, eqb, if◌then◌else◌, eqb_iff, Bool-cases, length, All,
}

abbrev pub IsBounded : Loop → Type 0
IsBounded st =
    (reconnect_initial ≤ st.backoff)
    × (st.backoff ≤ reconnect_max)
    × (st.failures < poll_failures_before_reconnect)

-- Of the state after a turn, where there is one.
abbrev pub Holds : (Loop → Type 0) → Option Loop → Type 0
Holds P none = Unit
Holds P (some st) = P st

back_off-IsBounded : (stop : Bool) (st : Loop) → IsBounded st → Holds IsBounded (back_off stop st).0
back_off-IsBounded true st h = tt
back_off-IsBounded false st (h, h', f) = (omega arith, omega arith, f)

turn-IsBounded : (o : Outcome) (st : Loop) → IsBounded st → Holds IsBounded (turn o st).0
unfolding turn
turn-IsBounded shutdown st h = tt
turn-IsBounded (no_connection stop) st h = elim (Bool-cases st.at_start) [
  | inl t ↦ rw t tt
  | inr f ↦
      rw f (
        back_off-IsBounded stop (record st { at_start = false; connected = false; fresh = false })
          h)
]
turn-IsBounded ended_in_wait st h = h
turn-IsBounded (completed link) st h = (omega arith, omega arith, omega arith)
turn-IsBounded (link_lost link stop) st h = elim (Bool-cases (ltb 1 (st.losses + 1))) [
  | inl t ↦ rw t (
      back_off-IsBounded stop
        (record st {
          at_start = false;
          fresh = is_to_renew link;
          connected = false;
          losses = st.losses + 1;
          error_count = st.error_count + 1;
        })
        h)
  | inr f ↦ rw f h
]
turn-IsBounded (poll_failed link) st h = elim (Bool-cases (leb 5 (st.failures + 1))) [
  | inl t ↦ rw t (h.0, h.1, omega arith)
  | inr f ↦ rw f (h.0, h.1, ground arith)
]

-- A fact of the state that each turn keeps holds after a run.
run-Holds :
    (P : Loop → Type 0)
    → ((o : Outcome) (st : Loop) → P st → Holds P (turn o st).0)
    → (os : List Outcome) (st : Loop) → P st
    → Holds P (run os st).0
unfolding run
run-Holds P step [] st h = h
run-Holds P step (o ∷ os) st h = go (turn o st) (step o st h) (run-Holds P step os)
  where
    go :
        (t : Turn)
        → Holds P t.0
        → ((next : Loop) → P next → Holds P (run os next).0)
        → Holds P (after (run os) t).0
    go (none, w) h rest = tt
    go (some next, w) h rest = rest next h

-- Whatever the turns meet, in any order, the backoff stays from 3 s to 60 s, and fewer than five
-- failures in a row are counted: the fifth reconnects.
pub run-IsBounded : (os : List Outcome) → Holds IsBounded (run os start).0
run-IsBounded os =
    run-Holds IsBounded turn-IsBounded os start (omega arith, omega arith, omega arith)

-- A turn whose connect fails, or whose job meets a lost connection.
abbrev pub IsDown : Outcome → Type 0
IsDown (no_connection stop) = Unit
IsDown (link_lost link stop) = Unit
IsDown _ = ⊥

-- The first loss is free.
abbrev credit : Loop → ℕ
credit st = if eqb st.losses 0 then reconnect_initial else 0

-- A turn waits for its backoff, or spends the credit.
abbrev Pays : Loop → Turn → ℕ → Type 0
Pays st t price = Holds (λ next. IsBounded next × (price + credit next ≤ t.1 + credit st)) t.0

turn-Pays :
    (o : Outcome) (st : Loop) → IsDown o → IsBounded st → Pays st (turn o st) reconnect_initial
unfolding turn
turn-Pays (no_connection true) st d h = elim (Bool-cases st.at_start) [
  | inl t ↦ rw t tt
  | inr f ↦ rw f tt
]
turn-Pays (no_connection false) st d h = elim (Bool-cases st.at_start) [
  | inl t ↦ rw t tt
  | inr f ↦ rw f ((omega arith, omega arith, h.2), ground arith)
]
turn-Pays (link_lost link true) st d h = elim (Bool-cases (ltb 1 (st.losses + 1))) [
  | inl t ↦ rw t tt
  | inr f ↦ rw f (h, ground (arith, eqb_iff st.losses 0))
]
turn-Pays (link_lost link false) st d h = elim (Bool-cases (ltb 1 (st.losses + 1))) [
  | inl t ↦ rw t ((omega arith, omega arith, h.2), ground arith)
  | inr f ↦ rw f (h, ground (arith, eqb_iff st.losses 0))
]
turn-Pays _ st d h = absurd d

run-Pays :
    (os : List Outcome) (st : Loop)
    → All IsDown os
    → IsBounded st
    → Pays st (run os st) (reconnect_initial * length os)
unfolding run
run-Pays [] st d h = (h, omega arith)
run-Pays (o ∷ os) st d h =
    go (turn o st) (turn-Pays o st d.0 h) (λ next h'. run-Pays os next d.1 h')
  where
    tail :
        (next : Loop) (w : ℕ) (t : Turn)
        → reconnect_initial + credit next ≤ w + credit st
        → Pays next t (reconnect_initial * length os)
        → Holds
            (λ last.
              IsBounded last
              × (reconnect_initial * length (o ∷ os) + credit last ≤ (w + t.1) + credit st))
            t.0
    tail next w (none, v) e h' = tt
    tail next w (some last, v) e (b, e') = (b, omega arith)

    go :
        (t : Turn)
        → Pays st t reconnect_initial
        → ((next : Loop) → IsBounded next → Pays next (run os next) (reconnect_initial * length os))
        → Pays st (after (run os) t) (reconnect_initial * length (o ∷ os))
    go (none, w) h' rest = tt
    go (some next, w) (b, e) rest = tail next w (run os next) e (rest next b)

-- From a state with the loop's bounds, over turns each of which ends with a connect that failed or
-- with a job whose request lost the connection, the loop spends at least 3 s per turn waiting, save
-- one, where no shutdown ends it. A connection that ends while the loop waits for a job is no such
-- turn: the loop reconnects at once.
pub run-waits :
    (os : List Outcome) (st : Loop)
    → All IsDown os
    → IsBounded st
    → Holds
        (λ last. reconnect_initial * length os ≤ (run os st).1 + reconnect_initial)
        (run os st).0
run-waits os st d h = spent (run os st) (run-Pays os st d h)
  where
    spent :
        (t : Turn)
        → Pays st t (reconnect_initial * length os)
        → Holds (λ last. reconnect_initial * length os ≤ t.1 + reconnect_initial) t.0
    spent (none, w) h' = tt
    spent (some last, w) (b, e) = ground arith
