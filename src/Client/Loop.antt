-- ===== src/Client/Loop.antt =====
-- The polling loop of one server: `_run_async` of zelos_extension_opcua/client.py, one turn of its
-- `while` at a time, and the choice and the rescheduling of a job. Times are whole milliseconds.
-- The client has never connected
-- when `start` holds. What a turn meets (the link, the job, a shutdown) is its outcome, an argument.
pub mod Backoff
pub mod Jobs
use zelos_extension_opcua.Prelude.{
  ℕ, ◌+◌, ◌*◌, min, max, Bool, true, false, Option, none, some, List, [], ◌∷◌, ltb, leb,
  if◌then◌else◌,
}

abbrev pub reconnect_initial : ℕ
reconnect_initial = 3000

abbrev pub reconnect_max : ℕ
reconnect_max = 60000

abbrev pub poll_failures_before_reconnect : ℕ
poll_failures_before_reconnect = 5

-- The locals of `_run_async`, and the client's fields that it writes.
pub record Loop : Type 0 where
  pub backoff : ℕ
  pub losses : ℕ
  pub failures : ℕ
  pub error_count : ℕ
  pub connected : Bool
  pub fresh : Bool
  pub at_start : Bool

-- What a job that ran has left of the connection: up; ended by a notification meanwhile; or given
-- up for a new session, as `_recreate` leaves it.
pub data Link : Type 0 where
  up : Link
  down : Link
  to_renew : Link

abbrev pub stays_up : Link → Bool
stays_up up = true
stays_up down = false
stays_up to_renew = false

abbrev pub is_to_renew : Link → Bool
is_to_renew up = false
is_to_renew down = false
is_to_renew to_renew = true

-- What one turn meets; a Bool says that the shutdown comes during its backoff.
pub data Outcome : Type 0 where
  shutdown : Outcome
  no_connection : Bool → Outcome
  ended_in_wait : Outcome
  completed : Link → Outcome
  link_lost : Link → Bool → Outcome
  poll_failed : Link → Outcome

-- The state after a turn, none if the loop is left, and the time spent in its backoff.
abbrev pub Turn : Type 0
Turn = Option Loop × ℕ

abbrev pub start : Loop
start = record {
  backoff = reconnect_initial;
  losses = 0;
  failures = 0;
  error_count = 0;
  connected = false;
  fresh = false;
  at_start = true;
}

abbrev pub next_backoff : ℕ → ℕ
next_backoff backoff = min (backoff * 2) reconnect_max

-- `if await self._wait_or_stop(backoff): break`, with the backoff doubled after it
abbrev pub back_off : Bool → Loop → Turn
back_off stop st =
    if stop then (none, 0) else (some (record st { backoff = next_backoff st.backoff }), st.backoff)

abbrev pub lose_link : Bool → Loop → Turn
lose_link stop st = if ltb 1 st.losses then back_off stop st else (some st, 0)

abbrev pub fail : Loop → Turn
fail st =
    if leb poll_failures_before_reconnect st.failures
    then (some (record st { connected = false; fresh = true; failures = 0 }), 0)
    else (some st, 0)

unfoldable pub turn : Outcome → Loop → Turn
turn shutdown st = (none, 0)
turn (no_connection stop) st =
    if st.at_start
    then (none, 0)
    else back_off stop (record st { at_start = false; connected = false; fresh = false })
turn ended_in_wait st = (some (record st { at_start = false; connected = false; fresh = false }), 0)
turn (completed link) st = (
  some (record st {
    backoff = reconnect_initial;
    losses = 0;
    failures = 0;
    at_start = false;
    connected = stays_up link;
    fresh = is_to_renew link;
  }),
  0,
)
turn (link_lost link stop) st = lose_link stop (record st {
  at_start = false;
  fresh = is_to_renew link;
  connected = false;
  losses = st.losses + 1;
  error_count = st.error_count + 1;
})
turn (poll_failed link) st = fail (record st {
  at_start = false;
  fresh = is_to_renew link;
  connected = stays_up link;
  failures = st.failures + 1;
  error_count = st.error_count + 1;
})

-- The turns of a run.
abbrev pub after : (Loop → Option Loop × ℕ) → Turn → Turn
after rest (none, waited) = (none, waited)
after rest (some st, waited) = let (last, more) = rest st in (last, waited + more)

unfoldable pub run : List Outcome → Loop → Turn
run [] st = (some st, 0)
run (o ∷ os) st = after (run os) (turn o st)

-- `_Job`
pub record Job : Type 0 where
  pub due : ℕ
  pub period : ℕ

-- `min(self._jobs, key=lambda j: j.due)`: the first of the earliest, with what is left.
unfoldable pub take_earliest : Job → List Job → Job × List Job
take_earliest j [] = (j, [])
take_earliest j (k ∷ jobs) =
    let (best, rest) = take_earliest k jobs in
    if leb j.due best.due then (j, k ∷ jobs) else (best, j ∷ rest)

-- `job.due = max(job.due + job.period, now)`
unfoldable pub reschedule : ℕ → Job → Job
reschedule now j = record j { due = max (j.due + j.period) now }
