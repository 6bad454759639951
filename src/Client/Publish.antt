-- ===== src/Client/Publish.antt =====
-- Publish responses and gaps in their numbers: `_publish_callback` (`deliver`, `on_publish`) and
-- `_republish` of zelos_extension_opcua/client.py, for a subscription of the current client.
-- A response of another client, or for an unknown subscription, is only delivered. The state is
-- what the handler reads and writes: the subscription's record, the time stamps of the sweep, the
-- pending acknowledgements and the batches logged. `V` is a DataValue.
pub mod Gaps
use zelos_extension_opcua.Prelude.{
  ℕ, zero, suc, ◌+◌, ◌-◌, Bool, true, false, not, Option, none, some, List, [], ◌∷◌, ◌++◌, ltb, eqb,
  if◌then◌else◌, nat_eq, length, take, keep_if, Dict, keys, contains, lookup, Text, codes, text_eq,
}
use zelos_extension_opcua.Client.Transport.{Status, ended, lost, Sub, touch}

pub data Notification (V : Type 0) : Type 0 where
  data_change : List (ℕ × V) → Notification V
  status_change : Bool → Status → Notification V
  other : Notification V

pub record Message (V : Type 0) : Type 0 where
  pub sequence : ℕ
  pub notifications : List (Notification V)

pub record Feed (T V : Type 0) : Type 0 where
  pub sub : Sub T
  pub stale : Dict ℕ ℕ
  pub connected : Bool
  pub acks : List ℕ
  pub logged : List (List (T × V))

pub data RepublishReply (V : Type 0) : Type 0 where
  answer : Message V → RepublishReply V
  link_failed : RepublishReply V
  declined : Text → RepublishReply V

-- What the loop of `_republish` ends with: the recovered numbers, `end` and `why`.
pub record Recovery (T V : Type 0) : Type 0 where
  pub recovered : List ℕ
  pub end : ℕ
  pub why : Text
  pub feed : Feed T V

abbrev pub max_republish : ℕ
max_republish = 10

abbrev pub not_held : Text
not_held = codes "not held by the server"

abbrev pub not_returned : Text
not_returned = codes "not returned"

unfoldable pub count_up : ℕ → ℕ → List ℕ
count_up first zero = []
count_up first (suc count) = first ∷ count_up (first + 1) count

-- Python's `range`
abbrev pub range : ℕ → ℕ → List ℕ
range start stop = count_up start (stop - start)

module _ {T V : Type 0} (monitored : Dict ℕ T) (link_lost : ℕ → Bool) where
  -- The items of one data change, those under an unknown handle left out.
  abbrev pub sample_of : Option T → V → List (T × V) → List (T × V)
  sample_of (some t) v rest = (t, v) ∷ rest
  sample_of none v rest = rest

  unfoldable pub samples_of : List (ℕ × V) → List (T × V)
  samples_of [] = []
  samples_of ((h, v) ∷ items) = sample_of (lookup h monitored) v (samples_of items)

  unfoldable pub touch_all : ℕ → List (ℕ × V) → Dict ℕ ℕ → Dict ℕ ℕ
  touch_all now [] stale = stale
  touch_all now ((h, v) ∷ items) stale =
      touch_all now items (if contains (keys monitored) h then touch h now stale else stale)

  unfoldable pub all_samples : List (Notification V) → List (T × V)
  all_samples [] = []
  all_samples (data_change items ∷ ns) = samples_of items ++ all_samples ns
  all_samples (status_change is_good s ∷ ns) = all_samples ns
  all_samples (other ∷ ns) = all_samples ns

  abbrev pub status_changed : Bool → Status → Feed T V → Feed T V
  status_changed true s st = st
  status_changed false s st =
      if link_lost s.code
      then record st { connected = false }
      else record st { sub = record st.sub { stalled = some (ended s.name) } }

  unfoldable pub notify : ℕ → List (Notification V) → Feed T V → Feed T V
  notify now [] st = st
  notify now (data_change items ∷ ns) st =
      notify now ns (record st { stale = touch_all now items st.stale })
  notify now (status_change is_good s ∷ ns) st = notify now ns (status_changed is_good s st)
  notify now (other ∷ ns) st = notify now ns st

  -- `deliver`: the samples of a message are logged in one batch.
  unfoldable pub deliver : ℕ → Message V → Feed T V → Feed T V
  deliver now m st =
      let after = notify now m.notifications st in
      record after { logged = after.logged ++ all_samples m.notifications ∷ [] }

  module _ (now : ℕ) (server : ℕ → RepublishReply V) where
    abbrev pub stop_at : ℕ → Text → Feed T V → Recovery T V
    stop_at stop why st = record { recovered = []; end = stop; why = why; feed = st }

    abbrev pub recover_one :
        RepublishReply V → ℕ → ℕ → Feed T V → (Message V → Recovery T V) → Recovery T V
    recover_one (declined why) seq stop st more = stop_at stop why st
    recover_one link_failed seq stop st more =
        stop_at seq not_held (record st { sub = record st.sub { expected = seq } })
    recover_one (answer m) seq stop st more =
        let rest = more m in
        if eqb m.sequence seq
        then record rest { recovered = seq ∷ rest.recovered }
        else stop_at stop not_returned st

    unfoldable pub recover : List ℕ → ℕ → Feed T V → Recovery T V
    recover [] stop st = stop_at stop not_held st
    recover (seq ∷ rest) stop st =
        recover_one (server seq) seq stop st
          (λ m. recover rest stop (deliver now m (record st { acks = st.acks ++ seq ∷ [] })))

    abbrev pub mark_lost : List ℕ → Text → Feed T V → Feed T V
    mark_lost [] why st = st
    mark_lost (n ∷ ns) why st = record st {
      sub = record st.sub { stalled = some (lost (n ∷ ns) why) };
    }

    abbrev pub wanted : List ℕ → ℕ → ℕ → List ℕ
    wanted held start stop = take max_republish (keep_if (contains held) (range start stop))

    abbrev pub unrecovered : ℕ → Recovery T V → List ℕ
    unrecovered start r = keep_if (λ n. not (contains r.recovered n)) (range start r.end)

    -- `_republish` of the numbers from `start` to below `stop`
    unfoldable pub republish : ℕ → ℕ → List ℕ → Feed T V → Feed T V × Bool
    republish start stop held st =
        let r = recover (wanted held start stop) stop st in
        (mark_lost (unrecovered start r) r.why r.feed, eqb r.end stop)

    -- The number expected after a message: a keep-alive carries the next one.
    abbrev pub next_number : Message V → ℕ
    next_number m = if eqb (length m.notifications) 0 then m.sequence else m.sequence + 1

    abbrev pub heard_from : Message V → Feed T V → Feed T V
    heard_from m st = record st { sub = record st.sub { heard = now; expected = next_number m } }

    abbrev pub deliver_if : Bool → Message V → Feed T V → Feed T V
    deliver_if true m st = deliver now m st
    deliver_if false m st = st

    abbrev pub fill_gap : Message V → List ℕ → Feed T V → Feed T V
    fill_gap m held st =
        if ltb st.sub.expected m.sequence
        then (let (st1, recovered) = republish st.sub.expected m.sequence held (heard_from m st) in
            deliver_if recovered m st1)
        else deliver now m (heard_from m st)

    -- `on_publish`: number 0 is a status message of the client library itself.
    unfoldable pub on_publish : Message V → List ℕ → Feed T V → Feed T V
    on_publish m held st = if eqb m.sequence 0 then deliver now m st else fill_gap m held st
