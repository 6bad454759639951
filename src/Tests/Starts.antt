-- ===== src/Tests/Starts.antt =====
-- Starting the transport: of four targets one may change its type, and the server takes one of the
-- others.
use zelos_extension_opcua.Client.Transport.{
  register, settle, add_items, fill_subscription, subscribe,
}
use zelos_extension_opcua.Client.Schedule.{
  poll_health, poll_chunk, chunk_jobs, interval_jobs, upkeep_jobs, schedule,
}
use zelos_extension_opcua.Client.Recovery.{Connection, poll_everything}
use zelos_extension_opcua.Tests.Links.{no_codes, small_server}
use zelos_extension_opcua.Tests.Failures.{link}
use zelos_extension_opcua.Client.Start.{
  Setup, enumerate_from, group_items, poll_rejected, start_group, start_groups, start_transport,
}
use zelos_extension_opcua.Client.Start.Served.{IsServedBy, start_transport-IsServedBy}
use zelos_extension_opcua.Prelude.{
  ℕ, ◌≡◌, refl, true, false, List, [], ◌∷◌, arith, eqb, if◌then◌else◌, nat_eq, chunks_from, All, ok,
  lookup, insert, erase, text_eq,
}

abbrev setup : Setup ℕ
setup = record {
  polling = false;
  poll_interval = 1000;
  interval_for = λ t. if eqb t 40 then 500 else 1000;
  is_variant = λ t. eqb t 30;
  monitor_chunk = 2;
  read_chunk = 10;
  min_update_interval = 100;
}

abbrev four_targets : List ℕ
four_targets = 10 ∷ 20 ∷ 30 ∷ 40 ∷ []

-- The link when a response could not be decoded: all are polled.
abbrev all_poll : Connection ℕ
all_poll = record {
  transport = record { monitored = []; stale = []; stale_after = 1000; subs = [] };
  connected = true;
  fresh = false;
  ready = true;
  subscribing = false;
  polled = 4;
  jobs =
      (record { due = 7; period = 1000 }, poll_health)
      ∷ (record { due = 7; period = 1000 }, poll_chunk (10 ∷ 20 ∷ 30 ∷ []) 1000)
      ∷ (record { due = 7; period = 500 }, poll_chunk (40 ∷ []) 500)
      ∷ [];
}

start_failed : start_transport no_codes small_server setup 7 four_targets true link ≡ ok all_poll
unfolding start_transport start_groups group_items enumerate_from insert start_group lookup
    subscribe fill_subscription add_items chunks_from settle schedule interval_jobs poll_rejected
    poll_everything erase register chunk_jobs upkeep_jobs
start_failed = refl

start_transport-IsServedBy_example : All (IsServedBy setup all_poll) four_targets
start_transport-IsServedBy_example =
    start_transport-IsServedBy no_codes small_server setup (omega arith) 7 four_targets true link
      (omega arith) start_failed
