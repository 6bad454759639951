-- ===== src/Tests/Jobs.antt =====
-- Sweeps and schedules.
use zelos_extension_opcua.Client.Sweep.Front.{IsOrdered, sweep-IsOrdered}
use zelos_extension_opcua.Client.Schedule.Polls.{all_polled, schedule-polled}
use zelos_extension_opcua.Client.Sweep.{take_while, is_due, due_handles, sweep}
use zelos_extension_opcua.Client.Schedule.{
  Work, poll_health, poll_chunk, watch, sweep_job, Plan, chunk_jobs, interval_jobs, upkeep_jobs,
  schedule,
}
use zelos_extension_opcua.Client.Loop.{Job}
use zelos_extension_opcua.Prelude.{
  ℕ, ◌≡◌, refl, true, List, [], ◌∷◌, arith, take, chunks_from, keep_if, Dict, keys,
}

abbrev updates : Dict ℕ ℕ
updates = (7, 10) ∷ (5, 20) ∷ (6, 90) ∷ []

sweep-IsOrdered_example :
    (7 ∷ 5 ∷ [] ≡ keys (take 2 (keep_if (is_due 100 60) updates)))
    × IsOrdered 105 (sweep 100 105 60 2 updates).1
unfolding sweep due_handles take_while
sweep-IsOrdered_example = sweep-IsOrdered 100 105 60 2 updates (omega arith) (
    (
      omega arith,
      (omega arith, (omega arith, tt)),
      (omega arith, (omega arith, tt), (omega arith, tt, tt)),
    ))

abbrev plan : Plan ℕ
plan = record {
  poll_interval = 1000;
  read_chunk = 2;
  has_subs = true;
  monitored = (1, 1) ∷ [];
  stale_after = 60000;
}

abbrev planned : List (Job × Work ℕ)
planned =
    (record { due = 5; period = 1000 }, poll_health)
    ∷ (record { due = 5; period = 500 }, poll_chunk (7 ∷ 8 ∷ []) 500)
    ∷ (record { due = 255; period = 500 }, poll_chunk (9 ∷ []) 500)
    ∷ (record { due = 1005; period = 1000 }, watch)
    ∷ (record { due = 15005; period = 15000 }, sweep_job)
    ∷ []

schedule-polled_example : all_polled planned ≡ (500, 7) ∷ (500, 8) ∷ (500, 9) ∷ []
unfolding schedule interval_jobs chunks_from chunk_jobs upkeep_jobs
schedule-polled_example =
    schedule-polled 5 plan ((500, 7 ∷ 8 ∷ 9 ∷ []) ∷ []) {jobs = planned} (omega arith) refl
