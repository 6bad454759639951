-- ===== src/Client/Schedule.antt =====
-- The periodic requests of a connection: `_schedule` of zelos_extension_opcua/client.py. An
-- interval's chunks are due at `now + i * (interval / n)`, to the whole millisecond below, and the
-- period of the sweep is rounded down likewise.
pub mod Polls
use zelos_extension_opcua.Client.Loop.{Job}
use zelos_extension_opcua.Client.Transport.{ceil_div}
use zelos_extension_opcua.Prelude.{
  ℕ, ◌+◌, ◌*◌, ◌/◌, max, Bool, List, [], ◌∷◌, ◌++◌, eqb, if◌then◌else◌, length, chunks, Result, ok,
  ◌>>=◌, ◌>>◌, raise_if, Dict,
}

-- What a job runs.
pub data Work (T : Type 0) : Type 0 where
  poll_health : Work T
  poll_chunk : List T → ℕ → Work T
  watch : Work T
  sweep_job : Work T

pub data ScheduleError : Type 0 where
  zero_division : ScheduleError

abbrev pub watch_ms : ℕ
watch_ms = 1000

abbrev pub sweep_steps : ℕ
sweep_steps = 4

abbrev pub job : ℕ → ℕ → Job
job due period = record { due = due; period = period }

-- What `_schedule` reads of the client.
pub record Plan (T : Type 0) : Type 0 where
  pub poll_interval : ℕ
  pub read_chunk : ℕ
  pub has_subs : Bool
  pub monitored : Dict ℕ T
  pub stale_after : ℕ

module _ {T : Type 0} where
  -- The jobs of one interval, numbered from `i`, of `n`.
  unfoldable pub chunk_jobs : ℕ → ℕ → ℕ → ℕ → List (List T) → List (Job × Work T)
  chunk_jobs now interval n i [] = []
  chunk_jobs now interval n i (c ∷ cs) =
      (job (now + i * interval / n) interval, poll_chunk c interval)
      ∷ chunk_jobs now interval n (i + 1) cs

  unfoldable pub interval_jobs :
      ℕ → ℕ → Dict ℕ (List T) → Result ScheduleError (List (Job × Work T))
  interval_jobs now read_chunk [] = ok []
  interval_jobs now read_chunk ((interval, targets) ∷ polled) = do
    raise_if (eqb (length (chunks read_chunk targets)) 0) zero_division
    rest ← interval_jobs now read_chunk polled
    ok (
        chunk_jobs now interval (length (chunks read_chunk targets)) 0 (chunks read_chunk targets)
        ++ rest)

  -- The jobs after the polls.
  unfoldable pub upkeep_jobs : ℕ → Plan T → List (Job × Work T)
  upkeep_jobs now p =
      let step = p.stale_after / max sweep_steps (ceil_div (length p.monitored) p.read_chunk) in
      (if p.has_subs then (job (now + watch_ms) watch_ms, watch) ∷ [] else [])
      ++ (if eqb (length p.monitored) 0 then [] else (job (now + step) step, sweep_job) ∷ [])

  -- `_schedule`
  unfoldable pub schedule :
      ℕ → Plan T → Dict ℕ (List T) → Result ScheduleError (List (Job × Work T))
  schedule now p polled = do
    polls ← interval_jobs now p.read_chunk polled
    ok ((job now p.poll_interval, poll_health) ∷ polls ++ upkeep_jobs now p)
