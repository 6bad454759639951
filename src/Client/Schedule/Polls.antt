-- ===== src/Client/Schedule/Polls.antt =====
-- Every polled target has its job.
use mathlib.Core.Path.{subst}
use mathlib.Core.List.{map-append}
use zelos_extension_opcua.Client.Schedule.{
  Work, poll_chunk, zero_division, Plan, chunk_jobs, interval_jobs, upkeep_jobs, schedule,
}
use zelos_extension_opcua.Client.Loop.{Job}
use zelos_extension_opcua.Prelude.{
  ℕ, ◌+◌, ◌<◌, ◌≡◌, refl, sym, ap, List, [], ◌∷◌, ◌++◌, map, append-nil, append_assoc, arith, eqb,
  length, chunks, flat, flat-chunks, ok, raise_if, >>=-eq-ok, ok-injective, Dict,
}

module _ {T : Type 0} where
  -- The targets that a job polls, each with the period.
  abbrev pub polled_by : Job × Work T → List (ℕ × T)
  polled_by (j, poll_chunk c interval) = map (λ t. (j.period, t)) c
  polled_by (j, _) = []

  abbrev pub all_polled : List (Job × Work T) → List (ℕ × T)
  all_polled [] = []
  all_polled (j ∷ jobs) = polled_by j ++ all_polled jobs

  -- The targets to poll, each with its interval.
  abbrev pub to_poll : Dict ℕ (List T) → List (ℕ × T)
  to_poll [] = []
  to_poll ((interval, targets) ∷ polled) = map (λ t. (interval, t)) targets ++ to_poll polled

  all_polled-append :
      (xs ys : List (Job × Work T)) → all_polled (xs ++ ys) ≡ all_polled xs ++ all_polled ys
  all_polled-append [] ys = refl
  all_polled-append (x ∷ xs) ys =
      rw (all_polled-append xs ys)
        (sym (append_assoc (polled_by x) (all_polled xs) (all_polled ys)))

  chunk_jobs-polled :
      (now interval n i : ℕ) (cs : List (List T))
      → all_polled (chunk_jobs now interval n i cs) ≡ map (λ t. (interval, t)) (flat cs)
  unfolding chunk_jobs
  chunk_jobs-polled now interval n i [] = refl
  chunk_jobs-polled now interval n i (c ∷ cs) =
      rw (chunk_jobs-polled now interval n (i + 1) cs)
        (sym (map-append (λ t. (interval, t)) c (flat cs)))

  upkeep_jobs-polled : (now : ℕ) (p : Plan T) → all_polled (upkeep_jobs now p) ≡ []
  unfolding upkeep_jobs
  upkeep_jobs-polled now p = ground arith

  interval_jobs-polled :
      (now read_chunk : ℕ) (polled : Dict ℕ (List T)) {jobs : List (Job × Work T)}
      → 0 < read_chunk
      → interval_jobs now read_chunk polled ≡ ok jobs
      → all_polled jobs ≡ to_poll polled
  unfolding interval_jobs
  interval_jobs-polled now read_chunk [] pos h = sym (ap all_polled (ok-injective h))
  interval_jobs-polled now read_chunk ((interval, targets) ∷ polled) {jobs} pos h =
      let cs = chunks read_chunk targets in
      let (_, _, h1) = >>=-eq-ok (raise_if (eqb (length cs) 0) zero_division) _ h in
      let (rest, tail, made) = >>=-eq-ok (interval_jobs now read_chunk polled) _ h1 in
      let first = chunk_jobs now interval (length cs) 0 cs in
      let own : all_polled first ≡ map (λ t. (interval, t)) targets =
        rw (chunk_jobs-polled now interval (length cs) 0 cs, flat-chunks read_chunk targets pos)
          refl in
      subst (λ z. all_polled z ≡ map (λ t. (interval, t)) targets ++ to_poll polled)
        (ok-injective made)
        (rw (all_polled-append first rest, own, interval_jobs-polled now read_chunk polled pos tail)
          refl)

  -- With requests of at least one item, what is scheduled polls every target exactly as often as it was asked for, in the period of its
  -- interval, whatever the size of a request: the pairs of a period and a target are those given.
  pub schedule-polled :
      (now : ℕ) (p : Plan T) (polled : Dict ℕ (List T)) {jobs : List (Job × Work T)}
      → 0 < p.read_chunk
      → schedule now p polled ≡ ok jobs
      → all_polled jobs ≡ to_poll polled
  unfolding schedule
  schedule-polled now p polled {jobs} pos h =
      let (polls, found, made) = >>=-eq-ok (interval_jobs now p.read_chunk polled) _ h in
      let own = interval_jobs-polled now p.read_chunk polled pos found in
      subst (λ z. all_polled z ≡ to_poll polled) (ok-injective made)
        (rw (all_polled-append polls (upkeep_jobs now p), upkeep_jobs-polled now p, own)
          (append-nil (to_poll polled)))
