-- ===== src/Client/Loop/Jobs.antt =====
-- The choice of the next job.
use mathlib.Core.Path.{subst}
use zelos_extension_opcua.Client.Loop.{Job, take_earliest}
use zelos_extension_opcua.Prelude.{
  ℕ, ◌≤◌, ◌<◌, ◌≡◌, refl, sym, ap, Bool, true, false, List, [], ◌∷◌, ◌++◌, arith, leb,
  if◌then◌else◌, leb→le, All, All-append, All-weaken,
}

-- The jobs are those before the chosen one, all due later, it, and those behind it, none due
-- earlier; the ones left are the others, in their order.
abbrev pub IsChosen : List Job → Job × List Job → Type 0
IsChosen jobs r =
    (before : List Job) × (behind : List Job) × (jobs ≡ before ++ r.0 ∷ behind)
    × (r.1 ≡ before ++ behind)
    × All (λ k. r.0.due < k.due) before
    × All (λ k. r.0.due ≤ k.due) behind

none_earlier :
    (due : ℕ) (jobs : List Job) (r : Job × List Job)
    → IsChosen jobs r
    → due ≤ r.0.due
    → All (λ k. due ≤ k.due) jobs
none_earlier due jobs r (before, behind, e, _, earlier, later) h =
    subst (All (λ k. due ≤ k.due)) (sym e) (
      All-append (λ k. due ≤ k.due) before (r.0 ∷ behind)
        (All-weaken _ (λ k. due ≤ k.due) before (λ k l. omega arith) earlier)
        (h, All-weaken _ (λ k. due ≤ k.due) behind (λ k l. omega arith) later))

-- The job that a turn runs is the first of those that are due earliest: every job listed before
-- it is due later, and none behind it is due earlier. No job is dropped.
pub take_earliest-IsChosen :
    (j : Job) (jobs : List Job) → IsChosen (j ∷ jobs) (take_earliest j jobs)
unfolding take_earliest
take_earliest-IsChosen j [] = ([], [], refl, refl, tt, tt)
take_earliest-IsChosen j (k ∷ jobs) =
    pick (leb j.due (take_earliest k jobs).0.due) refl (take_earliest-IsChosen k jobs)
  where
    pick :
        (b : Bool)
        → leb j.due (take_earliest k jobs).0.due ≡ b
        → IsChosen (k ∷ jobs) (take_earliest k jobs)
        → IsChosen
            (j ∷ k ∷ jobs)
            (if b then (j, k ∷ jobs) else ((take_earliest k jobs).0, j ∷ (take_earliest k jobs).1))
    pick true t h = (
      [],
      k ∷ jobs,
      refl,
      refl,
      tt,
      none_earlier j.due (k ∷ jobs) (take_earliest k jobs) h (leb→le j.due _ t),
    )
    pick false f (before, behind, e, e', earlier, later) = (
      j ∷ before,
      behind,
      ap (λ xs. j ∷ xs) e,
      ap (λ xs. j ∷ xs) e',
      (ground arith, earlier),
      later,
    )
