-- ===== src/Diagnostics/Marked.antt =====
-- The memory mark is above every reading, and the warnings double it.
use zelos_extension_opcua.Prelude.{
  ℕ, zero, suc, ◌+◌, ◌*◌, ◌≤◌, ◌<◌, max, ◌≡◌, inl, inr, Bool, true, false, Option, none, some, List,
  [], ◌∷◌, arith, leb, if◌then◌else◌, leb→le, Bool-cases, All,
}
use zelos_extension_opcua.Diagnostics.{raise_mark, watch_round, watch_rounds}

-- With a round per byte and one more the loop ends above the reading, at most at its double.
raise_mark-IsAbove :
    (fuel rss mark : ℕ)
    → 0 < mark
    → rss + 1 ≤ fuel + mark
    → (rss < raise_mark fuel rss mark) × (raise_mark fuel rss mark ≤ max mark (2 * rss))
unfolding raise_mark
raise_mark-IsAbove zero rss mark h f = (omega arith, omega arith)
raise_mark-IsAbove (suc fuel) rss mark h f = elim (Bool-cases (leb mark rss)) [
  | inl t ↦
      let le = leb→le mark rss t in
      let (above, bound) =
        raise_mark-IsAbove fuel rss (mark * 2) (omega arith) (omega (arith, le)) in
      rw t (above, omega (arith, le, bound))
  | inr t ↦ rw t (ground arith, omega arith)
]

raise_mark-le : (fuel rss mark : ℕ) → mark ≤ raise_mark fuel rss mark
unfolding raise_mark
raise_mark-le zero rss mark = omega arith
raise_mark-le (suc fuel) rss mark = ground (arith, raise_mark-le fuel rss (mark * 2))

-- A mark doubled some times.
abbrev pub doubled : ℕ → ℕ → ℕ
doubled zero mark = mark
doubled (suc n) mark = doubled n (mark * 2)

doubled-le : (n : ℕ) {a b : ℕ} → a ≤ b → doubled n a ≤ doubled n b
doubled-le zero h = h
doubled-le (suc n) h = doubled-le n (omega arith)

abbrev pub IsBelow : ℕ → Option ℕ → Type 0
IsBelow mark none = Unit
IsBelow mark (some rss) = rss < mark

IsBelow-le : {a b : ℕ} (r : Option ℕ) → a ≤ b → IsBelow a r → IsBelow b r
IsBelow-le none le h = tt
IsBelow-le (some rss) le h = omega arith

-- The greatest reading.
abbrev pub peak_of : List (Option ℕ) → ℕ
peak_of [] = 0
peak_of (none ∷ later) = peak_of later
peak_of (some rss ∷ later) = max rss (peak_of later)

-- One round: the mark is above the reading, it grows only to twice the reading, and a warning
-- doubles it at least.
abbrev IsRound : Option ℕ → ℕ → Bool × ℕ → Type 0
IsRound r mark (warned, now) =
    IsBelow now r
    × (now ≤ max mark (2 * peak_of (r ∷ [])))
    × ((if warned then mark * 2 else mark) ≤ now)

watch_round-IsRound : (r : Option ℕ) (mark : ℕ) → 0 < mark → IsRound r mark (watch_round r mark)
unfolding watch_round raise_mark
watch_round-IsRound none mark h = (tt, omega arith, omega arith)
watch_round-IsRound (some rss) mark h = elim (Bool-cases (leb mark rss)) [
  | inl t ↦
      let le = leb→le mark rss t in
      let (above, bound) =
        raise_mark-IsAbove rss rss (mark * 2) (omega arith) (omega (arith, le)) in
      let more = raise_mark-le rss rss (mark * 2) in rw t (above, omega (arith, le, bound), more)
  | inr t ↦ rw t (ground arith, omega arith, omega arith)
]

peak_of-cons :
    (r : Option ℕ) (later : List (Option ℕ))
    → peak_of (r ∷ later) ≡ max (peak_of (r ∷ [])) (peak_of later)
peak_of-cons none later = omega arith
peak_of-cons (some rss) later = omega arith

grows-doubled :
    (warned : Bool) (n mark now final : ℕ)
    → (if warned then mark * 2 else mark) ≤ now
    → doubled n now ≤ final
    → (mark ≤ now) × (doubled (if warned then suc n else n) mark ≤ final)
grows-doubled true n mark now final le h =
    let more = doubled-le n le in (omega arith, omega (arith, more))
grows-doubled false n mark now final le h =
    let more = doubled-le n le in (omega arith, omega (arith, more))

doubled-grows : (n mark : ℕ) → mark ≤ doubled n mark
doubled-grows zero mark = omega arith
doubled-grows (suc n) mark = omega (arith, doubled-grows n (mark * 2))

-- Over the rounds the mark ends above every reading, at most at twice the greatest, and every
-- warning has doubled it: there are few.
pub watch_rounds-IsMarked :
    (readings : List (Option ℕ)) (mark : ℕ)
    → 0 < mark
    → All (IsBelow (watch_rounds readings mark).1) readings
      × ((watch_rounds readings mark).1 ≤ max mark (2 * peak_of readings))
      × (doubled (watch_rounds readings mark).0 mark ≤ (watch_rounds readings mark).1)
unfolding watch_rounds
watch_rounds-IsMarked [] mark h = (tt, omega arith, omega arith)
watch_rounds-IsMarked (r ∷ later) mark h =
    let (warned, now) = watch_round r mark in
    let (below, bound, grows) = watch_round-IsRound r mark h in
    let n = (watch_rounds later now).0 in
    let final = (watch_rounds later now).1 in
    let up : mark ≤ now = (grows-doubled warned n mark now (doubled n now) grows (omega arith)).0 in
    let (all, top, twice) = watch_rounds-IsMarked later now (omega (arith, up)) in
    let stays : now ≤ final = omega (arith, twice, doubled-grows n now) in
    (
      (IsBelow-le r stays below, all),
      omega (arith, top, bound, peak_of-cons r later),
      (grows-doubled warned n mark now final grows twice).1,
    )
