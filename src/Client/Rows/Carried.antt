-- ===== src/Client/Rows/Carried.antt =====
-- No value is logged before its own time.

use zelos_extension_opcua.Client.Rows.{
  Sample, Row, Last, dict_or, put, forget_in, forget, collect, insert_row, sort_rows, carried,
  update, is_newer, keep_last, log_rows, log_samples,
}
use zelos_extension_opcua.Prelude.{
  ℕ, ◌≤◌, ◌≡◌, refl, inl, inr, ◌&&◌, Option, none, some, List, [], ◌∷◌, arith, leb, eqb, eqb_iff,
  Bool-cases, Option-cases, ◌==◌, nat_eq, All, Dict, contains, lookup, insert, erase, All-lookup,
  All-insert, Text, text_eq,
}

All-erase :
    {A : Type 0}
    → (Q : A → Type 0) (k : Text) (m : Dict Text A) → All (λ e. Q e.1) m
    → All (λ e. Q e.1) (erase k m)
unfolding erase
All-erase Q k [] h = tt
All-erase Q k ((j, v) ∷ m) h = elim (Bool-cases (j == k)) [
  | inl t ↦ rw t (All-erase Q k m h.1)
  | inr f ↦ rw f (h.0, All-erase Q k m h.1)
]

module _ {V : Type 0} (taken : V → ℕ) where
  -- A value kept has the time at which it was taken.
  abbrev pub IsStamped : Dict Text (ℕ × V) → Type 0
  IsStamped last = All (λ e. taken e.1.1 ≡ e.1.0) last

  abbrev pub IsStampedLast : Last V → Type 0
  IsStampedLast all = All (λ e. IsStamped e.1) all

  -- The values that a sample or a row of a batch brings are those of its time.
  abbrev pub IsSampled : Sample V → Type 0
  IsSampled s = (v : V) → s.value ≡ some v → taken v ≡ s.stamp

  abbrev IsOwn : Row V → Type 0
  IsOwn r = All (λ e. taken e.1 ≡ r.stamp) r.fields

  -- No value of a row is from after the row.
  abbrev pub IsPast : Row V → Type 0
  IsPast r = All (λ e. taken e.1 ≤ r.stamp) r.fields

  put-IsOwn :
      (event : Text) (stamp : ℕ) (field : Text) (v : V) (rows : List (Row V))
      → taken v ≡ stamp
      → All IsOwn rows
      → All IsOwn (put event stamp field v rows)
  unfolding put
  put-IsOwn event stamp field v [] e h = ((e, tt), tt)
  put-IsOwn event stamp field v (r ∷ rows) e h =
      elim (Bool-cases (r.event == event && eqb r.stamp stamp)) [
        | inl t ↦
            let same : taken v ≡ r.stamp = ground (arith, eqb_iff r.stamp stamp) in
            rw t (All-insert (λ k. taken k.1 ≡ r.stamp) field v r.fields h.0 same, h.1)
        | inr f ↦ rw f (h.0, put-IsOwn event stamp field v rows e h.1)
      ]

  dict_or-IsStamped :
      (o : Option (Dict Text (ℕ × V))) (event : Text) (all : Last V)
      → lookup event all ≡ o
      → IsStampedLast all
      → IsStamped (dict_or o)
  dict_or-IsStamped none event all e h = tt
  dict_or-IsStamped (some m) event all e h = All-lookup (λ e. IsStamped e.1) event all h e

  forget_in-IsStamped :
      (o : Option (Dict Text (ℕ × V))) (event field : Text) (all : Last V)
      → lookup event all ≡ o
      → IsStampedLast all
      → IsStampedLast (forget_in o event field all)
  forget_in-IsStamped none event field all e h = h
  forget_in-IsStamped (some m) event field all e h =
      All-insert (λ k. IsStamped k.1) event (erase field m) all h
        (All-erase (λ k. taken k.1 ≡ k.0) field m (All-lookup (λ e. IsStamped e.1) event all h e))

  collect-keeps :
      (samples : List (Sample V)) (rows : List (Row V)) (all : Last V)
      → All IsSampled samples
      → All IsOwn rows
      → IsStampedLast all
      → All IsOwn (collect samples (rows, all)).0 × IsStampedLast (collect samples (rows, all)).1
  unfolding collect forget
  collect-keeps [] rows all h own last = (own, last)
  collect-keeps (s ∷ samples) rows all h own last = elim (Option-cases s.value) [
    | inl e ↦ rw e (
        collect-keeps samples rows (forget s.event s.field all) h.1 own
          (forget_in-IsStamped (lookup s.event all) s.event s.field all refl last))
    | inr (v, e) ↦ rw e (
        collect-keeps samples (put s.event s.stamp s.field v rows) all h.1
          (put-IsOwn s.event s.stamp s.field v rows (h.0 v e) own) last)
  ]

  insert_row-IsOwn :
      (r : Row V) (rows : List (Row V)) → IsOwn r → All IsOwn rows → All IsOwn (insert_row r rows)
  unfolding insert_row
  insert_row-IsOwn r [] h hs = (h, tt)
  insert_row-IsOwn r (x ∷ rows) h hs = elim (Bool-cases (leb r.stamp x.stamp)) [
    | inl t ↦ rw t (h, hs)
    | inr f ↦ rw f (hs.0, insert_row-IsOwn r rows h hs.1)
  ]

  sort_rows-IsOwn : (rows : List (Row V)) → All IsOwn rows → All IsOwn (sort_rows rows)
  unfolding sort_rows
  sort_rows-IsOwn [] h = tt
  sort_rows-IsOwn (r ∷ rows) h = insert_row-IsOwn r (sort_rows rows) h.0 (sort_rows-IsOwn rows h.1)

  carried-past :
      (stamp : ℕ) (last : Dict Text (ℕ × V))
      → IsStamped last
      → All (λ e. taken e.1 ≤ stamp) (carried stamp last)
  unfolding carried
  carried-past stamp [] h = tt
  carried-past stamp ((name, (at, value)) ∷ last) h =
      let rest = carried-past stamp last h.1 in
      elim (Bool-cases (leb at stamp)) [
        | inl t ↦ let le : taken value ≤ stamp = ground (arith, h.0) in rw t (le, rest)
        | inr f ↦ rw f rest
      ]

  update-past :
      (stamp : ℕ) (fields row : Dict Text V)
      → All (λ e. taken e.1 ≡ stamp) fields
      → All (λ e. taken e.1 ≤ stamp) row
      → All (λ e. taken e.1 ≤ stamp) (update fields row)
  unfolding update
  update-past stamp [] row own h = h
  update-past stamp ((name, value) ∷ fields) row own h =
      let le : taken value ≤ stamp = ground (arith, own.0) in
      update-past stamp fields (insert name value row) own.1
        (All-insert (λ e. taken e.1 ≤ stamp) name value row h le)

  keep_last-IsStamped :
      (stamp : ℕ) (fields : Dict Text V) (last : Dict Text (ℕ × V))
      → All (λ e. taken e.1 ≡ stamp) fields
      → IsStamped last
      → IsStamped (keep_last stamp fields last)
  unfolding keep_last
  keep_last-IsStamped stamp [] last own h = h
  keep_last-IsStamped stamp ((name, value) ∷ fields) last own h =
      elim (Bool-cases (is_newer (lookup name last) stamp)) [
        | inl t ↦ rw t (
            keep_last-IsStamped stamp fields (insert name (stamp, value) last) own.1
              (All-insert (λ e. taken e.1.1 ≡ e.1.0) name (stamp, value) last h own.0))
        | inr f ↦ rw f (keep_last-IsStamped stamp fields last own.1 h)
      ]

  log_rows-IsPast :
      (events : List Text) (rows : List (Row V)) (all : Last V)
      → All IsOwn rows
      → IsStampedLast all
      → All IsPast (log_rows events rows all).0 × IsStampedLast (log_rows events rows all).1
  unfolding log_rows
  log_rows-IsPast events [] all own h = (tt, h)
  log_rows-IsPast events (r ∷ rows) all own h =
      let last = dict_or (lookup r.event all) in
      let held = dict_or-IsStamped (lookup r.event all) r.event all refl h in
      let past =
        update-past r.stamp r.fields (carried r.stamp last) own.0
          (carried-past r.stamp last held) in
      let next = insert r.event (keep_last r.stamp r.fields last) all in
      let kept =
        All-insert (λ e. IsStamped e.1) r.event (keep_last r.stamp r.fields last) all h
          (keep_last-IsStamped r.stamp r.fields last own.0 held) in
      elim (Bool-cases (contains events r.event)) [
        | inl t ↦
            let (logged, final) = log_rows-IsPast events rows next own.1 kept in
            rw t ((past, logged), final)
        | inr f ↦ rw f (log_rows-IsPast events rows all own.1 h)
      ]

  -- Where the last values have the times at which they were taken, and each sample that has a
  -- value has its time, no row that a batch logs has a value from after the row's own time, be it
  -- sampled or carried over, and the last values still have their times: so it holds for every
  -- later batch.
  pub log_samples-IsPast :
      (events : List Text) (samples : List (Sample V)) (all : Last V)
      → All IsSampled samples
      → IsStampedLast all
      → All IsPast (log_samples events samples all).0
        × IsStampedLast (log_samples events samples all).1
  unfolding log_samples
  log_samples-IsPast events samples all h last =
      let (rows, held) = collect samples ([], all) in
      let (own, kept) = collect-keeps samples [] all h tt last in
      log_rows-IsPast events (sort_rows rows) held (sort_rows-IsOwn rows own) kept
