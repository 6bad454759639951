-- ===== src/Client/Rows.antt =====
-- The rows of the trace: `_log_samples` of zelos_extension_opcua/client.py. A sample comes with the
-- value that `_decode` gives for it (`Client.Values`), none if Bad, empty or undecodable, and with
-- its `sample_time_ns`. `last` is `_last`, and `events` the names of `_events`.
pub mod Carried
use zelos_extension_opcua.Prelude.{
  ℕ, Bool, true, ◌&&◌, Option, none, some, List, [], ◌∷◌, leb, eqb, if◌then◌else◌, ◌==◌, nat_eq,
  Dict, contains, lookup, insert, erase, Text, text_eq,
}

pub record Sample (V : Type 0) : Type 0 where
  pub event : Text
  pub field : Text
  pub value : Option V
  pub stamp : ℕ

-- A row of the trace: the event, the time and the fields.
pub record Row (V : Type 0) : Type 0 where
  pub event : Text
  pub stamp : ℕ
  pub fields : Dict Text V

-- The last values, each with its time.
abbrev pub Last : Type 0 → Type 0
Last V = Dict Text (Dict Text (ℕ × V))

abbrev pub dict_or : {A : Type 0} → Option (Dict Text A) → Dict Text A
dict_or none = []
dict_or (some m) = m

module _ {V : Type 0} where
  -- `rows.setdefault((event, stamp), {})[field] = value`
  unfoldable pub put : Text → ℕ → Text → V → List (Row V) → List (Row V)
  put event stamp field value [] =
      record { event = event; stamp = stamp; fields = (field, value) ∷ [] } ∷ []
  put event stamp field value (r ∷ rows) =
      if r.event == event && eqb r.stamp stamp
      then record r { fields = insert field value r.fields } ∷ rows
      else r ∷ put event stamp field value rows

  -- `last.get(event, {}).pop(field, None)`
  abbrev pub forget_in : Option (Dict Text (ℕ × V)) → Text → Text → Last V → Last V
  forget_in none event field last = last
  forget_in (some m) event field last = insert event (erase field m) last

  unfoldable pub forget : Text → Text → Last V → Last V
  forget event field last = forget_in (lookup event last) event field last

  -- The first loop: the rows of the batch.
  abbrev pub collect_one : Option V → Sample V → List (Row V) × Last V → List (Row V) × Last V
  collect_one none s (rows, last) = (rows, forget s.event s.field last)
  collect_one (some v) s (rows, last) = (put s.event s.stamp s.field v rows, last)

  unfoldable pub collect : List (Sample V) → List (Row V) × Last V → List (Row V) × Last V
  collect [] acc = acc
  collect (s ∷ samples) acc = collect samples (collect_one s.value s acc)

  -- `sorted(rows, key=stamp)`, which is stable.
  unfoldable pub insert_row : Row V → List (Row V) → List (Row V)
  insert_row r [] = r ∷ []
  insert_row r (x ∷ rows) = if leb r.stamp x.stamp then r ∷ x ∷ rows else x ∷ insert_row r rows

  unfoldable pub sort_rows : List (Row V) → List (Row V)
  sort_rows [] = []
  sort_rows (r ∷ rows) = insert_row r (sort_rows rows)

  -- `{name: value for name, (at, value) in last.items() if at <= stamp}`
  unfoldable pub carried : ℕ → Dict Text (ℕ × V) → Dict Text V
  carried stamp [] = []
  carried stamp ((name, (at, value)) ∷ last) =
      let rest = carried stamp last in if leb at stamp then (name, value) ∷ rest else rest

  -- `row.update(fields)`
  unfoldable pub update : Dict Text V → Dict Text V → Dict Text V
  update [] row = row
  update ((name, value) ∷ fields) row = update fields (insert name value row)

  abbrev pub is_newer : Option (ℕ × V) → ℕ → Bool
  is_newer none stamp = true
  is_newer (some held) stamp = leb held.0 stamp

  -- The last loop over the fields of a row.
  unfoldable pub keep_last : ℕ → Dict Text V → Dict Text (ℕ × V) → Dict Text (ℕ × V)
  keep_last stamp [] last = last
  keep_last stamp ((name, value) ∷ fields) last =
      keep_last stamp fields
        (if is_newer (lookup name last) stamp then insert name (stamp, value) last else last)

  -- The second loop: the rows logged, in order.
  unfoldable pub log_rows : List Text → List (Row V) → Last V → List (Row V) × Last V
  log_rows events [] all = ([], all)
  log_rows events (r ∷ rows) all =
      let last = dict_or (lookup r.event all) in
      let known = contains events r.event in
      let after = if known then insert r.event (keep_last r.stamp r.fields last) all else all in
      let (logged, final) = log_rows events rows after in
      (
        if known
            then record r { fields = update r.fields (carried r.stamp last) } ∷ logged
            else logged,
        final,
      )

  -- `_log_samples`
  unfoldable pub log_samples : List Text → List (Sample V) → Last V → List (Row V) × Last V
  log_samples events samples all =
      let (rows, last) = collect samples ([], all) in log_rows events (sort_rows rows) last
