-- ===== src/Tests/Guards.antt =====
-- The guards of a process at work.
use zelos_extension_opcua.Diagnostics.{
  length_of, Decoded, array_length_error, decoded, deserialize, watch_rounds,
}
use zelos_extension_opcua.Diagnostics.Guarded.{Fits, Overruns, deserialize-IsGuarded}
use zelos_extension_opcua.Diagnostics.Marked.{doubled, IsBelow, peak_of, watch_rounds-IsMarked}
use zelos_extension_opcua.Prelude.{
  ℕ, ◌*◌, ◌≤◌, max, ◌≡◌, refl, ◌⊎◌, true, Option, none, some, List, [], ◌∷◌, arith, nat_eq, length,
  All, contains, Distinct, Text, codes, text_eq,
}

abbrev count_bytes : List ℕ → Decoded ℕ
count_bytes bytes = decoded (length bytes)

-- A length of five with two bytes left.
abbrev overrun : List ℕ
overrun = 5 ∷ 0 ∷ 0 ∷ 0 ∷ 1 ∷ 2 ∷ []

abbrev warned_of : List Text
warned_of = codes "plc" ∷ []

deserialize-IsGuarded_example :
    Distinct (deserialize count_bytes (codes "plc") overrun warned_of).1
    × (((deserialize count_bytes (codes "plc") overrun warned_of ≡ (count_bytes overrun, warned_of))
          × Fits overrun (length_of overrun))
        ⊎ (((deserialize count_bytes (codes "plc") overrun warned_of).0 ≡ array_length_error)
            × Overruns overrun (length_of overrun)
            × (contains (deserialize count_bytes (codes "plc") overrun warned_of).1 (codes "plc")
                ≡ true)))
unfolding contains
deserialize-IsGuarded_example =
    deserialize-IsGuarded count_bytes (codes "plc") overrun warned_of (refl, tt)

abbrev readings : List (Option ℕ)
readings = some 3 ∷ none ∷ some 9 ∷ some 10 ∷ []

watch_rounds-IsMarked_example :
    All (IsBelow (watch_rounds readings 4).1) readings
    × ((watch_rounds readings 4).1 ≤ max 4 (2 * peak_of readings))
    × (doubled (watch_rounds readings 4).0 4 ≤ (watch_rounds readings 4).1)
watch_rounds-IsMarked_example = watch_rounds-IsMarked readings 4 (omega arith)
