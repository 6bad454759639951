-- ===== src/Tests/Reads.antt =====
-- Reading many items.
use zelos_extension_opcua.Discovery.Reading.Isolates.{IsReader, read_many-expected}
use zelos_extension_opcua.Discovery.Reading.{ReadReply, values, undecodable, read_many}
use zelos_extension_opcua.Prelude.{
  ℕ, ◌≡◌, Bool, List, [], ◌∷◌, map, arith, eqb, if◌then◌else◌, any_of, ok, Text,
}

-- Item 3 cannot be decoded; another item's value is the item.
abbrev is_three : ℕ → Bool
is_three i = eqb i 3

abbrev read_numbers : List ℕ → ReadReply ℕ Text
read_numbers items = if any_of is_three items then undecodable else values (map (λ i. i) items)

read_numbers-IsReader : IsReader read_numbers is_three (λ i. i)
read_numbers-IsReader = record {
  decoded = λ items h. ground arith;
  refused = λ items h. ground arith;
}

read_many-expected_example :
    read_many read_numbers 99 (1 ∷ 2 ∷ 3 ∷ 4 ∷ 5 ∷ []) 2 ≡ ok (1 ∷ 2 ∷ 99 ∷ 4 ∷ 5 ∷ [])
read_many-expected_example =
    read_many-expected read_numbers 99 is_three (λ i. i) read_numbers-IsReader
      (1 ∷ 2 ∷ 3 ∷ 4 ∷ 5 ∷ []) 2 (omega arith)
