-- ===== src/Tests/Numbers.antt =====
-- Values on the wire.
use zelos_extension_opcua.Tests.Ids.{ascii}
use zelos_extension_opcua.Client.Values.Exact.{InRange, decode_value-InRange, write-read_exact}
use zelos_extension_opcua.Client.Values.{
  whole, infinite, Floats, Value, int, float, is_integer, int_range, within, coerce_text,
  decode_value, encode_value,
}
use zelos_extension_opcua.NodeMap.Node.{uint8, int8}
use zelos_extension_opcua.Prelude.Int.{ℤ, pos, negsuc}
use zelos_extension_opcua.Prelude.{
  ◌≡◌, refl, Bool, false, Option, none, some, [], eqb, if◌then◌else◌, ◌==◌, nat_eq, ok, ◌>>=◌,
  codes, text_eq,
}
use zelos_extension_opcua.NodeMap.Ids.{parse_int}

abbrev pub is_the_one : Option ℤ → Bool
is_the_one none = false
is_the_one (some (pos n)) = eqb n 1
is_the_one (some (negsuc n)) = false

abbrev five : Value (Option ℤ)
five = int (pos 5)

-- Whole numbers in place of floats, with `inf` for an infinity.
abbrev pub whole_only : Floats
whole_only = record {
  F = Option ℤ;
  one = some (pos 1);
  of_int = λ n. some n;
  multiply = λ x y. x;
  divide = λ x y. x;
  is_zero = λ x. false;
  is_one = is_the_one;
  trunc = λ x. elim x [ none ↦ infinite | some n ↦ whole n ];
  parse_float = λ s. if s == codes "inf" then some none else none;
  show_float = λ x. [];
  show_int = λ n. [];
  lower = λ s. s;
}

decode_value-InRange_example : (n : ℤ) × (five ≡ int n) × InRange uint8 n
unfolding is_integer decode_value within int_range
decode_value-InRange_example =
    decode_value-InRange ascii whole_only (float (some (pos 5))) uint8 (some (pos 1))
      {r = int (pos 5)} refl refl

write-read_exact_example :
    (do
      v ← coerce_text ascii whole_only (codes " -70 ") int8
      w ← encode_value ascii whole_only v int8 (some (pos 1))
      decode_value ascii whole_only w int8 (some (pos 1)))
    ≡ ok (int (negsuc 69))
unfolding is_integer parse_int within int_range
write-read_exact_example =
    write-read_exact ascii whole_only (codes " -70 ") int8 (some (pos 1)) (negsuc 69) refl refl refl
      refl
