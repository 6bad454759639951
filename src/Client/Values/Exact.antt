-- ===== src/Client/Values/Exact.antt =====
-- Integers stay exact between a write action's text, the wire and the trace, and stay in range.
use zelos_extension_opcua.Prelude.{
  ◌≡◌, refl, sym, inl, inr, true, some, arith, Bool-cases, Result, ok, ◌>>=◌, >>=-eq-ok,
  ok-injective, Text,
}
use zelos_extension_opcua.Prelude.Int.{ℤ, ◌≤ℤ◌}
use zelos_extension_opcua.Client.Values.{
  Floats, Value, int, ValueFault, is_integer, int_range, within, coerce_text, decoded_int, ranged,
  decode_value, encode_value,
}
use zelos_extension_opcua.NodeMap.Node.{Datatype, bool, float32, float64, string}
use zelos_extension_opcua.NodeMap.Ids.{Codecs, strip, parse_int}

within-le : (low high n : ℤ) → within (low, high) n ≡ true → (low ≤ℤ n) × (n ≤ℤ high)
unfolding within
within-le low high n h = (ground arith, ground arith)

-- `n` is in the datatype's range.
abbrev pub InRange : Datatype → ℤ → Type 0
InRange d n = ((int_range d).0 ≤ℤ n) × (n ≤ℤ (int_range d).1)

module _ (u : Codecs) (fl : Floats) where
  open fl use {F, is_one, multiply, trunc, parse_float, lower}

  ranged-ok :
      (d : Datatype) (n : ℤ) {r : Value F} → ranged u fl d n ≡ ok r → (r ≡ int n) × InRange d n
  ranged-ok d n h = elim (Bool-cases (within (int_range d) n)) [
    | inl t ↦ (ok-injective (sym (rw t at h)), within-le (int_range d).0 (int_range d).1 n t)
    | inr f ↦ cc (rw f at h)
  ]

  decoded-ok :
      (d : Datatype) (m : Result ValueFault ℤ) {r : Value F}
      → (m >>= ranged u fl d) ≡ ok r
      → (n : ℤ) × (r ≡ int n) × InRange d n
  decoded-ok d m h =
      let (n, _, made) = >>=-eq-ok m (ranged u fl d) h in
      let (same, fits) = ranged-ok d n made in (n, same, fits)

  decode_value-integer :
      (v : Value F) (d : Datatype) (scale : F)
      → is_integer d ≡ true
      → decode_value u fl v d scale ≡ (decoded_int u fl v scale >>= ranged u fl d)
  unfolding decode_value is_integer
  decode_value-integer v bool scale i = cc
  decode_value-integer v string scale i = cc
  decode_value-integer v float32 scale i = cc
  decode_value-integer v float64 scale i = cc
  decode_value-integer v d scale i = refl

  -- Whatever the value and the scale, what an integer node decodes to is an integer that its
  -- datatype holds.
  pub decode_value-InRange :
      (v : Value F) (d : Datatype) (scale : F) {r : Value F}
      → is_integer d ≡ true
      → decode_value u fl v d scale ≡ ok r
      → (n : ℤ) × (r ≡ int n) × InRange d n
  decode_value-InRange v d scale {r} i h =
      decoded-ok d (decoded_int u fl v scale) {r = r} (rw (decode_value-integer v d scale i) at h)

  decode-int :
      (n : ℤ) (d : Datatype) (scale : F)
      → is_integer d ≡ true
      → is_one scale ≡ true
      → within (int_range d) n ≡ true
      → decode_value u fl (int n) d scale ≡ ok (int n)
  unfolding decoded_int
  decode-int n d scale i exact fits = rw (decode_value-integer (int n) d scale i, exact, fits) refl

  encode-int :
      (n : ℤ) (d : Datatype) (scale : F)
      → is_integer d ≡ true
      → is_one scale ≡ true
      → encode_value u fl (int n) d scale ≡ ok (int n)
  unfolding encode_value is_integer
  encode-int n bool scale i exact = cc
  encode-int n string scale i exact = cc
  encode-int n float32 scale i exact = cc
  encode-int n float64 scale i exact = cc
  encode-int n d scale i exact = ground arith

  coerce-int :
      (s : Text) (d : Datatype) (n : ℤ)
      → is_integer d ≡ true
      → parse_int u (lower (strip s)) ≡ some n
      → coerce_text u fl s d ≡ ok (int n)
  unfolding coerce_text is_integer
  coerce-int s bool n i parsed = cc
  coerce-int s string n i parsed = cc
  coerce-int s float32 n i parsed = cc
  coerce-int s float64 n i parsed = cc
  coerce-int s d n i parsed = rw (parsed, coerce_text) refl

  -- The text of an integer, written to an unscaled integer node that holds it and read back, is that
  -- integer: no step goes through a float.
  pub write-read_exact :
      (s : Text) (d : Datatype) (scale : F) (n : ℤ)
      → is_integer d ≡ true
      → is_one scale ≡ true
      → parse_int u (lower (strip s)) ≡ some n
      → within (int_range d) n ≡ true
      → (do v ← coerce_text u fl s d; w ← encode_value u fl v d scale; decode_value u fl w d scale)
        ≡ ok (int n)
  write-read_exact s d scale n i exact parsed fits =
      rw
        (coerce-int s d n i parsed, encode-int n d scale i exact, decode-int n d scale i exact fits)
        refl
