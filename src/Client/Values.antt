-- ===== src/Client/Values.antt =====
-- `coerce_text`, `render_text`, `decode_value` and `encode_value` of zelos_extension_opcua/client.py.
-- Floats are the fields of `Floats`; a value that is no number and no text carries what Python and
-- asyncua make of it: its truth and its text.
pub mod Exact
use zelos_extension_opcua.Prelude.{
  ℕ, zero, ◌+◌, ◌-◌, ◌/◌, ◌%◌, ◌^◌, Bool, true, false, not, ◌&&◌, ◌||◌, Option, none, some, List,
  [], ◌∷◌, ltb, if◌then◌else◌, nat_eq, Result, ok, raise, ◌>>=◌, ◌>>◌, or_raise, contains, Text,
  codes, text_eq, is_empty,
}
use zelos_extension_opcua.Prelude.Int.{ℤ, pos, negsuc, ltb_ℤ}
use zelos_extension_opcua.NodeMap.Ids.{Codecs, strip, parse_int}
use zelos_extension_opcua.NodeMap.Node.{
  Datatype, bool, uint8, int8, uint16, int16, uint32, int32, float32, uint64, int64, float64,
  string,
}

-- What `int(x)` makes of a float.
pub data Truncated : Type 0 where
  whole : ℤ → Truncated
  -- OverflowError
  infinite : Truncated
  -- ValueError
  not_a_number : Truncated

pub record Floats : Type 1 where
  pub F : Type 0
  pub one : F
  pub of_int : ℤ → F
  pub multiply : F → F → F
  pub divide : F → F → F
  pub is_zero : F → Bool
  pub is_one : F → Bool
  pub trunc : F → Truncated
  -- `float(s)`
  pub parse_float : Text → Option F
  -- `str(x)`
  pub show_float : F → Text
  pub show_int : ℤ → Text
  -- `s.lower()`
  pub lower : Text → Text

pub data Value (F : Type 0) : Type 0 where
  truth : Bool → Value F
  int : ℤ → Value F
  float : F → Value F
  text : Text → Value F
  -- a LocalizedText
  localized : Option Text → Value F
  bytes : List ℕ → Value F
  -- any other object: its truth, and its text (`to_string`, `isoformat` in UTC, `name` or `str`)
  object : Bool → Text → Value F

pub data ValueFault : Type 0 where
  value_error type_error overflow_error : ValueFault

abbrev pub hex_digit : ℕ → ℕ
hex_digit n = if ltb n 10 then b'0' + n else b'a' + n - 10

-- `bytes.hex()`
unfoldable pub hex : List ℕ → Text
hex [] = []
hex (b ∷ bs) = hex_digit (b / 16) ∷ hex_digit (b % 16) ∷ hex bs

-- `datatype in INT_DATATYPES`
unfoldable pub is_integer : Datatype → Bool
is_integer uint8 = true
is_integer int8 = true
is_integer uint16 = true
is_integer int16 = true
is_integer uint32 = true
is_integer int32 = true
is_integer uint64 = true
is_integer int64 = true
is_integer _ = false

-- INT_RANGES: the bits of an integer datatype, and whether it is signed
abbrev pub signed_range : ℕ → ℤ × ℤ
signed_range n = (negsuc (2 ^ (n - 1) - 1), pos (2 ^ (n - 1) - 1))

abbrev pub unsigned_range : ℕ → ℤ × ℤ
unsigned_range n = (pos 0, pos (2 ^ n - 1))

unfoldable pub int_range : Datatype → ℤ × ℤ
int_range uint8 = unsigned_range 8
int_range int8 = signed_range 8
int_range uint16 = unsigned_range 16
int_range int16 = signed_range 16
int_range uint32 = unsigned_range 32
int_range int32 = signed_range 32
int_range uint64 = unsigned_range 64
int_range int64 = signed_range 64
int_range _ = (pos 0, pos 0)

-- `low <= n <= high`
unfoldable pub within : ℤ × ℤ → ℤ → Bool
within (low, high) n = not (ltb_ℤ n low) && not (ltb_ℤ high n)

abbrev pub bool_int : Bool → ℤ
bool_int true = pos 1
bool_int false = pos 0

abbrev pub int_of : Truncated → Result ValueFault ℤ
int_of (whole n) = ok n
int_of infinite = raise overflow_error
int_of not_a_number = raise value_error

abbrev pub bool_true : List Text
bool_true = codes "true" ∷ codes "1" ∷ codes "on" ∷ codes "yes" ∷ []

abbrev pub bool_false : List Text
bool_false = codes "false" ∷ codes "0" ∷ codes "off" ∷ codes "no" ∷ []

module _ (u : Codecs) (fl : Floats) where
  open fl use {
    F, one, of_int, multiply, divide, is_zero, is_one, trunc, parse_float, show_float, show_int,
    lower,
  }

  -- Text that is no integer literal: a float, truncated for an integer datatype.
  unfoldable pub coerce_float : Datatype → Text → Result ValueFault (Value F)
  unfolding is_integer
  coerce_float d value = do
    number ← or_raise (parse_float value) value_error
    if is_integer d then (do n ← int_of (trunc number); ok (int n)) else ok (float number)

  -- `coerce_text`
  unfoldable pub coerce_text : Text → Datatype → Result ValueFault (Value F)
  unfolding coerce_float
  coerce_text s string = ok (text s)
  coerce_text s bool =
      let value = lower (strip s) in
      if contains bool_true value
      then ok (truth true)
      else if contains bool_false value
      then ok (truth false)
      else raise value_error
  coerce_text s float32 = do x ← or_raise (parse_float (lower (strip s))) value_error; ok (float x)
  coerce_text s float64 = do x ← or_raise (parse_float (lower (strip s))) value_error; ok (float x)
  coerce_text s d = elim (parse_int u (lower (strip s))) [
    | some n ↦ ok (int n)
    | none ↦ coerce_float d (lower (strip s))
  ]

  -- `render_text`
  unfoldable pub render_text : Value F → Text
  unfolding hex
  render_text (truth b) = if b then codes "true" else codes "false"
  render_text (int n) = show_int n
  render_text (float x) = show_float x
  render_text (text s) = s
  render_text (localized none) = []
  render_text (localized (some s)) = s
  render_text (bytes bs) = hex bs
  render_text (object b s) = s

  -- `bool(value)`
  unfoldable pub truth_of : Value F → Bool
  truth_of (truth b) = b
  truth_of (int (pos zero)) = false
  truth_of (int _) = true
  truth_of (float x) = not (is_zero x)
  truth_of (text s) = not (is_empty s)
  truth_of (localized s) = true
  truth_of (bytes []) = false
  truth_of (bytes (b ∷ bs)) = true
  truth_of (object b s) = b

  -- `float(value)`
  unfoldable pub float_of : Value F → Result ValueFault F
  float_of (truth b) = ok (of_int (bool_int b))
  float_of (int n) = ok (of_int n)
  float_of (float x) = ok x
  float_of (text s) = or_raise (parse_float s) value_error
  float_of _ = raise type_error

  -- `value * scale` and `value / scale`, for a number; anything else is a TypeError
  unfoldable pub scaled : (F → F → F) → Value F → F → Result ValueFault F
  scaled f (truth b) scale = ok (f (of_int (bool_int b)) scale)
  scaled f (int n) scale = ok (f (of_int n) scale)
  scaled f (float x) scale = ok (f x scale)
  scaled f _ scale = raise type_error

  -- `int(value if exact else value * scale)`, where exact needs an int: a bool is one
  unfoldable pub decoded_int : Value F → F → Result ValueFault ℤ
  unfolding scaled
  decoded_int (truth b) scale =
      if is_one scale
      then ok (bool_int b)
      else (do x ← scaled multiply (truth b) scale; int_of (trunc x))
  decoded_int (int n) scale =
      if is_one scale then ok n else (do x ← scaled multiply (int n) scale; int_of (trunc x))
  decoded_int v scale = do x ← scaled multiply v scale; int_of (trunc x)

  abbrev pub ranged : Datatype → ℤ → Result ValueFault (Value F)
  ranged d n = if within (int_range d) n then ok (int n) else raise value_error

  -- `decode_value` of a value that is not None; every datatype is one of those above
  unfoldable pub decode_value : Value F → Datatype → F → Result ValueFault (Value F)
  unfolding truth_of render_text float_of decoded_int
  decode_value v bool scale = ok (truth (truth_of v))
  decode_value v string scale = ok (text (render_text v))
  decode_value v float32 scale = do x ← float_of v; ok (float (multiply x scale))
  decode_value v float64 scale = do x ← float_of v; ok (float (multiply x scale))
  decode_value v d scale = do n ← decoded_int v scale; ranged d n

  abbrev pub unscaled_float : F → F → F
  unscaled_float x scale = if is_zero scale then x else divide x scale

  -- `str(value)`
  unfoldable pub str_of : Value F → Text
  unfolding render_text
  str_of (truth b) = if b then codes "True" else codes "False"
  str_of v = render_text v

  -- `int(value)`
  unfoldable pub int_value : Value F → Result ValueFault ℤ
  int_value (truth b) = ok (bool_int b)
  int_value (int n) = ok n
  int_value (float x) = int_of (trunc x)
  int_value (text s) = or_raise (parse_int u s) value_error
  int_value _ = raise type_error

  unfoldable pub encoded_int : Value F → F → Result ValueFault ℤ
  unfolding int_value scaled
  encoded_int v scale =
      if is_zero scale || is_one scale
      then int_value v
      else (do x ← scaled divide v scale; int_of (trunc x))

  -- `encode_value`
  unfoldable pub encode_value : Value F → Datatype → F → Result ValueFault (Value F)
  unfolding truth_of str_of float_of encoded_int
  encode_value v bool scale = ok (truth (truth_of v))
  encode_value v string scale = ok (text (str_of v))
  encode_value v float32 scale = do x ← float_of v; ok (float (unscaled_float x scale))
  encode_value v float64 scale = do x ← float_of v; ok (float (unscaled_float x scale))
  encode_value v d scale = do n ← encoded_int v scale; ok (int n)
