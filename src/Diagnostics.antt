-- ===== src/Diagnostics.antt =====
-- The guards of zelos_extension_opcua/diagnostics.py: `_check_array_length` with `_guarded`, and the
-- memory mark of `watch_loop`. A message is the bytes left of it; the memory readings are an
-- argument, none where they are unavailable.
pub mod Guarded
pub mod Marked
use zelos_extension_opcua.Prelude.Int.{ℤ, pos, negsuc, ltb_ℤ}
use zelos_extension_opcua.Prelude.{
  ℕ, zero, suc, ◌+◌, ◌-◌, ◌*◌, ◌^◌, Bool, true, false, Option, none, some, List, [], ◌∷◌, ◌++◌, ltb,
  leb, if◌then◌else◌, nat_eq, length, contains, Text, text_eq,
}

-- `Int32.unpack`: little-endian, two's complement
abbrev pub int32_of : ℕ → ℤ
int32_of u = if ltb u (2 ^ 31) then pos u else negsuc (2 ^ 32 - 1 - u)

abbrev pub length_of : List ℕ → Option ℤ
length_of (a ∷ b ∷ c ∷ d ∷ rest) = some (int32_of (a + 2 ^ 8 * b + 2 ^ 16 * c + 2 ^ 24 * d))
length_of _ = none

abbrev pub exceeds : List ℕ → Option ℤ → Bool
exceeds bytes none = false
exceeds bytes (some n) = ltb_ℤ (pos (length bytes - 4)) n

-- `_array_warned`, with whether the warning is given
unfoldable pub warn_once : Text → List Text → Bool × List Text
warn_once server warned =
    if contains warned server then (false, warned) else (true, warned ++ server ∷ [])

-- `_check_array_length`: whether it raises, what is warned of, and who has been warned of
unfoldable pub check_array_length : Text → List ℕ → List Text → Bool × Bool × List Text
check_array_length server bytes warned =
    if exceeds bytes (length_of bytes)
    then (true, (warn_once server warned).0, (warn_once server warned).1)
    else (false, false, warned)

pub data Decoded (V : Type 0) : Type 0 where
  array_length_error : Decoded V
  decoded : V → Decoded V

-- `deserialize` of `_guarded`, for bytes that is a Buffer, with what has been warned of
unfoldable pub deserialize :
    {V : Type 0} → (List ℕ → Decoded V) → Text → List ℕ → List Text → Decoded V × List Text
deserialize inner server bytes warned =
    let (raises, _, after) = check_array_length server bytes warned in
    (if raises then array_length_error else inner bytes, after)

-- RSS_HIGH_WATER
abbrev pub rss_high_water : ℕ
rss_high_water = 2 ^ 31

-- `while rss_mark <= rss: rss_mark *= 2`
unfoldable pub raise_mark : ℕ → ℕ → ℕ → ℕ
raise_mark zero rss mark = mark
raise_mark (suc fuel) rss mark =
    let more = raise_mark fuel rss (mark * 2) in if leb mark rss then more else mark

-- One round of `watch_loop`: whether it warns, and the mark after it
unfoldable pub watch_round : Option ℕ → ℕ → Bool × ℕ
watch_round none mark = (false, mark)
watch_round (some rss) mark =
    let higher = raise_mark (suc rss) rss mark in
    if leb mark rss then (true, higher) else (false, mark)

-- The warnings of some rounds, and the mark after them.
unfoldable pub watch_rounds : List (Option ℕ) → ℕ → ℕ × ℕ
watch_rounds [] mark = (0, mark)
watch_rounds (rss ∷ later) mark =
    let now = watch_round rss mark in
    let rest = watch_rounds later now.1 in (if now.0 then suc rest.0 else rest.0, rest.1)
