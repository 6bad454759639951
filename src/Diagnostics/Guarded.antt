-- ===== src/Diagnostics/Guarded.antt =====
-- An array that is decoded fits in its message.
use zelos_extension_opcua.Prelude.{
  ℕ, ◌+◌, ◌-◌, ◌≡◌, refl, ◌⊎◌, inl, inr, true, false, Option, none, some, List, arith, Bool-cases,
  nat_eq, length, contains, contains-last, Distinct, Distinct-snoc, Text, text_eq,
}
use zelos_extension_opcua.Prelude.Int.{ℤ, pos, ◌≤ℤ◌}
use zelos_extension_opcua.Diagnostics.{
  length_of, exceeds, warn_once, check_array_length, Decoded, array_length_error, deserialize,
}

-- The length before an array is at most the bytes left after it, or there is none.
abbrev pub Fits : List ℕ → Option ℤ → Type 0
Fits bytes none = Unit
Fits bytes (some n) = n ≤ℤ pos (length bytes - 4)

-- The length is more than the bytes left.
abbrev pub Overruns : List ℕ → Option ℤ → Type 0
Overruns bytes none = ⊥
Overruns bytes (some n) = pos (length bytes - 4 + 1) ≤ℤ n

exceeds-Fits : (bytes : List ℕ) (n : Option ℤ) → exceeds bytes n ≡ false → Fits bytes n
exceeds-Fits bytes none h = tt
exceeds-Fits bytes (some n) h = ground arith

exceeds-Overruns : (bytes : List ℕ) (n : Option ℤ) → exceeds bytes n ≡ true → Overruns bytes n
exceeds-Overruns bytes none h = cc
exceeds-Overruns bytes (some n) h = ground arith

warn_once-Distinct :
    (server : Text) (warned : List Text)
    → Distinct warned
    → Distinct (warn_once server warned).1 × (contains (warn_once server warned).1 server ≡ true)
unfolding warn_once
warn_once-Distinct server warned d = elim (Bool-cases (contains warned server)) [
  | inl t ↦ rw t (d, t)
  | inr t ↦ rw t (Distinct-snoc warned server d t, contains-last warned server)
]

-- The inner deserializer runs only on an array that fits; the others are an error, and the server
-- is among those warned of, of which none stands twice.
pub deserialize-IsGuarded :
    {V : Type 0} (inner : List ℕ → Decoded V) (server : Text) (bytes : List ℕ) (warned : List Text)
    → Distinct warned
    → Distinct (deserialize inner server bytes warned).1
      × (((deserialize inner server bytes warned ≡ (inner bytes, warned))
            × Fits bytes (length_of bytes))
          ⊎ (((deserialize inner server bytes warned).0 ≡ array_length_error)
              × Overruns bytes (length_of bytes)
              × (contains (deserialize inner server bytes warned).1 server ≡ true)))
unfolding deserialize check_array_length
deserialize-IsGuarded inner server bytes warned d =
    elim (Bool-cases (exceeds bytes (length_of bytes))) [
      | inl t ↦
          let (distinct, known) = warn_once-Distinct server warned d in
          rw t (distinct, inr (refl, exceeds-Overruns bytes (length_of bytes) t, known))
      | inr t ↦ rw t (d, inl (refl, exceeds-Fits bytes (length_of bytes) t))
    ]
