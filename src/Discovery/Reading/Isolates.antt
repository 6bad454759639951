-- ===== src/Discovery/Reading/Isolates.antt =====
-- One value that cannot be decoded costs no other value.

use mathlib.Core.List.{map-append}
use zelos_extension_opcua.Discovery.Reading.{
  ReadReply, values, undecodable, read_singly, batch_result, read_batches, read_many,
}
use zelos_extension_opcua.Prelude.{
  ℕ, ◌<◌, ◌≡◌, refl, inl, inr, Bool, true, false, List, [], ◌∷◌, map, arith, if◌then◌else◌,
  Bool-cases, chunks, flat, flat-chunks, any_of, ok,
}

module _ {I V E : Type 0} (read : List I → ReadReply V E) (spoilt : I → Bool) (answer : I → V) where
  -- A response has one answer per item, in the order of the request, and it is decodable where all
  -- its values are: the service's and the client library's behaviour.
  pub record IsReader : Type 0 where
    pub decoded :
        (items : List I) → any_of spoilt items ≡ false → read items ≡ values (map answer items)
    pub refused : (items : List I) → any_of spoilt items ≡ true → read items ≡ undecodable

module _ {I V E : Type 0} (read : List I → ReadReply V E) (bad_decoding : V) (spoilt : I → Bool)
    (answer : I → V) (reader : IsReader read spoilt answer) where
  abbrev pub expected : I → V
  expected i = if spoilt i then bad_decoding else answer i

  read_singly-expected :
      (items : List I) → read_singly read bad_decoding items ≡ ok (map expected items)
  unfolding read_singly
  read_singly-expected [] = refl
  read_singly-expected (i ∷ items) = elim (Bool-cases (spoilt i)) [
    | inl t ↦
        let one : read (i ∷ []) ≡ undecodable = reader.refused (i ∷ []) (ground arith) in
        rw (one, read_singly-expected items, t) refl
    | inr f ↦
        let one : read (i ∷ []) ≡ values (answer i ∷ []) = reader.decoded (i ∷ []) (ground arith) in
        rw (one, read_singly-expected items, f) refl
  ]

  all_sound : (items : List I) → any_of spoilt items ≡ false → map expected items ≡ map answer items
  all_sound [] h = refl
  all_sound (i ∷ items) h =
      let f : spoilt i ≡ false = ground arith in
      let rest : any_of spoilt items ≡ false = ground arith in rw (f, all_sound items rest) refl

  batch_result-expected :
      (batch : List I) → batch_result read bad_decoding (read batch) batch ≡ ok (map expected batch)
  batch_result-expected batch = elim (Bool-cases (any_of spoilt batch)) [
    | inl t ↦ rw (reader.refused batch t) (read_singly-expected batch)
    | inr f ↦ rw (reader.decoded batch f, all_sound batch f) refl
  ]

  read_batches-expected :
      (batches : List (List I))
      → read_batches read bad_decoding batches ≡ ok (map expected (flat batches))
  unfolding read_batches
  read_batches-expected [] = refl
  read_batches-expected (batch ∷ rest) =
      rw
        (
          batch_result-expected batch,
          read_batches-expected rest,
          map-append expected batch (flat rest),
        )
        refl

  -- Whatever the size of a request, reading many items gives one answer per item in their order: the
  -- value of each item that can be decoded, and a decoding error for exactly those that cannot.
  pub read_many-expected :
      (items : List I) (chunk : ℕ)
      → 0 < chunk
      → read_many read bad_decoding items chunk ≡ ok (map expected items)
  unfolding read_many
  read_many-expected items chunk pos =
      rw (read_batches-expected (chunks chunk items), flat-chunks chunk items pos) refl
