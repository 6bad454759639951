-- ===== src/Discovery/Reading.antt =====
-- `read_many` of zelos_extension_opcua/discovery.py. `read` is `_read`: one Read request of the
-- client library, whose reply is the values, an error of decoding the response
-- (`_DECODE_ERRORS`), or any other error. Two equal requests of one call have equal replies.
pub mod Isolates
use zelos_extension_opcua.Prelude.{ℕ, List, [], ◌∷◌, ◌++◌, chunks, Result, ok, raise, ◌>>=◌, ◌>>◌}

pub data ReadReply (V E : Type 0) : Type 0 where
  values : List V → ReadReply V E
  undecodable : ReadReply V E
  failed : E → ReadReply V E

module _ {I V E : Type 0} (read : List I → ReadReply V E) (bad_decoding : V) where
  -- The inner loop: item by item.
  abbrev pub one_result : ReadReply V E → Result E (List V)
  one_result (values vs) = ok vs
  one_result undecodable = ok (bad_decoding ∷ [])
  one_result (failed e) = raise e

  unfoldable pub read_singly : List I → Result E (List V)
  read_singly [] = ok []
  read_singly (i ∷ items) = do
    vs ← one_result (read (i ∷ []))
    rest ← read_singly items
    ok (vs ++ rest)

  -- One pass of the outer loop.
  abbrev pub batch_result : ReadReply V E → List I → Result E (List V)
  batch_result (values vs) batch = ok vs
  batch_result undecodable batch = read_singly batch
  batch_result (failed e) batch = raise e

  unfoldable pub read_batches : List (List I) → Result E (List V)
  read_batches [] = ok []
  read_batches (batch ∷ rest) = do
    vs ← batch_result (read batch) batch
    more ← read_batches rest
    ok (vs ++ more)

  -- `read_many`
  unfoldable pub read_many : List I → ℕ → Result E (List V)
  read_many items chunk = read_batches (chunks chunk items)
