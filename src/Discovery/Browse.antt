-- ===== src/Discovery/Browse.antt =====
-- `_browse_batch` of zelos_extension_opcua/discovery.py. `N` are node ids, `R` references, `P`
-- continuation points; an exception of a request is its text. The requests are functions of what is
-- asked: no request of a batch is made twice. The loop over the pages runs on fuel.
pub mod Pages
pub mod Known
use zelos_extension_opcua.Prelude.{
  ℕ, zero, suc, ◌+◌, Bool, true, false, Option, none, some, List, [], ◌∷◌, ◌++◌, nat_eq, get_elem?,
  Result, ok, raise, ◌>>=◌, ◌>>◌, Dict, values, lookup, insert, Text, text_eq,
}

-- A status: Good, BadNoContinuationPoints, or another, by its name.
pub data BrowseStatus : Type 0 where
  good_browse : BrowseStatus
  no_continuation : Text → BrowseStatus
  bad_browse : Text → BrowseStatus

pub record BrowseResult (R P : Type 0) : Type 0 where
  pub status : BrowseStatus
  pub references : List R
  pub continuation : Option P

-- The Browse and the BrowseNext service.
pub record Rpc (N R P : Type 0) : Type 0 where
  pub browse : List N → Result Text (List (BrowseResult R P))
  pub browse_next : List P → Result Text (List (BrowseResult R P))

pub data BrowseError : Type 0 where
  request_failed : Text → BrowseError
  index_error : BrowseError
  wrong_length : BrowseError
  out_of_fuel : BrowseError

-- The locals of `_browse_batch`.
pub record Batch (R P : Type 0) : Type 0 where
  pub refs : Dict ℕ (List R)
  pub failed : Dict ℕ Text
  pub no_point : List ℕ
  pub pending : Dict ℕ P

abbrev pub requested : {A : Type 0} → Result Text A → Result BrowseError A
requested (ok a) = ok a
requested (raise e) = raise (request_failed e)

-- `[[] for _ in node_ids]`
unfoldable pub no_refs : {N R : Type 0} → ℕ → List N → Dict ℕ (List R)
no_refs i [] = []
no_refs i (n ∷ nodes) = (i, []) ∷ no_refs (i + 1) nodes

abbrev pub blank : {N R P : Type 0} → List N → Batch R P
blank nodes = record { refs = no_refs 0 nodes; failed = []; no_point = []; pending = [] }

abbrev pub put_point : {V : Type 0} → ℕ → Option V → Dict ℕ V → Dict ℕ V
put_point i none points = points
put_point i (some p) points = insert i p points

module _ {R P : Type 0} where
  abbrev pub fail_at : ℕ → Text → Batch R P → Batch R P
  fail_at i name b = record b { failed = insert i name b.failed }

  -- `refs[i].extend(...)`
  abbrev pub extend_in : Option (List R) → ℕ → List R → Batch R P → Result BrowseError (Batch R P)
  extend_in none i more b = raise index_error
  extend_in (some old) i more b = ok (record b { refs = insert i (old ++ more) b.refs })

  abbrev pub extend : ℕ → List R → Batch R P → Result BrowseError (Batch R P)
  extend i more b = extend_in (lookup i b.refs) i more b

  -- One result of the Browse.
  abbrev pub take_result :
      BrowseStatus → Bool → ℕ → BrowseResult R P → Batch R P → Result BrowseError (Batch R P)
  take_result (no_continuation name) true i r b = ok (record b { no_point = b.no_point ++ i ∷ [] })
  take_result (no_continuation name) false i r b = ok (fail_at i name b)
  take_result (bad_browse name) retry i r b = ok (fail_at i name b)
  take_result good_browse retry i r b = do
    b' ← extend i r.references b
    ok (record b' { pending = put_point i r.continuation b'.pending })

  unfoldable pub take_results :
      Bool → ℕ → List (BrowseResult R P) → Batch R P → Result BrowseError (Batch R P)
  take_results retry i [] b = ok b
  take_results retry i (r ∷ results) b = do
    b' ← take_result r.status retry i r b
    take_results retry (i + 1) results b'

  -- One result of the BrowseNext, with the points of the next round.
  abbrev pub take_page_one :
      BrowseStatus
      → ℕ
      → BrowseResult R P
      → Dict ℕ P × Batch R P
      → Result BrowseError (Dict ℕ P × Batch R P)
  take_page_one good_browse i r (cont, b) = do
    b' ← extend i r.references b
    ok (put_point i r.continuation cont, b')
  take_page_one (bad_browse name) i r (cont, b) = ok (cont, fail_at i name b)
  take_page_one (no_continuation name) i r (cont, b) = ok (cont, fail_at i name b)

  unfoldable pub take_page :
      Dict ℕ P
      → List (BrowseResult R P)
      → Dict ℕ P × Batch R P
      → Result BrowseError (Dict ℕ P × Batch R P)
  take_page [] [] acc = ok acc
  take_page ((i, p) ∷ pending) (r ∷ page) acc = do
    acc' ← take_page_one r.status i r acc
    take_page pending page acc'
  take_page _ _ acc = raise wrong_length

module _ {N R P : Type 0} (rpc : Rpc N R P) where
  -- `while pending`
  unfoldable pub follow : ℕ → Dict ℕ P → Batch R P → Result BrowseError (Batch R P)
  follow fuel [] b = ok b
  follow zero (x ∷ pending) b = raise out_of_fuel
  follow (suc fuel) (x ∷ pending) b = do
    page ← requested (rpc.browse_next (values (x ∷ pending)))
    (cont, b') ← take_page (x ∷ pending) page ([], b)
    follow fuel cont b'

  -- The request and its pages.
  unfoldable pub browse_once : ℕ → Bool → List N → Result BrowseError (Batch R P)
  browse_once fuel retry nodes = do
    results ← requested (rpc.browse nodes)
    b ← take_results retry 0 results (blank nodes)
    follow fuel b.pending b

  -- `([refs[i]], again) = ...`
  abbrev pub merge_again : ℕ → Batch R P → Batch R P → Result BrowseError (Batch R P)
  merge_again i again b = elim again.refs [
    | [] ↦ raise wrong_length
    | (j, refs) ∷ rest ↦
        let b' = record b { refs = insert i refs b.refs } in
        ok (elim (lookup 0 again.failed) [ none ↦ b' | some name ↦ fail_at i name b' ])
  ]

  abbrev pub browse_alone : ℕ → ℕ → Option N → Batch R P → Result BrowseError (Batch R P)
  browse_alone fuel i none b = raise index_error
  browse_alone fuel i (some n) b = do again ← browse_once fuel false (n ∷ []); merge_again i again b

  -- `for i in no_point`
  unfoldable pub browse_refused : ℕ → List N → List ℕ → Batch R P → Result BrowseError (Batch R P)
  browse_refused fuel nodes [] b = ok b
  browse_refused fuel nodes (i ∷ is) b = do
    b' ← browse_alone fuel i (get_elem? nodes i) b
    browse_refused fuel nodes is b'

  -- `_browse_batch`
  unfoldable pub browse_batch : ℕ → List N → Result BrowseError (List (List R) × Dict ℕ Text)
  browse_batch fuel nodes = do
    b ← browse_once fuel true nodes
    b' ← browse_refused fuel nodes b.no_point b
    ok (values b'.refs, b'.failed)
