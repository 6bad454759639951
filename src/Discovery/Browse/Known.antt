-- ===== src/Discovery/Browse/Known.antt =====
-- What a batch returns are references that the server answered.
use mathlib.Core.Path.{subst}
use zelos_extension_opcua.Discovery.Browse.{
  BrowseStatus, good_browse, no_continuation, bad_browse, BrowseResult, Rpc, BrowseError, Batch,
  requested, no_refs, blank, fail_at, extend_in, extend, take_result, take_results, take_page_one,
  take_page, follow, browse_once, merge_again, browse_alone, browse_refused, browse_batch,
}
use zelos_extension_opcua.Prelude.{
  ℕ, zero, suc, ◌+◌, ◌≡◌, refl, ◌⊎◌, inl, inr, Bool, true, false, Option, none, some, List, [], ◌∷◌,
  ◌++◌, nat_eq, get_elem?, All, In, All-append, All-of, Result, ok, raise, >>=-eq-ok, ok-injective,
  Dict, values, lookup, insert, All-lookup, All-insert, Text, text_eq,
}

pub requested-ok : {A : Type 0} → (r : Result Text A) {a : A} → requested r ≡ ok a → r ≡ ok a
requested-ok (ok x) e = cc
requested-ok (raise x) e = cc e

All-values :
    {K V : Type 0} → (Q : V → Type 0) (m : Dict K V) → All (λ e. Q e.1) m → All Q (values m)
All-values Q [] h = tt
All-values Q (x ∷ m) h = (h.0, All-values Q m h.1)

no_refs-Known :
    {N R : Type 0}
    → (IsKnown : R → Type 0) (i : ℕ) (nodes : List N) → All (λ e. All IsKnown e.1) (no_refs i nodes)
unfolding no_refs
no_refs-Known IsKnown i [] = tt
no_refs-Known IsKnown i (n ∷ nodes) = (tt, no_refs-Known IsKnown (i + 1) nodes)

module _ {R P : Type 0} (IsKnown : R → Type 0) where
  -- All references of a result, or of a batch so far.
  abbrev pub KnownResult : BrowseResult R P → Type 0
  KnownResult r = All IsKnown r.references

  abbrev KnownBatch : Batch R P → Type 0
  KnownBatch b = All (λ e. All IsKnown e.1) b.refs

  extend_in-Known :
      (o : Option (List R)) (i : ℕ) (more : List R) (b : Batch R P) {b' : Batch R P}
      → lookup i b.refs ≡ o
      → All IsKnown more
      → KnownBatch b
      → extend_in o i more b ≡ ok b'
      → KnownBatch b'
  extend_in-Known none i more b l h all t = cc t
  extend_in-Known (some old) i more b l h all t = subst KnownBatch (ok-injective t) (
      All-insert (λ e. All IsKnown e.1) i (old ++ more) b.refs all
        (All-append IsKnown old more (All-lookup (λ e. All IsKnown e.1) i b.refs all l) h))

  take_result-Known :
      (s : BrowseStatus) (retry : Bool) (i : ℕ) (r : BrowseResult R P) (b : Batch R P)
      {b' : Batch R P}
      → KnownResult r
      → KnownBatch b
      → take_result s retry i r b ≡ ok b'
      → KnownBatch b'
  take_result-Known (no_continuation name) true i r b h all t =
      subst KnownBatch (ok-injective t) all
  take_result-Known (no_continuation name) false i r b h all t =
      subst KnownBatch (ok-injective t) all
  take_result-Known (bad_browse name) retry i r b h all t = subst KnownBatch (ok-injective t) all
  take_result-Known good_browse retry i r b h all t =
      let (x, extended, made) = >>=-eq-ok (extend i r.references b) _ t in
      subst KnownBatch (ok-injective made)
        (extend_in-Known (lookup i b.refs) i r.references b refl h all extended)

  take_results-Known :
      (retry : Bool) (i : ℕ) (results : List (BrowseResult R P)) (b : Batch R P) {b' : Batch R P}
      → All KnownResult results
      → KnownBatch b
      → take_results retry i results b ≡ ok b'
      → KnownBatch b'
  unfolding take_results
  take_results-Known retry i [] b h all t = subst KnownBatch (ok-injective t) all
  take_results-Known retry i (r ∷ results) b h all t =
      let (x, one, rest) = >>=-eq-ok (take_result r.status retry i r b) _ t in
      take_results-Known retry (i + 1) results x h.1
        (take_result-Known r.status retry i r b h.0 all one) rest

  take_page_one-Known :
      (s : BrowseStatus) (i : ℕ) (r : BrowseResult R P) (cont : Dict ℕ P) (b : Batch R P)
      {out : Dict ℕ P × Batch R P}
      → KnownResult r
      → KnownBatch b
      → take_page_one s i r (cont, b) ≡ ok out
      → KnownBatch out.1
  take_page_one-Known good_browse i r cont b h all t =
      let (x, extended, made) = >>=-eq-ok (extend i r.references b) _ t in
      subst (λ z. KnownBatch z.1) (ok-injective made)
        (extend_in-Known (lookup i b.refs) i r.references b refl h all extended)
  take_page_one-Known (bad_browse name) i r cont b h all t =
      subst (λ z. KnownBatch z.1) (ok-injective t) all
  take_page_one-Known (no_continuation name) i r cont b h all t =
      subst (λ z. KnownBatch z.1) (ok-injective t) all

  take_page-Known :
      (pending : Dict ℕ P) (page : List (BrowseResult R P)) (cont : Dict ℕ P) (b : Batch R P)
      {out : Dict ℕ P × Batch R P}
      → All KnownResult page
      → KnownBatch b
      → take_page pending page (cont, b) ≡ ok out
      → KnownBatch out.1
  unfolding take_page
  take_page-Known [] [] cont b h all t = subst (λ z. KnownBatch z.1) (ok-injective t) all
  take_page-Known [] (r ∷ page) cont b h all t = cc t
  take_page-Known (x ∷ pending) [] cont b h all t = cc t
  take_page-Known ((i, p) ∷ pending) (r ∷ page) cont b h all t =
      let (acc, one, rest) = >>=-eq-ok (take_page_one r.status i r (cont, b)) _ t in
      take_page-Known pending page acc.0 acc.1 h.1
        (take_page_one-Known r.status i r cont b h.0 all one) rest

  -- Every reference that the server answers is known.
  pub record IsAnswering {N : Type 0} (rpc : Rpc N R P) : Type 0 where
    pub first :
        (nodes : List N) (results : List (BrowseResult R P))
        → rpc.browse nodes ≡ ok results
        → All KnownResult results
    pub later :
        (points : List P) (page : List (BrowseResult R P))
        → rpc.browse_next points ≡ ok page
        → All KnownResult page

  module _ {N : Type 0} (rpc : Rpc N R P) (answering : IsAnswering rpc) (fuel : ℕ) where
    follow-Known :
        (fuel : ℕ) (pending : Dict ℕ P) (b : Batch R P) {b' : Batch R P}
        → KnownBatch b
        → follow rpc fuel pending b ≡ ok b'
        → KnownBatch b'
    unfolding follow
    follow-Known fuel [] b all t = subst KnownBatch (ok-injective t) all
    follow-Known zero (x ∷ pending) b all t = cc t
    follow-Known (suc fuel) (x ∷ pending) b all t =
        let points = values (x ∷ pending) in
        let (page, asked, t1) = >>=-eq-ok (requested (rpc.browse_next points)) _ t in
        let (out, taken, t2) = >>=-eq-ok (take_page (x ∷ pending) page ([], b)) _ t1 in
        follow-Known fuel out.0 out.1
          (take_page-Known (x ∷ pending) page [] b
            (answering.later points page (requested-ok (rpc.browse_next points) asked)) all taken)
          t2

    browse_once-Known :
        (retry : Bool) (nodes : List N) {b : Batch R P}
        → browse_once rpc fuel retry nodes ≡ ok b
        → KnownBatch b
    unfolding browse_once
    browse_once-Known retry nodes t =
        let (results, asked, t1) = >>=-eq-ok (requested (rpc.browse nodes)) _ t in
        let (b, taken, t2) = >>=-eq-ok (take_results retry 0 results (blank nodes)) _ t1 in
        follow-Known fuel b.pending b
          (take_results-Known retry 0 results (blank nodes)
            (answering.first nodes results (requested-ok (rpc.browse nodes) asked))
            (no_refs-Known IsKnown 0 nodes) taken)
          t2

    merge_again-Known :
        (i : ℕ) (again b : Batch R P) (refs : Dict ℕ (List R)) {b' : Batch R P}
        → All (λ e. All IsKnown e.1) refs
        → KnownBatch b
        → merge_again rpc i (record again { refs = refs }) b ≡ ok b'
        → KnownBatch b'
    merge_again-Known i again b [] h all t = cc t
    merge_again-Known i again b ((j, more) ∷ rest) {b'} h all t =
        failed_if (lookup 0 again.failed) t
      where
        merged : Batch R P
        merged = record b { refs = insert i more b.refs }

        known : KnownBatch merged
        known = All-insert (λ e. All IsKnown e.1) i more b.refs all h.0

        failed_if :
            (o : Option Text)
            → ◌≡◌ {A = Result BrowseError (Batch R P)}
                (ok (elim o [ none ↦ merged | some name ↦ fail_at i name merged ]))
                (ok b')
            → KnownBatch b'
        failed_if none t = subst KnownBatch (ok-injective t) known
        failed_if (some name) t = subst KnownBatch (ok-injective t) known

    browse_alone-Known :
        (i : ℕ) (o : Option N) (b : Batch R P) {b' : Batch R P}
        → KnownBatch b
        → browse_alone rpc fuel i o b ≡ ok b'
        → KnownBatch b'
    browse_alone-Known i none b all t = cc t
    browse_alone-Known i (some n) b all t =
        let (again, browsed, t1) = >>=-eq-ok (browse_once rpc fuel false (n ∷ [])) _ t in
        merge_again-Known i again b again.refs (browse_once-Known false (n ∷ []) browsed) all t1

    browse_refused-Known :
        (nodes : List N) (refused : List ℕ) (b : Batch R P) {b' : Batch R P}
        → KnownBatch b
        → browse_refused rpc fuel nodes refused b ≡ ok b'
        → KnownBatch b'
    unfolding browse_refused
    browse_refused-Known nodes [] b all t = subst KnownBatch (ok-injective t) all
    browse_refused-Known nodes (i ∷ refused) b all t =
        let (x, one, rest) = >>=-eq-ok (browse_alone rpc fuel i (get_elem? nodes i) b) _ t in
        browse_refused-Known nodes refused x (browse_alone-Known i (get_elem? nodes i) b all one)
          rest

    pub browse_batch-Known :
        (nodes : List N) {out : List (List R) × Dict ℕ Text}
        → browse_batch rpc fuel nodes ≡ ok out
        → All (All IsKnown) out.0
    unfolding browse_batch
    browse_batch-Known nodes t =
        let (b, once, t1) = >>=-eq-ok (browse_once rpc fuel true nodes) _ t in
        let (b', refused, made) = >>=-eq-ok (browse_refused rpc fuel nodes b.no_point b) _ t1 in
        let known =
          browse_refused-Known nodes b.no_point b (browse_once-Known true nodes once) refused in
        subst (λ z. All (All IsKnown) z.0) (ok-injective made)
          (All-values (All IsKnown) b'.refs known)

-- A reference of some answer of the server, to a Browse or to a BrowseNext.
abbrev pub IsAnswered : {N R P : Type 0} → Rpc N R P → R → Type 0
IsAnswered {N} {R} {P} rpc r =
    ((nodes : List N) × (results : List (BrowseResult R P)) × (rpc.browse nodes ≡ ok results)
      × ((result : BrowseResult R P) × In result results × In r result.references))
    ⊎ ((points : List P) × (page : List (BrowseResult R P)) × (rpc.browse_next points ≡ ok page)
        × ((result : BrowseResult R P) × In result page × In r result.references))

pub rpc-IsAnswering : {N R P : Type 0} (rpc : Rpc N R P) → IsAnswering (IsAnswered rpc) rpc
rpc-IsAnswering rpc = record {
  first = λ nodes results e. All-of (KnownResult (IsAnswered rpc)) results (λ result i.
      All-of (IsAnswered rpc) result.references (λ r j. inl (nodes, results, e, (result, i, j))));
  later = λ points page e. All-of (KnownResult (IsAnswered rpc)) page (λ result i.
      All-of (IsAnswered rpc) result.references (λ r j. inr (points, page, e, (result, i, j))));
}
