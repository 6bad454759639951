-- ===== src/Discovery/Browse/Pages.antt =====
-- Following the pages of a Browse ends.
use mathlib.Core.Path.{subst}
use zelos_extension_opcua.Discovery.Browse.{
  BrowseStatus, good_browse, no_continuation, bad_browse, BrowseResult, Rpc, BrowseError,
  out_of_fuel, Batch, requested, blank, put_point, extend_in, extend, take_result, take_results,
  take_page_one, take_page, follow, browse_once, merge_again, browse_alone, browse_refused,
  browse_batch,
}
use zelos_extension_opcua.Prelude.{
  ℕ, zero, suc, ◌+◌, ◌<◌, ◌≡◌, refl, sym, ap, ◌≢◌, Bool, true, false, Option, none, some, List, [],
  ◌∷◌, arith, nat_eq, get_elem?, All, Result, ok, raise, ◌>>=◌, >>=-eq-ok, ok-injective, Dict,
  values, lookup, All-insert, Text, text_eq,
}

-- The fuel of a run did not run out.
abbrev pub Ends : {A : Type 0} → Result BrowseError A → Type 0
Ends r = r ≢ raise out_of_fuel

pub Ends-bind :
    {A B : Type 0}
    → (r : Result BrowseError A) (next : A → Result BrowseError B) → Ends r
    → ((a : A) → r ≡ ok a → Ends (next a))
    → Ends (r >>= next)
Ends-bind (ok a) next e k = k a refl
Ends-bind (raise x) next e k = λ h. e (cc h)

pub requested-Ends : {A : Type 0} → (r : Result Text A) → Ends (requested r)
requested-Ends (ok a) = λ h. cc h
requested-Ends (raise e) = λ h. cc h

module _ {P : Type 0} (rank : P → ℕ) where
  abbrev pub AllBelow : ℕ → Dict ℕ P → Type 0
  AllBelow n points = All (λ e. rank e.1 < n) points

  put_point-AllBelow :
      (n i : ℕ) (o : Option P) (points : Dict ℕ P)
      → ((q : P) → o ≡ some q → rank q < n)
      → AllBelow n points
      → AllBelow n (put_point i o points)
  put_point-AllBelow n i none points h all = all
  put_point-AllBelow n i (some q) points h all =
      All-insert (λ e. rank e.1 < n) i q points all (h q refl)

module _ {R P : Type 0} where
  extend_in-Ends :
      (o : Option (List R)) (i : ℕ) (more : List R) (b : Batch R P) → Ends (extend_in o i more b)
  extend_in-Ends none i more b = λ h. cc h
  extend_in-Ends (some old) i more b = λ h. cc h

  extend_in-pending :
      (o : Option (List R)) (i : ℕ) (more : List R) (b : Batch R P) {b' : Batch R P}
      → extend_in o i more b ≡ ok b'
      → b'.pending ≡ b.pending
  extend_in-pending none i more b e = cc e
  extend_in-pending (some old) i more b e = sym (ap (λ z. z.pending) (ok-injective e))

  extend-then :
      {A : Type 0}
      → (i : ℕ) (more : List R) (b : Batch R P) (f : Batch R P → A)
      → Ends (do b' ← extend i more b; ok (f b'))
  extend-then i more b f =
      Ends-bind (extend i more b) (λ b'. ok (f b')) (extend_in-Ends (lookup i b.refs) i more b)
        (λ a e h. cc h)

  take_result-Ends :
      (s : BrowseStatus) (retry : Bool) (i : ℕ) (r : BrowseResult R P) (b : Batch R P)
      → Ends (take_result s retry i r b)
  take_result-Ends (no_continuation name) true i r b = λ h. cc h
  take_result-Ends (no_continuation name) false i r b = λ h. cc h
  take_result-Ends (bad_browse name) retry i r b = λ h. cc h
  take_result-Ends good_browse retry i r b =
      extend-then i r.references b
        (λ b'. record b' { pending = put_point i r.continuation b'.pending })

  take_results-Ends :
      (retry : Bool) (i : ℕ) (results : List (BrowseResult R P)) (b : Batch R P)
      → Ends (take_results retry i results b)
  unfolding take_results
  take_results-Ends retry i [] b = λ h. cc h
  take_results-Ends retry i (r ∷ results) b =
      Ends-bind (take_result r.status retry i r b) _ (take_result-Ends r.status retry i r b)
        (λ b' e. take_results-Ends retry (i + 1) results b')

  take_page_one-Ends :
      (s : BrowseStatus) (i : ℕ) (r : BrowseResult R P) (acc : Dict ℕ P × Batch R P)
      → Ends (take_page_one s i r acc)
  take_page_one-Ends good_browse i r (cont, b) =
      extend-then i r.references b (λ b'. (put_point i r.continuation cont, b'))
  take_page_one-Ends (bad_browse name) i r (cont, b) = λ h. cc h
  take_page_one-Ends (no_continuation name) i r (cont, b) = λ h. cc h

  take_page-Ends :
      (pending : Dict ℕ P) (page : List (BrowseResult R P)) (acc : Dict ℕ P × Batch R P)
      → Ends (take_page pending page acc)
  unfolding take_page
  take_page-Ends [] [] acc = λ h. cc h
  take_page-Ends [] (r ∷ page) acc = λ h. cc h
  take_page-Ends (x ∷ pending) [] acc = λ h. cc h
  take_page-Ends ((i, p) ∷ pending) (r ∷ page) acc =
      Ends-bind (take_page_one r.status i r acc) _ (take_page_one-Ends r.status i r acc)
        (λ acc' e. take_page-Ends pending page acc')

  module _ (rank : P → ℕ) where
    -- Where a result goes on, it goes on below `n`.
    abbrev pub GoesBelow : ℕ → BrowseResult R P → Type 0
    GoesBelow n r = (q : P) → r.continuation ≡ some q → rank q < n

    -- Each result of a page goes on below the point that was asked for.
    abbrev pub Descends : List P → List (BrowseResult R P) → Type 0
    Descends (p ∷ ps) (r ∷ page) = GoesBelow (rank p) r × Descends ps page
    Descends _ _ = Unit

    take_page_one-AllBelow :
        (n : ℕ) (s : BrowseStatus) (i : ℕ) (r : BrowseResult R P) (cont : Dict ℕ P) (b : Batch R P)
        {out : Dict ℕ P × Batch R P}
        → GoesBelow n r
        → AllBelow rank n cont
        → take_page_one s i r (cont, b) ≡ ok out
        → AllBelow rank n out.0
    take_page_one-AllBelow n good_browse i r cont b h all e =
        let (b', _, made) = >>=-eq-ok (extend i r.references b) _ e in
        subst (λ z. AllBelow rank n z.0) (ok-injective made)
          (put_point-AllBelow rank n i r.continuation cont h all)
    take_page_one-AllBelow n (bad_browse name) i r cont b h all e =
        subst (λ z. AllBelow rank n z.0) (ok-injective e) all
    take_page_one-AllBelow n (no_continuation name) i r cont b h all e =
        subst (λ z. AllBelow rank n z.0) (ok-injective e) all

    take_page-AllBelow :
        (n : ℕ) (pending : Dict ℕ P) (page : List (BrowseResult R P)) (cont : Dict ℕ P)
        (b : Batch R P) {out : Dict ℕ P × Batch R P}
        → Descends (values pending) page
        → AllBelow rank (suc n) pending
        → AllBelow rank n cont
        → take_page pending page (cont, b) ≡ ok out
        → AllBelow rank n out.0
    unfolding take_page
    take_page-AllBelow n [] [] cont b d below all e =
        subst (λ z. AllBelow rank n z.0) (ok-injective e) all
    take_page-AllBelow n [] (r ∷ page) cont b d below all e = cc e
    take_page-AllBelow n (x ∷ pending) [] cont b d below all e = cc e
    take_page-AllBelow n ((i, p) ∷ pending) (r ∷ page) cont b d below all e =
        let (acc, one, rest) = >>=-eq-ok (take_page_one r.status i r (cont, b)) _ e in
        let lower : GoesBelow n r = λ q h. let l = d.0 q h in let l' = below.0 in omega arith in
        take_page-AllBelow n pending page acc.0 acc.1 d.1 below.1
          (take_page_one-AllBelow n r.status i r cont b lower all one) rest

    take_result-AllBelow :
        (n : ℕ) (s : BrowseStatus) (retry : Bool) (i : ℕ) (r : BrowseResult R P) (b : Batch R P)
        {b' : Batch R P}
        → GoesBelow n r
        → AllBelow rank n b.pending
        → take_result s retry i r b ≡ ok b'
        → AllBelow rank n b'.pending
    take_result-AllBelow n (no_continuation name) true i r b h all e =
        subst (λ z. AllBelow rank n z.pending) (ok-injective e) all
    take_result-AllBelow n (no_continuation name) false i r b h all e =
        subst (λ z. AllBelow rank n z.pending) (ok-injective e) all
    take_result-AllBelow n (bad_browse name) retry i r b h all e =
        subst (λ z. AllBelow rank n z.pending) (ok-injective e) all
    take_result-AllBelow n good_browse retry i r b h all e =
        let (x, extended, made) = >>=-eq-ok (extend i r.references b) _ e in
        let same = extend_in-pending (lookup i b.refs) i r.references b extended in
        subst (λ z. AllBelow rank n z.pending) (ok-injective made)
          (put_point-AllBelow rank n i r.continuation x.pending h
            (subst (AllBelow rank n) (sym same) all))

    take_results-AllBelow :
        (n : ℕ) (retry : Bool) (i : ℕ) (results : List (BrowseResult R P)) (b : Batch R P)
        {b' : Batch R P}
        → All (GoesBelow n) results
        → AllBelow rank n b.pending
        → take_results retry i results b ≡ ok b'
        → AllBelow rank n b'.pending
    unfolding take_results
    take_results-AllBelow n retry i [] b h all e =
        subst (λ z. AllBelow rank n z.pending) (ok-injective e) all
    take_results-AllBelow n retry i (r ∷ results) b h all e =
        let (x, one, rest) = >>=-eq-ok (take_result r.status retry i r b) _ e in
        take_results-AllBelow n retry (i + 1) results x h.1
          (take_result-AllBelow n r.status retry i r b h.0 all one) rest

module _ {N R P : Type 0} (rpc : Rpc N R P) where
  -- The server's continuation points run out: a point that a BrowseNext gives has a lower rank than
  -- the one that was asked for, and a Browse starts below the bound.
  pub record IsPaging (rank : P → ℕ) (bound : ℕ) : Type 0 where
    pub first :
        (nodes : List N) (results : List (BrowseResult R P))
        → rpc.browse nodes ≡ ok results
        → All (GoesBelow rank bound) results
    pub later :
        (points : List P) (page : List (BrowseResult R P))
        → rpc.browse_next points ≡ ok page
        → Descends rank points page

  module _ (rank : P → ℕ) (bound : ℕ) (paging : IsPaging rank bound) where
    requested-ok : {A : Type 0} → (r : Result Text A) {a : A} → requested r ≡ ok a → r ≡ ok a
    requested-ok (ok x) e = cc
    requested-ok (raise x) e = cc e

    follow-Ends :
        (fuel : ℕ) (pending : Dict ℕ P) (b : Batch R P)
        → AllBelow rank fuel pending
        → Ends (follow rpc fuel pending b)
    unfolding follow
    follow-Ends fuel [] b all = λ h. cc h
    follow-Ends zero (x ∷ pending) b all = absurd (omega (arith, all.0))
    follow-Ends (suc fuel) (x ∷ pending) b all =
        Ends-bind (requested (rpc.browse_next (values (x ∷ pending)))) _
          (requested-Ends (rpc.browse_next (values (x ∷ pending))))
          (λ page e.
            Ends-bind (take_page (x ∷ pending) page ([], b)) _
              (take_page-Ends (x ∷ pending) page ([], b))
              (λ out taken. follow-Ends fuel out.0 out.1 (
                take_page-AllBelow rank fuel (x ∷ pending) page [] b
                  (paging.later (values (x ∷ pending)) page
                    (requested-ok (rpc.browse_next (values (x ∷ pending))) e))
                  all tt taken)))

    browse_once-Ends : (retry : Bool) (nodes : List N) → Ends (browse_once rpc bound retry nodes)
    unfolding browse_once
    browse_once-Ends retry nodes =
        Ends-bind (requested (rpc.browse nodes)) _ (requested-Ends (rpc.browse nodes)) (λ results e.
          Ends-bind (take_results retry 0 results (blank nodes)) _
            (take_results-Ends retry 0 results (blank nodes))
            (λ b taken. follow-Ends bound b.pending b (
              take_results-AllBelow rank bound retry 0 results (blank nodes)
                (paging.first nodes results (requested-ok (rpc.browse nodes) e)) tt taken)))

    merge_again-Ends : (i : ℕ) (again b : Batch R P) → Ends (merge_again rpc i again b)
    merge_again-Ends i again b = merged again.refs
      where
        merged :
            (refs : Dict ℕ (List R)) → Ends (merge_again rpc i (record again { refs = refs }) b)
        merged [] = λ h. cc h
        merged (x ∷ rest) = λ h. cc h

    browse_alone-Ends : (i : ℕ) (o : Option N) (b : Batch R P) → Ends (browse_alone rpc bound i o b)
    browse_alone-Ends i none b = λ h. cc h
    browse_alone-Ends i (some n) b =
        Ends-bind (browse_once rpc bound false (n ∷ [])) _ (browse_once-Ends false (n ∷ []))
          (λ again e. merge_again-Ends i again b)

    browse_refused-Ends :
        (nodes : List N) (refused : List ℕ) (b : Batch R P)
        → Ends (browse_refused rpc bound nodes refused b)
    unfolding browse_refused
    browse_refused-Ends nodes [] b = λ h. cc h
    browse_refused-Ends nodes (i ∷ refused) b =
        Ends-bind (browse_alone rpc bound i (get_elem? nodes i) b) _
          (browse_alone-Ends i (get_elem? nodes i) b) (λ b' e. browse_refused-Ends nodes refused b')

    -- Where the server's continuation points run out, browsing a batch ends, whatever the server
    -- answers: the pages are followed to the end within the bound, and so are those of each node
    -- that is browsed again alone.
    pub browse_batch-Ends : (nodes : List N) → Ends (browse_batch rpc bound nodes)
    unfolding browse_batch
    browse_batch-Ends nodes =
        Ends-bind (browse_once rpc bound true nodes) _ (browse_once-Ends true nodes) (λ b e.
          Ends-bind (browse_refused rpc bound nodes b.no_point b) _
            (browse_refused-Ends nodes b.no_point b) (λ b' e'. λ h. cc h))
