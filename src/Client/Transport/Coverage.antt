-- ===== src/Client/Transport/Coverage.antt =====
-- No target is lost: what the server does not monitor, it refused, and that is polled.
use mathlib.Core.List.{map-append}
use mathlib.Core.Path.{subst}
use zelos_extension_opcua.Prelude.{
  ℕ, ◌<◌, ◌≡◌, refl, sym, ap, ◌∙◌, ◌⊎◌, inl, inr, false, ◌||◌, Option, none, some, List, [], ◌∷◌,
  ◌++◌, map, append-nil, arith, eqb, if◌then◌else◌, Bool-cases, nat_eq, length, chunks, flat,
  flat-chunks, All, In, In-append_left, In-append_right, All-append, All-weaken, Result, ok,
  >>=-eq-ok, ok-injective, Dict, contains, Distinct, contains-append, Distinct-append, lookup,
  insert, erase, lookup-insert, lookup-erase, Text, text_eq,
}
use zelos_extension_opcua.Client.Transport.{
  CodeSets, SubscriptionReply, created, refused, ItemResult, good, bad, ItemsReply, results, fault,
  DeleteReply, deleted, delete_refused, Server, Sub, Transport, TransportError,
  subscription_request, touch, Refusals, full_of, register, refuse_all, settle, all_bad,
  settle_reply, add_items, drop_empty, new_sub, keep_sub, fill_subscription, subscribe_reply,
  subscribe,
}

module _ {T : Type 0} where
  abbrev pub handles : List (ℕ × T) → List ℕ
  handles = map (λ i. i.0)

  abbrev pub targets : List (T × Text) → List T
  targets = map (λ r. r.0)

  -- A target is monitored under its handle, or among those refused.
  abbrev pub IsCovered : Dict ℕ T → List (T × Text) → ℕ × T → Type 0
  IsCovered m out i = (lookup i.0 m ≡ some i.1) ⊎ In i.1 (targets out)

  register_other :
      (k : ℕ) (chunk : List (ℕ × T)) (m : Dict ℕ T)
      → contains (handles chunk) k ≡ false
      → lookup k (register chunk m) ≡ lookup k m
  unfolding register contains
  register_other k [] m h = refl
  register_other k ((j, t) ∷ chunk) m h =
      ground (arith, register_other k chunk (insert j t m), lookup-insert j k t m)

  register_own :
      (chunk : List (ℕ × T)) (m : Dict ℕ T)
      → Distinct (handles chunk)
      → All (λ i. lookup i.0 (register chunk m) ≡ some i.1) chunk
  unfolding register
  register_own [] m d = tt
  register_own ((j, t) ∷ chunk) m d = (
    ground (arith, register_other j chunk (insert j t m) d.0, lookup-insert j j t m),
    register_own chunk (insert j t m) d.1,
  )

  -- Other handles are not touched.
  settle_other :
      (c : CodeSets) (now k : ℕ) (items : List (ℕ × T)) (rs : List ItemResult) (full : Option Text)
      (st : Transport T) {r : Refusals T} {st' : Transport T}
      → contains (handles items) k ≡ false
      → settle c now items rs full st ≡ ok (r, st')
      → lookup k st'.monitored ≡ lookup k st.monitored
  unfolding settle contains
  settle_other c now k [] [] full st h e = ground arith
  settle_other c now k [] (x ∷ rs) full st h e = cc
  settle_other c now k (i ∷ items) [] full st h e = cc
  settle_other c now k ((j, t) ∷ items) (good ∷ rs) full st h e =
      settle_other c now k items rs full (record st { stale = touch j now st.stale }) (ground arith)
        e
  settle_other c now k ((j, t) ∷ items) (bad s ∷ rs) full st {r} {st'} h e =
      let dropped = record st { monitored = erase j st.monitored } in
      let (x, rest, made) = >>=-eq-ok (settle c now items rs (full_of c s full) dropped) _ e in
      let same : x.1.monitored ≡ st'.monitored = ap (λ y. y.1.monitored) (ok-injective made) in
      let other = settle_other c now k items rs (full_of c s full) dropped (ground arith) rest in
      rw (← same) (other ∙ rw (lookup-erase j k st.monitored) (ground arith))

  after_erase :
      (j : ℕ) (items : List (ℕ × T)) (m : Dict ℕ T)
      → contains (handles items) j ≡ false
      → All (λ i. lookup i.0 m ≡ some i.1) items
      → All (λ i. lookup i.0 (erase j m) ≡ some i.1) items
  unfolding contains
  after_erase j [] m h a = tt
  after_erase j ((k, t) ∷ items) m h a =
      (ground (arith, lookup-erase j k m, a.0), after_erase j items m (ground arith) a.1)

  -- More refusals cover no less.
  IsCovered-more :
      (m : Dict ℕ T) (out : List (T × Text)) (r : T × Text) (i : ℕ × T)
      → IsCovered m out i
      → IsCovered m (r ∷ out) i
  IsCovered-more m out r i (inl e) = inl e
  IsCovered-more m out r i (inr h) = inr (inr h)

  settle_own :
      (c : CodeSets) (now : ℕ) (items : List (ℕ × T)) (rs : List ItemResult) (full : Option Text)
      (st : Transport T) {r : Refusals T} {st' : Transport T}
      → Distinct (handles items)
      → All (λ i. lookup i.0 st.monitored ≡ some i.1) items
      → settle c now items rs full st ≡ ok (r, st')
      → All (IsCovered st'.monitored r.0) items
  unfolding settle
  settle_own c now [] [] full st d h e = tt
  settle_own c now [] (x ∷ rs) full st d h e = cc
  settle_own c now (i ∷ items) [] full st d h e = cc
  settle_own c now ((j, t) ∷ items) (good ∷ rs) full st {r} {st'} d h e =
      let kept = record st { stale = touch j now st.stale } in
      (
        inl (settle_other c now j items rs full kept d.0 e ∙ h.0),
        settle_own c now items rs full kept d.1 h.1 e,
      )
  settle_own c now ((j, t) ∷ items) (bad s ∷ rs) full st {r} {st'} d h e =
      let dropped = record st { monitored = erase j st.monitored } in
      let (x, rest, made) = >>=-eq-ok (settle c now items rs (full_of c s full) dropped) _ e in
      let own =
        settle_own c now items rs (full_of c s full) dropped d.1
          (after_erase j items st.monitored d.0 h.1) rest in
      subst (λ y. All (IsCovered y.1.monitored y.0.0) ((j, t) ∷ items)) (ok-injective made)
        (inr (inl refl), All-weaken _ _ items (IsCovered-more x.1.monitored x.0.0 (t, s.name)) own)

  contains-handles-append :
      (a b : List (ℕ × T)) (k : ℕ)
      → contains (handles (a ++ b)) k ≡ (contains (handles a) k || contains (handles b) k)
  contains-handles-append a b k = rw (map-append) (contains-append (handles a) (handles b) k)

  Distinct-handles-append :
      (a b : List (ℕ × T))
      → Distinct (handles (a ++ b))
      → Distinct (handles a)
        × Distinct (handles b)
        × All (λ x. contains (handles b) x ≡ false) (handles a)
  Distinct-handles-append a b d =
      let e : handles (a ++ b) ≡ handles a ++ handles b = rw map-append refl in
      Distinct-append (handles a) (handles b) (subst Distinct e d)

  targets-refuse_all :
      (name : Text) (chunk : List (ℕ × T)) (more : List (T × Text)) (m : Dict ℕ T)
      → All (IsCovered m (refuse_all name chunk ++ more)) chunk
  targets-refuse_all name [] more m = tt
  targets-refuse_all name ((h, t) ∷ chunk) more m = (
    inr (inl refl),
    All-weaken _ _ chunk (IsCovered-more m (refuse_all name chunk ++ more) (t, name))
        (targets-refuse_all name chunk more m),
  )

  -- Refusals before and after cover no less.
  IsCovered-right :
      (m : Dict ℕ T) (out more : List (T × Text)) (i : ℕ × T)
      → IsCovered m more i
      → IsCovered m (out ++ more) i
  IsCovered-right m out more i (inl e) = inl e
  IsCovered-right m out more i (inr h) =
      inr (rw map-append (In-append_right i.1 (targets out) (targets more) h))

  -- What was covered stays so while other handles change.
  IsCovered-left :
      (m m' : Dict ℕ T) (out more : List (T × Text)) (items : List (ℕ × T))
      → All (λ k. lookup k m' ≡ lookup k m) (handles items)
      → All (IsCovered m out) items
      → All (IsCovered m' (out ++ more)) items
  IsCovered-left m m' out more [] same h = tt
  IsCovered-left m m' out more (i ∷ items) same h =
      (one i same.0 h.0, IsCovered-left m m' out more items same.1 h.1)
    where
      one :
          (i : ℕ × T)
          → lookup i.0 m' ≡ lookup i.0 m
          → IsCovered m out i
          → IsCovered m' (out ++ more) i
      one i same (inl e) = inl (same ∙ e)
      one i same (inr h) = inr (rw map-append (In-append_left i.1 (targets out) (targets more) h))

  settle_reply-settle :
      (c : CodeSets) (reply : ItemsReply) (chunk : List (ℕ × T)) (st : Transport T)
      {x : Refusals T × Transport T}
      → settle_reply c reply chunk st ≡ ok x
      → (now : ℕ) × (rs : List ItemResult) × (settle c now chunk rs none st ≡ ok x)
  settle_reply-settle c (results now rs) chunk st h = (now, rs, h)
  settle_reply-settle c (fault now s) chunk st h = (now, all_bad s chunk, ground arith)

  module _ (c : CodeSets) (sv : Server T) (sid : ℕ) where
    pub add_items_other :
        (k : ℕ) (cs : List (List (ℕ × T))) (full : Option Text) (st : Transport T)
        {x : Refusals T × Transport T}
        → contains (handles (flat cs)) k ≡ false
        → add_items c sv sid cs full st ≡ ok x
        → lookup k x.1.monitored ≡ lookup k st.monitored
    unfolding add_items
    add_items_other k [] full st h e = ground arith
    add_items_other k (chunk ∷ rest) (some name) st {x} h e =
        let (y, tail, made) = >>=-eq-ok (add_items c sv sid rest (some name) st) _ e in
        let same : y.1.monitored ≡ x.1.monitored = ap (λ z. z.1.monitored) (ok-injective made) in
        let absent : contains (handles (flat rest)) k ≡ false =
          ground (arith, contains-handles-append chunk (flat rest) k) in
        rw (← same) (add_items_other k rest (some name) st absent tail)
    add_items_other k (chunk ∷ rest) none st {x} h e =
        let before = record st { monitored = register chunk st.monitored } in
        let (y, one, e1) =
          >>=-eq-ok (settle_reply c (sv.create_items sid chunk) chunk before) _ e in
        let (z, tail, made) = >>=-eq-ok (add_items c sv sid rest y.0.1 y.1) _ e1 in
        let same : z.1.monitored ≡ x.1.monitored = ap (λ z. z.1.monitored) (ok-injective made) in
        let not_here : contains (handles chunk) k ≡ false =
          ground (arith, contains-handles-append chunk (flat rest) k) in
        let not_later : contains (handles (flat rest)) k ≡ false =
          ground (arith, contains-handles-append chunk (flat rest) k) in
        let (now, rs, settled) =
          settle_reply-settle c (sv.create_items sid chunk) chunk before one in
        rw (← same) (
          add_items_other k rest y.0.1 y.1 not_later tail
          ∙ settle_other c now k chunk rs none before not_here settled
          ∙ register_other k chunk st.monitored not_here)

    abbrev Out : Refusals T × Transport T → ℕ × T → Type 0
    Out x = IsCovered x.1.monitored x.0.0

    add_items_own :
        (cs : List (List (ℕ × T))) (full : Option Text) (st : Transport T)
        {x : Refusals T × Transport T}
        → Distinct (handles (flat cs))
        → add_items c sv sid cs full st ≡ ok x
        → All (Out x) (flat cs)
    unfolding add_items
    add_items_own [] full st d e = tt
    add_items_own (chunk ∷ rest) (some name) st {x} d e =
        let (y, tail, made) = >>=-eq-ok (add_items c sv sid rest (some name) st) _ e in
        let (_, later, _) = Distinct-handles-append chunk (flat rest) d in
        let out = refuse_all name chunk in
        subst (λ z. All (Out z) (chunk ++ flat rest)) (ok-injective made)
          (All-append _ chunk (flat rest) (targets-refuse_all name chunk y.0.0 y.1.monitored) (
            All-weaken _ _ (flat rest) (IsCovered-right y.1.monitored out y.0.0)
              (add_items_own rest (some name) st later tail)))
    add_items_own (chunk ∷ rest) none st {x} d e =
        let before = record st { monitored = register chunk st.monitored } in
        let (y, one, e1) =
          >>=-eq-ok (settle_reply c (sv.create_items sid chunk) chunk before) _ e in
        let (z, tail, made) = >>=-eq-ok (add_items c sv sid rest y.0.1 y.1) _ e1 in
        let (here, later, apart) = Distinct-handles-append chunk (flat rest) d in
        let (now, rs, settled) =
          settle_reply-settle c (sv.create_items sid chunk) chunk before one in
        let own =
          settle_own c now chunk rs none before here (register_own chunk st.monitored here)
            settled in
        let unchanged =
          All-weaken _ (λ k. lookup k z.1.monitored ≡ lookup k y.1.monitored) (handles chunk)
            (λ k absent. add_items_other k rest y.0.1 y.1 absent tail) apart in
        subst (λ w. All (Out w) (chunk ++ flat rest)) (ok-injective made)
          (All-append _ chunk (flat rest)
            (IsCovered-left y.1.monitored z.1.monitored y.0.0 z.0.0 chunk unchanged own)
            (All-weaken _ _ (flat rest) (IsCovered-right z.1.monitored y.0.0 z.0.0)
              (add_items_own rest y.0.1 y.1 later tail)))

  module _ (c : CodeSets) (sv : Server T) (chunk : ℕ) where
    drop_empty-monitored :
        (reply : DeleteReply) (sid : ℕ) (st : Transport T)
        → (drop_empty reply sid st).monitored ≡ st.monitored
    drop_empty-monitored deleted sid st = refl
    drop_empty-monitored delete_refused sid st = refl

    fill_subscription-IsCovered :
        (sid revised : ℕ) (sub : Sub T) (st : Transport T) {x : Refusals T × Transport T}
        → 0 < chunk
        → Distinct (handles sub.items)
        → fill_subscription c sv chunk sid revised sub st ≡ ok x
        → All (IsCovered x.1.monitored x.0.0) sub.items
    unfolding fill_subscription
    fill_subscription-IsCovered sid revised sub st {x} pos d e =
        let before = record st { subs = insert sid sub st.subs } in
        let (y, added, made) =
          >>=-eq-ok (add_items c sv sid (chunks chunk sub.items) none before) _ e in
        let whole = flat-chunks chunk sub.items pos in
        let own =
          add_items_own c sv sid (chunks chunk sub.items) none before
            (subst (λ items. Distinct (handles items)) (sym whole) d) added in
        ended y made (subst (All (IsCovered y.1.monitored y.0.0)) whole own)
      where
        ended :
            (y : Refusals T × Transport T)
            → if◌then◌else◌ {A = Result TransportError (Refusals T × Transport T)}
                (eqb (length y.0.0) (length sub.items))
                (ok (y.0, drop_empty (sv.delete_subscription sid) sid y.1))
                (ok (y.0, keep_sub sid sub revised y.1))
              ≡ ok x
            → All (IsCovered y.1.monitored y.0.0) sub.items
            → All (IsCovered x.1.monitored x.0.0) sub.items
        ended y made own = elim (Bool-cases (eqb (length y.0.0) (length sub.items))) [
          | inl t ↦
              let m = drop_empty-monitored (sv.delete_subscription sid) sid y.1 in
              subst (λ z. All (IsCovered z.1.monitored z.0.0) sub.items)
                (ok-injective (rw t at made)) (rw m own)
          | inr f ↦
              subst (λ z. All (IsCovered z.1.monitored z.0.0) sub.items)
                (ok-injective (rw f at made)) own
        ]

    subscribe_reply-IsCovered :
        (interval : ℕ) (items : List (ℕ × T)) (st : Transport T) (reply : SubscriptionReply)
        {x : Refusals T × Transport T}
        → 0 < chunk
        → Distinct (handles items)
        → subscribe_reply c sv chunk interval items st reply ≡ ok x
        → All (IsCovered x.1.monitored x.0.0) items
    subscribe_reply-IsCovered interval items st (created sid revised keepalive now) pos d e =
        fill_subscription-IsCovered sid revised (new_sub interval items revised keepalive now) st
          pos d e
    subscribe_reply-IsCovered interval items st (refused s) {x} pos d e =
        elim (Bool-cases (c.connection s.code)) [
          | inl lost_link ↦ cc (rw lost_link at e)
          | inr kept ↦
              subst (λ z. All (IsCovered z.1.monitored z.0.0) items) (ok-injective (rw kept at e))
                (subst (λ out. All (IsCovered st.monitored out) items)
                  (append-nil (refuse_all s.name items))
                  (targets-refuse_all s.name items [] st.monitored))
        ]

    -- For items with distinct handles, in requests of at least one item: whatever the server answers, short of a lost connection, every item that was asked for is
    -- monitored under its handle, or among those refused, which the caller polls: none is lost.
    pub subscribe-IsCovered :
        (interval : ℕ) (items : List (ℕ × T)) (full : Option Text) (st : Transport T)
        {x : Refusals T × Transport T}
        → 0 < chunk
        → Distinct (handles items)
        → subscribe c sv chunk interval items full st ≡ ok x
        → All (IsCovered x.1.monitored x.0.0) items
    unfolding subscribe
    subscribe-IsCovered interval items none st pos d e =
        subscribe_reply-IsCovered interval items st
          (sv.create_subscription (subscription_request interval)) pos d e
    subscribe-IsCovered interval items (some name) st {x} pos d e =
        subst (λ z. All (IsCovered z.1.monitored z.0.0) items) (ok-injective e)
          (subst (λ out. All (IsCovered st.monitored out) items)
            (append-nil (refuse_all name items)) (targets-refuse_all name items [] st.monitored))
