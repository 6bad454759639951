-- ===== src/Client/Transport/Others.antt =====
-- A subscription leaves the items of the others alone.
use mathlib.Core.Path.{subst}
use zelos_extension_opcua.Client.Transport.Coverage.{handles, add_items_other}
use zelos_extension_opcua.Client.Transport.{
  CodeSets, SubscriptionReply, created, refused, DeleteReply, deleted, delete_refused, Server, Sub,
  Transport, TransportError, subscription_request, Refusals, add_items, drop_empty, new_sub,
  keep_sub, fill_subscription, subscribe_reply, subscribe,
}
use zelos_extension_opcua.Prelude.{
  ℕ, ◌<◌, ◌≡◌, refl, sym, inl, inr, Bool, true, false, Option, none, some, List, eqb, if◌then◌else◌,
  Bool-cases, nat_eq, length, chunks, flat-chunks, Result, ok, >>=-eq-ok, ok-injective, contains,
  lookup, insert, Text, text_eq,
}

module _ {T : Type 0} (c : CodeSets) (sv : Server T) (chunk : ℕ) (pos : 0 < chunk) (k : ℕ) where
  -- The handle keeps what it has.
  abbrev Keeps : Transport T → Refusals T × Transport T → Type 0
  Keeps st x = lookup k x.1.monitored ≡ lookup k st.monitored

  ended-Keeps :
      (b : Bool) (reply : DeleteReply) (sid revised : ℕ) (sub : Sub T) (st : Transport T)
      (y : Refusals T × Transport T) {x : Refusals T × Transport T}
      → Keeps st y
      → if◌then◌else◌ {A = Result TransportError (Refusals T × Transport T)} b
          (ok (y.0, drop_empty reply sid y.1))
          (ok (y.0, keep_sub sid sub revised y.1))
        ≡ ok x
      → Keeps st x
  ended-Keeps true deleted sid revised sub st y keeps e = subst (Keeps st) (ok-injective e) keeps
  ended-Keeps true delete_refused sid revised sub st y keeps e =
      subst (Keeps st) (ok-injective e) keeps
  ended-Keeps false reply sid revised sub st y keeps e = subst (Keeps st) (ok-injective e) keeps

  fill_subscription-Keeps :
      (sid revised : ℕ) (sub : Sub T) (st : Transport T) {x : Refusals T × Transport T}
      → contains (handles sub.items) k ≡ false
      → fill_subscription c sv chunk sid revised sub st ≡ ok x
      → Keeps st x
  unfolding fill_subscription
  fill_subscription-Keeps sid revised sub st {x} absent e =
      let before = record st { subs = insert sid sub st.subs } in
      let (y, added, made) =
        >>=-eq-ok (add_items c sv sid (chunks chunk sub.items) none before) _ e in
      let whole = flat-chunks chunk sub.items pos in
      let keeps : Keeps st y =
        add_items_other c sv sid k (chunks chunk sub.items) none before
          (subst (λ items. contains (handles items) k ≡ false) (sym whole) absent) added in
      ended-Keeps (eqb (length y.0.0) (length sub.items)) (sv.delete_subscription sid) sid revised
        sub st y keeps made

  subscribe_reply-Keeps :
      (interval : ℕ) (items : List (ℕ × T)) (st : Transport T) (reply : SubscriptionReply)
      {x : Refusals T × Transport T}
      → contains (handles items) k ≡ false
      → subscribe_reply c sv chunk interval items st reply ≡ ok x
      → Keeps st x
  subscribe_reply-Keeps interval items st (created sid revised keepalive now) absent e =
      fill_subscription-Keeps sid revised (new_sub interval items revised keepalive now) st absent e
  subscribe_reply-Keeps interval items st (refused s) {x} absent e =
      elim (Bool-cases (c.connection s.code)) [
        | inl lost_link ↦ cc (rw lost_link at e)
        | inr kept ↦ subst (Keeps st) (ok-injective (rw kept at e)) refl
      ]

  -- Subscribing leaves every handle that is not asked for as it is.
  pub subscribe-Keeps :
      (interval : ℕ) (items : List (ℕ × T)) (full : Option Text) (st : Transport T)
      {x : Refusals T × Transport T}
      → contains (handles items) k ≡ false
      → subscribe c sv chunk interval items full st ≡ ok x
      → lookup k x.1.monitored ≡ lookup k st.monitored
  unfolding subscribe
  subscribe-Keeps interval items none st absent e =
      subscribe_reply-Keeps interval items st
        (sv.create_subscription (subscription_request interval)) absent e
  subscribe-Keeps interval items (some name) st absent e = subst (Keeps st) (ok-injective e) refl
