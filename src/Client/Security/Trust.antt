-- ===== src/Client/Security/Trust.antt =====
-- `_apply_security` of zelos_extension_opcua/client.py: what a secure connect goes ahead with.

use zelos_extension_opcua.Prelude.{
  ℕ, ◌≤◌, ◌≡◌, refl, ◌⊎◌, inl, inr, Bool, true, false, not, ◌&&◌, Option, none, some, List, arith,
  Bool-cases, Option-cases, ◌==◌, nat_eq, find_first, In, find_first-In, ok, Text, same_text_iff,
  text_eq,
}
use zelos_extension_opcua.Client.Security.{
  Mode, none_mode, sign, sign_and_encrypt, same_mode, Der, Certificates, Store, is_trusted, Period,
  certificate_problems, Endpoint, Policy, Applied, starts_with, is_offer, is_valid, accept,
  decide_trust, secure_endpoint, apply_security,
}

same_mode_sound : (a b : Mode) → same_mode a b ≡ true → a ≡ b
unfolding same_mode
same_mode_sound none_mode none_mode h = refl
same_mode_sound sign sign h = refl
same_mode_sound sign_and_encrypt sign_and_encrypt h = refl
same_mode_sound _ _ h = ground arith

-- The server certificate is the pinned one, or, with no pin, one of the trust list.
abbrev pub IsAccepted : Policy → Store → Der → Type 0
IsAccepted p st der = elim p.pinned [ some pin ↦ der ≡ pin | none ↦ is_trusted st der ≡ true ]

-- The endpoint that the connection was secured for.
pub record IsSecured (c : Certificates) (p : Policy) (now : ℕ) (st : Store) (a : Applied)
    (ep : Endpoint) : Type 0 where
  pub url_tcp : starts_with p.scheme ep.url ≡ true
  pub configured_mode : (ep.mode ≡ p.mode) × (a.mode ≡ p.mode)
  pub configured_policy : (ep.policy_uri ≡ p.policy_uri) × (a.policy_uri ≡ p.policy_uri)
  pub own_certificate : a.server_certificate ≡ c.leaf ep.certificate
  pub accepted : IsAccepted p st (c.leaf ep.certificate)
  pub in_period :
      (p.allow_expired ≡ true)
      ⊎ ((now ≤ c.not_after (c.leaf ep.certificate)) × (c.not_before (c.leaf ep.certificate) ≤ now))
  pub login : (p.has_user_certificate ≡ false) ⊎ (ep.takes_certificate ≡ true)

module _ (c : Certificates) (p : Policy) where
  accept-ok :
      (uri : Bool) (period : Period) (der : Der) {a : Applied}
      → accept c p uri period der ≡ ok a
      → (a.mode ≡ p.mode)
        × (a.policy_uri ≡ p.policy_uri)
        × (a.server_certificate ≡ der)
        × ((p.allow_expired ≡ true) ⊎ (is_valid period ≡ true))
  unfolding accept
  accept-ok uri period der h = (ground arith, ground arith, ground arith, ground arith)

  decide_trust-ok :
      (st : Store) (uri : Bool) (period : Period) (der : Der) {a : Applied}
      → (decide_trust c p st uri period der).0 ≡ ok a
      → (accept c p uri period der ≡ ok a)
        × IsAccepted p st der
        × ((decide_trust c p st uri period der).1 ≡ st)
  unfolding decide_trust
  decide_trust-ok st uri period der {a} h = elim (Option-cases p.pinned) [
    | inl unpinned ↦ elim (Bool-cases (is_trusted st der)) [
      | inl t ↦ (ground arith, rw unpinned t, ground arith)
      | inr f ↦ absurd (ground arith)
    ]
    | inr (pin, pinned) ↦ elim (Bool-cases (der == pin)) [
      | inl t ↦ (ground arith, rw pinned ((same_text_iff der pin).0 t), ground arith)
      | inr f ↦ absurd (ground arith)
    ]
  ]

  in_period_of :
      (now : ℕ) (der : Der) (uri : Text)
      → is_valid (certificate_problems c now der uri).1 ≡ true
      → (now ≤ c.not_after der) × (c.not_before der ≤ now)
  unfolding certificate_problems
  in_period_of now der uri h = (ground arith, ground arith)

  period_cases :
      (now : ℕ) (der : Der) (uri : Text) {b : Bool}
      → (b ≡ true) ⊎ (is_valid (certificate_problems c now der uri).1 ≡ true)
      → (b ≡ true) ⊎ ((now ≤ c.not_after der) × (c.not_before der ≤ now))
  period_cases now der uri (inl exempt) = inl exempt
  period_cases now der uri (inr valid_now) = inr (in_period_of now der uri valid_now)

  secure_endpoint-ok :
      (now : ℕ) (st : Store) (ep : Endpoint) {a : Applied}
      → is_offer p ep ≡ true
      → (secure_endpoint c p now st (some ep)).0 ≡ ok a
      → IsSecured c p now st a ep × ((secure_endpoint c p now st (some ep)).1 ≡ st)
  unfolding secure_endpoint
  secure_endpoint-ok now st ep {a} offer h =
      let der = c.leaf ep.certificate in
      let uri = (certificate_problems c now der ep.application_uri).0 in
      let period = (certificate_problems c now der ep.application_uri).1 in
      elim (Bool-cases (p.has_user_certificate && not ep.takes_certificate)) [
        | inl refused ↦ cc (rw refused at h)
        | inr login ↦
            let url : starts_with p.scheme ep.url ≡ true = ground arith in
            let mode : same_mode ep.mode p.mode ≡ true = ground arith in
            let policy : (ep.policy_uri == p.policy_uri) ≡ true = ground arith in
            let (accepted, trusted, kept) = decide_trust-ok st uri period der (rw login at h) in
            let (a_mode, a_policy, a_cert, fresh) = accept-ok uri period der accepted in
            (
              record {
                url_tcp = url;
                configured_mode = (same_mode_sound ep.mode p.mode mode, a_mode);
                configured_policy = ((same_text_iff ep.policy_uri p.policy_uri).0 policy, a_policy);
                own_certificate = a_cert;
                accepted = trusted;
                in_period = period_cases now der ep.application_uri fresh;
                login = ground arith;
              },
              rw login kept,
            )
      ]

  -- Where a secure connect goes ahead, it is for an endpoint that the server offered with exactly
  -- the configured mode and policy, with that endpoint's own certificate, which is the pinned one
  -- or in the trust list, and within its validity period unless the server is exempt; a user
  -- certificate goes only to an endpoint that takes one. The trust list is as it was.
  pub apply_security-IsSecured :
      (now : ℕ) (endpoints : List Endpoint) (st : Store) {a : Applied}
      → (apply_security c p now endpoints st).0 ≡ ok a
      → (ep : Endpoint) × In ep endpoints
        × IsSecured c p now st a ep
        × ((apply_security c p now endpoints st).1 ≡ st)
  unfolding apply_security
  apply_security-IsSecured now endpoints st {a} h =
      found_endpoint (find_first (is_offer p) endpoints) refl h
    where
      found_endpoint :
          (o : Option Endpoint)
          → find_first (is_offer p) endpoints ≡ o
          → (secure_endpoint c p now st o).0 ≡ ok a
          → (ep : Endpoint) × In ep endpoints
            × IsSecured c p now st a ep
            × ((apply_security c p now endpoints st).1 ≡ st)
      found_endpoint none e k = cc k
      found_endpoint (some ep) e k =
          let (here, offer) = find_first-In (is_offer p) endpoints ep e in
          let (secured, kept) = secure_endpoint-ok now st ep offer k in
          (ep, here, secured, rw e kept)
