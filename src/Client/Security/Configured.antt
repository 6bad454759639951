-- ===== src/Client/Security/Configured.antt =====
-- What a security configuration that is accepted guarantees.
use zelos_extension_opcua.Prelude.{
  ◌≡◌, refl, ◌↔◌, ◌⊎◌, inl, inr, Bool, true, false, not, ◌&&◌, [], arith, if◌then◌else◌, Bool-cases,
  nat_eq, Result, ok, raise, ◌>>◌, raise_if, >>=-eq-ok, raise_if-ok, contains, Text, text_eq,
}
use zelos_extension_opcua.Client.Security.{
  Certificates, Settings, unknown_mode, unknown_policy, client_pair, user_pair, user_needs_mode,
  unknown_trust, strict_needs_mode, strict_needs_file, unreadable, security_modes,
  security_policies, server_certificate_policies, given, is_secure, is_strict, differ, check_file,
  check_modes, check_server, check_files, validate_security,
}

-- Neither of two files is given, or both are and load.
abbrev pub IsLoadedPair : Certificates → Text → Text → Type 0
IsLoadedPair c certificate key =
    ((given certificate ≡ false) × (given key ≡ false))
    ⊎ ((given certificate ≡ true)
        × (given key ≡ true)
        × (c.loads_certificate certificate ≡ true)
        × (c.loads_key key ≡ true))

-- The configuration can be honored as written.
pub record IsHonorable (c : Certificates) (s : Settings) : Type 0 where
  -- no security, or a mode and a policy that are supported
  pub supported :
      (is_secure s ≡ false)
      ⊎ ((contains security_modes s.security_mode ≡ true)
          × (contains security_policies s.security_policy ≡ true))
  -- client and user certificates come with their keys, and all of them load
  pub client : IsLoadedPair c s.certificate_file s.private_key_file
  pub user : IsLoadedPair c s.user_certificate_file s.user_private_key_file
  -- a user certificate has a secure channel
  pub login : (given s.user_certificate_file ≡ false) ⊎ (is_secure s ≡ true)
  -- the server's certificate is judged in a known way
  pub judged : contains server_certificate_policies s.server_certificate ≡ true
  -- strict has a secure channel and a server certificate to hold it to, which loads
  pub strict :
      (is_strict s ≡ false)
      ⊎ ((is_secure s ≡ true)
          × (given s.server_certificate_file ≡ true)
          × (c.loads_certificate s.server_certificate_file ≡ true))

pub record PassedModes (s : Settings) : Type 0 where
  pub mode : (is_secure s && not (contains security_modes s.security_mode)) ≡ false
  pub policy : (is_secure s && not (contains security_policies s.security_policy)) ≡ false
  pub client : differ (given s.certificate_file) (given s.private_key_file) ≡ false
  pub user : differ (given s.user_certificate_file) (given s.user_private_key_file) ≡ false
  pub login : (given s.user_certificate_file && not (is_secure s)) ≡ false

-- One `if test: raise` that passed, and the rest.
passed :
    {E : Type 0} (b : Bool) (e : E) (rest : Result E (Unit {0})) {t : Unit {0}}
    → (raise_if b e >> rest) ≡ ok t
    → (b ≡ false) × (rest ≡ ok t)
passed true e rest h = cc
passed false e rest h = (refl, h)

check_modes-ok : (s : Settings) {t : Unit {0}} → check_modes s ≡ ok t → PassedModes s
unfolding check_modes
check_modes-ok s h =
    let (mode, h1) =
      passed (is_secure s && not (contains security_modes s.security_mode)) unknown_mode _ h in
    let (policy, h2) =
      passed (is_secure s && not (contains security_policies s.security_policy)) unknown_policy _
        h1 in
    let (client, h3) =
      passed (differ (given s.certificate_file) (given s.private_key_file)) client_pair _ h2 in
    let (user, h4) =
      passed (differ (given s.user_certificate_file) (given s.user_private_key_file)) user_pair _
        h3 in
    record {
      mode = mode;
      policy = policy;
      client = client;
      user = user;
      login = raise_if-ok (given s.user_certificate_file && not (is_secure s)) user_needs_mode h4;
    }

check_server-ok :
    (s : Settings) {t : Unit {0}}
    → check_server s ≡ ok t
    → (not (contains server_certificate_policies s.server_certificate) ≡ false)
      × ((is_strict s && not (is_secure s)) ≡ false)
      × ((is_strict s && not (given s.server_certificate_file)) ≡ false)
unfolding check_server
check_server-ok s h =
    let (known, h1) =
      passed (not (contains server_certificate_policies s.server_certificate)) unknown_trust _ h in
    let (mode, h2) = passed (is_strict s && not (is_secure s)) strict_needs_mode _ h1 in
    (
      known,
      mode,
      raise_if-ok (is_strict s && not (given s.server_certificate_file)) strict_needs_file h2,
    )

abbrev Loads : (Text → Bool) → Text → Type 0
Loads loads path = given path ≡ true → loads path ≡ true

loaded :
    (loads : Text → Bool) (path : Text)
    → (given path && not (loads path)) ≡ false
    → Loads loads path
loaded loads path h g = ground arith

check_files-ok :
    (c : Certificates) (s : Settings) {t : Unit {0}}
    → check_files c s ≡ ok t
    → Loads c.loads_certificate s.certificate_file
      × Loads c.loads_key s.private_key_file
      × Loads c.loads_certificate (if is_strict s then s.server_certificate_file else [])
      × Loads c.loads_certificate s.user_certificate_file
      × Loads c.loads_key s.user_private_key_file
unfolding check_files
check_files-ok c s h =
    let strict_file : Text = if is_strict s then s.server_certificate_file else [] in
    let (a, h1) =
      passed (given s.certificate_file && not (c.loads_certificate s.certificate_file))
        (unreadable s.certificate_file) _ h in
    let (b, h2) =
      passed (given s.private_key_file && not (c.loads_key s.private_key_file))
        (unreadable s.private_key_file) _ h1 in
    let (d, h3) =
      passed (given strict_file && not (c.loads_certificate strict_file)) (unreadable strict_file) _
        h2 in
    let (e, h4) =
      passed (given s.user_certificate_file && not (c.loads_certificate s.user_certificate_file))
        (unreadable s.user_certificate_file) _ h3 in
    let f =
      raise_if-ok (given s.user_private_key_file && not (c.loads_key s.user_private_key_file))
        (unreadable s.user_private_key_file) h4 in
    (
      loaded c.loads_certificate s.certificate_file a,
      loaded c.loads_key s.private_key_file b,
      loaded c.loads_certificate strict_file d,
      loaded c.loads_certificate s.user_certificate_file e,
      loaded c.loads_key s.user_private_key_file f,
    )

-- One `if test: raise` that passes, before the rest.
passes :
    {E : Type 0} (b : Bool) (e : E) (rest : Result E (Unit {0}))
    → b ≡ false
    → rest ≡ ok tt
    → (raise_if b e >> rest) ≡ ok tt
passes true e rest h k = cc
passes false e rest h k = k

passes_last : {E : Type 0} (b : Bool) (e : E) → b ≡ false → raise_if b e ≡ ok tt
passes_last true e h = cc
passes_last false e h = refl

then_ok :
    {E : Type 0} (first rest : Result E (Unit {0}))
    → first ≡ ok tt
    → rest ≡ ok tt
    → (first >> rest) ≡ ok tt
then_ok (ok t) rest h k = k
then_ok (raise e) rest h k = cc

check_modes-passes : (s : Settings) → PassedModes s → check_modes s ≡ ok tt
unfolding check_modes
check_modes-passes s m = passes _ unknown_mode _ m.mode (
    passes _ unknown_policy _ m.policy (
      passes _ client_pair _ m.client
        (passes _ user_pair _ m.user (passes_last _ user_needs_mode m.login))))

check_server-passes :
    (s : Settings)
    → not (contains server_certificate_policies s.server_certificate) ≡ false
    → (is_strict s && not (is_secure s)) ≡ false
    → (is_strict s && not (given s.server_certificate_file)) ≡ false
    → check_server s ≡ ok tt
unfolding check_server
check_server-passes s known mode file =
    passes _ unknown_trust _ known
      (passes _ strict_needs_mode _ mode (passes_last _ strict_needs_file file))

-- A file that is given does not fail to load.
abbrev LoadsGiven : (Text → Bool) → Text → Type 0
LoadsGiven loads path = (given path && not (loads path)) ≡ false

check_files-passes :
    (c : Certificates) (s : Settings)
    → LoadsGiven c.loads_certificate s.certificate_file
    → LoadsGiven c.loads_key s.private_key_file
    → LoadsGiven c.loads_certificate (if is_strict s then s.server_certificate_file else [])
    → LoadsGiven c.loads_certificate s.user_certificate_file
    → LoadsGiven c.loads_key s.user_private_key_file
    → check_files c s ≡ ok tt
unfolding check_files check_file
check_files-passes c s cert key pin user_cert user_key =
    passes _ (unreadable s.certificate_file) _ cert (
      passes _ (unreadable s.private_key_file) _ key (
        passes _ (unreadable (if is_strict s then s.server_certificate_file else [])) _ pin (
          passes _ (unreadable s.user_certificate_file) _ user_cert
            (passes_last _ (unreadable s.user_private_key_file) user_key))))

pair_of :
    (c : Certificates) (certificate key : Text)
    → differ (given certificate) (given key) ≡ false
    → Loads c.loads_certificate certificate
    → Loads c.loads_key key
    → IsLoadedPair c certificate key
pair_of c certificate key same load_certificate load_key = elim (Bool-cases (given certificate)) [
  | inl t ↦
      let paired : given key ≡ true = ground (arith, same, t) in
      inr (t, paired, load_certificate t, load_key paired)
  | inr f ↦ inl (f, ground (arith, same, f))
]

same_given :
    (c : Certificates) (certificate key : Text)
    → IsLoadedPair c certificate key
    → (differ (given certificate) (given key) ≡ false)
      × ((given certificate && not (c.loads_certificate certificate)) ≡ false)
      × ((given key && not (c.loads_key key)) ≡ false)
same_given c certificate key (inl (a, b)) =
    (ground (arith, a, b), ground (arith, a), ground (arith, b))
same_given c certificate key (inr (a, b, d, e)) =
    (ground (arith, a, b), ground (arith, d), ground (arith, e))

honored : (c : Certificates) (s : Settings) → validate_security c s ≡ ok tt → IsHonorable c s
unfolding validate_security
honored c s h =
    let (_, modes, h1) = >>=-eq-ok (check_modes s) _ h in
    let (_, server, files) = >>=-eq-ok (check_server s) _ h1 in
    let m = check_modes-ok s modes in
    let (known, strict_mode, strict_file) = check_server-ok s server in
    let (cert, key, pin, user_cert, user_key) = check_files-ok c s files in
    record {
      supported = elim (Bool-cases (is_secure s)) [
        | inl t ↦ inr (ground (arith, m.mode, t), ground (arith, m.policy, t))
        | inr f ↦ inl f
      ];
      client = pair_of c s.certificate_file s.private_key_file m.client cert key;
      user = pair_of c s.user_certificate_file s.user_private_key_file m.user user_cert user_key;
      login = elim (Bool-cases (is_secure s)) [
        | inl t ↦ inr t
        | inr f ↦ inl (ground (arith, m.login, f))
      ];
      judged = ground (arith, known);
      strict = elim (Bool-cases (is_strict s)) [
        | inl t ↦
            let file : given s.server_certificate_file ≡ true = ground (arith, strict_file, t) in
            inr (ground (arith, strict_mode, t), file, rw t at pin file)
        | inr f ↦ inl f
      ];
    }

-- Settings pass exactly where they can be honored as written: the mode is None, or it and its policy
-- are supported; the client's and the user's certificates come with their keys and all of them load;
-- a user certificate goes only with a secure channel; and the server's certificate is judged by the
-- trust list, or strictly over a secure channel by a certificate that loads.
pub validate_security-IsHonorable :
    (c : Certificates) (s : Settings) → (validate_security c s ≡ ok tt) ↔ IsHonorable c s
unfolding validate_security
validate_security-IsHonorable c s = (honored c s, λ h. accepted h)
  where
    left : {A B C : Type 0} → A ⊎ (B × C) → A ⊎ B
    left (inl a) = inl a
    left (inr (b, _)) = inr b

    right : {A B C : Type 0} → A ⊎ (B × C) → A ⊎ C
    right (inl a) = inl a
    right (inr (_, b)) = inr b

    refused_if : (a b : Bool) → (a ≡ false) ⊎ (b ≡ true) → (a && not b) ≡ false
    refused_if a b (inl e) = ground (arith, e)
    refused_if a b (inr e) = ground (arith, e)

    strictly :
        ((is_strict s ≡ true) ⊎ (is_strict s ≡ false))
        → ((is_strict s ≡ false)
            ⊎ ((is_secure s ≡ true)
                × (given s.server_certificate_file ≡ true)
                × (c.loads_certificate s.server_certificate_file ≡ true)))
        → ((is_strict s && not (is_secure s)) ≡ false)
          × ((is_strict s && not (given s.server_certificate_file)) ≡ false)
          × LoadsGiven c.loads_certificate (if is_strict s then s.server_certificate_file else [])
    strictly (inr f) h = (ground (arith, f), ground (arith, f), rw f refl)
    strictly (inl t) (inl f) = cc
    strictly (inl t) (inr (sec, file, loads)) =
        (ground (arith, sec), ground (arith, file), rw t (ground (arith, loads)))

    accepted : IsHonorable c s → validate_security c s ≡ ok tt
    accepted h =
        let (client, cert, key) = same_given c s.certificate_file s.private_key_file h.client in
        let (user, user_cert, user_key) =
          same_given c s.user_certificate_file s.user_private_key_file h.user in
        let modes : PassedModes s = record {
          mode =
              refused_if (is_secure s) (contains security_modes s.security_mode) (left h.supported);
          policy =
              refused_if (is_secure s) (contains security_policies s.security_policy)
                (right h.supported);
          client = client;
          user = user;
          login = refused_if (given s.user_certificate_file) (is_secure s) h.login;
        } in
        let (strict_mode, strict_file, pin) = strictly (Bool-cases (is_strict s)) h.strict in
        then_ok (check_modes s) _ (check_modes-passes s modes) (
          then_ok (check_server s) _
            (check_server-passes s (ground (arith, h.judged)) strict_mode strict_file)
            (check_files-passes c s cert key pin user_cert user_key))
