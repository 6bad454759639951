-- ===== src/Client/Security.antt =====
-- `validate_security`, the certificate store (`is_trusted`, `reject`, `trust`),
-- `certificate_problems`, and `OPCUAClient._apply_security` of zelos_extension_opcua/client.py.
-- Certificates and keys are read by the cryptography package: its answers are `Certificates`.
pub mod Configured
pub mod Trust
use zelos_extension_opcua.Prelude.{
  ℕ, Bool, true, false, not, ◌&&◌, Option, none, some, List, [], ◌∷◌, ltb, if◌then◌else◌, ◌==◌,
  nat_eq, keep_if, any_of, find_first, Result, ok, raise, ◌>>=◌, ◌>>◌, raise_if, Dict, contains,
  lookup, insert, erase, Text, codes, text_eq, is_empty,
}

-- `MessageSecurityMode`
pub data Mode : Type 0 where
  none_mode sign sign_and_encrypt : Mode

unfoldable pub same_mode : Mode → Mode → Bool
same_mode none_mode none_mode = true
same_mode sign sign = true
same_mode sign_and_encrypt sign_and_encrypt = true
same_mode _ _ = false

abbrev pub Der : Type 0
Der = List ℕ

pub record Certificates : Type 0 where
  -- SHA-1 of the DER, in upper case hex
  pub thumbprint : Der → Text
  pub san_uris : Der → List Text
  pub not_before : Der → ℕ
  pub not_after : Der → ℕ
  -- the leaf of a chain
  pub leaf : Der → Der
  -- `load_cert_der` and `_load_private_key` of a path raise nothing
  pub loads_certificate : Text → Bool
  pub loads_key : Text → Bool
  -- `str.upper`
  pub upper : Text → Text

pub record Settings : Type 0 where
  pub security_mode : Text
  pub security_policy : Text
  pub certificate_file : Text
  pub private_key_file : Text
  pub server_certificate : Text
  pub server_certificate_file : Text
  pub user_certificate_file : Text
  pub user_private_key_file : Text

pub data SettingsError : Type 0 where
  unknown_mode unknown_policy client_pair user_pair user_needs_mode : SettingsError
  unknown_trust strict_needs_mode strict_needs_file : SettingsError
  unreadable : Text → SettingsError

-- The keys of SECURITY_MODES and SECURITY_POLICIES, and SERVER_CERTIFICATE_POLICIES.
abbrev pub security_modes : List Text
security_modes = codes "Sign" ∷ codes "SignAndEncrypt" ∷ []

abbrev pub security_policies : List Text
security_policies =
    codes "Basic256Sha256" ∷ codes "Aes128Sha256RsaOaep" ∷ codes "Aes256Sha256RsaPss" ∷ []

abbrev pub server_certificate_policies : List Text
server_certificate_policies = codes "trust_list" ∷ codes "strict" ∷ []

-- The truth of a text.
abbrev pub given : Text → Bool
given s = not (is_empty s)

abbrev pub is_secure : Settings → Bool
is_secure s = not (s.security_mode == codes "None")

abbrev pub is_strict : Settings → Bool
is_strict s = s.server_certificate == codes "strict"

abbrev pub differ : Bool → Bool → Bool
differ true b = not b
differ false b = b

-- `if path: try: load(path)`
unfoldable pub check_file : (Text → Bool) → Text → Result SettingsError (Unit {0})
check_file loads path = raise_if (given path && not (loads path)) (unreadable path)

unfoldable pub check_modes : Settings → Result SettingsError (Unit {0})
check_modes s = do
  raise_if (is_secure s && not (contains security_modes s.security_mode)) unknown_mode
  raise_if (is_secure s && not (contains security_policies s.security_policy)) unknown_policy
  raise_if (differ (given s.certificate_file) (given s.private_key_file)) client_pair
  raise_if (differ (given s.user_certificate_file) (given s.user_private_key_file)) user_pair
  raise_if (given s.user_certificate_file && not (is_secure s)) user_needs_mode

unfoldable pub check_server : Settings → Result SettingsError (Unit {0})
check_server s = do
  raise_if (not (contains server_certificate_policies s.server_certificate)) unknown_trust
  raise_if (is_strict s && not (is_secure s)) strict_needs_mode
  raise_if (is_strict s && not (given s.server_certificate_file)) strict_needs_file

unfoldable pub check_files : Certificates → Settings → Result SettingsError (Unit {0})
unfolding check_file
check_files c s = do
  check_file c.loads_certificate s.certificate_file
  check_file c.loads_key s.private_key_file
  check_file c.loads_certificate (if is_strict s then s.server_certificate_file else [])
  check_file c.loads_certificate s.user_certificate_file
  check_file c.loads_key s.user_private_key_file

-- `validate_security`
unfoldable pub validate_security : Certificates → Settings → Result SettingsError (Unit {0})
unfolding check_modes check_server check_files
validate_security c s = do check_modes s; check_server s; check_files c s

-- The certificate store, by file stem: PKI_DIR/trusted and PKI_DIR/rejected.
pub record Store : Type 0 where
  pub trusted : Dict Text Der
  pub rejected : Dict Text Der

-- `is_trusted`: by content, whatever the file's name
unfoldable pub is_trusted : Store → Der → Bool
is_trusted st der = any_of (λ e. e.1 == der) st.trusted

-- `reject`
unfoldable pub reject : Certificates → Store → Der → Store
reject c st der = record st { rejected = insert (c.thumbprint der) der st.rejected }

-- `sha1.replace(":", "").replace(" ", "").upper()`
abbrev pub wanted_thumbprint : Certificates → Text → Text
wanted_thumbprint c s = c.upper (keep_if (λ x. not (x == b':') && not (x == b' ')) s)

-- `{p.stem.upper(): p for p in ...}`: a later file takes the place of an earlier one
unfoldable pub by_upper_stem :
    Certificates → Dict Text Der → Dict Text (Text × Der) → Dict Text (Text × Der)
by_upper_stem c [] acc = acc
by_upper_stem c ((stem, der) ∷ rest) acc =
    by_upper_stem c rest (insert (c.upper stem) (stem, der) acc)

pub data TrustError : Type 0 where
  no_rejected : Text → TrustError
  thumbprint_missing : TrustError

-- `trust`: the file moves, so it is no longer among those rejected.
unfoldable pub trust : Certificates → Store → Text → Result TrustError (Store × Der)
unfolding by_upper_stem
trust c st sha1 =
    let wanted = wanted_thumbprint c sha1 in
    elim (lookup wanted (by_upper_stem c st.rejected [])) [
      | none ↦ raise (if is_empty wanted then thumbprint_missing else no_rejected wanted)
      | some (stem, der) ↦ ok (
        record { trusted = insert wanted der st.trusted; rejected = erase stem st.rejected },
        der,
      )
    ]

pub data Period : Type 0 where
  valid expired not_yet : Period

-- `certificate_problems`: whether the ApplicationUri is missing, and the validity problem
unfoldable pub certificate_problems : Certificates → ℕ → Der → Text → Bool × Period
certificate_problems c now der application_uri = (
  not (contains (c.san_uris der) application_uri),
  if ltb (c.not_after der) now
      then expired
      else if ltb now (c.not_before der)
      then not_yet
      else valid,
)

pub record Endpoint : Type 0 where
  pub url : Text
  pub mode : Mode
  pub policy_uri : Text
  -- a Certificate token is among its UserIdentityTokens
  pub takes_certificate : Bool
  pub certificate : Der
  pub application_uri : Text

-- What `_apply_security` reads of the client.
pub record Policy : Type 0 where
  pub mode : Mode
  pub policy_uri : Text
  pub has_user_certificate : Bool
  -- `ua.OPC_TCP_SCHEME`
  pub scheme : Text
  -- `_pinned_server_cert`
  pub pinned : Option Der
  pub allow_expired : Bool
  -- `_server_thumbprint`
  pub seen_thumbprint : Option Text

pub data SecurityError : Type 0 where
  not_offered no_certificate_login pin_mismatch : SecurityError
  not_trusted : Der → Bool → Period → SecurityError
  outside_period : Der → Period → SecurityError

-- The call of `client.set_security`, and what is logged and kept on the way.
pub record Applied : Type 0 where
  pub mode : Mode
  pub policy_uri : Text
  pub server_certificate : Der
  pub warned_period : Bool
  pub warned_uri : Bool
  pub seen_thumbprint : Text

unfoldable pub starts_with : Text → Text → Bool
starts_with [] s = true
starts_with (c ∷ p) [] = false
starts_with (c ∷ p) (d ∷ s) = c == d && starts_with p s

abbrev pub is_offer : Policy → Endpoint → Bool
is_offer p ep =
    starts_with p.scheme ep.url && same_mode ep.mode p.mode && ep.policy_uri == p.policy_uri

abbrev pub is_valid : Period → Bool
is_valid valid = true
is_valid _ = false

abbrev pub was_seen : Option Text → Text → Bool
was_seen none s = false
was_seen (some t) s = t == s

-- The checks after the certificate is accepted, and `set_security`.
unfoldable pub accept : Certificates → Policy → Bool → Period → Der → Result SecurityError Applied
accept c p uri period server_cert =
    if not (is_valid period) && not p.allow_expired
    then raise (outside_period server_cert period)
    else ok (record {
      mode = p.mode;
      policy_uri = p.policy_uri;
      server_certificate = server_cert;
      warned_period = not (is_valid period);
      warned_uri = uri && not (was_seen p.seen_thumbprint (c.thumbprint server_cert));
      seen_thumbprint = c.thumbprint server_cert;
    })

-- The trust decision: the pin, or the trust list, where an unknown certificate is saved.
unfoldable pub decide_trust :
    Certificates → Policy → Store → Bool → Period → Der → Result SecurityError Applied × Store
unfolding accept
decide_trust c p st uri period server_cert = elim p.pinned [
  | some pin ↦
      if server_cert == pin
      then (accept c p uri period server_cert, st)
      else (raise pin_mismatch, st)
  | none ↦
      if is_trusted st server_cert
      then (accept c p uri period server_cert, st)
      else (raise (not_trusted server_cert uri period), reject c st server_cert)
]

-- The steps of `_apply_security` after the endpoint is looked for.
unfoldable pub secure_endpoint :
    Certificates → Policy → ℕ → Store → Option Endpoint → Result SecurityError Applied × Store
unfolding decide_trust
secure_endpoint c p now st none = (raise not_offered, st)
secure_endpoint c p now st (some ep) =
    if p.has_user_certificate && not ep.takes_certificate
    then (raise no_certificate_login, st)
    else let server_cert = c.leaf ep.certificate in
      let (uri, period) = certificate_problems c now server_cert ep.application_uri in
      decide_trust c p st uri period server_cert

-- `OPCUAClient._apply_security`, given the reply of GetEndpoints and the time.
unfoldable pub apply_security :
    Certificates → Policy → ℕ → List Endpoint → Store → Result SecurityError Applied × Store
unfolding secure_endpoint
apply_security c p now endpoints st = secure_endpoint c p now st (find_first (is_offer p) endpoints)
