-- ===== src/Tests/Trust.antt =====
-- Security settings and the trust list.
use zelos_extension_opcua.Client.Security.Configured.{IsHonorable, validate_security-IsHonorable}
use zelos_extension_opcua.Client.Security.Trust.{IsSecured, apply_security-IsSecured}
use zelos_extension_opcua.Client.Security.{
  Mode, none_mode, sign, same_mode, Certificates, Settings, validate_security, Store, is_trusted,
  certificate_problems, Endpoint, Policy, Applied, starts_with, apply_security,
}
use zelos_extension_opcua.Prelude.{
  ◌≡◌, refl, ◌↔◌, true, false, none, List, [], ◌∷◌, nat_eq, In, ok, contains, Text, codes,
  same_text, text_eq,
}

-- A certificate that is valid from 10 to 20 is its own thumbprint.
abbrev certificates : Certificates
certificates = record {
  thumbprint = λ d. d;
  san_uris = λ d. codes "urn:plc" ∷ [];
  not_before = λ d. 10;
  not_after = λ d. 20;
  leaf = λ d. d;
  loads_certificate = λ path. true;
  loads_key = λ path. true;
  upper = λ s. s;
}

abbrev pinned_user : Settings
pinned_user = record {
  security_mode = codes "Sign";
  security_policy = codes "Basic256Sha256";
  certificate_file = codes "c";
  private_key_file = codes "k";
  server_certificate = codes "strict";
  server_certificate_file = codes "s";
  user_certificate_file = codes "u";
  user_private_key_file = codes "v";
}

validate_security-IsHonorable_example :
    (validate_security certificates pinned_user ≡ ok tt) ↔ IsHonorable certificates pinned_user
validate_security-IsHonorable_example = validate_security-IsHonorable certificates pinned_user

abbrev basic : Text
basic = codes "Basic256Sha256"

abbrev policy : Policy
policy = record {
  mode = sign;
  policy_uri = basic;
  has_user_certificate = true;
  scheme = codes "opc.tcp";
  pinned = none;
  allow_expired = false;
  seen_thumbprint = none;
}

abbrev offer : Mode → Endpoint
offer m = record {
  url = codes "opc.tcp://plc";
  mode = m;
  policy_uri = basic;
  takes_certificate = true;
  certificate = codes "DER";
  application_uri = codes "urn:plc";
}

abbrev store : Store
store = record { trusted = (codes "plc", codes "DER") ∷ []; rejected = [] }

abbrev offered_endpoints : List Endpoint
offered_endpoints = offer none_mode ∷ offer sign ∷ []

abbrev secured : Applied
secured = record {
  mode = sign;
  policy_uri = basic;
  server_certificate = codes "DER";
  warned_period = false;
  warned_uri = false;
  seen_thumbprint = codes "DER";
}

apply_security-IsSecured_example :
    (ep : Endpoint) × In ep offered_endpoints
    × IsSecured certificates policy 15 store secured ep
    × ((apply_security certificates policy 15 offered_endpoints store).1 ≡ store)
unfolding apply_security starts_with same_mode same_text is_trusted certificate_problems contains
apply_security-IsSecured_example =
    apply_security-IsSecured certificates policy 15 offered_endpoints store {a = secured} refl
