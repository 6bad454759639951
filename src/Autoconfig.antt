-- ===== src/Autoconfig.antt =====
-- Checking and finding servers for the configuration form: `_endpoints`, `_lds_urls`, `_offers`,
-- `_security`, `_server_entry`, `_Report`, `check_servers` and `probe` of
-- zelos_extension_opcua/autoconfig.py, with `offered_security` of zelos_extension_opcua/client.py.
-- A server's reply is a function of the URL; URLs are read by `Web`. A message is a value that
-- names the sentence and what is filled in.
pub mod Fresh
pub mod Offered
pub mod Report
pub mod Probed
use zelos_extension_opcua.Prelude.{
  ℕ, zero, suc, ◌+◌, Bool, true, false, ◌&&◌, Option, none, some, List, [], ◌∷◌, ◌++◌, map,
  if◌then◌else◌, ◌==◌, nat_eq, length, keep_if, any_of, find_first, Dict, contains, Text, codes,
  text_eq, text_or, split_parts, split, sort_by, text_le,
}
use zelos_extension_opcua.Config.{Urls, has_userinfo}
use zelos_extension_opcua.Client.Security.{
  Mode, none_mode, sign, sign_and_encrypt, same_mode, starts_with,
}
use zelos_extension_opcua.Discovery.Naming.{index_text}

pub record Web : Type 0 where
  pub urls : Urls
  -- `urlparse(url).scheme` and `.path`
  pub scheme : Text → Text
  pub path : Text → Text
  -- `_POLICY_NAMES.get(uri)`
  pub policy_name : Text → Option Text
  -- `ua.OPC_TCP_SCHEME`
  pub opc_tcp_scheme : Text

-- An endpoint description; a text the server leaves out is empty.
pub record Description : Type 0 where
  pub mode : Mode
  pub policy_uri : Text
  pub endpoint_url : Text
  pub application_uri : Text
  pub application_name : Text

-- `FoundServer`: its endpoints are never empty.
pub record FoundServer : Type 0 where
  pub url : Text
  pub first : Description
  pub others : List Description

abbrev pub endpoints : FoundServer → List Description
endpoints f = f.first ∷ f.others

-- `FoundServer.key`
abbrev pub key : FoundServer → Text
key f = text_or f.first.application_uri f.url

-- What `connect_and_get_server_endpoints` does.
pub data Reply : Type 0 where
  no_socket : Reply
  raised : Reply
  sent : List Description → Reply

-- What `_endpoints` returns.
pub data Contact : Type 0 where
  credentials : Contact
  unreachable : Contact
  failed : Contact
  answered : FoundServer → Contact

abbrev pub contact_of : Text → Reply → Contact
contact_of url no_socket = unreachable
contact_of url raised = failed
contact_of url (sent []) = failed
contact_of url (sent (d ∷ ds)) = answered (record { url = url; first = d; others = ds })

-- `_endpoints`
unfoldable pub contact : Web → (Text → Reply) → Text → Contact
contact w ask url = if has_userinfo w.urls url then credentials else contact_of url (ask url)

-- An application that a discovery server knows of; no DiscoveryUrls is the empty list.
pub record Application : Type 0 where
  pub is_discovery_server : Bool
  pub discovery_urls : List Text

-- `_lds_urls`; a discovery server that does not answer is `none`.
unfoldable pub lds_urls : Web → Option (List Application) → List Text
lds_urls w none = []
lds_urls w (some []) = []
lds_urls w (some (a ∷ apps)) =
    (if a.is_discovery_server then [] else keep_if (starts_with w.opc_tcp_scheme) a.discovery_urls)
    ++ lds_urls w (some apps)

-- `SECURITY_MODES.get(mode)`, compared
abbrev pub is_mode : Text → Mode → Bool
is_mode mode sign = mode == codes "Sign"
is_mode mode sign_and_encrypt = mode == codes "SignAndEncrypt"
is_mode mode none_mode = false

abbrev pub is_named : Text → Option Text → Bool
is_named policy none = false
is_named policy (some name) = name == policy

unfoldable pub is_pair : Web → Text × Text → Description → Bool
is_pair w (mode, policy) d = is_mode mode d.mode && is_named policy (w.policy_name d.policy_uri)

-- `_offers`
unfoldable pub offers : Web → List Description → Text × Text → Bool
offers w ds (mode, policy) =
    if mode == codes "None"
    then any_of (λ d. same_mode d.mode none_mode) ds
    else any_of (is_pair w (mode, policy)) ds

-- POLICY_RANK
abbrev pub policy_rank : List Text
policy_rank = codes "Aes256Sha256RsaPss" ∷ codes "Aes128Sha256RsaOaep" ∷ codes "Basic256Sha256" ∷ []

-- The secure pairs in the order of the two loops.
abbrev pub ranked : List (Text × Text)
ranked =
    map (λ p. (codes "SignAndEncrypt", p)) policy_rank ++ map (λ p. (codes "Sign", p)) policy_rank

abbrev pub by_default : Text × Text
by_default = (codes "default", codes "default")

abbrev pub no_security : Text × Text
no_security = (codes "None", codes "None")

abbrev pub choice_or_default : Bool → Option (Text × Text) → Option (Text × Text)
choice_or_default bare (some pair) = some pair
choice_or_default true none = some by_default
choice_or_default false none = none

-- `_security`
unfoldable pub security : Web → List Description → Text × Text → Option (Text × Text)
security w ds advanced =
    if offers w ds advanced
    then some by_default
    else choice_or_default (offers w ds no_security) (find_first (offers w ds) ranked)

-- `ep.SecurityMode.name.rstrip("_")`
abbrev pub mode_name : Mode → Text
mode_name none_mode = codes "None"
mode_name sign = codes "Sign"
mode_name sign_and_encrypt = codes "SignAndEncrypt"

-- `uri.rsplit("#", 1)[-1]`: what stands after the last one, if there is one
abbrev pub last_piece : List Text → Text → Text
last_piece [] piece = piece
last_piece (p ∷ ps) piece = last_piece ps p

abbrev pub pair_name : Description → Text
pair_name d =
    let pieces = split b'#' d.policy_uri in
    mode_name d.mode
    ++ b'/' ∷ last_piece (split_parts b'#' d.policy_uri).1 (split_parts b'#' d.policy_uri).0

-- `{f(x) for x in xs}`
unfoldable pub distinct_texts : List Text → List Text
distinct_texts [] = []
distinct_texts (x ∷ xs) = let rest = distinct_texts xs in if contains rest x then rest else x ∷ rest

-- `", ".join(parts)`
unfoldable pub listed : List Text → Text
listed [] = []
listed (p ∷ []) = p
listed (p ∷ q ∷ ps) = p ++ codes ", " ++ listed (q ∷ ps)

-- `offered_security`
unfoldable pub offered_security : List Description → Text
offered_security ds =
    text_or (listed (sort_by text_le (distinct_texts (map pair_name ds)))) (codes "no endpoints")

-- A `servers[]` entry of the form; what is not read is `others`, what is missing is empty.
pub record FormEntry : Type 0 where
  pub name : Text
  pub endpoint : Text
  pub security_mode : Text
  pub security_policy : Text
  pub others : Dict Text Text

-- `f"{base}_{k}"`
abbrev pub numbered : Text → ℕ → Text
numbered base k = base ++ b'_' ∷ index_text k k

-- `while name in taken`, which takes at most one round more than there are names taken.
unfoldable pub free_name : List Text → Text → ℕ → ℕ → Text → Text
free_name taken base zero k name = name
free_name taken base (suc fuel) k name =
    let later = free_name taken base fuel (k + 1) (numbered base k) in
    if contains taken name then later else name

-- `urlparse(url).hostname or "server"`
abbrev pub host_or_server : Option Text → Text
host_or_server none = codes "server"
host_or_server (some host) = text_or host (codes "server")

abbrev pub server_label : Web → FoundServer → Text
server_label w f = text_or f.first.application_name (host_or_server (w.urls.hostname f.url))

abbrev pub base_name : Web → FoundServer → Text
base_name w f = w.urls.sanitize_name (server_label w f)

-- `_server_entry`, whose name is then among those taken
unfoldable pub server_entry : Web → FoundServer → Text × Text → List Text → FormEntry
server_entry w f (mode, policy) taken = record {
  name = free_name taken (base_name w f) (suc (suc (length taken))) 2 (base_name w f);
  endpoint = w.scheme f.url ++ codes "://" ++ w.urls.netloc f.url ++ w.path f.first.endpoint_url;
  security_mode = mode;
  security_policy = policy;
  others = [];
}
