-- ===== src/Config.antt =====
-- The configuration of the servers: zelos_extension_opcua/cli/app.py, `trace_name`, `_inherit`,
-- `reject_legacy_shape` and `resolve_servers`, with `has_userinfo` and `default_server_name` of
-- zelos_extension_opcua/client.py. An exit is an error. Intervals are whole milliseconds, and an
-- entry has its defaults (SERVER_DEFAULTS) filled in. `urlparse` and the SDK's name sanitizer are
-- parameters.
pub mod Names
pub mod Inherit
use zelos_extension_opcua.NodeMap.Ids.{strip}
use zelos_extension_opcua.Prelude.{
  ℕ, ◌+◌, Bool, not, ◌&&◌, ◌||◌, Option, none, some, List, [], ◌∷◌, eqb, if◌then◌else◌, ◌==◌,
  nat_eq, length, keep_if, Result, ok, ◌>>=◌, ◌>>◌, raise_if, Dict, keys, contains, lookup, insert,
  Text, codes, text_eq, is_empty, text_or,
}

pub record Urls : Type 0 where
  pub netloc : Text → Text
  pub hostname : Text → Option Text
  pub sanitize_name : Text → Text

-- The inherited settings.
pub record Effective : Type 0 where
  pub security_mode : Text
  pub security_policy : Text
  pub transport : Text
  pub min_update_interval : ℕ
  pub include : List Text
  pub exclude : List Text
  pub user_certificate_file : Text
  pub user_private_key_file : Text

-- `_SHARED`
pub record SharedSettings : Type 0 where
  pub timeout : ℕ
  pub certificate_file : Text
  pub private_key_file : Text
  pub discovery : Bool

pub record Advanced : Type 0 where
  pub defaults : Effective
  pub shared : SharedSettings

-- One `servers[]` entry; None is `none`.
pub record Entry : Type 0 where
  pub name : Text
  pub endpoint : Text
  pub node_map_file : Text
  pub poll_interval : ℕ
  pub server_certificate : Text
  pub server_certificate_file : Text
  pub allow_expired_server_certificate : Bool
  pub security_mode : Text
  pub security_policy : Text
  pub transport : Text
  pub min_update_interval : Option ℕ
  pub include : List Text
  pub exclude : List Text
  pub user_certificate_file : Text
  pub user_private_key_file : Text

-- The arguments of one client.
pub record Resolved : Type 0 where
  pub name : Text
  pub endpoint : Text
  pub node_map_file : Text
  pub poll_interval : ℕ
  pub server_certificate : Text
  pub server_certificate_file : Text
  pub allow_expired_server_certificate : Bool
  pub effective : Effective
  pub shared : SharedSettings
  pub downgrade_from : Text

pub data ConfigError : Type 0 where
  legacy_shape : List Text → ConfigError
  no_servers : ConfigError
  no_endpoint : ℕ → ConfigError
  userinfo : Text → ConfigError
  reserved_name : Text → Text → ConfigError
  same_name : Option Text → Text → Text → ConfigError

abbrev pub top_level_keys : List Text
top_level_keys = codes "demo" ∷ codes "servers" ∷ codes "advanced" ∷ []

abbrev pub reserved_names : List Text
reserved_names = codes "log" ∷ codes "opcua_log" ∷ []

unfoldable pub trace_name : Urls → Text → Text
trace_name u value = if is_empty (strip value) then [] else u.sanitize_name (strip value)

unfoldable pub has_userinfo : Urls → Text → Bool
has_userinfo u endpoint = contains (u.netloc (strip endpoint)) b'@'

-- An empty host is no host.
abbrev pub host_or : Option Text → Text → Text
host_or none endpoint = endpoint
host_or (some host) endpoint = text_or host endpoint

unfoldable pub default_server_name : Urls → Text → Text
default_server_name u endpoint = u.sanitize_name (host_or (u.hostname endpoint) endpoint)

-- `advanced[k] if server[k] in ("", "default", None, []) else server[k]`
unfoldable pub own_text : Text → Text → Text
own_text own inherited = if is_empty own || own == codes "default" then inherited else own

abbrev pub own_number : Option ℕ → ℕ → ℕ
own_number none inherited = inherited
own_number (some n) inherited = n

abbrev pub own_list : List Text → List Text → List Text
own_list [] inherited = inherited
own_list (x ∷ xs) inherited = x ∷ xs

unfoldable pub inherit : Entry → Effective → Effective
inherit s a =
    let own_user = not (is_empty s.user_certificate_file && is_empty s.user_private_key_file) in
    record {
      security_mode = own_text s.security_mode a.security_mode;
      security_policy = own_text s.security_policy a.security_policy;
      transport = own_text s.transport a.transport;
      min_update_interval = own_number s.min_update_interval a.min_update_interval;
      include = own_list s.include a.include;
      exclude = own_list s.exclude a.exclude;
      user_certificate_file = if own_user then s.user_certificate_file else a.user_certificate_file;
      user_private_key_file = if own_user then s.user_private_key_file else a.user_private_key_file;
    }

abbrev pub is_none_mode : Text → Bool
is_none_mode mode = mode == codes "None"

-- A per-server None under a secure default.
unfoldable pub downgrade : Effective → Effective → Text
downgrade a effective =
    if not (is_empty a.security_mode || is_none_mode a.security_mode)
      && is_none_mode effective.security_mode
    then a.security_mode
    else []

module _ (u : Urls) (a : Advanced) where
  abbrev pub name_of : Entry → Text → Text
  name_of s endpoint = text_or (trace_name u s.name) (default_server_name u endpoint)

  unfoldable pub resolved : Entry → Text → Text → Resolved
  resolved s endpoint name = record {
    name = name;
    endpoint = endpoint;
    node_map_file = s.node_map_file;
    poll_interval = s.poll_interval;
    server_certificate = s.server_certificate;
    server_certificate_file = s.server_certificate_file;
    allow_expired_server_certificate = s.allow_expired_server_certificate;
    effective = inherit s a.defaults;
    shared = a.shared;
    downgrade_from = downgrade a.defaults (inherit s a.defaults);
  }

  -- The guards of one entry, with the names seen and their endpoints.
  unfoldable pub check_entry : ℕ → Text → Text → Dict Text Text → Result ConfigError (Unit {0})
  check_entry i endpoint name seen = do
    raise_if (is_empty endpoint) (no_endpoint i)
    raise_if (has_userinfo u endpoint) (userinfo name)
    raise_if (contains reserved_names name) (reserved_name endpoint name)
    raise_if (contains (keys seen) name) (same_name (lookup name seen) endpoint name)

  unfoldable pub resolve_entries :
      ℕ → Dict Text Text → List Entry → Result ConfigError (List Resolved)
  resolve_entries i seen [] = ok []
  resolve_entries i seen (s ∷ servers) =
      let endpoint = strip s.endpoint in
      let name = name_of s endpoint in
      do
        check_entry i endpoint name seen
        rest ← resolve_entries (i + 1) (insert name endpoint seen) servers
        ok (resolved s endpoint name ∷ rest)

  -- `resolve_servers`, of the top-level keys and the list of servers
  unfoldable pub resolve_servers : List Text → List Entry → Result ConfigError (List Resolved)
  resolve_servers top_level servers =
      let legacy = keep_if (λ k. not (contains top_level_keys k)) top_level in
      do
        raise_if (not (eqb (length legacy) 0)) (legacy_shape legacy)
        raise_if (eqb (length servers) 0) no_servers
        resolve_entries 0 [] servers
