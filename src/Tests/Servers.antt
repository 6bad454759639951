-- ===== src/Tests/Servers.antt =====
-- The configuration.
use zelos_extension_opcua.Config.Names.{IsAccepted, resolve_servers-names}
use zelos_extension_opcua.Config.{
  Urls, Advanced, Entry, Resolved, trace_name, has_userinfo, default_server_name, resolved,
  check_entry, resolve_entries, resolve_servers,
}
use zelos_extension_opcua.NodeMap.Ids.{is_space, strip_left, strip_right, strip}
use zelos_extension_opcua.Prelude.{
  ◌≡◌, refl, true, false, none, some, List, [], ◌∷◌, map, nat_eq, All, contains, Distinct, insert,
  Text, codes, same_text, text_eq,
}

-- Every URL is its own host; names are kept.
abbrev plain_urls : Urls
plain_urls = record { netloc = λ e. e; hostname = λ e. some e; sanitize_name = λ s. s }

abbrev advanced : Advanced
advanced = record {
  defaults = record {
    security_mode = codes "Sign";
    security_policy = codes "Basic256Sha256";
    transport = codes "poll";
    min_update_interval = 60000;
    include = [];
    exclude = [];
    user_certificate_file = codes "u";
    user_private_key_file = codes "v";
  };
  shared = record {
    timeout = 5000;
    certificate_file = codes "c";
    private_key_file = codes "k";
    discovery = true;
  };
}

abbrev entry : Text → Text → Entry
entry name endpoint = record {
  name = name;
  endpoint = endpoint;
  node_map_file = [];
  poll_interval = 1000;
  server_certificate = codes "trust_list";
  server_certificate_file = [];
  allow_expired_server_certificate = false;
  security_mode = codes "None";
  security_policy = codes "default";
  transport = codes "default";
  min_update_interval = none;
  include = [];
  exclude = [];
  user_certificate_file = [];
  user_private_key_file = [];
}

abbrev two_servers : List Entry
two_servers = entry [] (codes "plc01") ∷ entry (codes "b") (codes "plc02") ∷ []

abbrev two_resolved : List Resolved
two_resolved =
    resolved plain_urls advanced (entry [] (codes "plc01")) (codes "plc01") (codes "plc01")
    ∷ resolved plain_urls advanced (entry (codes "b") (codes "plc02")) (codes "plc02") (codes "b")
    ∷ []

resolve_servers-names_example :
    (map (λ r. r.endpoint) two_resolved ≡ map (λ s. strip s.endpoint) two_servers)
    × Distinct (map (λ r. r.name) two_resolved)
    × All (IsAccepted plain_urls advanced []) two_resolved
unfolding resolve_servers contains same_text resolve_entries check_entry strip_right strip_left
    is_space has_userinfo trace_name default_server_name insert
resolve_servers-names_example =
    resolve_servers-names plain_urls advanced (codes "servers" ∷ []) two_servers {rs = two_resolved}
      refl
