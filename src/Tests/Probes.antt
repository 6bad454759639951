-- ===== src/Tests/Probes.antt =====
-- Three servers on one machine, one of them found twice.
use zelos_extension_opcua.Discovery.Naming.{index_text}
use zelos_extension_opcua.Config.{has_userinfo}
use zelos_extension_opcua.NodeMap.Ids.{is_space, strip_left, strip_right}
use zelos_extension_opcua.Autoconfig.Offered.{IsChoice, security-IsChoice}
use zelos_extension_opcua.Autoconfig.Report.Checked.{IsChecked, check-IsChecked}
use zelos_extension_opcua.Autoconfig.Report.Kept.{AllKept, check_servers-AllKept}
use zelos_extension_opcua.Autoconfig.Probed.{IsKnown, Entered, probe-IsEntered}
use zelos_extension_opcua.Prelude.{
  ◌≡◌, refl, ap, ◌∙◌, inr, true, false, none, some, List, [], ◌∷◌, ◌++◌, map, if◌then◌else◌, ◌==◌,
  nat_eq, take, drop, All, Dict, keys, values, contains, Distinct, insert, Text, codes, same_text,
  text_eq,
}
use zelos_extension_opcua.Client.Security.{
  Mode, none_mode, sign, sign_and_encrypt, same_mode, starts_with,
}
use zelos_extension_opcua.Autoconfig.{
  Web, Description, FoundServer, endpoints, Reply, no_socket, sent, contact, Application, lds_urls,
  is_pair, offers, no_security, security, FormEntry, free_name, server_entry,
}
use zelos_extension_opcua.Autoconfig.Report.{
  Clause, new_report, policy_of, mode_of, effective, judge, check_chosen, check, Answer,
  success_answer, result, check_all, check_servers, enter_all, unique_of, local_urls, found_servers,
  probe,
}

-- URLs of the form `opc.tcp://host`, and policies named by their URIs.
abbrev plain_web : Web
plain_web = record {
  urls = record { netloc = drop 10; hostname = λ url. some (drop 10 url); sanitize_name = λ s. s };
  scheme = take 7;
  path = λ url. [];
  policy_name = some;
  opc_tcp_scheme = codes "opc.tcp";
}

abbrev described : Mode → Text → Text → Description
described mode policy application = record {
  mode = mode;
  policy_uri = policy;
  endpoint_url = [];
  application_uri = application;
  application_name = codes "plc";
}

-- A server on the first port, one without security on the second, and the first again elsewhere.
abbrev replies : Text → Reply
replies url =
    if drop 20 url == codes "4840"
    then sent (
        described sign (codes "Basic256Sha256") (codes "a")
        ∷ described sign_and_encrypt (codes "Basic256Sha256") (codes "a")
        ∷ [])
    else if drop 20 url == codes "4841"
    then sent (described none_mode (codes "None") (codes "b") ∷ [])
    else if drop 10 url == codes "box"
    then sent (described sign (codes "Basic256Sha256") (codes "a") ∷ [])
    else no_socket

abbrev known_applications : List Application
known_applications =
    record { is_discovery_server = false; discovery_urls = codes "opc.tcp://box" ∷ [] } ∷ []

abbrev probed_entries : List FormEntry
probed_entries =
    record {
      name = codes "plc";
      endpoint = codes "opc.tcp://localhost:4840";
      security_mode = codes "SignAndEncrypt";
      security_policy = codes "Basic256Sha256";
      others = [];
    }
    ∷ record {
      name = codes "plc_2";
      endpoint = codes "opc.tcp://localhost:4841";
      security_mode = codes "default";
      security_policy = codes "default";
      others = [];
    }
    ∷ []

abbrev clauses_shown : List Clause
clauses_shown =
    record {
      label = some (codes "plc");
      url = codes "opc.tcp://localhost:4840";
      shown = some (codes "SignAndEncrypt", codes "Basic256Sha256");
      origin = codes "added";
    }
    ∷ record {
      label = some (codes "plc");
      url = codes "opc.tcp://localhost:4841";
      shown = none;
      origin = codes "added";
    }
    ∷ []

abbrev all_urls : List Text
all_urls = local_urls ++ lds_urls plain_web (some known_applications) ++ []

abbrev first_server : FoundServer
first_server = record {
  url = codes "opc.tcp://localhost:4840";
  first = described sign (codes "Basic256Sha256") (codes "a");
  others = described sign_and_encrypt (codes "Basic256Sha256") (codes "a") ∷ [];
}

abbrev bare_server : FoundServer
bare_server = record {
  url = codes "opc.tcp://localhost:4841";
  first = described none_mode (codes "None") (codes "b");
  others = [];
}

abbrev two_found : Dict Text FoundServer
two_found = (codes "a", first_server) ∷ (codes "b", bare_server) ∷ []

servers_found : found_servers plain_web replies (some known_applications) [] ≡ two_found
unfolding found_servers unique_of lds_urls starts_with contact has_userinfo contains strip_right
    strip_left is_space same_text index_text insert
servers_found = refl

abbrev entries_of : Dict Text FoundServer → Answer
entries_of unique =
    let (servers, report) = enter_all plain_web no_security (values unique) [] new_report in
    result report servers

entered_two : entries_of two_found ≡ success_answer clauses_shown [] true probed_entries
unfolding result enter_all check same_text server_entry check_chosen security offers same_mode judge
    is_pair free_name contains index_text
entered_two = refl

probed :
    probe plain_web no_security replies (some known_applications) []
    ≡ success_answer clauses_shown [] true probed_entries
unfolding probe
probed = ap entries_of servers_found ∙ entered_two

probe-IsEntered_example :
    All
      (IsKnown (found_servers plain_web replies (some known_applications) []))
      (map (contact plain_web replies) all_urls)
    × Distinct (keys (found_servers plain_web replies (some known_applications) []))
    × Entered plain_web no_security
        (values (found_servers plain_web replies (some known_applications) []))
        probed_entries
    × Distinct (map (λ e. e.name) probed_entries)
probe-IsEntered_example =
    probe-IsEntered plain_web no_security replies (some known_applications) [] clauses_shown [] true
      probed_entries probed

abbrev on_form : FormEntry
on_form = record {
  name = codes "press";
  endpoint = codes "opc.tcp://localhost:4840";
  security_mode = [];
  security_policy = [];
  others = [];
}

abbrev on_form_filled : FormEntry
on_form_filled = record on_form {
  security_mode = codes "SignAndEncrypt";
  security_policy = codes "Basic256Sha256";
}

abbrev one_clause : List Clause
one_clause =
    record {
      label = some (codes "plc");
      url = codes "opc.tcp://localhost:4840";
      shown = some (codes "SignAndEncrypt", codes "Basic256Sha256");
      origin = codes "already in the form";
    }
    ∷ []

check_servers-AllKept_example :
    AllKept plain_web no_security replies (on_form ∷ []) (on_form_filled ∷ [])
unfolding check_servers result check_all contact has_userinfo contains strip_right strip_left
    is_space same_text check check_chosen security offers same_mode is_pair judge
check_servers-AllKept_example =
    check_servers-AllKept plain_web no_security replies (on_form ∷ []) one_clause [] true
      (on_form_filled ∷ []) (inr refl, tt) refl

abbrev press : FoundServer
press = record {
  url = codes "opc.tcp://localhost:4840";
  first = described sign (codes "Basic256Sha256") (codes "a");
  others = [];
}

check-IsChecked_example :
    IsChecked plain_web no_security press on_form new_report
      (check plain_web no_security press (codes "added") on_form new_report)
check-IsChecked_example =
    check-IsChecked plain_web no_security press (codes "added") on_form new_report (inr refl)

security-IsChoice_example :
    IsChoice plain_web
      (endpoints press)
      no_security
      (security plain_web (endpoints press) no_security)
security-IsChoice_example = security-IsChoice plain_web (endpoints press) no_security

-- The mode is left at "default", the policy is not.
abbrev on_form_policy : FormEntry
on_form_policy = record on_form { security_policy = codes "Aes256Sha256RsaPss" }

abbrev signed_by_default : Text × Text
signed_by_default = (codes "Sign", codes "Basic256Sha256")

-- The entry passes, though the server does not offer what it connects with.
on_form_policy-check :
    ((check plain_web signed_by_default press (codes "added") on_form_policy new_report).0 ≡ true)
    × (offers plain_web
          (endpoints press)
          (effective signed_by_default (mode_of on_form_policy) (policy_of on_form_policy))
        ≡ false)
unfolding check same_text check_chosen security offers is_pair judge
on_form_policy-check = (refl, refl)
