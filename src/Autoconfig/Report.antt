-- ===== src/Autoconfig/Report.antt =====
-- The report of an auto-configuration: `_Report`, `check_servers` and `probe` of
-- zelos_extension_opcua/autoconfig.py.
pub mod Checked
pub mod Kept
use zelos_extension_opcua.Prelude.{
  ℕ, Bool, true, false, not, ◌&&◌, ◌||◌, Option, none, some, List, [], ◌∷◌, ◌++◌, map,
  if◌then◌else◌, ◌==◌, nat_eq, Dict, keys, values, contains, insert, Text, codes, text_eq, is_empty,
  text_or,
}
use zelos_extension_opcua.Discovery.Naming.{index_text}
use zelos_extension_opcua.Autoconfig.{
  Web, FoundServer, endpoints, key, Reply, Contact, credentials, unreachable, failed, answered,
  contact, Application, lds_urls, offers, by_default, security, offered_security, FormEntry,
  server_entry,
}

-- `{name} at {url} ({shown}, {where})`; security default is `none`.
pub record Clause : Type 0 where
  pub label : Option Text
  pub url : Text
  pub shown : Option (Text × Text)
  pub origin : Text

-- The sentences on what is wrong.
pub data Problem : Type 0 where
  no_supported : Text → Problem
  only_none : Text → Problem
  not_offered : Text → Text × Text → Text → Problem
  login : Option Text → Problem
  no_answer : Text → Problem
  no_connection : List Text → Problem

-- `_Report`; the Advanced pair is an argument of `check`.
pub record Report : Type 0 where
  pub found : List Clause
  pub problems : List Problem
  pub unreachable : List Text
  pub secure : Bool

-- `advanced.get("security_mode") or "None"`, and the policy
abbrev pub advanced_pair : Text → Text → Text × Text
advanced_pair mode policy = (text_or mode (codes "None"), text_or policy (codes "None"))

abbrev pub new_report : Report
new_report = record { found = []; problems = []; unreachable = []; secure = false }

abbrev pub add_problem : Problem → Report → Report
add_problem p r = record r { problems = r.problems ++ p ∷ [] }

abbrev pub label_or : Text → Option Text → Option Text
label_or name host = if is_empty name then host else some name

abbrev pub policy_of : FormEntry → Text
policy_of e = text_or e.security_policy (codes "default")

abbrev pub mode_of : FormEntry → Text
mode_of e = text_or e.security_mode (codes "default")

abbrev pub effective : Text × Text → Text → Text → Text × Text
effective advanced mode policy = (
  if mode == codes "default" then advanced.0 else mode,
  if policy == codes "default" then advanced.1 else policy,
)

abbrev pub fill : Text × Text → FormEntry → FormEntry
fill pair e = record e { security_mode = pair.0; security_policy = pair.1 }

module _ (w : Web) (advanced : Text × Text) (f : FoundServer) (origin : Text) where
  -- What `check` adds for an entry that it refuses, and for one that it lets through.
  abbrev pub refused : Text × Text → FormEntry → Report → Report
  refused pair e r = add_problem (not_offered e.endpoint pair (offered_security (endpoints f))) r

  abbrev pub passed : Text → Text × Text → FormEntry → Report → Report
  passed mode pair e r = record r {
    secure = r.secure || (not (pair.0 == codes "None") && offers w (endpoints f) pair);
    found =
        r.found
        ++ record {
          label = label_or f.first.application_name (w.urls.hostname e.endpoint);
          url = e.endpoint;
          shown = if mode == codes "default" then none else some (mode, policy_of e);
          origin = origin;
        }
          ∷ [];
  }

  -- The end of `check`, with the mode at hand.
  unfoldable pub judge : Text → FormEntry → Report → Bool × FormEntry × Report
  judge mode e r =
      let pair = effective advanced mode (policy_of e) in
      if not (mode == codes "default") && not (offers w (endpoints f) pair)
      then (false, e, refused pair e r)
      else (true, e, passed mode pair e r)

  -- With security left at "default", and what `_security` chose.
  unfoldable pub check_chosen :
      Option (Text × Text) → FormEntry → Report → Bool × FormEntry × Report
  check_chosen none e r = (false, e, add_problem (no_supported e.endpoint) r)
  check_chosen (some chosen) e r =
      if chosen.0 == codes "default"
      then judge (codes "default") e
          (if offers w (endpoints f) advanced then r else add_problem (only_none e.endpoint) r)
      else judge chosen.0 (fill chosen e) r

  -- `check`
  unfoldable pub check : FormEntry → Report → Bool × FormEntry × Report
  check e r =
      if mode_of e == codes "default"
      then check_chosen (security w (endpoints f) advanced) e r
      else judge (mode_of e) e r

-- `result`: an error with the problems or with the fallback, or what was found
pub data Answer : Type 0 where
  error_answer : List Problem → Answer
  fallback_answer : Answer
  success_answer : List Clause → List Problem → Bool → List FormEntry → Answer

abbrev pub with_unreachable : List Text → List Problem → List Problem
with_unreachable [] problems = problems
with_unreachable (url ∷ urls) problems = problems ++ no_connection (url ∷ urls) ∷ []

abbrev pub all_problems : Report → List Problem
all_problems r = with_unreachable r.unreachable r.problems

abbrev pub error_or_fallback : List Problem → Answer
error_or_fallback [] = fallback_answer
error_or_fallback (p ∷ ps) = error_answer (p ∷ ps)

abbrev pub answer_of : List Clause → List Problem → Bool → List FormEntry → Answer
answer_of [] problems secure servers = error_or_fallback problems
answer_of (c ∷ cs) problems secure servers = success_answer (c ∷ cs) problems secure servers

unfoldable pub result : Report → List FormEntry → Answer
result r servers = answer_of r.found (all_problems r) r.secure servers

module _ (w : Web) (advanced : Text × Text) where
  -- One entry of the form and what its server answered.
  abbrev pub check_form : FormEntry → Contact → Report → FormEntry × Report
  check_form e credentials r =
      (e, add_problem (login (label_or e.name (w.urls.hostname e.endpoint))) r)
  check_form e unreachable r = (e, record r { unreachable = r.unreachable ++ e.endpoint ∷ [] })
  check_form e failed r = (e, add_problem (no_answer e.endpoint) r)
  check_form e (answered f) r =
      let (_, entry, report) = check w advanced f (codes "already in the form") e r in
      (entry, report)

  unfoldable pub check_all : (Text → Reply) → List FormEntry → Report → List FormEntry × Report
  check_all ask [] r = ([], r)
  check_all ask (e ∷ es) r =
      let now = check_form e (contact w ask e.endpoint) r in
      let rest = check_all ask es now.1 in (now.0 ∷ rest.0, rest.1)

  -- `check_servers`
  unfoldable pub check_servers : (Text → Reply) → List FormEntry → Answer
  check_servers ask servers =
      let (out, report) = check_all ask servers new_report in result report out

  -- `for found in unique.values()`, with the names taken
  unfoldable pub enter_all : List FoundServer → List Text → Report → List FormEntry × Report
  enter_all [] taken r = ([], r)
  enter_all (f ∷ fs) taken r =
      let e = server_entry w f by_default taken in
      let now = check w advanced f (codes "added") e r in
      let rest = enter_all fs (e.name ∷ taken) now.2 in
      (if now.0 then now.1 ∷ rest.0 else rest.0, rest.1)

-- `if isinstance(found, FoundServer) and found.key not in unique`
abbrev pub add_unique : Contact → Dict Text FoundServer → Dict Text FoundServer
add_unique (answered f) unique =
    if contains (keys unique) (key f) then unique else insert (key f) f unique
add_unique _ unique = unique

unfoldable pub unique_of : List Contact → Dict Text FoundServer → Dict Text FoundServer
unique_of [] unique = unique
unique_of (c ∷ cs) unique = unique_of cs (add_unique c unique)

-- WELL_KNOWN_PORTS
abbrev pub well_known_ports : List ℕ
well_known_ports = 4840 ∷ 4841 ∷ 48010 ∷ 49320 ∷ 62541 ∷ 53530 ∷ []

abbrev pub local_urls : List Text
local_urls = map (λ port. codes "opc.tcp://localhost:" ++ index_text 4 port) well_known_ports

-- What is found, local answers first: those of the ports, of the discovery server's and of mDNS's URLs.
unfoldable pub found_servers :
    Web → (Text → Reply) → Option (List Application) → List Text → Dict Text FoundServer
found_servers w ask lds mdns =
    unique_of (map (contact w ask) (local_urls ++ lds_urls w lds ++ mdns)) []

-- `probe`
unfoldable pub probe :
    Web → Text × Text → (Text → Reply) → Option (List Application) → List Text → Answer
probe w advanced ask lds mdns =
    let (servers, report) =
      enter_all w advanced (values (found_servers w ask lds mdns)) [] new_report in
    result report servers
