-- ===== src/Autoconfig/Probed.antt =====
-- The servers that `probe` finds, and their entries.
use mathlib.Core.Path.{subst}
use zelos_extension_opcua.Autoconfig.Report.Kept.{result-servers}
use zelos_extension_opcua.Autoconfig.Fresh.{free_name-IsFresh}
use zelos_extension_opcua.Autoconfig.Report.Checked.{ranked_own, judge-filled}
use zelos_extension_opcua.Autoconfig.Offered.{IsChoice, security-IsChoice, choice_cases}
use zelos_extension_opcua.Prelude.{
  ◌≡◌, refl, sym, ap, ◌∙◌, inl, inr, Bool, true, false, Option, none, some, List, [], ◌∷◌, ◌++◌,
  map, arith, if◌then◌else◌, Bool-cases, if-true, if-false, ◌==◌, nat_eq, All, Dict, keys, values,
  contains, Distinct, contains-keys-insert, Distinct-insert, Text, codes, same_text, same_text_iff,
  text_eq,
}
use zelos_extension_opcua.Autoconfig.{
  Web, FoundServer, endpoints, key, Reply, Contact, credentials, unreachable, failed, answered,
  contact, Application, lds_urls, by_default, security, FormEntry, base_name, server_entry,
}
use zelos_extension_opcua.Autoconfig.Report.{
  Clause, Problem, Report, new_report, mode_of, fill, judge, check_chosen, check, success_answer,
  all_problems, result, enter_all, add_unique, unique_of, local_urls, found_servers, probe,
}

-- The answer of a contact is among those found, by its key.
abbrev pub IsKnown : Dict Text FoundServer → Contact → Type 0
IsKnown unique (answered f) = contains (keys unique) (key f) ≡ true
IsKnown unique _ = Unit

add_unique-keys :
    (c : Contact) (unique : Dict Text FoundServer) (k : Text)
    → contains (keys unique) k ≡ true
    → contains (keys (add_unique c unique)) k ≡ true
add_unique-keys (answered f) unique k h = elim (Bool-cases (contains (keys unique) (key f))) [
  | inl t ↦ rw t h
  | inr t ↦ rw t (ground (arith, contains-keys-insert (key f) k f unique, h))
]
add_unique-keys credentials unique k h = h
add_unique-keys unreachable unique k h = h
add_unique-keys failed unique k h = h

unique_of-keys :
    (cs : List Contact) (unique : Dict Text FoundServer) (k : Text)
    → contains (keys unique) k ≡ true
    → contains (keys (unique_of cs unique)) k ≡ true
unfolding unique_of
unique_of-keys [] unique k h = h
unique_of-keys (c ∷ cs) unique k h =
    unique_of-keys cs (add_unique c unique) k (add_unique-keys c unique k h)

add_unique-IsKnown :
    (c : Contact) (unique : Dict Text FoundServer) → IsKnown (add_unique c unique) c
add_unique-IsKnown (answered f) unique = elim (Bool-cases (contains (keys unique) (key f))) [
  | inl t ↦ rw t t
  | inr t ↦
      rw t (
        ground
          (arith, contains-keys-insert (key f) (key f) f unique, same_text_iff (key f) (key f)))
]
add_unique-IsKnown credentials unique = tt
add_unique-IsKnown unreachable unique = tt
add_unique-IsKnown failed unique = tt

stays-IsKnown :
    (c : Contact) (cs : List Contact) (unique : Dict Text FoundServer)
    → IsKnown unique c
    → IsKnown (unique_of cs unique) c
stays-IsKnown (answered f) cs unique h = unique_of-keys cs unique (key f) h
stays-IsKnown credentials cs unique h = tt
stays-IsKnown unreachable cs unique h = tt
stays-IsKnown failed cs unique h = tt

unique_of-IsKnown :
    (cs : List Contact) (unique : Dict Text FoundServer) → All (IsKnown (unique_of cs unique)) cs
unfolding unique_of
unique_of-IsKnown [] unique = tt
unique_of-IsKnown (c ∷ cs) unique = (
  stays-IsKnown c cs (add_unique c unique) (add_unique-IsKnown c unique),
  unique_of-IsKnown cs (add_unique c unique),
)

add_unique-Distinct :
    (c : Contact) (unique : Dict Text FoundServer)
    → Distinct (keys unique)
    → Distinct (keys (add_unique c unique))
add_unique-Distinct (answered f) unique d = elim (Bool-cases (contains (keys unique) (key f))) [
  | inl t ↦ rw t d
  | inr t ↦ rw t (Distinct-insert (key f) f unique d)
]
add_unique-Distinct credentials unique d = d
add_unique-Distinct unreachable unique d = d
add_unique-Distinct failed unique d = d

unique_of-Distinct :
    (cs : List Contact) (unique : Dict Text FoundServer)
    → Distinct (keys unique)
    → Distinct (keys (unique_of cs unique))
unfolding unique_of
unique_of-Distinct [] unique d = d
unique_of-Distinct (c ∷ cs) unique d =
    unique_of-Distinct cs (add_unique c unique) (add_unique-Distinct c unique d)

module _ (w : Web) (advanced : Text × Text) where
  -- The entry of a server: where it was reached, with the path it publishes, and the security chosen.
  abbrev pub IsEntryOf : FoundServer → FormEntry → Type 0
  IsEntryOf f e =
      (e.endpoint
        ≡ w.scheme f.url ++ codes "://" ++ w.urls.netloc f.url ++ w.path f.first.endpoint_url)
      × (security w (endpoints f) advanced ≡ some (e.security_mode, e.security_policy))

  -- The servers found and their entries: only a server without security of use has none.
  pub data Entered : List FoundServer → List FormEntry → Type 0 where
    nothing : Entered [] []
    entered :
        (f : FoundServer) (e : FormEntry) (fs : List FoundServer) (es : List FormEntry)
        → IsEntryOf f e
        → Entered fs es
        → Entered (f ∷ fs) (e ∷ es)
    left_out :
        (f : FoundServer) (fs : List FoundServer) (es : List FormEntry)
        → security w (endpoints f) advanced ≡ none
        → Entered fs es
        → Entered (f ∷ fs) es

  -- What `check` makes of an entry whose security is left at "default".
  abbrev IsFilledBy : FoundServer → FormEntry → Bool × FormEntry × Report → Type 0
  IsFilledBy f e (true, now, report) =
      (pair : Text × Text) × (now ≡ fill pair e) × (security w (endpoints f) advanced ≡ some pair)
  IsFilledBy f e (false, now, report) = security w (endpoints f) advanced ≡ none

  chosen-IsFilledBy :
      (f : FoundServer) (origin : Text) (e : FormEntry) (r : Report) (chosen : Option (Text × Text))
      → e ≡ fill by_default e
      → security w (endpoints f) advanced ≡ chosen
      → IsChoice w (endpoints f) advanced chosen
      → IsFilledBy f e (check_chosen w advanced f origin chosen e r)
  unfolding check_chosen same_text judge
  chosen-IsFilledBy f origin e r none plain is choice = is
  chosen-IsFilledBy f origin e r (some pair) plain is choice =
      elim (choice_cases w (endpoints f) advanced pair choice) [
        | inl default ↦
            subst (λ p. IsFilledBy f e (check_chosen w advanced f origin (some p) e r))
              (sym default) (by_default, plain, is ∙ ap some default)
        | inr (i, offered) ↦
            subst (IsFilledBy f e)
              (sym (
                if-false _ _ (ranked_own w advanced f origin pair i)
                ∙ judge-filled w advanced f origin pair e r i offered))
              (pair, refl, is)
      ]

  check-IsFilledBy :
      (f : FoundServer) (origin : Text) (e : FormEntry) (r : Report)
      → e ≡ fill by_default e
      → IsFilledBy f e (check w advanced f origin e r)
  unfolding check same_text
  check-IsFilledBy f origin e r plain =
      let mode : (mode_of e == codes "default") ≡ true =
        ap (λ x. mode_of x == codes "default") plain in
      subst (IsFilledBy f e) (sym (if-true _ _ mode)) (
        chosen-IsFilledBy f origin e r (security w (endpoints f) advanced) plain refl
          (security-IsChoice w (endpoints f) advanced))

  -- The entries' names are new and distinct.
  abbrev AreNamed : List Text → List FormEntry → Type 0
  AreNamed taken es = All (λ e. contains taken e.name ≡ false) es × Distinct (map (λ e. e.name) es)

  AreNamed-after :
      (name : Text) (taken : List Text) (es : List FormEntry)
      → AreNamed (name ∷ taken) es
      → All (λ e. contains taken e.name ≡ false) es × (contains (map (λ e. e.name) es) name ≡ false)
  unfolding contains
  AreNamed-after name taken [] h = (tt, refl)
  AreNamed-after name taken (e ∷ es) ((new, all), (apart, distinct)) =
      let (rest, other) = AreNamed-after name taken es (all, distinct) in
      (
        (ground (arith, new), rest),
        ground (arith, new, other, same_text_iff e.name name, same_text_iff name e.name),
      )

  -- One more server: its entry is added or left out.
  enter-lem :
      (f : FoundServer) (fs : List FoundServer) (taken : List Text) (e : FormEntry)
      (now : Bool × FormEntry × Report) (es : List FormEntry)
      → e ≡ server_entry w f by_default taken
      → IsFilledBy f e now
      → Entered fs es × AreNamed (e.name ∷ taken) es
      → Entered (f ∷ fs) (if now.0 then now.1 ∷ es else es)
        × AreNamed taken (if now.0 then now.1 ∷ es else es)
  unfolding server_entry
  enter-lem f fs taken e (true, now, report) es is (pair, filled, chosen) (rest, named) =
      let (others, apart) = AreNamed-after e.name taken es named in
      let fresh : contains taken e.name ≡ false =
        ap (λ x. contains taken x.name) is ∙ free_name-IsFresh taken (base_name w f) in
      subst (λ x. Entered (f ∷ fs) (x ∷ es) × AreNamed taken (x ∷ es)) (sym filled)
        (
          entered f (fill pair e) fs es (ap (λ x. x.endpoint) is, chosen) rest,
          ((fresh, others), (apart, named.1)),
        )
  enter-lem f fs taken e (false, now, report) es is none_chosen (rest, named) =
      (left_out f fs es none_chosen rest, ((AreNamed-after e.name taken es named).0, named.1))

  enter_all-Entered :
      (fs : List FoundServer) (taken : List Text) (r : Report)
      → Entered fs (enter_all w advanced fs taken r).0
        × AreNamed taken (enter_all w advanced fs taken r).0
  unfolding enter_all server_entry
  enter_all-Entered [] taken r = (nothing, (tt, tt))
  enter_all-Entered (f ∷ fs) taken r =
      let e = server_entry w f by_default taken in
      let now = check w advanced f (codes "added") e r in
      enter-lem f fs taken e now (enter_all w advanced fs (e.name ∷ taken) now.2).0 refl
        (check-IsFilledBy f (codes "added") e r refl) (enter_all-Entered fs (e.name ∷ taken) now.2)

  module _ (ask : Text → Reply) (lds : Option (List Application)) (mdns : List Text) where
    abbrev found : Dict Text FoundServer
    found = found_servers w ask lds mdns

    -- Where a probe succeeds: every server that answers is found, once by its key; each has an
    -- entry, with the security chosen for it, or offers nothing of use; and the names of the
    -- entries are distinct.
    pub probe-IsEntered :
        (clauses : List Clause) (problems : List Problem) (noted : Bool) (servers : List FormEntry)
        → probe w advanced ask lds mdns ≡ success_answer clauses problems noted servers
        → All
            (IsKnown (found_servers w ask lds mdns))
            (map (contact w ask) (local_urls ++ lds_urls w lds ++ mdns))
          × Distinct (keys (found_servers w ask lds mdns))
          × Entered (values (found_servers w ask lds mdns)) servers
          × Distinct (map (λ e. e.name) servers)
    unfolding probe result found_servers
    probe-IsEntered clauses problems noted servers h =
        let contacts = map (contact w ask) (local_urls ++ lds_urls w lds ++ mdns) in
        let (all, (_, names)) = enter_all-Entered (values found) [] new_report in
        let es = enter_all w advanced (values found) [] new_report in
        let is : es.0 ≡ servers =
          result-servers es.1.found (all_problems es.1) es.1.secure es.0 h in
        (
          unique_of-IsKnown contacts [],
          unique_of-Distinct contacts [] tt,
          subst (Entered (values found)) is all,
          subst (λ x. Distinct (map (λ e. e.name) x)) is names,
        )
