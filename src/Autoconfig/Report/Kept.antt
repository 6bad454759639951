-- ===== src/Autoconfig/Report/Kept.antt =====
-- The entries of the form that `check_servers` gives back.
use mathlib.Core.Path.{subst}
use zelos_extension_opcua.Autoconfig.Report.{
  Clause, Problem, Report, new_report, policy_of, mode_of, check, success_answer, all_problems,
  answer_of, result, check_form, check_all, check_servers,
}
use zelos_extension_opcua.Autoconfig.{
  Web, FoundServer, Reply, Contact, credentials, unreachable, failed, answered, contact, FormEntry,
}
use zelos_extension_opcua.Prelude.{
  ◌≡◌, refl, ◌⊎◌, inl, Bool, true, false, List, [], ◌∷◌, ◌==◌, nat_eq, All, Text, codes, text_eq,
}
use zelos_extension_opcua.Autoconfig.Report.Checked.{IsKept, IsChecked, check-IsChecked}

-- An entry with a mode of its own, or with its policy at "default".
abbrev pub IsPlain : FormEntry → Type 0
IsPlain e = ((mode_of e == codes "default") ≡ false) ⊎ (policy_of e ≡ codes "default")

pub result-servers :
    (cs : List Clause) (problems : List Problem) (secure : Bool) (es : List FormEntry)
    {found : List Clause} {shown : List Problem} {noted : Bool} {servers : List FormEntry}
    → answer_of cs problems secure es ≡ success_answer found shown noted servers
    → es ≡ servers
result-servers [] [] secure es h = cc
result-servers [] (p ∷ ps) secure es h = cc
result-servers (c ∷ cs) problems secure es h = cc

module _ (w : Web) (advanced : Text × Text) (ask : Text → Reply) where
  -- Filled in by what the server that answers offers, and else as it was.
  abbrev pub IsKeptBy : Contact → FormEntry → FormEntry → Type 0
  IsKeptBy (answered f) e now = IsKept w advanced f e now
  IsKeptBy _ e now = now ≡ e

  abbrev pub AllKept : List FormEntry → List FormEntry → Type 0
  AllKept [] [] = Unit
  AllKept (e ∷ es) (now ∷ out) = IsKeptBy (contact w ask e.endpoint) e now × AllKept es out
  AllKept _ _ = ⊥

  IsChecked-IsKept :
      (f : FoundServer) (e : FormEntry) (r : Report) (now : Bool × FormEntry × Report)
      → IsChecked w advanced f e r now
      → IsKept w advanced f e now.1
  IsChecked-IsKept f e r (true, now, report) h = h.0
  IsChecked-IsKept f e r (false, now, report) h = inl h.0

  check_form-IsKeptBy :
      (e : FormEntry) (c : Contact) (r : Report)
      → IsPlain e
      → IsKeptBy c e (check_form w advanced e c r).0
  check_form-IsKeptBy e (answered f) r plain =
      IsChecked-IsKept f e r (check w advanced f (codes "already in the form") e r)
        (check-IsChecked w advanced f (codes "already in the form") e r plain)
  check_form-IsKeptBy e credentials r plain = refl
  check_form-IsKeptBy e unreachable r plain = refl
  check_form-IsKeptBy e failed r plain = refl

  check_all-AllKept :
      (es : List FormEntry) (r : Report)
      → All IsPlain es
      → AllKept es (check_all w advanced ask es r).0
  unfolding check_all
  check_all-AllKept [] r plain = tt
  check_all-AllKept (e ∷ es) r plain =
      let c = contact w ask e.endpoint in
      (
        check_form-IsKeptBy e c r plain.0,
        check_all-AllKept es (check_form w advanced e c r).1 plain.1,
      )

  -- Where each entry has a mode of its own or its policy at "default", and the check succeeds: the
  -- form's entries stay, in order, and only a security left at "default" is filled in, by a secure
  -- pair that the server at the entry's endpoint offers.
  pub check_servers-AllKept :
      (entries : List FormEntry) (clauses : List Clause) (problems : List Problem) (noted : Bool)
      (servers : List FormEntry)
      → All IsPlain entries
      → check_servers w advanced ask entries ≡ success_answer clauses problems noted servers
      → AllKept entries servers
  unfolding check_servers result
  check_servers-AllKept entries clauses problems noted servers plain h =
      let out = check_all w advanced ask entries new_report in
      let is : out.0 ≡ servers =
        result-servers out.1.found (all_problems out.1) out.1.secure out.0 h in
      subst (AllKept entries) is (check_all-AllKept entries new_report plain)
