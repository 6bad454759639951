-- ===== src/Autoconfig/Report/Checked.antt =====
-- What a server that is found can be connected with, as its entry is set.
use mathlib.Core.Path.{subst}
use zelos_extension_opcua.Autoconfig.Offered.{IsFirst-In, IsChoice, security-IsChoice}
use zelos_extension_opcua.Prelude.{
  ◌≡◌, refl, sym, ap, ◌∙◌, ◌⊎◌, inl, inr, Bool, true, false, not, ◌&&◌, Option, none, some, List,
  [], ◌∷◌, ◌++◌, arith, Bool-cases, if-true, if-false, ◌==◌, nat_eq, All, In, All-In, Text, codes,
  same_text, same_text_iff, text_eq,
}
use zelos_extension_opcua.Autoconfig.{
  Web, FoundServer, endpoints, offers, ranked, by_default, no_security, security, FormEntry,
}
use zelos_extension_opcua.Autoconfig.Report.{
  Problem, only_none, Report, add_problem, policy_of, mode_of, effective, fill, refused, passed,
  judge, check_chosen, check,
}

module _ (w : Web) (advanced : Text × Text) (f : FoundServer) where
  -- The pair an entry connects with.
  abbrev pub pair_of : FormEntry → Text × Text
  pair_of e = effective advanced (mode_of e) (policy_of e)

  -- The entry as it was, or with security filled in by a secure pair that the server offers.
  abbrev pub IsKept : FormEntry → FormEntry → Type 0
  IsKept e now =
      (now ≡ e)
      ⊎ ((mode_of e ≡ codes "default")
          × ((pair : Text × Text) × (now ≡ fill pair e)
              × In pair ranked
              × (offers w (endpoints f) pair ≡ true)
              × (offers w (endpoints f) advanced ≡ false)))

  -- What the server offers for the entry, and a secure connection is noted; or an entry left at
  -- "default" for a server that accepts None alone, which is reported as a problem.
  abbrev pub IsConnectable : List Problem → FormEntry → Report → Type 0
  IsConnectable problems now r =
      ((offers w (endpoints f) (pair_of now) ≡ true)
        × ((((pair_of now).0 == codes "None") ≡ true) ⊎ (r.secure ≡ true))
        × (r.problems ≡ problems))
      ⊎ ((mode_of now ≡ codes "default")
          × (offers w (endpoints f) no_security ≡ true)
          × (offers w (endpoints f) advanced ≡ false)
          × All (λ pair. offers w (endpoints f) pair ≡ false) ranked
          × (r.problems ≡ problems ++ only_none now.endpoint ∷ []))

  -- What `check` makes of an entry: kept and connectable, or refused with one more problem.
  abbrev pub IsChecked : FormEntry → Report → Bool × FormEntry × Report → Type 0
  IsChecked e r (true, now, report) = IsKept e now × IsConnectable r.problems now report
  IsChecked e r (false, now, report) =
      (now ≡ e)
      × (offers w (endpoints f) (pair_of e) ≡ false)
      × (report.found ≡ r.found)
      × ((p : Problem) × (report.problems ≡ r.problems ++ p ∷ []))

  -- An entry that is filled in connects with the pair.
  abbrev IsFilled : FormEntry → Text × Text → Type 0
  IsFilled e pair =
      (mode_of (fill pair e) ≡ pair.0)
      × (pair_of (fill pair e) ≡ pair)
      × ((pair.0 == codes "default") ≡ false)

  ranked-IsFilled : (e : FormEntry) → All (IsFilled e) ranked
  unfolding same_text
  ranked-IsFilled e = (
    (refl, refl, refl),
    (
      (refl, refl, refl),
      ((refl, refl, refl), ((refl, refl, refl), ((refl, refl, refl), ((refl, refl, refl), tt)))),
    ),
  )

  -- A pair that the server offers goes ahead, with the note where it is secure.
  module _ (origin : Text) where
    passed-secure :
        (mode : Text) (pair : Text × Text) (e : FormEntry) (r : Report)
        → offers w (endpoints f) pair ≡ true
        → ((pair.0 == codes "None") ≡ true)
          ⊎ ((passed w advanced f origin mode pair e r).secure ≡ true)
    passed-secure mode pair e r offered = elim (Bool-cases (pair.0 == codes "None")) [
      | inl t ↦ inl t
      | inr t ↦ inr (ground (arith, offered, t))
    ]

    judge-passed :
        (mode : Text) (e : FormEntry) (r : Report)
        → (not (mode == codes "default")
            && not (offers w (endpoints f) (effective advanced mode (policy_of e))))
          ≡ false
        → judge w advanced f origin mode e r
          ≡ (true, e, passed w advanced f origin mode (effective advanced mode (policy_of e)) e r)
    unfolding judge
    judge-passed mode e r h = if-false _ _ h

    judge-refused :
        (mode : Text) (e : FormEntry) (r : Report)
        → (not (mode == codes "default")
            && not (offers w (endpoints f) (effective advanced mode (policy_of e))))
          ≡ true
        → judge w advanced f origin mode e r
          ≡ (false, e, refused w advanced f origin (effective advanced mode (policy_of e)) e r)
    unfolding judge
    judge-refused mode e r h = if-true _ _ h

    -- An entry with a mode of its own.
    judge-IsChecked :
        (e : FormEntry) (r : Report)
        → (mode_of e == codes "default") ≡ false
        → IsChecked e r (judge w advanced f origin (mode_of e) e r)
    judge-IsChecked e r own = elim (Bool-cases (offers w (endpoints f) (pair_of e))) [
      | inl t ↦
          subst (IsChecked e r) (sym (judge-passed (mode_of e) e r (ground (arith, own, t))))
            (inl refl, inl (t, passed-secure (mode_of e) (pair_of e) e r t, refl))
      | inr t ↦
          subst (IsChecked e r) (sym (judge-refused (mode_of e) e r (ground (arith, own, t))))
            (refl, t, refl, (_, refl))
    ]

    pub ranked_own : (pair : Text × Text) → In pair ranked → (pair.0 == codes "default") ≡ false
    unfolding same_text
    ranked_own pair i =
        All-In (λ p. (p.0 == codes "default") ≡ false) pair ranked
          (refl, (refl, (refl, (refl, (refl, (refl, tt)))))) i

    offers-filled :
        (pair : Text × Text) (e : FormEntry)
        → In pair ranked
        → offers w (endpoints f) pair ≡ true
        → offers w (endpoints f) (pair_of (fill pair e)) ≡ true
    offers-filled pair e i offered =
        let (mode, same, own) = All-In (IsFilled e) pair ranked (ranked-IsFilled e) i in
        ap (offers w (endpoints f)) same ∙ offered

    -- An entry that is filled in by a pair that is offered passes.
    pub judge-filled :
        (pair : Text × Text) (e : FormEntry) (r : Report)
        → In pair ranked
        → offers w (endpoints f) pair ≡ true
        → judge w advanced f origin pair.0 (fill pair e) r ≡ (
          true,
          fill pair e,
          passed w advanced f origin
              (mode_of (fill pair e))
              (pair_of (fill pair e))
              (fill pair e)
              r,
        )
    judge-filled pair e r i offered =
        let (mode, same, own) = All-In (IsFilled e) pair ranked (ranked-IsFilled e) i in
        let offered_now = offers-filled pair e i offered in
        ap (λ m. judge w advanced f origin m (fill pair e) r) (sym mode)
        ∙ judge-passed (mode_of (fill pair e)) (fill pair e) r (ground (arith, offered_now))

    filled-IsChecked :
        (pair : Text × Text) (e : FormEntry) (r : Report)
        → mode_of e ≡ codes "default"
        → offers w (endpoints f) advanced ≡ false
        → In pair ranked
        → offers w (endpoints f) pair ≡ true
        → IsChecked e r (judge w advanced f origin pair.0 (fill pair e) r)
    filled-IsChecked pair e r default weak i offered =
        let now = fill pair e in
        let offered_now = offers-filled pair e i offered in
        subst (IsChecked e r) (sym (judge-filled pair e r i offered)) (
          inr (default, (pair, refl, i, offered, weak)),
          inl (offered_now, passed-secure (mode_of now) (pair_of now) now r offered_now, refl),
        )

    -- Security left at "default", for the Advanced pair.
    default-IsChecked :
        (e : FormEntry) (r : Report)
        → mode_of e ≡ codes "default"
        → policy_of e ≡ codes "default"
        → offers w (endpoints f) advanced ≡ true
        → IsChecked e r (check_chosen w advanced f origin (some by_default) e r)
    unfolding check_chosen same_text
    default-IsChecked e r mode policy offered =
        let pair : pair_of e ≡ advanced = rw (mode, policy) refl in
        let offered_now : offers w (endpoints f) (pair_of e) ≡ true =
          ap (offers w (endpoints f)) pair ∙ offered in
        let same = if-true r (add_problem (only_none e.endpoint) r) offered in
        let note = passed-secure (mode_of e) (pair_of e) e r offered_now in
        subst (λ x. IsChecked e r (judge w advanced f origin (codes "default") e x)) (sym same)
          (subst (λ m. IsChecked e r (judge w advanced f origin m e r)) mode
            (subst (IsChecked e r)
              (sym (judge-passed (mode_of e) e r (ground (arith, offered_now))))
              (inl refl, inl (offered_now, note, refl))))

    -- Security left at "default", for a server that accepts None alone.
    bare-IsChecked :
        (e : FormEntry) (r : Report)
        → mode_of e ≡ codes "default"
        → offers w (endpoints f) advanced ≡ false
        → offers w (endpoints f) no_security ≡ true
        → All (λ pair. offers w (endpoints f) pair ≡ false) ranked
        → IsChecked e r (check_chosen w advanced f origin (some by_default) e r)
    unfolding check_chosen same_text
    bare-IsChecked e r mode weak bare none_secure =
        let same = if-false r (add_problem (only_none e.endpoint) r) weak in
        subst (λ x. IsChecked e r (judge w advanced f origin (codes "default") e x)) (sym same)
          (subst (IsChecked e r)
            (sym (judge-passed (codes "default") e (add_problem (only_none e.endpoint) r) refl))
            (inl refl, inr (mode, bare, weak, none_secure, refl)))

    chosen-IsChecked :
        (e : FormEntry) (r : Report) (chosen : Option (Text × Text))
        → mode_of e ≡ codes "default"
        → policy_of e ≡ codes "default"
        → IsChoice w (endpoints f) advanced chosen
        → IsChecked e r (check_chosen w advanced f origin chosen e r)
    unfolding check_chosen same_text
    chosen-IsChecked e r chosen mode policy (inl (offered, is)) =
        subst (λ c. IsChecked e r (check_chosen w advanced f origin c e r)) (sym is)
          (default-IsChecked e r mode policy offered)
    chosen-IsChecked e r chosen mode policy (inr (weak, inl (pair, is, first))) =
        let (i, offered) = IsFirst-In (offers w (endpoints f)) ranked pair first in
        let (_, _, own) = All-In (IsFilled e) pair ranked (ranked-IsFilled e) i in
        subst (λ c. IsChecked e r (check_chosen w advanced f origin c e r)) (sym is)
          (subst (IsChecked e r) (sym (if-false _ _ own))
            (filled-IsChecked pair e r mode weak i offered))
    chosen-IsChecked e r chosen mode policy (inr (weak, inr (none_secure, is))) =
        let pair : pair_of e ≡ advanced = rw (mode, policy) refl in
        let unoffered : offers w (endpoints f) (pair_of e) ≡ false =
          ap (offers w (endpoints f)) pair ∙ weak in
        subst (λ c. IsChecked e r (check_chosen w advanced f origin c e r)) (sym is)
          (elim (Bool-cases (offers w (endpoints f) no_security)) [
            | inl t ↦
                subst (λ c. IsChecked e r (check_chosen w advanced f origin c e r))
                  (sym (if-true (some by_default) none t))
                  (bare-IsChecked e r mode weak t none_secure)
            | inr t ↦
                subst (λ c. IsChecked e r (check_chosen w advanced f origin c e r))
                  (sym (if-false (some by_default) none t)) (refl, unoffered, refl, (_, refl))
          ])

    -- For an entry with a mode of its own, or with its policy at "default": if it passes, it
    -- connects with a pair that the server offers, a secure one being noted, or it is left at
    -- "default" for a server that offers None and neither the Advanced pair nor any of the ranked
    -- secure pairs, which is reported as a problem; and its
    -- security is as it was, or filled in by a secure pair that is offered where the Advanced pair
    -- is not. If it is refused, it stays as it was, the pair it would connect with is
    -- not offered, and there is one more problem.
    pub check-IsChecked :
        (e : FormEntry) (r : Report)
        → ((mode_of e == codes "default") ≡ false) ⊎ (policy_of e ≡ codes "default")
        → IsChecked e r (check w advanced f origin e r)
    unfolding check
    check-IsChecked e r (inl own) =
        subst (IsChecked e r) (sym (if-false _ _ own)) (judge-IsChecked e r own)
    check-IsChecked e r (inr policy) = elim (Bool-cases (mode_of e == codes "default")) [
      | inl t ↦
          let mode = (same_text_iff (mode_of e) (codes "default")).0 t in
          subst (IsChecked e r) (sym (if-true _ _ t)) (
            chosen-IsChecked e r (security w (endpoints f) advanced) mode policy
              (security-IsChoice w (endpoints f) advanced))
      | inr own ↦ subst (IsChecked e r) (sym (if-false _ _ own)) (judge-IsChecked e r own)
    ]
