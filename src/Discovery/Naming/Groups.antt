-- ===== src/Discovery/Naming/Groups.antt =====
-- The names within each event of a grouping.
use mathlib.Core.List.{map-append}
use mathlib.Core.Path.{subst}
use zelos_extension_opcua.NodeMap.Node.{Node}
use zelos_extension_opcua.Discovery.Naming.{Placed, row_key, nodes_or, group}
use zelos_extension_opcua.Prelude.{
  ◌≡◌, refl, sym, inl, inr, true, false, Option, none, some, List, [], ◌∷◌, ◌++◌, map, append_assoc,
  Bool-cases, ◌==◌, nat_eq, pair_eq, All, All-append, All-weaken, Dict, contains, contains-last,
  Distinct, contains-append, Distinct-snoc, Distinct-middle, lookup, insert, All-lookup, All-insert,
  Text, same_text_iff, text_eq,
}

module _ {F : Type 0} where
  abbrev pub names_in : List (Node F) → List Text
  names_in nodes = map (λ n. n.name) nodes

  -- In each event the names are distinct, and all are among the rows so far.
  abbrev pub AreAmong : List (Text × Text) → Text → List (Node F) → Type 0
  AreAmong done event nodes = All (λ n. contains done (event, n.name) ≡ true) nodes

  abbrev pub IsGrouped : List (Text × Text) → Text × List (Node F) → Type 0
  IsGrouped done e = Distinct (names_in e.1) × AreAmong done e.0 e.1

  names_new :
      (done : List (Text × Text)) (event name : Text) (nodes : List (Node F))
      → AreAmong done event nodes
      → contains done (event, name) ≡ false
      → contains (names_in nodes) name ≡ false
  unfolding contains
  names_new done event name [] all h = refl
  names_new done event name (n ∷ nodes) all h = elim (Bool-cases (n.name == name)) [
    | inl same ↦
        let key : n.name ≡ name = (same_text_iff n.name name).0 same in
        let there : contains done (event, name) ≡ true = rw key at all.0 in cc
    | inr other ↦ rw other (names_new done event name nodes all.1 h)
  ]

  nodes_or-IsGrouped :
      (done : List (Text × Text)) (event : Text) (events : Dict Text (List (Node F)))
      → All (IsGrouped done) events
      → IsGrouped done (event, nodes_or (lookup event events))
  nodes_or-IsGrouped done event events all = by_lookup (lookup event events) refl
    where
      by_lookup :
          (o : Option (List (Node F)))
          → lookup event events ≡ o
          → IsGrouped done (event, nodes_or o)
      by_lookup none h = (tt, tt)
      by_lookup (some nodes) h = All-lookup (IsGrouped done) event events all h

  AreAmong-snoc :
      (done : List (Text × Text)) (key : Text × Text) (event : Text) (nodes : List (Node F))
      → AreAmong done event nodes
      → AreAmong (done ++ key ∷ []) event nodes
  AreAmong-snoc done key event nodes all =
      All-weaken (λ n. contains done (event, n.name) ≡ true)
        (λ n. contains (done ++ key ∷ []) (event, n.name) ≡ true) nodes
        (λ n h. rw (contains-append done (key ∷ []) (event, n.name), h) refl) all

  pub group-IsGrouped :
      (rows : List (Placed F)) (done : List (Text × Text)) (events : Dict Text (List (Node F)))
      → Distinct (done ++ map row_key rows)
      → All (IsGrouped done) events
      → All (λ e. Distinct (names_in e.1)) (group rows events)
  unfolding group
  group-IsGrouped [] done events d all =
      All-weaken (IsGrouped done) (λ e. Distinct (names_in e.1)) events (λ e h. h.0) all
  group-IsGrouped ((event, n) ∷ rows) done events d all =
      let key : Text × Text = (event, n.name) in
      let old = nodes_or (lookup event events) in
      let (apart, among) = nodes_or-IsGrouped done event events all in
      let new =
        names_new done event n.name old among (Distinct-middle done key (map row_key rows) d) in
      group-IsGrouped rows (done ++ key ∷ []) (insert event (old ++ n ∷ []) events)
        (subst Distinct (sym (append_assoc done (key ∷ []) (map row_key rows))) d)
        (All-insert (IsGrouped (done ++ key ∷ [])) event (old ++ n ∷ []) events
          (All-weaken (IsGrouped done) (IsGrouped (done ++ key ∷ [])) events
            (λ e h. (h.0, AreAmong-snoc done key e.0 e.1 h.1)) all)
          (
            subst Distinct (sym (map-append (λ n. n.name) old (n ∷ [])))
                (Distinct-snoc (names_in old) n.name apart new),
            All-append (λ n. contains (done ++ key ∷ []) (event, n.name) ≡ true) old (n ∷ [])
                (AreAmong-snoc done key event old among) (contains-last done key, tt),
          ))
