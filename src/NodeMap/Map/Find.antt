-- ===== src/NodeMap/Map/Find.antt =====
-- `get_by_name`: a qualified name addresses its node, a bare one only where it is in one event.
use mathlib.Core.Path.{subst}
use zelos_extension_opcua.NodeMap.Ids.{Codecs}
use zelos_extension_opcua.Prelude.{
  ℕ, ◌≡◌, refl, sym, ap, ◌∙◌, inl, inr, Bool, true, false, ◌&&◌, none, some, List, [], ◌∷◌, ◌++◌,
  arith, if◌then◌else◌, Bool-cases, ◌==◌, nat_eq, In, All-In, ok, raise, Dict, keys, contains,
  Distinct, Text, same_text_iff, text_eq, is_empty, has_no,
}
use zelos_extension_opcua.NodeMap.Node.{Node}
use zelos_extension_opcua.NodeMap.Map.{
  NodeMap, ambiguous_name, rpartition, event_matches, name_matches, single_match, get_by_name,
}
use zelos_extension_opcua.NodeMap.Map.Load.{names, IsValidEvent, IsValidMap}

has_no-append : (k : ℕ) (s t : Text) → has_no k (s ++ t) ≡ (has_no k s && has_no k t)
has_no-append k [] t = refl
has_no-append k (c ∷ s) t = ground (arith, has_no-append k s t)

rpartition_none : (s : Text) → has_no b'/' s ≡ true → rpartition s ≡ ([], s)
unfolding rpartition
rpartition_none [] h = refl
rpartition_none (c ∷ s) h = ground arith

rpartition-append : (e s : Text) → has_no b'/' s ≡ true → rpartition (e ++ b'/' ∷ s) ≡ (e, s)
unfolding rpartition
rpartition-append [] s h = ground (arith, rpartition_none s h)
rpartition-append (c ∷ e) s h =
    ground (arith, has_no-append b'/' e (b'/' ∷ s), rpartition-append e s h)

abbrev pub is_nil {ℓ} : {A : Type ℓ} → List A → Bool
is_nil [] = true
is_nil (x ∷ xs) = false

module _ {F : Type 0} where
  single :
      (bare : Text) (found : List (Text × Node F))
      → single_match bare found ≡ elim found [
        | [] ↦ ok none
        | (e, n) ∷ rest ↦ if is_nil rest then ok (some n) else raise (ambiguous_name bare)
      ]
  single bare [] = refl
  single bare ((e, n) ∷ []) = refl
  single bare ((e, n) ∷ x ∷ rest) = refl

  event_matches_absent :
      (bare e : Text) (ns : List (Node F))
      → contains (names ns) bare ≡ false
      → event_matches bare e ns ≡ []
  unfolding contains
  event_matches_absent bare e [] h = refl
  event_matches_absent bare e (n ∷ ns) h = ground (arith, event_matches_absent bare e ns)

  In-names : (n : Node F) (ns : List (Node F)) → In n ns → contains (names ns) n.name ≡ true
  unfolding contains
  In-names n (m ∷ ns) (inl p) =
      let e : m.name ≡ n.name = ap (λ x. x.name) p in ground (arith, same_text_iff m.name n.name)
  In-names n (m ∷ ns) (inr i) = ground (arith, In-names n ns i)
  In-names n [] i = absurd i

  event_matches_one :
      (bare e : Text) (n : Node F) (ns : List (Node F))
      → n.name ≡ bare
      → Distinct (names ns)
      → In n ns
      → event_matches bare e ns ≡ (e, n) ∷ []
  event_matches_one bare e n (m ∷ ns) named d (inl p) =
      let m_named : m.name ≡ bare = ap (λ x. x.name) p ∙ named in
      let absent : contains (names ns) bare ≡ false = rw m_named at d.0 in
      subst (λ k. event_matches bare e (m ∷ ns) ≡ (e, k) ∷ []) p
        (rw ((same_text_iff m.name bare).1 m_named, event_matches_absent bare e ns absent) refl)
  event_matches_one bare e n (m ∷ ns) named d (inr i) = elim (Bool-cases (m.name == bare)) [
    | inl same ↦
        let twin : m.name ≡ n.name = (same_text_iff m.name bare).0 same ∙ sym named in
        cc (d.0, twin, In-names n ns i)
    | inr other ↦ rw other (event_matches_one bare e n ns named d.1 i)
  ]
  event_matches_one bare e n [] named d i = absurd i

  In-events :
      (e : Text) (ns : List (Node F)) (events : Dict Text (List (Node F)))
      → In (e, ns) events
      → contains (keys events) e ≡ true
  unfolding contains
  In-events e ns ((e', ns') ∷ events) (inl p) =
      let same : e' ≡ e = ap (λ x. x.0) p in ground (arith, same_text_iff e' e)
  In-events e ns ((e', ns') ∷ events) (inr j) = ground (arith, In-events e ns events j)
  In-events e ns [] j = absurd j

  name_matches_absent :
      (wanted bare : Text) (events : Dict Text (List (Node F)))
      → is_empty wanted ≡ false
      → contains (keys events) wanted ≡ false
      → name_matches wanted bare events ≡ []
  unfolding name_matches contains
  name_matches_absent wanted bare [] w h = refl
  name_matches_absent wanted bare ((e, ns) ∷ events) w h =
      ground (arith, name_matches_absent wanted bare events w)

  name_matches_one :
      (e : Text) (n : Node F) (ns : List (Node F)) (events : Dict Text (List (Node F)))
      → is_empty e ≡ false
      → Distinct (keys events)
      → Distinct (names ns)
      → In (e, ns) events
      → In n ns
      → name_matches e n.name events ≡ (e, n) ∷ []
  unfolding name_matches
  name_matches_one e n ns ((e', ns') ∷ events) w d names_d (inl p) i =
      let same : e' ≡ e = ap (λ x. x.0) p in
      let nodes : ns' ≡ ns = ap (λ x. x.1) p in
      let absent : contains (keys events) e ≡ false = rw same at d.0 in
      rw (same, nodes, (same_text_iff e e).1 refl, w)
        (rw
          (
            event_matches_one n.name e n ns refl names_d i,
            name_matches_absent e n.name events w absent,
          )
          refl)
  name_matches_one e n ns ((e', ns') ∷ events) w d names_d (inr j) i = elim (Bool-cases (e' == e)) [
    | inl same ↦
        let twin : e' ≡ e = (same_text_iff e' e).0 same in cc (d.0, twin, In-events e ns events j)
    | inr other ↦ rw (w, other) (name_matches_one e n ns events w d.1 names_d j i)
  ]
  name_matches_one e n ns [] w d names_d j i = absurd j

-- In a valid map, the name `<event>/<name>` finds its node, for every node whose name has no slash
-- in it of every event whose name is not empty; the event's name may have slashes.
pub get_by_name-qualified :
    {F : Type 0} (u : Codecs) (m : NodeMap F) (e : Text) (ns : List (Node F)) (n : Node F)
    → IsValidMap u m
    → In (e, ns) m.events
    → In n ns
    → is_empty e ≡ false
    → has_no b'/' n.name ≡ true
    → get_by_name m (e ++ b'/' ∷ n.name) ≡ ok (some n)
unfolding get_by_name
get_by_name-qualified u m e ns n valid j i w plain =
    let good = All-In (IsValidEvent u) (e, ns) m.events valid.events_valid j in
    rw
      (
        rpartition-append e n.name plain,
        name_matches_one e n ns m.events w valid.events_distinct good.0 j i,
      )
      refl

-- The nodes with a name, in every event.
abbrev pub named : {F : Type 0} → Text → Dict Text (List (Node F)) → List (Text × Node F)
named bare [] = []
named bare ((e, ns) ∷ events) = event_matches bare e ns ++ named bare events

name_matches-bare :
    {F : Type 0} (bare : Text) (events : Dict Text (List (Node F)))
    → name_matches [] bare events ≡ named bare events
unfolding name_matches
name_matches-bare bare [] = refl
name_matches-bare bare ((e, ns) ∷ events) =
    ap (λ t. event_matches bare e ns ++ t) (name_matches-bare bare events)

-- A bare name is looked for in every event: it is found where one node has it, not found where
-- none has, and an error where several have it.
pub get_by_name-bare :
    {F : Type 0} (m : NodeMap F) (bare : Text)
    → has_no b'/' bare ≡ true
    → get_by_name m bare ≡ elim (named bare m.events) [
      | [] ↦ ok none
      | (e, n) ∷ rest ↦ if is_nil rest then ok (some n) else raise (ambiguous_name bare)
    ]
unfolding get_by_name
get_by_name-bare m bare plain =
    rw (rpartition_none bare plain, name_matches-bare bare m.events)
      (single bare (named bare m.events))
