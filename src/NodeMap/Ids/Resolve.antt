-- ===== src/NodeMap/Ids/Resolve.antt =====
-- How `parse_node_id_to_ua` resolves a URI-qualified id against the server's NamespaceArray.
use mathlib.Core.Path.{subst}
use zelos_extension_opcua.Prelude.{
  ℕ, zero, suc, ◌<◌, ◌≡◌, refl, ◌≢◌, inl, inr, false, none, some, List, [], ◌∷◌, arith,
  Option-cases, ◌==◌, nat_eq, get_elem?, ok, raise, contains, Text, same_text_iff, text_eq,
}
use zelos_extension_opcua.NodeMap.Ids.{
  Codecs, unknown_uri, uri, Identifier, parse_node_id, index_of, NodeId, parse_node_id_to_ua,
}

-- `i` is the first place of `s`.
abbrev pub IsFirst : Text → List Text → ℕ → Type 0
IsFirst s ts i = (get_elem? ts i ≡ some s) × ((j : ℕ) → j < i → get_elem? ts j ≢ some s)

index_of-IsFirst : (s : Text) (ts : List Text) (i : ℕ) → index_of s ts ≡ some i → IsFirst s ts i
unfolding index_of
index_of-IsFirst s [] i h = cc
index_of-IsFirst s (t ∷ ts) zero h =
    (ground (arith, same_text_iff t s), λ j l. absurd (omega arith))
index_of-IsFirst s (t ∷ ts) (suc i) h =
    let rest : index_of s ts ≡ some i = ground (arith, same_text_iff t s) in
    let other : (t == s) ≡ false = ground arith in
    let (here, earlier) = index_of-IsFirst s ts i rest in (here, skip other earlier)
  where
    skip :
        (t == s) ≡ false
        → ((j : ℕ) → j < i → get_elem? ts j ≢ some s)
        → (j : ℕ) → j < suc i
        → get_elem? (t ∷ ts) j ≢ some s
    skip other earlier zero l = λ e. ground (arith, same_text_iff t s)
    skip other earlier (suc j) l = earlier j (omega arith)

index_of-none : (s : Text) (ts : List Text) → contains ts s ≡ false → index_of s ts ≡ none
unfolding index_of contains
index_of-none s [] h = refl
index_of-none s (t ∷ ts) h = ground (arith, index_of-none s ts)

module _ (u : Codecs) (s : Text) (namespaces : List Text) {name : Text} {k : ℕ} {id : Identifier}
    (parsed : parse_node_id u s ≡ ok (uri name, k, id)) where
  -- A URI-qualified id that resolves keeps its identifier, and its index is the first place where
  -- the NamespaceArray holds the id's own URI.
  pub parse_node_id_to_ua-IsFirst :
      {n : NodeId}
      → parse_node_id_to_ua u s namespaces ≡ ok n
      → (n.identifier ≡ id) × IsFirst name namespaces n.ns
  unfolding parse_node_id_to_ua
  parse_node_id_to_ua-IsFirst {n} h = elim (Option-cases (index_of name namespaces)) [
    | inl missing ↦ cc (rw (parsed, missing) at h)
    | inr (i, found) ↦
        let made : ok (record { ns = i; identifier = id }) ≡ ok n = rw (parsed, found) at h in
        let place : i ≡ n.ns = cc in
        (cc, subst (IsFirst name namespaces) place (index_of-IsFirst name namespaces i found))
  ]

  -- A URI that the NamespaceArray does not hold is an error, never a guessed index.
  pub parse_node_id_to_ua_unpublished :
      contains namespaces name ≡ false → parse_node_id_to_ua u s namespaces ≡ raise unknown_uri
  unfolding parse_node_id_to_ua
  parse_node_id_to_ua_unpublished h = rw (parsed, index_of-none name namespaces h) refl
