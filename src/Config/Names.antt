-- ===== src/Config/Names.antt =====
-- What a configuration that is accepted promises.
use mathlib.Core.Path.{subst}
use zelos_extension_opcua.Config.{
  Urls, Advanced, Entry, Resolved, legacy_shape, no_servers, no_endpoint, userinfo, reserved_name,
  same_name, top_level_keys, reserved_names, has_userinfo, name_of, resolved, check_entry,
  resolve_entries, resolve_servers,
}
use zelos_extension_opcua.NodeMap.Ids.{strip}
use zelos_extension_opcua.Prelude.{
  ℕ, ◌+◌, ◌≡◌, refl, sym, ap, false, not, List, [], ◌∷◌, map, arith, eqb, nat_eq, length, keep_if,
  All, ok, raise_if, >>=-eq-ok, ok-injective, raise_if-ok, Dict, keys, contains, Distinct, lookup,
  insert, contains-keys-insert, Text, same_text_iff, text_eq, is_empty,
}

module _ (u : Urls) (a : Advanced) where
  -- Nothing that a guard refuses, and nothing seen before.
  abbrev pub IsAccepted : Dict Text Text → Resolved → Type 0
  IsAccepted seen r =
      (is_empty r.endpoint ≡ false)
      × (has_userinfo u r.endpoint ≡ false)
      × (contains reserved_names r.name ≡ false)
      × (contains (keys seen) r.name ≡ false)

  check_entry-ok :
      (i : ℕ) (endpoint name : Text) (seen : Dict Text Text) {t : Unit {0}}
      → check_entry u a i endpoint name seen ≡ ok t
      → (is_empty endpoint ≡ false)
        × (has_userinfo u endpoint ≡ false)
        × (contains reserved_names name ≡ false)
        × (contains (keys seen) name ≡ false)
  unfolding check_entry
  check_entry-ok i endpoint name seen h =
      let (x1, h1, r1) = >>=-eq-ok (raise_if (is_empty endpoint) (no_endpoint i)) _ h in
      let (x2, h2, r2) = >>=-eq-ok (raise_if (has_userinfo u endpoint) (userinfo name)) _ r1 in
      let (x3, h3, r3) =
        >>=-eq-ok (raise_if (contains reserved_names name) (reserved_name endpoint name)) _ r2 in
      (
        raise_if-ok (is_empty endpoint) (no_endpoint i) h1,
        raise_if-ok (has_userinfo u endpoint) (userinfo name) h2,
        raise_if-ok (contains reserved_names name) (reserved_name endpoint name) h3,
        raise_if-ok (contains (keys seen) name) (same_name (lookup name seen) endpoint name) r3,
      )

  -- What is new after one more name is new before it, and another name.
  names_apart :
      (name endpoint : Text) (seen : Dict Text Text) (rs : List Resolved)
      → All (IsAccepted (insert name endpoint seen)) rs
      → All (IsAccepted seen) rs × (contains (map (λ r. r.name) rs) name ≡ false)
  unfolding contains
  names_apart name endpoint seen [] h = (tt, refl)
  names_apart name endpoint seen (r ∷ rs) ((e, i, v, new), h) =
      let (rest, apart) = names_apart name endpoint seen rs h in
      let both = contains-keys-insert name r.name endpoint seen in
      (
        ((e, i, v, ground (arith, both, new)), rest),
        ground (arith, both, new, apart, same_text_iff r.name name, same_text_iff name r.name),
      )

  resolve_entries-names :
      (i : ℕ) (seen : Dict Text Text) (servers : List Entry) {rs : List Resolved}
      → resolve_entries u a i seen servers ≡ ok rs
      → All (IsAccepted seen) rs × Distinct (map (λ r. r.name) rs)
  unfolding resolve_entries resolved
  resolve_entries-names i seen [] {rs} h =
      subst (λ z. All (IsAccepted seen) z × Distinct (map (λ r. r.name) z)) (ok-injective h)
        (tt, tt)
  resolve_entries-names i seen (s ∷ servers) {rs} h =
      let endpoint = strip s.endpoint in
      let name = name_of u a s endpoint in
      let (t, checked, h1) = >>=-eq-ok (check_entry u a i endpoint name seen) _ h in
      let (rest, tail, made) =
        >>=-eq-ok (resolve_entries u a (i + 1) (insert name endpoint seen) servers) _ h1 in
      let (all, distinct) =
        resolve_entries-names (i + 1) (insert name endpoint seen) servers tail in
      let (here, apart) = names_apart name endpoint seen rest all in
      let own = check_entry-ok i endpoint name seen checked in
      subst (λ z. All (IsAccepted seen) z × Distinct (map (λ r. r.name) z)) (ok-injective made)
        ((own, here), (apart, distinct))

  resolve_entries-endpoints :
      (i : ℕ) (seen : Dict Text Text) (servers : List Entry) {rs : List Resolved}
      → resolve_entries u a i seen servers ≡ ok rs
      → map (λ r. r.endpoint) rs ≡ map (λ s. strip s.endpoint) servers
  unfolding resolve_entries resolved
  resolve_entries-endpoints i seen [] {rs} h = sym (ap (map (λ r. r.endpoint)) (ok-injective h))
  resolve_entries-endpoints i seen (s ∷ servers) {rs} h =
      let endpoint = strip s.endpoint in
      let name = name_of u a s endpoint in
      let (t, checked, h1) = >>=-eq-ok (check_entry u a i endpoint name seen) _ h in
      let (rest, tail, made) =
        >>=-eq-ok (resolve_entries u a (i + 1) (insert name endpoint seen) servers) _ h1 in
      let ends = resolve_entries-endpoints (i + 1) (insert name endpoint seen) servers tail in
      subst (λ z. map (λ r. r.endpoint) z ≡ endpoint ∷ map (λ k. strip k.endpoint) servers)
        (ok-injective made) (ap (λ xs. endpoint ∷ xs) ends)

  -- A configuration that is accepted gives one client per entry, in their order, and no two of
  -- them have one name; no name is one of the log's, no endpoint is empty, and none carries a
  -- user name or a password.
  pub resolve_servers-names :
      (top_level : List Text) (servers : List Entry) {rs : List Resolved}
      → resolve_servers u a top_level servers ≡ ok rs
      → (map (λ r. r.endpoint) rs ≡ map (λ s. strip s.endpoint) servers)
        × Distinct (map (λ r. r.name) rs)
        × All (IsAccepted []) rs
  unfolding resolve_servers
  resolve_servers-names top_level servers h =
      let legacy = keep_if (λ k. not (contains top_level_keys k)) top_level in
      let (_, _, h1) =
        >>=-eq-ok (raise_if (not (eqb (length legacy) 0)) (legacy_shape legacy)) _ h in
      let (_, _, h2) = >>=-eq-ok (raise_if (eqb (length servers) 0) no_servers) _ h1 in
      let (all, distinct) = resolve_entries-names 0 [] servers h2 in
      (resolve_entries-endpoints 0 [] servers h2, distinct, all)
