-- ===== src/Tests/Names.antt =====
-- The names of two variables of one name.
use mathlib.Core.Path.{subst}
use zelos_extension_opcua.Discovery.Naming.Groups.{names_in}
use zelos_extension_opcua.Discovery.Naming.Unambiguous.{
  IsDigest, AreFresh, assign_names-AreDistinct,
}
use zelos_extension_opcua.NodeMap.Node.{int16, datatype_text, datatype_of, Node, make_node}
use zelos_extension_opcua.Discovery.Filter.{BrowsePath}
use zelos_extension_opcua.Prelude.{
  ℕ, ◌≡◌, refl, sym, ap, ◌≢◌, inl, inr, true, false, none, some, List, [], ◌∷◌, ◌++◌, map, arith,
  eqb, if◌then◌else◌, Bool-cases, ◌==◌, nat_eq, pair_eq, take, All, In, ok, contains, Distinct,
  lookup, insert, Text, codes, same_text, text_eq, split_parts, join, has_no, insert_by, sort_by,
  text_le, count_of,
}
use zelos_extension_opcua.Tests.Ids.{ascii}
use zelos_extension_opcua.Discovery.Walk.{Found}
use zelos_extension_opcua.Discovery.Naming.{
  Naming, Described, index_text, split_quoted, before_quote, siemens, head_rest, codesys, br_task,
  inner_dot, dotted, last_is, group, node_id_string, field_of, id_of, place_all, hashed,
  is_collided, collider_name, name_rows, assign_names,
}
use zelos_extension_opcua.NodeMap.Ids.{
  Identifier, str, int, span, strip_prefix, match_rest, match_tail, match_node_id, digits_value,
  underscored, is_space, strip_left, strip_right, parse_int, hex_value, escape, unescape,
  unquote_runs, unquote, replace_char, parse_identifier, namespace_of, parse_node_id,
  format_nsu_node_id, NodeId,
}
use zelos_extension_opcua.Prelude.Int.{pos}

abbrev pub uris : List Text
uris = codes "http://opcfoundation.org/UA/" ∷ codes "urn:x" ∷ []

abbrev text_of : Identifier → Text
text_of (str s) = codes "s=" ++ s
text_of _ = codes "i=7"

abbrev forty : ℕ → Text
forty c =
    c ∷ c ∷ c ∷ c ∷ c ∷ c ∷ c ∷ c ∷ c ∷ c ∷ c ∷ c ∷ c ∷ c ∷ c ∷ c ∷ c ∷ c ∷ c ∷ c ∷ c ∷ c ∷ c ∷ c
    ∷ c ∷ c ∷ c ∷ c ∷ c ∷ c ∷ c ∷ c ∷ c ∷ c ∷ c ∷ c ∷ c ∷ c ∷ c ∷ c ∷ []

-- A digest of two values.
abbrev two_hashes : Text → Text
two_hashes t = if t == codes "nsu=urn:x;i=7" then forty b'a' else forty b'b'

abbrev pub libraries : Naming ℕ
libraries = record {
  codecs = ascii;
  one = 1;
  sanitize = λ name. name;
  bare = text_of;
  sha1 = two_hashes;
}

abbrev found_at : Identifier → BrowsePath → Found NodeId
found_at id path = record {
  node_id = record { ns = 1; identifier = id };
  name = codes "Speed";
  path = path;
  eu = none;
  eu_range = none;
}

-- The first is placed by its vendor's id, the second by its path.
abbrev two_speeds : List Described
two_speeds =
    (found_at (str (codes "\"DB1\".\"Speed\"")) [], codes "int16", [], [])
    ∷ (found_at (int (pos 7)) (codes "DB1" ∷ []), codes "int16", [], [])
    ∷ []

abbrev speed_node : Text → Text → Node ℕ
speed_node id name = record {
  node_id = id;
  name = name;
  datatype = int16;
  unit = [];
  scale = 1;
  description = [];
  writable = some false;
}

abbrev speed_nodes : List (Node ℕ)
speed_nodes =
    speed_node (codes "nsu=urn:x;i=7") (codes "Speed_aaaaaa")
    ∷ speed_node (codes "nsu=urn:x;s=\"DB1\".\"Speed\"") (codes "Speed_bbbbbb")
    ∷ []

abbrev speed_renames : List Text
speed_renames =
    codes "DB1/Speed -> Speed_aaaaaa (nsu=urn:x;i=7)"
    ∷ codes "DB1/Speed -> Speed_bbbbbb (nsu=urn:x;s=\"DB1\".\"Speed\")"
    ∷ []

speeds_named :
    assign_names libraries uris two_speeds ≡ ok ((codes "DB1", speed_nodes) ∷ [], speed_renames)
unfolding assign_names place_all make_node datatype_of same_text parse_node_id node_id_string
    format_nsu_node_id replace_char parse_int name_rows sort_by group insert_by text_le insert
    is_collided join count_of siemens before_quote br_task codesys collider_name dotted hashed
    head_rest index_text inner_dot last_is split_quoted digits_value escape hex_value is_space
    match_node_id match_rest match_tail namespace_of parse_identifier span strip_left strip_prefix
    strip_right underscored unescape unquote unquote_runs datatype_text lookup split_parts
speeds_named = refl

-- Either of two.
two_cases : {A : Type 0} → (P : A → Type 0) (x y a : A) → In a (x ∷ y ∷ []) → P x → P y → P a
two_cases P x y a (inl e) p q = subst P e p
two_cases P x y a (inr (inl e)) p q = subst P e q
two_cases P x y a (inr (inr i)) p q = absurd i

abbrev second_id : Text
second_id = codes "nsu=urn:x;s=\"DB1\".\"Speed\""

abbrev speed_ids : List Text
speed_ids = second_id ∷ codes "nsu=urn:x;i=7" ∷ []

head_of : Text → ℕ
head_of [] = 0
head_of (c ∷ s) = c

ids_computed : map (id_of libraries uris) two_speeds ≡ speed_ids
unfolding node_id_string format_nsu_node_id replace_char index_text
ids_computed = refl

forty-has_no : (c : ℕ) → eqb c b'_' ≡ false → has_no b'_' (forty c) ≡ true
forty-has_no c h = rw h refl

two_hashes-IsDigest : IsDigest libraries (map (id_of libraries uris) two_speeds)
unfolding same_text head_of
two_hashes-IsDigest = record {
  digits =
      λ t. elim (Bool-cases (t == codes "nsu=urn:x;i=7")) [ inl y ↦ rw y refl | inr n ↦ rw n refl ];
  long =
      λ t. elim (Bool-cases (t == codes "nsu=urn:x;i=7")) [ inl y ↦ rw y refl | inr n ↦ rw n refl ];
  apart = λ a b i j.
      two_cases (λ x. take 10 (two_hashes x) ≡ take 10 (two_hashes b) → x ≡ b) second_id
        (codes "nsu=urn:x;i=7") a (subst (In a) ids_computed i)
        (two_cases (λ y. take 10 (two_hashes second_id) ≡ take 10 (two_hashes y) → second_id ≡ y)
          second_id (codes "nsu=urn:x;i=7") b (subst (In b) ids_computed j) (λ h. refl)
          (λ h. let heads : b'b' ≡ b'a' = ap head_of h in absurd (omega (arith, heads))))
        (two_cases (λ y. take 10 (forty b'a') ≡ take 10 (two_hashes y) → codes "nsu=urn:x;i=7" ≡ y)
          second_id (codes "nsu=urn:x;i=7") b (subst (In b) ids_computed j)
          (λ h. let heads : b'a' ≡ b'b' = ap head_of h in absurd (omega (arith, heads)))
          (λ h. refl));
}

-- No name is as long as one with a hash.
speeds-AreFresh : AreFresh libraries uris two_speeds
unfolding hashed
speeds-AreFresh a b i j =
    two_cases
      (λ x.
        field_of libraries uris x
        ≢ hashed libraries (field_of libraries uris b) (id_of libraries uris b) 10)
      _ _ a i (other b j) (other b j)
  where
    other :
        (b : Described)
        → In b two_speeds
        → codes "Speed" ≢ hashed libraries (field_of libraries uris b) (id_of libraries uris b) 10
    other b j =
        two_cases
          (λ y.
            codes "Speed"
            ≢ hashed libraries (field_of libraries uris y) (id_of libraries uris y) 10)
          _ _ b j (λ h. cc h) (λ h. cc h)

assign_names-AreDistinct_example :
    All {A = Text × List (Node ℕ)} (λ e. Distinct (names_in e.1)) ((codes "DB1", speed_nodes) ∷ [])
unfolding contains same_text
assign_names-AreDistinct_example =
    assign_names-AreDistinct libraries uris two_speeds two_hashes-IsDigest speeds-AreFresh
      (subst Distinct (sym ids_computed) (refl, (refl, tt))) speeds_named
