-- ===== src/Discovery/Naming/Unambiguous.antt =====
-- The names that `assign_names` gives are distinct within an event.

use mathlib.Core.Path.{subst}
use zelos_extension_opcua.Discovery.Naming.Groups.{names_in, group-IsGrouped}
use zelos_extension_opcua.NodeMap.Ids.{Codecs, parse_node_id}
use zelos_extension_opcua.NodeMap.Node.{
  datatype_of, invalid_datatype, Node, node_id_check, make_node,
}
use zelos_extension_opcua.Prelude.{
  ℕ, zero, suc, ◌≤◌, ◌≡◌, refl, sym, ap, ◌∙◌, ◌≢◌, ◌⊎◌, inl, inr, Bool, true, false, Option, none,
  some, List, [], ◌∷◌, ◌++◌, map, arith, ltb, eqb, if◌then◌else◌, Bool-cases, nat_eq, pair_eq,
  length, take, length-take, All, In, All-In, In-map, map_twice, ok, or_raise, >>=-eq-ok,
  ok-injective, Dict, Distinct, Text, text_eq, has_no, sort_by, All-sort_by, Distinct-sort_by,
  text_le, count_of, count_of-once, Distinct-map,
}
use zelos_extension_opcua.Discovery.Naming.{
  Naming, Described, Placed, row_key, group, node_id_string, field_of, id_of, placed, place_all,
  hashed, is_collided, short_name, short_key, collider_name, final_name, renamed, name_rows,
  assign_names,
}

-- What stands after the last `c`.
after_last : ℕ → Text → Option Text
after_last c [] = none
after_last c (d ∷ s) = elim (after_last c s) [
  | some t ↦ some t
  | none ↦ if eqb d c then some s else none
]

after_last_absent : (c : ℕ) (s : Text) → has_no c s ≡ true → after_last c s ≡ none
unfolding after_last
after_last_absent c [] h = refl
after_last_absent c (d ∷ s) h = ground (arith, after_last_absent c s)

after_last-append : (c : ℕ) (s t : Text) → has_no c t ≡ true → after_last c (s ++ c ∷ t) ≡ some t
unfolding after_last
after_last-append c [] t h = ground (arith, after_last_absent c t h)
after_last-append c (d ∷ s) t h = rw (after_last-append c s t h) refl

has_no-take : (c n : ℕ) (s : Text) → has_no c s ≡ true → has_no c (take n s) ≡ true
has_no-take c zero s h = refl
has_no-take c (suc n) [] h = refl
has_no-take c (suc n) (d ∷ s) h = ground (arith, has_no-take c n s)

some-injective : {A : Type 0} {a b : A} → some a ≡ some b → a ≡ b
some-injective h = cc

pair_path : {A B : Type 0} {x y : A × B} → x.0 ≡ y.0 → x.1 ≡ y.1 → x ≡ y
pair_path {x = (a, b)} {y = (c, d)} h k = cc

module _ {F : Type 0} (p : Naming F) where
  -- The digests are hexadecimal and as long as those of SHA-1, and ten digits tell the ids apart.
  pub record IsDigest (ids : List Text) : Type 0 where
    pub digits : (t : Text) → has_no b'_' (p.sha1 t) ≡ true
    pub long : (t : Text) → length (p.sha1 t) ≡ 40
    pub apart : (a b : Text) → In a ids → In b ids → take 10 (p.sha1 a) ≡ take 10 (p.sha1 b) → a ≡ b

  module _ (namespaces : List Text) (described : List Described) where
    abbrev ids : List Text
    ids = map (id_of p namespaces) described

    -- No name is another's name with ten digits of its hash.
    abbrev pub AreFresh : Type 0
    AreFresh =
        (a b : Described)
        → In a described
        → In b described
        → field_of p namespaces a ≢ hashed p (field_of p namespaces b) (id_of p namespaces b) 10

    -- The node is that of a described Variable.
    abbrev IsNodeOf : Placed F → Described → Type 0
    IsNodeOf r d =
        In d described × (r.1.name ≡ field_of p namespaces d) × (r.1.node_id ≡ id_of p namespaces d)

    abbrev IsPlaced : Placed F → Type 0
    IsPlaced r = (d : Described) × IsNodeOf r d

    module _ (digest : IsDigest ids) (fresh : AreFresh) (rows : List (Placed F))
        (all : All IsPlaced rows) where
      hash_of :
          (r : Placed F) (n : ℕ)
          → after_last b'_' (hashed p r.1.name r.1.node_id n) ≡ some (take n (p.sha1 r.1.node_id))
      unfolding hashed
      hash_of r n =
          after_last-append b'_' r.1.name (take n (p.sha1 r.1.node_id))
            (has_no-take b'_' n (p.sha1 r.1.node_id) (digest.digits r.1.node_id))

      same_hash :
          (a b : Placed F) (n m : ℕ)
          → hashed p a.1.name a.1.node_id n ≡ hashed p b.1.name b.1.node_id m
          → take n (p.sha1 a.1.node_id) ≡ take m (p.sha1 b.1.node_id)
      same_hash a b n m h =
          some-injective (sym (hash_of a n) ∙ ap (after_last b'_') h ∙ hash_of b m)

      short_not_long :
          (a b : Placed F) → hashed p a.1.name a.1.node_id 6 ≢ hashed p b.1.name b.1.node_id 10
      short_not_long a b h =
          let same = ap length (same_hash a b 6 10 h) in
          let six = length-take 6 (p.sha1 a.1.node_id) in
          let ten = length-take 10 (p.sha1 b.1.node_id) in
          absurd (omega (arith, same, six, ten, digest.long a.1.node_id, digest.long b.1.node_id))

      long_same :
          (a b : Placed F)
          → In a rows
          → In b rows
          → hashed p a.1.name a.1.node_id 10 ≡ hashed p b.1.name b.1.node_id 10
          → a.1.node_id ≡ b.1.node_id
      long_same a b i j h =
          digest.apart a.1.node_id b.1.node_id (own a i) (own b j) (same_hash a b 10 10 h)
        where
          own : (r : Placed F) → In r rows → In r.1.node_id ids
          own r i =
              let (d, known) = All-In IsPlaced r rows all i in
              subst (λ t. In t ids) (sym known.2) (In-map (id_of p namespaces) d described known.0)

      plain_not_long :
          (a b : Placed F) → In a rows → In b rows → a.1.name ≢ hashed p b.1.name b.1.node_id 10
      plain_not_long a b i j h =
          let (d, known) = All-In IsPlaced a rows all i in
          let (c, other) = All-In IsPlaced b rows all j in
          fresh d c known.0 other.0 (
            sym known.1
            ∙ h
            ∙ ap (λ t. hashed p t b.1.node_id 10) other.1
            ∙ ap (λ t. hashed p (field_of p namespaces c) t 10) other.2)

      -- The three ways to a name: as it is, with six digits that nothing else has, with ten.
      abbrev IsLone : Placed F → Type 0
      IsLone r =
          (final_name p rows r ≡ r.1.name)
          × (short_name p rows r ≡ r.1.name)
          × (count_of row_key rows (row_key r) ≤ 1)

      abbrev IsShort : Placed F → Type 0
      IsShort r =
          (final_name p rows r ≡ hashed p r.1.name r.1.node_id 6)
          × (short_name p rows r ≡ hashed p r.1.name r.1.node_id 6)
          × (count_of (short_key p rows) rows (short_key p rows r) ≤ 1)

      abbrev IsLong : Placed F → Type 0
      IsLong r = final_name p rows r ≡ hashed p r.1.name r.1.node_id 10

      lone : (r : Placed F) → is_collided p rows r ≡ false → IsLone r
      unfolding is_collided
      lone r h = (rw h refl, rw h refl, ground (arith, h))

      collided :
          (r : Placed F) (b : Bool)
          → is_collided p rows r ≡ true
          → ltb 1 (count_of (short_key p rows) rows (r.0, hashed p r.1.name r.1.node_id 6)) ≡ b
          → IsShort r ⊎ IsLong r
      unfolding collider_name
      collided r true h t = inr (rw (h, t) refl)
      collided r false h t = inl (rw (h, t) refl, rw h refl, rw h (ground (arith, t)))

      named_how : (r : Placed F) → IsLone r ⊎ (IsShort r ⊎ IsLong r)
      named_how r = elim (Bool-cases (is_collided p rows r)) [
        | inl t ↦ inr (collided r _ t refl)
        | inr f ↦ inl (lone r f)
      ]

      -- Two rows of one final name and event are those of one node.
      abbrev final_key : Placed F → Text × Text
      final_key r = (r.0, final_name p rows r)

      short_first :
          (a b : Placed F)
          → In a rows
          → In b rows
          → final_key a ≡ final_key b
          → IsShort a
          → (short_name p rows b ≡ final_name p rows b)
          → a ≡ b
      short_first a b i j h (final, short, once) brief =
          count_of-once (short_key p rows) rows a b once i j
            (pair_path (ap (λ z. z.0) h) (short ∙ sym final ∙ ap (λ z. z.1) h ∙ sym brief))

      node_of_name :
          (a b : Placed F)
          → In a rows
          → In b rows
          → final_key a ≡ final_key b
          → a.1.node_id ≡ b.1.node_id
      node_of_name a b i j h = by_cases (named_how a) (named_how b)
        where
          same : final_name p rows a ≡ final_name p rows b
          same = ap (λ z. z.1) h

          by_cases :
              IsLone a ⊎ (IsShort a ⊎ IsLong a)
              → IsLone b ⊎ (IsShort b ⊎ IsLong b)
              → a.1.node_id ≡ b.1.node_id
          by_cases (inl x) (inl y) =
              ap (λ r. r.1.node_id)
                (count_of-once row_key rows a b x.2 i j
                  (pair_path (ap (λ z. z.0) h) (sym x.0 ∙ same ∙ y.0)))
          by_cases (inr (inl x)) (inl y) =
              ap (λ r. r.1.node_id) (short_first a b i j h x (y.1 ∙ sym y.0))
          by_cases (inl x) (inr (inl y)) =
              ap (λ r. r.1.node_id) (sym (short_first b a j i (sym h) y (x.1 ∙ sym x.0)))
          by_cases (inr (inl x)) (inr (inl y)) =
              ap (λ r. r.1.node_id) (short_first a b i j h x (y.1 ∙ sym y.0))
          by_cases (inl x) (inr (inr y)) = absurd (plain_not_long a b i j (sym x.0 ∙ same ∙ y))
          by_cases (inr (inr x)) (inl y) = absurd (plain_not_long b a j i (sym y.0 ∙ sym same ∙ x))
          by_cases (inr (inl x)) (inr (inr y)) = absurd (short_not_long a b (sym x.0 ∙ same ∙ y))
          by_cases (inr (inr x)) (inr (inl y)) =
              absurd (short_not_long b a (sym y.0 ∙ sym same ∙ x))
          by_cases (inr (inr x)) (inr (inr y)) = long_same a b i j (sym x ∙ same ∙ y)

      -- The rows named have distinct events and names.
      renamed-Distinct :
          Distinct (map (λ r. r.1.node_id) rows)
          → Distinct (map row_key (map (renamed p rows) rows))
      renamed-Distinct d =
          subst Distinct (sym (map_twice row_key (renamed p rows) rows))
            (Distinct-map (λ r. r.1.node_id) final_key rows node_of_name d)

module _ {F : Type 0} (p : Naming F) (namespaces : List Text) where
  make_node-ok :
      (u : Codecs) (node_id name datatype unit : Text) (scale : F) (description : Text)
      (writable : Option Bool) {n : Node F}
      → make_node u node_id name datatype unit scale description writable ≡ ok n
      → (n.name ≡ name) × (n.node_id ≡ node_id)
  unfolding make_node
  make_node-ok u node_id name datatype unit scale description writable h =
      let (d, _, h1) = >>=-eq-ok (or_raise (datatype_of datatype) invalid_datatype) _ h in
      let (x, _, h2) = >>=-eq-ok (node_id_check (parse_node_id u node_id)) _ h1 in
      (sym (ap (λ z. z.name) (ok-injective h2)), sym (ap (λ z. z.node_id) (ok-injective h2)))

  abbrev IsRowOf : Placed F → Described → Type 0
  IsRowOf r d = (r.1.name ≡ field_of p namespaces d) × (r.1.node_id ≡ id_of p namespaces d)

  placed-ok : (d : Described) {r : Placed F} → placed p namespaces d ≡ ok r → IsRowOf r d
  placed-ok (var, datatype, unit, description) h =
      let (n, made, h1) =
        >>=-eq-ok
          (make_node p.codecs (node_id_string p namespaces var.node_id) (p.sanitize var.name)
            datatype unit p.one description (some false))
          _ h in
      subst (λ z. IsRowOf z (var, datatype, unit, description)) (ok-injective h1)
        (make_node-ok p.codecs (node_id_string p namespaces var.node_id) (p.sanitize var.name)
          datatype unit p.one description (some false) made)

  pub place_all-ok :
      (all described : List Described) {rows : List (Placed F)}
      → ((d : Described) → In d described → In d all)
      → place_all p namespaces described ≡ ok rows
      → All (IsPlaced p namespaces all) rows
        × (map (λ r. r.1.node_id) rows ≡ map (id_of p namespaces) described)
  unfolding place_all
  place_all-ok all [] sub h =
      subst (λ z. All (IsPlaced p namespaces all) z × (map (λ r. r.1.node_id) z ≡ []))
        (ok-injective h) (tt, refl)
  place_all-ok all (d ∷ described) sub h =
      let (row, one, h1) = >>=-eq-ok (placed p namespaces d) _ h in
      let (rows, rest, h2) = >>=-eq-ok (place_all p namespaces described) _ h1 in
      let here = placed-ok d one in
      let (others, ids) = place_all-ok all described (λ c i. sub c (inr i)) rest in
      subst
        (λ z.
          All (IsPlaced p namespaces all) z
          × (map (λ r. r.1.node_id) z ≡ map (id_of p namespaces) (d ∷ described)))
        (ok-injective h2) (((d, (sub d (inl refl), here.0, here.1)), others), rw (here.1, ids) refl)

-- Where the ids of the described Variables are distinct, ten digits of SHA-1 tell them apart, and no
-- name is another's name with its hash, the names within each event are distinct.
pub assign_names-AreDistinct :
    {F : Type 0}
    → (p : Naming F) (namespaces : List Text) (described : List Described)
      {out : Dict Text (List (Node F)) × List Text}
    → IsDigest p (map (id_of p namespaces) described)
    → AreFresh p namespaces described
    → Distinct (map (id_of p namespaces) described)
    → assign_names p namespaces described ≡ ok out
    → All (λ e. Distinct (names_in e.1)) out.0
unfolding assign_names name_rows
assign_names-AreDistinct p namespaces described digest fresh d h =
    let (placed_rows, placing, made) = >>=-eq-ok (place_all p namespaces described) _ h in
    let (all, ids) = place_all-ok p namespaces described described (λ c i. i) placing in
    let by_id : Placed _ → Placed _ → Bool = λ a b. text_le a.1.node_id b.1.node_id in
    let rows = sort_by by_id placed_rows in
    let apart : Distinct (map (λ r. r.1.node_id) rows) =
      Distinct-sort_by by_id (λ r. r.1.node_id) placed_rows (subst Distinct (sym ids) d) in
    let keys =
      renamed-Distinct p namespaces described digest fresh rows
        (All-sort_by by_id (IsPlaced p namespaces described) placed_rows all) apart in
    subst (λ z. All (λ e. Distinct (names_in e.1)) z.0) (ok-injective made)
      (All-sort_by (λ a b. text_le a.0 b.0) (λ e. Distinct (names_in e.1))
        (group (map (renamed p rows) rows) [])
        (group-IsGrouped (map (renamed p rows) rows) [] [] keys tt))
