-- ===== src/Discovery/Describe/Returns.antt =====
-- Describing succeeds where the server answers each item that is asked for.
use mathlib.Core.Path.{subst}
use zelos_extension_opcua.Discovery.Describe.Counted.{total, describe-counted}
use zelos_extension_opcua.Discovery.Subtypes.{SubtypeError}
use zelos_extension_opcua.NodeMap.Node.{Datatype}
use zelos_extension_opcua.Discovery.Describe.{
  DescribeError, or_no_subtypes, Kept, Describing, properties, attribute_items, is_unreadable,
  screen_one, keep_or_skip, screen, property_values, vendor_subtypes, vendor_types, needs_value,
  describe_one, next_value, describe_all, describe,
}
use zelos_extension_opcua.Discovery.Datatypes.{
  Content, DataValue, Attribute, access_level, describe_attributes, Types, value_of, field_datatype,
}
use zelos_extension_opcua.Discovery.Walk.{Found}
use zelos_extension_opcua.Prelude.{
  ℕ, zero, suc, ◌+◌, ◌*◌, ◌≡◌, refl, sym, ap, ◌∙◌, ◌⊎◌, Bool, true, false, Option, none, some, List,
  [], ◌∷◌, ◌++◌, map, arith, eqb, if◌then◌else◌, Eq, nat_eq, pair_eq, length, take, drop, keep_if,
  Result, ok, ◌>>=◌, Dict, Text, text_eq,
}

drop_none : {A : Type 0} → (k : ℕ) → drop {A = A} k [] ≡ []
drop_none zero = refl
drop_none (suc k) = refl

drop-drop : {A : Type 0} → (n m : ℕ) (xs : List A) → drop m (drop n xs) ≡ drop (n + m) xs
drop-drop zero m xs = ap (λ k. drop k xs) (let same : m ≡ 0 + m = omega arith in same)
drop-drop (suc n) m [] = drop_none m ∙ sym (drop_none (suc n + m))
drop-drop (suc n) m (x ∷ xs) =
    drop-drop n m xs
    ∙ ap (λ k. drop k (x ∷ xs)) (let same : suc (n + m) ≡ suc n + m = omega arith in same)

ok_then :
    {E A B : Type 0} (r : Result E A) (a : A) (f : A → B)
    → r ≡ ok a
    → (b : B) × (◌≡◌ {A = Result E B} (do x ← r; ok (f x)) (ok b))
ok_then r a f e = (f a, rw e refl)

module _ {N F : Type 0} (answer : N × Option Attribute → DataValue N F) where
  -- A server that answers each item on its own.
  abbrev pub Answers : (List (N × Option Attribute) → Result Text (List (DataValue N F))) → Type 0
  Answers read = (items : List (N × Option Attribute)) → read items ≡ ok (map answer items)

  abbrev of_attributes : List (Found N) → List (N × Option Attribute) → List (DataValue N F)
  of_attributes found others = map answer (attribute_items found ++ others)

  abbrev five_of : Found N → List (DataValue N F)
  five_of var = map answer (map (λ a. (var.node_id, some a)) describe_attributes)

  property_values-ok :
      (props : List ((ℕ × Bool) × N))
      → (out : List ((ℕ × Bool) × Option (Content N F))) × (property_values props
            (map answer (map (λ p. (p.1, none)) props))
          ≡ ok out)
  unfolding property_values
  property_values-ok [] = ([], refl)
  property_values-ok ((key, n) ∷ props) =
      let (rest, run) = property_values-ok props in
      ((key, value_of (answer (n, none))) ∷ rest, rw run refl)

  drop-attributes :
      (found : List (Found N)) (others : List (N × Option Attribute))
      → drop (length found * 5) (of_attributes found others) ≡ map answer others
  unfolding attribute_items
  drop-attributes [] others = refl
  drop-attributes (var ∷ found) others =
      let five : suc (length found) * 5 ≡ suc (suc (suc (suc (suc (length found * 5))))) =
        omega arith in
      subst (λ k. drop k (of_attributes (var ∷ found) others) ≡ map answer others) (sym five)
        (drop-attributes found others)

  -- The AccessLevel of a node is a number, if it has one.
  abbrev pub HasAccess : N → Type 0
  HasAccess n = (b : Bool) × (is_unreadable (value_of (answer (n, some access_level))) ≡ ok b)

  screen_one-ok :
      (var : Found N) (i : ℕ)
      → HasAccess var.node_id
      → (one : Text ⊎ Kept N F) × (screen_one var i (five_of var) ≡ ok one)
  screen_one-ok var i (b, e) =
      ok_then (is_unreadable (value_of (answer (var.node_id, some access_level)))) b _ e

  screen-ok :
      (i : ℕ) (found : List (Found N)) (others : List (N × Option Attribute))
      (dvs : List (DataValue N F)) (acc : List (Kept N F) × Dict Text ℕ)
      → ((n : N) → HasAccess n)
      → drop (i * 5) dvs ≡ of_attributes found others
      → (out : List (Kept N F) × Dict Text ℕ) × (screen i found dvs acc ≡ ok out)
  unfolding screen attribute_items
  screen-ok i [] others dvs acc access at = (acc, refl)
  screen-ok i (var ∷ found) others dvs acc access at =
      let (one, ran) = screen_one-ok var i (access var.node_id) in
      let here : take 5 (drop (i * 5) dvs) ≡ five_of var = ap (take 5) at in
      let apart : (i + 1) * 5 ≡ i * 5 + 5 = omega arith in
      let next : drop ((i + 1) * 5) dvs ≡ of_attributes found others =
        ap (λ k. drop k dvs) apart ∙ (sym (drop-drop (i * 5) 5 dvs) ∙ ap (drop 5) at) in
      let (out, rest) = screen-ok (i + 1) found others dvs (keep_or_skip one acc) access next in
      (out, rw (here, ran, rest) refl)

  module _ ⦃e : Eq N⦄ (types : Types N) where
    describe_all-ok :
        (general : F → Text) (subtypes : Dict N Datatype)
        (props : List ((ℕ × Bool) × Option (Content N F))) (kept : List (Kept N F))
        (d : Describing N)
        → (out : Describing N) × (describe_all types general subtypes props kept
              (map answer
                (map (λ k. (k.var.node_id, none)) (keep_if (needs_value types subtypes) kept)))
              d
            ≡ ok out)
    unfolding describe_all
    describe_all-ok general subtypes props [] d = (d, refl)
    describe_all-ok general subtypes props (k ∷ kept) d =
        by_need (needs_value types subtypes k)
          (λ next. describe_all-ok general subtypes props kept next)
      where
        left : List (DataValue N F)
        left =
            map answer
              (map (λ k. (k.var.node_id, none)) (keep_if (needs_value types subtypes) kept))

        verdict : Option (DataValue N F) → Describing N
        verdict dv = describe_one types general props k (field_datatype types k.dtype dv subtypes) d

        by_need :
            (b : Bool)
            → ((next : Describing N)
                → (out : Describing N) × (describe_all types general subtypes props kept left next
                    ≡ ok out))
            → (out : Describing N) × ((do
              (dv, rest) ← next_value types b (
                  map answer (
                    map
                      (λ k. (k.var.node_id, none))
                      (if◌then◌else◌ {A = List (Kept N F)} b
                        (k ∷ keep_if (needs_value types subtypes) kept)
                        (keep_if (needs_value types subtypes) kept))))
              describe_all types general subtypes props kept rest (verdict dv))
                ≡ ok out)
        by_need true rec = rec (verdict (some (answer (k.var.node_id, none))))
        by_need false rec = rec (verdict none)

    vendor_subtypes-ok :
        (subtypes_of : List N → Result SubtypeError (Dict N Datatype))
        → ((ns : List N) → (subtypes : Dict N Datatype) × (subtypes_of ns ≡ ok subtypes))
        → (ns : List N)
        → (subtypes : Dict N Datatype) × (vendor_subtypes subtypes_of ns ≡ ok subtypes)
    vendor_subtypes-ok subtypes_of browsed ns =
        let (subtypes, ran) = browsed ns in by_none (eqb (length ns) 0) subtypes ran
      where
        by_none :
            (b : Bool) (subtypes : Dict N Datatype)
            → subtypes_of ns ≡ ok subtypes
            → (out : Dict N Datatype) × (if◌then◌else◌ {A = Result DescribeError (Dict N Datatype)}
                  b
                  (ok [])
                  (or_no_subtypes (subtypes_of ns))
                ≡ ok out)
        by_none true subtypes ran = ([], refl)
        by_none false subtypes ran = (subtypes, rw ran refl)

    -- Where the server answers each item that is asked for, the datatypes' parents can be browsed, and
    -- an AccessLevel that is there is a number: describing succeeds, and every Variable found is
    -- described, or counted under the reason for which it is skipped.
    pub describe-returns :
        (read : List (N × Option Attribute) → Result Text (List (DataValue N F)))
        (subtypes_of : List N → Result SubtypeError (Dict N Datatype)) (general : F → Text)
        (found : List (Found N))
        → Answers read
        → ((n : N) → HasAccess n)
        → ((ns : List N) → (subtypes : Dict N Datatype) × (subtypes_of ns ≡ ok subtypes))
        → (out : Describing N) × (describe types read subtypes_of general found ≡ ok out)
          × (length out.out + total out.skipped ≡ length found)
    unfolding describe
    describe-returns read subtypes_of general found answers access browsed =
        let (out, ran) = returned in
        (out, ran, describe-counted types read subtypes_of general found ran)
      where
        returned : (out : Describing N) × (describe types read subtypes_of general found ≡ ok out)
        returned =
            let props = properties 0 found in
            let others : List (N × Option Attribute) = map (λ p. (p.1, none)) props in
            let dvs = of_attributes found others in
            let (prop_values, valued) = property_values-ok props in
            let ((kept, skipped), screened) = screen-ok 0 found others dvs ([], []) access refl in
            let (subtypes, typed) =
              vendor_subtypes-ok subtypes_of browsed (vendor_types types kept) in
            let (out, ran) =
              describe_all-ok general subtypes prop_values kept
                (record { out = []; skipped = skipped; variant = [] }) in
            (
              out,
              rw
                  (
                    answers (attribute_items found ++ others),
                    drop-attributes found others,
                    valued,
                    screened,
                    typed,
                    answers (
                        map (λ k. (k.var.node_id, none))
                          (keep_if (needs_value types subtypes) kept)),
                    ran,
                  )
                  refl,
            )
