-- ===== src/Discovery/Describe/Counted.antt =====
-- No Variable is lost when what a walk found is described.

use zelos_extension_opcua.NodeMap.Node.{Datatype}
use zelos_extension_opcua.Discovery.Subtypes.{SubtypeError}
use zelos_extension_opcua.Discovery.Describe.{
  or_not_read, count_or, bump, Kept, Describing, properties, attribute_items, screen_one,
  keep_or_skip, screen, property_values, vendor_subtypes, vendor_types, needs_value, describe_one,
  next_value, describe_all, describe,
}
use zelos_extension_opcua.Discovery.Datatypes.{Content, DataValue, Attribute, Types, field_datatype}
use zelos_extension_opcua.Discovery.Walk.{Found}
use zelos_extension_opcua.Prelude.{
  ℕ, ◌+◌, ◌*◌, ◌≡◌, refl, ap, ◌⊎◌, inl, inr, Bool, true, false, Option, none, some, List, [], ◌∷◌,
  ◌++◌, map, arith, if◌then◌else◌, Eq, nat_eq, length, take, drop, length-append, keep_if, Result,
  ok, >>=-eq-ok, ok-injective, Dict, lookup, insert, Text, same_text, text_eq,
}

-- All that a counter counts.
abbrev pub total : Dict Text ℕ → ℕ
total [] = 0
total ((reason, n) ∷ counter) = n + total counter

total-bump :
    (reason : Text) (counter : Dict Text ℕ) → total (bump reason counter) ≡ total counter + 1
unfolding insert lookup
total-bump reason [] = refl
total-bump reason ((r, n) ∷ counter) = by_same (same_text r reason) (total-bump reason counter)
  where
    by_same :
        (b : Bool)
        → total (insert reason (count_or (lookup reason counter) + 1) counter) ≡ total counter + 1
        → total (
            if◌then◌else◌ {A = Dict Text ℕ} b
              ((
                reason,
                count_or (if◌then◌else◌ {A = Option ℕ} b (some n) (lookup reason counter)) + 1,
              )
                ∷ counter)
              ((r, n)
                ∷ insert reason
                    (count_or (if◌then◌else◌ {A = Option ℕ} b (some n) (lookup reason counter)) + 1)
                    counter))
          ≡ n + total counter + 1
    by_same true rest = omega arith
    by_same false rest = omega (arith, rest)

added : {A : Type 0} → (xs : List A) (x : A) (n : ℕ) → length (xs ++ x ∷ []) + n ≡ length xs + n + 1
added xs x n = let more = length-append xs (x ∷ []) in omega (arith, more)

abbrev described : {N : Type 0} → Describing N → ℕ
described d = length d.out + total d.skipped

module _ {N F : Type 0} where
  abbrev counted : List (Kept N F) × Dict Text ℕ → ℕ
  counted acc = length acc.0 + total acc.1

  keep_or_skip-counted :
      (one : Text ⊎ Kept N F) (acc : List (Kept N F) × Dict Text ℕ)
      → counted (keep_or_skip one acc) ≡ counted acc + 1
  keep_or_skip-counted (inl reason) (kept, skipped) =
      let more = total-bump reason skipped in omega (arith, more)
  keep_or_skip-counted (inr k) (kept, skipped) =
      let more = length-append kept (k ∷ []) in omega (arith, more)

  screen-counted :
      (i : ℕ) (found : List (Found N)) (dvs : List (DataValue N F))
      (acc : List (Kept N F) × Dict Text ℕ) {out : List (Kept N F) × Dict Text ℕ}
      → screen i found dvs acc ≡ ok out
      → counted out ≡ counted acc + length found
  unfolding screen
  screen-counted i [] dvs acc h = let same = ap counted (ok-injective h) in omega (arith, same)
  screen-counted i (var ∷ found) dvs acc h =
      let (one, _, rest) = >>=-eq-ok (screen_one var i (take 5 (drop (i * 5) dvs))) _ h in
      let here = keep_or_skip-counted one acc in
      let later = screen-counted (i + 1) found dvs (keep_or_skip one acc) rest in
      omega (arith, here, later)

  module _ ⦃e : Eq N⦄ (types : Types N) where
    describe_one-counted :
        (general : F → Text) (props : List ((ℕ × Bool) × Option (Content N F))) (k : Kept N F)
        (verdict : Option Datatype × Text) (d : Describing N)
        → described (describe_one types general props k verdict d) ≡ described d + 1
    describe_one-counted general props k (none, reason) d =
        let more = total-bump reason d.skipped in omega (arith, more)
    describe_one-counted general props k (some datatype, reason) d = added d.out _ (total d.skipped)

    describe_all-counted :
        (general : F → Text) (subtypes : Dict N Datatype)
        (props : List ((ℕ × Bool) × Option (Content N F))) (kept : List (Kept N F))
        (dvs : List (DataValue N F)) (d : Describing N) {out : Describing N}
        → describe_all types general subtypes props kept dvs d ≡ ok out
        → described out ≡ described d + length kept
    unfolding describe_all
    describe_all-counted general subtypes props [] dvs d h =
        let same = ap described (ok-injective h) in omega (arith, same)
    describe_all-counted general subtypes props (k ∷ kept) dvs d h =
        let (next, _, rest) = >>=-eq-ok (next_value types (needs_value types subtypes k) dvs) _ h in
        let verdict = field_datatype types k.dtype next.0 subtypes in
        let here = describe_one-counted general props k verdict d in
        let later =
          describe_all-counted general subtypes props kept next.1
            (describe_one types general props k verdict d) rest in
        omega (arith, here, later)

    -- Where describing succeeds, every Variable found is described, or counted under the reason for
    -- which it is skipped, whatever the server's values are.
    pub describe-counted :
        (read : List (N × Option Attribute) → Result Text (List (DataValue N F)))
        (subtypes_of : List N → Result SubtypeError (Dict N Datatype)) (general : F → Text)
        (found : List (Found N)) {out : Describing N}
        → describe types read subtypes_of general found ≡ ok out
        → length out.out + total out.skipped ≡ length found
    unfolding describe
    describe-counted read subtypes_of general found h =
        let (dvs, _, h1) =
          >>=-eq-ok
            (or_not_read
              (read (attribute_items found ++ map (λ p. (p.1, none)) (properties 0 found))))
            _ h in
        let (props, _, h2) =
          >>=-eq-ok (property_values (properties 0 found) (drop (length found * 5) dvs)) _ h1 in
        let (screened, kept, h3) = >>=-eq-ok (screen 0 found dvs ([], [])) _ h2 in
        let (subtypes, _, h4) =
          >>=-eq-ok (vendor_subtypes subtypes_of (vendor_types types screened.0)) _ h3 in
        let (values_read, _, h5) =
          >>=-eq-ok
            (or_not_read (
              read (
                map (λ k. (k.var.node_id, none))
                  (keep_if (needs_value types subtypes) screened.0))))
            _ h4 in
        let screened_all = screen-counted 0 found dvs ([], []) kept in
        let all =
          describe_all-counted general subtypes props screened.0 values_read
            (record { out = []; skipped = screened.1; variant = [] }) h5 in
        omega (arith, screened_all, all)
