-- ===== src/Tests/Walks.antt =====
-- A walk over a small server.
use mathlib.Core.Path.{subst}
use zelos_extension_opcua.Discovery.Walk.Ends.{IsListed, walk-Ends}
use zelos_extension_opcua.Discovery.Browse.Known.{KnownResult, IsAnswering, IsAnswered}
use zelos_extension_opcua.Discovery.Browse.{
  good_browse, BrowseResult, Rpc, no_refs, take_results, take_page, follow, browse_once,
  browse_refused, browse_batch,
}
use zelos_extension_opcua.Discovery.Walk.{
  object, variable, Reference, Found, add_to, set_unit, set_range, visit, take_node, take_reference,
  take_references, take_pages, failures, walk_batches, walk_rounds, walk,
}
use zelos_extension_opcua.Discovery.Walk.Filtered.{views, IsFound, walk-IsFound}
use zelos_extension_opcua.Discovery.Filter.{
  any_suffix, prefixes, match_path, below, PathFilter, excluded, included, reachable,
}
use zelos_extension_opcua.Discovery.Browse.Pages.{Ends, GoesBelow, Descends, IsPaging}
use zelos_extension_opcua.Prelude.{
  ℕ, ◌≡◌, refl, inl, inr, Bool, true, false, Option, none, some, List, [], ◌∷◌, map, arith, eqb,
  if◌then◌else◌, ◌==◌, nat_eq, chunks_from, All, Result, ok, ok-injective, contains, lookup, insert,
  Text, codes, same_text, text_eq, join,
}

abbrev folder : ℕ → ℕ → Text → Reference ℕ
folder host n name = record {
  node_id = n;
  server_index = host;
  name = name;
  is_property = false;
  node_class = object;
}

abbrev a_variable : ℕ → Text → Reference ℕ
a_variable n name = record {
  node_id = n;
  server_index = 0;
  name = name;
  is_property = false;
  node_class = variable;
}

abbrev a_property : ℕ → Text → Reference ℕ
a_property n name = record {
  node_id = n;
  server_index = 0;
  name = name;
  is_property = true;
  node_class = variable;
}

abbrev browse_answer : List (Reference ℕ) → Option ℕ → BrowseResult (Reference ℕ) ℕ
browse_answer refs point = record { status = good_browse; references = refs; continuation = point }

-- Objects hold a line and a hidden folder; the line holds Objects again, and, on its second page,
-- a variable, which has a unit.
abbrev references_of : ℕ → BrowseResult (Reference ℕ) ℕ
references_of n =
    if eqb n 85
    then browse_answer (folder 0 1 (codes "Line") ∷ folder 0 4 (codes "_Sys") ∷ []) none
    else if eqb n 1
    then browse_answer (folder 0 85 (codes "Objects") ∷ folder 7 2 (codes "Away") ∷ []) (some 6)
    else if eqb n 2
    then browse_answer (a_property 3 (codes "EngineeringUnits") ∷ []) none
    else browse_answer [] none

abbrev second_page : ℕ → BrowseResult (Reference ℕ) ℕ
second_page p = browse_answer (a_variable 2 (codes "Speed") ∷ []) none

abbrev plant : Rpc ℕ (Reference ℕ) ℕ
plant = record {
  browse = λ nodes. ok (map references_of nodes);
  browse_next = λ points. ok (map second_page points);
}

abbrev all_paths : PathFilter
all_paths = record { included_globs = []; excluded_globs = (codes "Office" ∷ []) ∷ [] }

abbrev same_name : Text → Text → Bool
same_name name pattern = name == pattern

abbrev clean : Text → Text
clean name = name

abbrev all_nodes_of : List ℕ
all_nodes_of = 85 ∷ 1 ∷ 2 ∷ 3 ∷ 4 ∷ []

abbrev pub speed : Found ℕ
speed = record {
  node_id = 2;
  name = codes "Speed";
  path = codes "Line" ∷ [];
  eu = some 3;
  eu_range = none;
}

walked : walk same_name clean all_paths plant 7 10 6 85 2253 ≡ ok (speed ∷ [], [], 0)
unfolding walk walk_rounds walk_batches chunks_from browse_batch browse_once take_results lookup
    no_refs follow browse_refused failures take_pages insert take_references take_reference contains
    take_page any_suffix below excluded included match_path prefixes reachable add_to set_range
    set_unit take_node visit join same_text
walked = refl

walk-IsFound_example :
    IsFound same_name clean all_paths (85 ∷ 2253 ∷ []) (IsAnswered plant) (views (speed ∷ []))
walk-IsFound_example = walk-IsFound same_name clean all_paths plant 7 10 6 85 2253 walked

All-map :
    {A B : Type 0}
    → (Q : B → Type 0) (f : A → B) (xs : List A) → ((a : A) → Q (f a))
    → All Q (map f xs)
All-map Q f [] h = tt
All-map Q f (x ∷ xs) h = (h x, All-map Q f xs h)

All-answers :
    {A B : Type 0}
    → (Q : B → Type 0) (f : A → B) (xs : List A) {out : List B} → ((a : A) → Q (f a))
    → (◌≡◌ {A = Result Text (List B)} (ok (map f xs)) (ok out))
    → All Q out
All-answers Q f xs h e = subst (All Q) (ok-injective e) (All-map Q f xs h)

no_point_above : (points : List ℕ) → Descends (λ p. 0) points (map second_page points)
no_point_above [] = tt
no_point_above (p ∷ points) = ((λ q h. cc h), no_point_above points)

-- No point is given for the second page.
plant-IsPaging : IsPaging plant (λ p. 0) 7
plant-IsPaging = record {
  first = λ nodes results asked.
      All-answers (GoesBelow (λ p. 0) 7) references_of nodes (λ n q h. omega arith) asked;
  later = λ points page asked.
      subst (Descends (λ p. 0) points) (ok-injective asked) (no_point_above points);
}

abbrev IsOfPlant : Reference ℕ → Type 0
IsOfPlant = IsListed all_nodes_of same_name clean all_paths

plant_answers : (n : ℕ) → KnownResult IsOfPlant (references_of n)
plant_answers n = ground arith

plant-IsAnswering : IsAnswering IsOfPlant plant
plant-IsAnswering = record {
  first = λ nodes results asked.
      All-answers (KnownResult IsOfPlant) references_of nodes plant_answers asked;
  later = λ points page asked.
      All-answers (KnownResult IsOfPlant) second_page points (λ p. (inr (inr (inl refl)), tt))
        asked;
}

walk-Ends_example : Ends (walk same_name clean all_paths plant 7 10 6 85 2253)
walk-Ends_example =
    walk-Ends all_nodes_of same_name clean all_paths plant (λ p. 0) 7 10 85 2253 plant-IsPaging
      plant-IsAnswering
