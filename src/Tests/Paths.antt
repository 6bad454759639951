-- ===== src/Tests/Paths.antt =====
-- Path filters.
use zelos_extension_opcua.Discovery.Filter.Matching.{Matches, match_path_iff}
use zelos_extension_opcua.Discovery.Filter.Pruning.{included-pruned}
use zelos_extension_opcua.Discovery.Filter.{
  prefixes, match_path, below, PathFilter, included, reachable,
}
use zelos_extension_opcua.Prelude.{
  ◌≡◌, refl, ◌↔◌, Bool, true, false, ◌||◌, [], ◌∷◌, ◌==◌, nat_eq, Text, codes, same_text, text_eq,
}

-- A glob without special characters, and `*`.
abbrev glob : Text → Text → Bool
glob name pattern = pattern == codes "*" || name == pattern

abbrev only_line : PathFilter
only_line = record {
  included_globs = (codes "Plant" ∷ codes "*" ∷ codes "Line" ∷ []) ∷ [];
  excluded_globs = [];
}

match_path_iff_example :
    (match_path glob (codes "**" ∷ codes "x" ∷ []) (codes "a" ∷ codes "x" ∷ []) ≡ true)
    ↔ Matches glob (codes "**" ∷ codes "x" ∷ []) (codes "a" ∷ codes "x" ∷ [])
match_path_iff_example =
    match_path_iff glob (codes "**" ∷ codes "x" ∷ []) (codes "a" ∷ codes "x" ∷ [])

included-pruned_example :
    included glob only_line (codes "Office" ∷ codes "A" ∷ codes "Line" ∷ []) ≡ false
unfolding included prefixes match_path same_text reachable below
included-pruned_example =
    included-pruned glob only_line (codes "Office" ∷ []) (codes "A" ∷ codes "Line" ∷ []) refl refl
