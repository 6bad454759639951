-- ===== src/Discovery/Filter.antt =====
-- `_match`, `_below` and `PathFilter` of zelos_extension_opcua/discovery.py. `fnmatchcase` takes the
-- segment first and the glob second, as in the standard library; nothing is asked of it.
pub mod Matching
pub mod Pruning
use zelos_extension_opcua.Prelude.{
  Bool, true, false, not, ◌&&◌, ◌||◌, List, [], ◌∷◌, map, if◌then◌else◌, ◌==◌, nat_eq, any_of,
  all_of, Result, ok, raise, ◌>>=◌, ◌>>◌, Text, codes, text_eq, is_empty, split,
}
use zelos_extension_opcua.NodeMap.Ids.{strip}
use zelos_extension_opcua.NodeMap.Map.Find.{is_nil}

abbrev pub BrowsePath : Type 0
BrowsePath = List Text

abbrev pub Pattern : Type 0
Pattern = List Text

abbrev pub any_depth : Text
any_depth = codes "**"

-- `any(f(path[i:]) for i in range(len(path) + 1))`
unfoldable pub any_suffix : (BrowsePath → Bool) → BrowsePath → Bool
any_suffix f [] = f []
any_suffix f (x ∷ xs) = f (x ∷ xs) || any_suffix f xs

-- `path[:n]` for n from 1 to len(path)
unfoldable pub prefixes : BrowsePath → List BrowsePath
prefixes [] = []
prefixes (x ∷ xs) = (x ∷ []) ∷ map (λ p. x ∷ p) (prefixes xs)

module _ (fnmatchcase : Text → Text → Bool) where
  abbrev pub head_matches : Text → (BrowsePath → Bool) → BrowsePath → Bool
  head_matches p f [] = false
  head_matches p f (x ∷ xs) = fnmatchcase x p && f xs

  -- `_match`
  unfoldable pub match_path : Pattern → BrowsePath → Bool
  unfolding any_suffix
  match_path [] path = is_nil path
  match_path (p ∷ ps) path =
      if p == any_depth
      then any_suffix (match_path ps) path
      else head_matches p (match_path ps) path

  -- `_below`
  unfoldable pub below : Pattern → BrowsePath → Bool
  below pattern [] = true
  below [] (x ∷ xs) = false
  below (p ∷ ps) (x ∷ xs) = if p == any_depth then true else fnmatchcase x p && below ps xs

pub record PathFilter : Type 0 where
  pub included_globs : List Pattern
  pub excluded_globs : List Pattern

-- `__bool__`
abbrev pub is_active : PathFilter → Bool
is_active f = not (is_nil f.included_globs) || not (is_nil f.excluded_globs)

unfoldable pub strip_slashes_left : Text → Text
strip_slashes_left [] = []
strip_slashes_left (c ∷ s) = if c == b'/' then strip_slashes_left s else c ∷ s

unfoldable pub strip_slashes_right : Text → Text
strip_slashes_right [] = []
strip_slashes_right (c ∷ s) =
    let rest = strip_slashes_right s in if is_empty rest && c == b'/' then [] else c ∷ rest

-- The text of an invalid pattern.
pub data FilterError : Type 0 where
  invalid_pattern : Text → FilterError

-- `tuple(p.strip().strip("/").split("/"))`
abbrev pub segments_of : Text → Pattern
segments_of p = split b'/' (strip_slashes_right (strip_slashes_left (strip p)))

unfoldable pub parse_pattern : Text → Result FilterError Pattern
parse_pattern raw =
    let p = segments_of raw in
    if all_of (λ s. not (is_empty s)) p then ok p else raise (invalid_pattern raw)

unfoldable pub parse_patterns : List Text → Result FilterError (List Pattern)
parse_patterns [] = ok []
parse_patterns (raw ∷ rest) = do p ← parse_pattern raw; ps ← parse_patterns rest; ok (p ∷ ps)

-- `PathFilter.parse`
unfoldable pub parse_filter : List Text → List Text → Result FilterError PathFilter
parse_filter included excluded = do
  i ← parse_patterns included
  e ← parse_patterns excluded
  ok (record { included_globs = i; excluded_globs = e })

module _ (fnmatchcase : Text → Text → Bool) (f : PathFilter) where
  -- `PathFilter.excluded`
  unfoldable pub excluded : BrowsePath → Bool
  excluded path = any_of (λ p. match_path fnmatchcase p path) f.excluded_globs

  -- `PathFilter.included`
  unfoldable pub included : BrowsePath → Bool
  included path =
      is_nil f.included_globs
      || any_of (λ p. any_of (match_path fnmatchcase p) (prefixes path)) f.included_globs

  -- `PathFilter.reachable`
  unfoldable pub reachable : BrowsePath → Bool
  reachable path =
      is_nil f.included_globs || any_of (λ p. below fnmatchcase p path) f.included_globs
