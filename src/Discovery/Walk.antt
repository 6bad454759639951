-- ===== src/Discovery/Walk.antt =====
-- `walk` of zelos_extension_opcua/discovery.py. A `Found` that is shared between the result and the
-- frontier is known there by its node id, under which no other is found. The rounds run on fuel, and
-- `pages` is the fuel of each batch.
pub mod Filtered
pub mod Ends
use zelos_extension_opcua.Discovery.Browse.{
  Rpc, BrowseError, index_error, wrong_length, out_of_fuel, browse_batch,
}
use zelos_extension_opcua.Discovery.Filter.{
  BrowsePath, PathFilter, is_active, excluded, included, reachable,
}
use zelos_extension_opcua.Prelude.{
  ℕ, zero, suc, Bool, true, false, not, ◌&&◌, ◌||◌, Option, none, some, List, [], ◌∷◌, ◌++◌, map,
  eqb, if◌then◌else◌, Eq, ◌==◌, nat_eq, length, get_elem?, chunks, keep_if, Result, ok, raise,
  ◌>>=◌, ◌>>◌, or_raise, Dict, contains, Text, codes, text_eq, text_or, join,
}

pub data NodeClass : Type 0 where
  object variable other_class : NodeClass

pub record Reference (N : Type 0) : Type 0 where
  pub node_id : N
  pub server_index : ℕ
  pub name : Text
  pub is_property : Bool
  pub node_class : NodeClass

-- `Found`
pub record Found (N : Type 0) : Type 0 where
  pub node_id : N
  pub name : Text
  pub path : BrowsePath
  pub eu : Option N
  pub eu_range : Option N

-- An element of the frontier; the parent is that of a Variable's own references.
pub record Entry (N : Type 0) : Type 0 where
  pub node_id : N
  pub path : BrowsePath
  pub parent : Option N

-- The locals of `walk`; the sets are lists without repetition.
pub record Walk (N : Type 0) : Type 0 where
  pub visited : List N
  pub next_frontier : List (Entry N)
  pub found : List (Found N)
  pub failed : List Text
  pub filtered : List N
  pub kept : List N

abbrev pub is_variable : NodeClass → Bool
is_variable variable = true
is_variable _ = false

abbrev pub is_object : NodeClass → Bool
is_object object = true
is_object _ = false

-- `name[:1] == "_"`
abbrev pub is_hidden : Text → Bool
is_hidden [] = false
is_hidden (c ∷ name) = c == b'_'

-- `tuple(sanitize_name(p) for p in (*path, name))`
abbrev pub traced_path : (Text → Text) → BrowsePath → Text → BrowsePath
traced_path sanitize path name = map sanitize (path ++ name ∷ [])

-- `path (status)`
abbrev pub failure_text : BrowsePath → Text → Text
failure_text path status =
    text_or (join b'/' path) (codes "Objects") ++ codes " (" ++ status ++ codes ")"

module _ (fnmatchcase : Text → Text → Bool) (filters : PathFilter) where
  abbrev pub is_traced : BrowsePath → Bool
  is_traced traced =
      not (excluded fnmatchcase filters traced) && included fnmatchcase filters traced

  abbrev pub is_browsed : BrowsePath → Bool
  is_browsed traced =
      is_traced traced
      || (not (excluded fnmatchcase filters traced) && reachable fnmatchcase filters traced)

module _ {N : Type 0} ⦃e : Eq N⦄ where
  -- `xs.add(n)`
  unfoldable pub add_to : N → List N → List N
  add_to n xs = if contains xs n then xs else xs ++ n ∷ []

  -- `parent.eu = ...`, `parent.eu_range = ...`
  unfoldable pub set_unit : N → N → List (Found N) → List (Found N)
  set_unit parent n [] = []
  set_unit parent n (f ∷ found) =
      (if f.node_id == parent then record f { eu = some n } else f) ∷ set_unit parent n found

  unfoldable pub set_range : N → N → List (Found N) → List (Found N)
  set_range parent n [] = []
  set_range parent n (f ∷ found) =
      (if f.node_id == parent then record f { eu_range = some n } else f) ∷ set_range parent n found

  abbrev pub take_property : Option N → Reference N → Walk N → Walk N
  take_property none r w = w
  take_property (some parent) r w =
      if r.name == codes "EngineeringUnits"
      then record w { found = set_unit parent r.node_id w.found }
      else if r.name == codes "EURange"
      then record w { found = set_range parent r.node_id w.found }
      else w

  abbrev pub new_found : Reference N → BrowsePath → Found N
  new_found r path = record {
    node_id = r.node_id;
    name = r.name;
    path = path;
    eu = none;
    eu_range = none;
  }

  -- The end of the loop's body: whether to trace the node and to browse it.
  unfoldable pub visit : BrowsePath → Reference N → Bool → Bool → Walk N → Walk N
  visit path r trace browse w = record w {
    visited = w.visited ++ r.node_id ∷ [];
    found = if is_variable r.node_class && trace then w.found ++ new_found r path ∷ [] else w.found;
    next_frontier =
        if browse
        then w.next_frontier
          ++ record {
            node_id = r.node_id;
            path = path ++ r.name ∷ [];
            parent = if is_variable r.node_class then some r.node_id else none;
          }
            ∷ []
        else w.next_frontier;
  }

  abbrev pub note_kept : Bool → N → Walk N → Walk N
  note_kept true n w = record w { kept = add_to n w.kept }
  note_kept false n w = record w { filtered = add_to n w.filtered }

  module _ (fnmatchcase : Text → Text → Bool) (sanitize : Text → Text) (filters : PathFilter) where
    abbrev pub visit_if : Bool → BrowsePath → Reference N → Bool → Walk N → Walk N
    visit_if true path r trace w = visit path r trace true w
    visit_if false path r trace w = w

    unfoldable pub take_node : BrowsePath → Reference N → Walk N → Walk N
    take_node path r w =
        if is_active filters
        then (let traced = traced_path sanitize path r.name in
            let browse = is_browsed fnmatchcase filters traced in
            visit_if browse path r (is_traced fnmatchcase filters traced) (
              note_kept
                (if is_variable r.node_class then is_traced fnmatchcase filters traced else browse)
                r.node_id w))
        else visit path r true true w

    -- What the loop passes over.
    abbrev pub is_skipped : Reference N → Walk N → Bool
    is_skipped r w =
        not (eqb r.server_index 0)
        || contains w.visited r.node_id
        || (not (is_variable r.node_class) && (not (is_object r.node_class) || is_hidden r.name))

    -- The body of the innermost loop.
    unfoldable pub take_reference : BrowsePath → Option N → Reference N → Walk N → Walk N
    take_reference path parent r w =
        if r.is_property
        then take_property parent r w
        else if is_skipped r w
        then w
        else take_node path r w

    unfoldable pub take_references : BrowsePath → Option N → List (Reference N) → Walk N → Walk N
    take_references path parent [] w = w
    take_references path parent (r ∷ refs) w =
        take_references path parent refs (take_reference path parent r w)

    -- `zip(batch, pages, strict=True)`
    unfoldable pub take_pages :
        List (Entry N) → List (List (Reference N)) → Walk N → Result BrowseError (Walk N)
    take_pages [] [] w = ok w
    take_pages (x ∷ batch) (refs ∷ pages) w =
        take_pages batch pages (take_references x.path x.parent refs w)
    take_pages _ _ w = raise wrong_length

    unfoldable pub failures : List (Entry N) → Dict ℕ Text → Result BrowseError (List Text)
    failures batch [] = ok []
    failures batch ((i, status) ∷ bad) = do
      x ← or_raise (get_elem? batch i) index_error
      rest ← failures batch bad
      ok (failure_text x.path status ∷ rest)

    module _ {P : Type 0} (rpc : Rpc N (Reference N) P) (pages chunk : ℕ) where
      -- The loop over the chunks of the frontier.
      unfoldable pub walk_batches : List (List (Entry N)) → Walk N → Result BrowseError (Walk N)
      walk_batches [] w = ok w
      walk_batches (batch ∷ rest) w = do
        (refs, bad) ← browse_batch rpc pages (map (λ x. x.node_id) batch)
        more ← failures batch bad
        w' ← take_pages batch refs (record w { failed = w.failed ++ more })
        walk_batches rest w'

      -- `while frontier`
      unfoldable pub walk_rounds : ℕ → List (Entry N) → Walk N → Result BrowseError (Walk N)
      walk_rounds fuel [] w = ok w
      walk_rounds zero (x ∷ frontier) w = raise out_of_fuel
      walk_rounds (suc fuel) (x ∷ frontier) w = do
        w' ← walk_batches (chunks chunk (x ∷ frontier)) (record w { next_frontier = [] })
        walk_rounds fuel w'.next_frontier w'

      abbrev pub start_walk : N → N → Walk N
      start_walk objects server = record {
        visited = objects ∷ server ∷ [];
        next_frontier = [];
        found = [];
        failed = [];
        filtered = [];
        kept = [];
      }

      abbrev pub start_frontier : N → List (Entry N)
      start_frontier objects = record { node_id = objects; path = []; parent = none } ∷ []

      -- `walk`: the Variables, the failures, and the number of nodes filtered out
      unfoldable pub walk : ℕ → N → N → Result BrowseError (List (Found N) × List Text × ℕ)
      walk fuel objects server = do
        w ← walk_rounds fuel (start_frontier objects) (start_walk objects server)
        ok (w.found, w.failed, length (keep_if (λ n. not (contains w.kept n)) w.filtered))
