-- ===== src/Discovery/Filter/Pruning.antt =====
-- What the walk may leave out: where an include can no longer match, nothing below is included.
use zelos_extension_opcua.Prelude.{
  ◌≡◌, refl, inl, inr, Bool, true, false, ◌||◌, List, [], ◌∷◌, ◌++◌, map, arith, Bool-cases,
  &&-true, ◌==◌, nat_eq, any_of, Text, text_eq,
}
use zelos_extension_opcua.Discovery.Filter.{
  BrowsePath, Pattern, any_depth, prefixes, match_path, below, PathFilter, included, reachable,
}

module _ (fnmatchcase : Text → Text → Bool) where
  below_sound :
      (ps : Pattern) (path ext : BrowsePath)
      → match_path fnmatchcase ps (path ++ ext) ≡ true
      → below fnmatchcase ps path ≡ true
  unfolding match_path below
  below_sound ps [] ext h = refl
  below_sound [] (x ∷ xs) ext h = cc
  below_sound (p ∷ ps) (x ∷ xs) ext h = elim (Bool-cases (p == any_depth)) [
    | inl star ↦ rw star refl
    | inr plain ↦
        let (one, rest) =
          &&-true (fnmatchcase x p) (match_path fnmatchcase ps (xs ++ ext)) (rw plain at h) in
        rw (plain, one) (below_sound ps xs ext rest)
  ]

any_of-map :
    {A B : Type 0} (f : B → Bool) (g : A → B) (xs : List A)
    → any_of f (map g xs) ≡ any_of (λ x. f (g x)) xs
any_of-map f g [] = refl
any_of-map f g (x ∷ xs) = rw (any_of-map f g xs) refl

-- The prefixes of a longer path: those of the shorter one, and those that reach below it.
any_of-prefixes :
    (f : BrowsePath → Bool) (path ext : BrowsePath)
    → any_of f (prefixes (path ++ ext))
      ≡ (any_of f (prefixes path) || any_of (λ e. f (path ++ e)) (prefixes ext))
unfolding prefixes
any_of-prefixes f [] ext = refl
any_of-prefixes f (x ∷ xs) ext =
    rw
      (
        any_of-map f (λ p. x ∷ p) (prefixes (xs ++ ext)),
        any_of-map f (λ p. x ∷ p) (prefixes xs),
        any_of-prefixes (λ p. f (x ∷ p)) xs ext,
      )
      (ground arith)

any_of-false :
    {A : Type 0} (f : A → Bool) (xs : List A) → ((x : A) → f x ≡ false) → any_of f xs ≡ false
any_of-false f [] h = refl
any_of-false f (x ∷ xs) h = rw (h x) (any_of-false f xs h)

module _ (fnmatchcase : Text → Text → Bool) where
  not_below :
      (p : Pattern) (path e : BrowsePath)
      → below fnmatchcase p path ≡ false
      → match_path fnmatchcase p (path ++ e) ≡ false
  not_below p path e h = elim (Bool-cases (match_path fnmatchcase p (path ++ e))) [
    | inl t ↦ cc (h, below_sound fnmatchcase p path e t)
    | inr f ↦ f
  ]

  globs_pruned :
      (globs : List Pattern) (path ext : BrowsePath)
      → any_of (λ p. any_of (match_path fnmatchcase p) (prefixes path)) globs ≡ false
      → any_of (λ p. below fnmatchcase p path) globs ≡ false
      → any_of (λ p. any_of (match_path fnmatchcase p) (prefixes (path ++ ext))) globs ≡ false
  globs_pruned [] path ext h k = refl
  globs_pruned (p ∷ ps) path ext h k = ground (
    arith,
    any_of-prefixes (match_path fnmatchcase p) path ext,
    globs_pruned ps path ext,
    λ (b : below fnmatchcase p path ≡ false).
        any_of-false (λ e. match_path fnmatchcase p (path ++ e)) (prefixes ext)
          (λ e. not_below p path e b),
  )

  globs_kept :
      (globs : List Pattern) (path ext : BrowsePath)
      → any_of (λ p. any_of (match_path fnmatchcase p) (prefixes path)) globs ≡ true
      → any_of (λ p. any_of (match_path fnmatchcase p) (prefixes (path ++ ext))) globs ≡ true
  globs_kept [] path ext h = h
  globs_kept (p ∷ ps) path ext h =
      ground (arith, any_of-prefixes (match_path fnmatchcase p) path ext, globs_kept ps path ext)

  -- Browsing stops only where nothing is lost: below a path that is neither included nor reachable,
  -- no path at all is included.
  pub included-pruned :
      (f : PathFilter) (path ext : BrowsePath)
      → included fnmatchcase f path ≡ false
      → reachable fnmatchcase f path ≡ false
      → included fnmatchcase f (path ++ ext) ≡ false
  unfolding included reachable
  included-pruned f path ext h k = ground (arith, globs_pruned f.included_globs path ext)

  -- A branch that is included takes its whole subtree.
  pub included-append :
      (f : PathFilter) (path ext : BrowsePath)
      → included fnmatchcase f path ≡ true
      → included fnmatchcase f (path ++ ext) ≡ true
  unfolding included
  included-append f path ext h = ground (arith, globs_kept f.included_globs path ext)
