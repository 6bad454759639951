-- ===== src/Discovery/Filter/Matching.antt =====
-- `_match` decides an independent description of what a glob matches.
use zelos_extension_opcua.Prelude.{
  ◌≡◌, refl, ◌≢◌, ◌↔◌, inl, inr, Bool, true, [], ◌∷◌, arith, Bool-cases, &&-true, ◌==◌, nat_eq,
  Text, same_text_iff, text_eq,
}
use zelos_extension_opcua.Discovery.Filter.{
  BrowsePath, Pattern, any_depth, any_suffix, head_matches, match_path,
}

module _ (fnmatchcase : Text → Text → Bool) where
  -- A pattern matches a whole path: `**` takes any number of segments, any other glob takes one
  -- segment that fnmatch accepts.
  pub data Matches : Pattern → BrowsePath → Type 0 where
    both_end : Matches [] []
    none_taken :
        {p : Text} {ps : Pattern} {path : BrowsePath}
        → p ≡ any_depth
        → Matches ps path
        → Matches (p ∷ ps) path
    one_taken :
        {p x : Text} {ps : Pattern} {path : BrowsePath}
        → p ≡ any_depth
        → Matches (p ∷ ps) path
        → Matches (p ∷ ps) (x ∷ path)
    one_segment :
        {p x : Text} {ps : Pattern} {path : BrowsePath}
        → p ≢ any_depth
        → fnmatchcase x p ≡ true
        → Matches ps path
        → Matches (p ∷ ps) (x ∷ path)

module _ (fnmatchcase : Text → Text → Bool) where
  any_suffix-Matches :
      {p : Text} {ps : Pattern} (path : BrowsePath)
      → p ≡ any_depth
      → ((xs : BrowsePath) → match_path fnmatchcase ps xs ≡ true → Matches fnmatchcase ps xs)
      → any_suffix (match_path fnmatchcase ps) path ≡ true
      → Matches fnmatchcase (p ∷ ps) path
  unfolding any_suffix
  any_suffix-Matches [] star sound h = none_taken star (sound [] h)
  any_suffix-Matches {p} {ps} (x ∷ xs) star sound h =
      elim (Bool-cases (match_path fnmatchcase ps (x ∷ xs))) [
        | inl t ↦ none_taken star (sound (x ∷ xs) t)
        | inr f ↦ one_taken star (any_suffix-Matches xs star sound (rw f at h))
      ]

  head_matches-Matches :
      {p : Text} {ps : Pattern} (path : BrowsePath)
      → p ≢ any_depth
      → ((xs : BrowsePath) → match_path fnmatchcase ps xs ≡ true → Matches fnmatchcase ps xs)
      → head_matches fnmatchcase p (match_path fnmatchcase ps) path ≡ true
      → Matches fnmatchcase (p ∷ ps) path
  head_matches-Matches [] ne sound k = cc
  head_matches-Matches (x ∷ xs) ne sound k =
      let (one, rest) = &&-true _ _ k in one_segment ne one (sound xs rest)

  match_path_sound :
      (ps : Pattern) (path : BrowsePath)
      → match_path fnmatchcase ps path ≡ true
      → Matches fnmatchcase ps path
  unfolding match_path
  match_path_sound [] [] h = both_end
  match_path_sound [] (x ∷ xs) h = cc
  match_path_sound (p ∷ ps) path h = elim (Bool-cases (p == any_depth)) [
    | inl star ↦
        any_suffix-Matches path ((same_text_iff p any_depth).0 star) (match_path_sound ps)
          (rw star at h)
    | inr plain ↦
        head_matches-Matches path (λ e. cc (plain, (same_text_iff p any_depth).1 e))
          (match_path_sound ps) (rw plain at h)
  ]

  any_suffix-here :
      (f : BrowsePath → Bool) (path : BrowsePath) → f path ≡ true → any_suffix f path ≡ true
  unfolding any_suffix
  any_suffix-here f [] h = h
  any_suffix-here f (x ∷ xs) h = rw h refl

  match_path_complete :
      {ps : Pattern} {path : BrowsePath}
      → Matches fnmatchcase ps path
      → match_path fnmatchcase ps path ≡ true
  unfolding match_path
  match_path_complete both_end = refl
  match_path_complete (none_taken {p = p} {ps = ps} {path = path} star m) =
      rw ((same_text_iff p any_depth).1 star)
        (any_suffix-here (match_path fnmatchcase ps) path (match_path_complete m))
  match_path_complete (one_taken {p = p} {x = x} {ps = ps} {path = path} star m) =
      ground (arith, same_text_iff p any_depth, match_path_complete m)
  match_path_complete (one_segment {p = p} {x = x} {ps = ps} {path = path} ne t m) =
      ground (arith, same_text_iff p any_depth, match_path_complete m)

  -- `_match` answers true exactly for the paths that the pattern matches whole.
  pub match_path_iff :
      (ps : Pattern) (path : BrowsePath)
      → (match_path fnmatchcase ps path ≡ true) ↔ Matches fnmatchcase ps path
  match_path_iff ps path = (match_path_sound ps path, match_path_complete)
