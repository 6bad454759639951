-- ===== src/Prelude/Texts.antt =====
-- A Python text as the list of its code points: the program walks node ids, globs and numbers.
use Prim.Native.Nat.{ℕ}
use Prim.Native.Char.{code}
use Prim.Native.String.{String}
use mathlib.Core.Path.{◌≡◌, refl}
use mathlib.Core.Logic.{◌↔◌}
use mathlib.Core.Bool.{Bool, true, false, ◌&&◌}
use mathlib.Core.List.{List, [], ◌∷◌, ◌++◌}
use native.Mathlib.Omega.{arith}
use zelos_extension_opcua.Prelude.Tests.{Eq, eqb, if◌then◌else◌}

abbrev pub Text : Type 0
Text = List ℕ

-- The code points of a literal.
abbrev pub codes : String → Text
codes String.[] = []
codes (String.◌∷◌ c s) = code c ∷ codes s

unfoldable pub same_text : Text → Text → Bool
same_text [] [] = true
same_text (c ∷ s) (d ∷ t) = eqb c d && same_text s t
same_text _ _ = false

same_text_sound : (s t : Text) → same_text s t ≡ true → s ≡ t
unfolding same_text
same_text_sound [] [] h = refl
same_text_sound [] (d ∷ t) h = cc
same_text_sound (c ∷ s) [] h = cc
same_text_sound (c ∷ s) (d ∷ t) h = ground (arith, same_text_sound s t)

same_text_refl : (s : Text) → same_text s s ≡ true
unfolding same_text
same_text_refl [] = refl
same_text_refl (c ∷ s) = ground (arith, same_text_refl s)

pub same_text_iff : (s t : Text) → (same_text s t ≡ true) ↔ (s ≡ t)
same_text_iff s t = (same_text_sound s t, λ e. rw e (same_text_refl t))

instance abbrev pub text_eq : Eq Text
text_eq = record { equals = same_text; equals_iff = same_text_iff }

-- `not s`: the empty text is false
abbrev pub is_empty : Text → Bool
is_empty [] = true
is_empty (c ∷ s) = false

-- `s or t`
abbrev pub text_or : Text → Text → Text
text_or s t = if is_empty s then t else s

abbrev pub cut_cons : ℕ → Text × List Text → Text × List Text
cut_cons c r = (c ∷ r.0, r.1)

abbrev pub cut_new : Text × List Text → Text × List Text
cut_new r = ([], r.0 ∷ r.1)

-- `s.split(sep)` for a one-character separator: the first piece, and the others.
unfoldable pub split_parts : ℕ → Text → Text × List Text
split_parts sep [] = ([], [])
split_parts sep (c ∷ s) =
    if eqb c sep then cut_new (split_parts sep s) else cut_cons c (split_parts sep s)

abbrev pub split : ℕ → Text → List Text
split sep s = (split_parts sep s).0 ∷ (split_parts sep s).1

-- `sep.join(parts)` for a one-character separator
unfoldable pub join : ℕ → List Text → Text
join sep [] = []
join sep (p ∷ []) = p
join sep (p ∷ q ∷ ps) = p ++ sep ∷ join sep (q ∷ ps)

-- No character of `s` is `sep`.
abbrev pub has_no : ℕ → Text → Bool
has_no sep [] = true
has_no sep (c ∷ s) = if eqb c sep then false else has_no sep s

join-cons :
    (sep c : ℕ) (p : Text) (ps : List Text) → join sep ((c ∷ p) ∷ ps) ≡ c ∷ join sep (p ∷ ps)
unfolding join
join-cons sep c p [] = refl
join-cons sep c p (q ∷ qs) = refl

-- Joining the pieces gives the text back.
pub join-split : (sep : ℕ) (s : Text) → join sep (split sep s) ≡ s
unfolding split_parts join
join-split sep [] = refl
join-split sep (c ∷ s) =
    ground (arith, join-split sep s, join-cons sep c (split_parts sep s).0 (split_parts sep s).1)

split_no_sep : (sep : ℕ) (s : Text) → has_no sep s ≡ true → split_parts sep s ≡ (s, [])
unfolding split_parts
split_no_sep sep [] h = refl
split_no_sep sep (c ∷ s) h = ground (arith, split_no_sep sep s)

-- A piece without the separator, the separator, and a rest.
pub split-append :
    (sep : ℕ) (p s : Text) → has_no sep p ≡ true → split sep (p ++ sep ∷ s) ≡ p ∷ split sep s
unfolding split_parts
split-append sep [] s h = ground arith
split-append sep (c ∷ p) s h = ground (arith, split-append sep p s)
