-- ===== src/Autoconfig/Fresh.antt =====
-- The names that `_server_entry` gives are new.
use zelos_extension_opcua.Prelude.{
  ℕ, zero, suc, ◌+◌, ◌-◌, ◌*◌, ◌/◌, ◌%◌, ◌≤◌, ◌<◌, ◌≡◌, refl, sym, ap, ◌∙◌, inl, inr, true, false,
  ◌&&◌, List, [], ◌∷◌, ◌++◌, append_assoc, arith, ltb, leb, if◌then◌else◌, Bool-cases, ◌==◌, nat_eq,
  length, drop, contains, Text, same_text_iff, text_eq,
}
use zelos_extension_opcua.Discovery.Naming.{index_text}
use zelos_extension_opcua.Autoconfig.{numbered, free_name}

-- What a text of digits says, after a number.
value_after : ℕ → Text → ℕ
value_after n [] = n
value_after n (c ∷ s) = value_after (10 * n + (c - b'0')) s

value_after-snoc :
    (n : ℕ) (s : Text) (c : ℕ) → value_after n (s ++ c ∷ []) ≡ 10 * value_after n s + (c - b'0')
unfolding value_after
value_after-snoc n [] c = refl
value_after-snoc n (d ∷ s) c = value_after-snoc (10 * n + (d - b'0')) s c

value_after-index_text : (digits n : ℕ) → n ≤ digits → value_after 0 (index_text digits n) ≡ n
unfolding value_after index_text
value_after-index_text zero n h = omega arith
value_after-index_text (suc digits) n h =
    let smaller : 10 ≤ n → n / 10 ≤ digits = λ big. omega arith in
    elim (Bool-cases (ltb n 10)) [
      | inl t ↦ rw t (ground arith)
      | inr f ↦
          let big : 10 ≤ n = ground arith in
          let last = value_after-snoc 0 (index_text digits (n / 10)) (b'0' + n % 10) in
          let front = value_after-index_text digits (n / 10) (smaller big) in
          rw f (last ∙ omega (arith, front))
    ]

drop-append : (p s : Text) → drop (length p) (p ++ s) ≡ s
drop-append [] s = refl
drop-append (c ∷ p) s = drop-append p s

-- The number of a numbered name.
number_of : Text → Text → ℕ
number_of base name = value_after 0 (drop (length (base ++ b'_' ∷ [])) name)

number_of-numbered : (base : Text) (k : ℕ) → number_of base (numbered base k) ≡ k
unfolding number_of
number_of-numbered base k =
    ap (λ s. value_after 0 (drop (length (base ++ b'_' ∷ [])) s))
      (sym (append_assoc base (b'_' ∷ []) (index_text k k)))
    ∙ ap (value_after 0) (drop-append (base ++ b'_' ∷ []) (index_text k k))
    ∙ value_after-index_text k k (omega arith)

-- How many names from the list carry a number of at least `k`.
numbered_from : Text → ℕ → List Text → ℕ
numbered_from base k [] = 0
numbered_from base k (t ∷ ts) =
    (if t == numbered base (number_of base t) && leb k (number_of base t) then 1 else 0)
    + numbered_from base k ts

numbered_from-length : (base : Text) (k : ℕ) (ts : List Text) → numbered_from base k ts ≤ length ts
unfolding numbered_from
numbered_from-length base k [] = omega arith
numbered_from-length base k (t ∷ ts) = ground (arith, numbered_from-length base k ts)

numbered_from-le :
    (base : Text) (k : ℕ) (ts : List Text) → numbered_from base (k + 1) ts ≤ numbered_from base k ts
unfolding numbered_from
numbered_from-le base k [] = omega arith
numbered_from-le base k (t ∷ ts) = ground (arith, numbered_from-le base k ts)

-- A number that is taken is counted no more from the next one on.
numbered_from-lt :
    (base : Text) (k : ℕ) (ts : List Text)
    → contains ts (numbered base k) ≡ true
    → numbered_from base (k + 1) ts < numbered_from base k ts
unfolding numbered_from contains
numbered_from-lt base k [] h = cc
numbered_from-lt base k (t ∷ ts) h = elim (Bool-cases (t == numbered base k)) [
  | inl same ↦
      let e : t ≡ numbered base k = (same_text_iff t (numbered base k)).0 same in
      let n : number_of base t ≡ k = ap (number_of base) e ∙ number_of-numbered base k in
      rw (n, same) (ground (arith, numbered_from-le base k ts))
  | inr other ↦ ground (arith, numbered_from-lt base k ts, other, h)
]

-- With a round more than numbered names from `k` on, the name found is not taken.
free_name-later :
    (taken : List Text) (base : Text) (fuel k : ℕ)
    → numbered_from base k taken < fuel
    → contains taken (free_name taken base fuel (k + 1) (numbered base k)) ≡ false
unfolding free_name
free_name-later taken base zero k h = absurd (omega arith)
free_name-later taken base (suc fuel) k h = elim (Bool-cases (contains taken (numbered base k))) [
  | inl old ↦
      let fewer = numbered_from-lt base k taken old in
      rw old (free_name-later taken base fuel (k + 1) (omega (arith, fewer)))
  | inr new ↦ rw new new
]

-- The name that the loop ends with is not taken, and the loop ends.
pub free_name-IsFresh :
    (taken : List Text) (base : Text)
    → contains taken (free_name taken base (suc (suc (length taken))) 2 base) ≡ false
unfolding free_name
free_name-IsFresh taken base = elim (Bool-cases (contains taken base)) [
  | inl old ↦
      let all = numbered_from-length base 2 taken in
      rw old (free_name-later taken base (suc (length taken)) 2 (omega (arith, all)))
  | inr new ↦ rw new new
]
