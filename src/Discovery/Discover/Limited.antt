-- ===== src/Discovery/Discover/Limited.antt =====
-- The size of a request is never zero, nor more than the most operations.
use mathlib.Core.Path.{subst}
use zelos_extension_opcua.Discovery.Reading.{ReadReply, read_many}
use zelos_extension_opcua.Discovery.Discover.{
  raised_as, limit_of, LimitsError, limits_not_read, three_limits, operation_limits,
}
use zelos_extension_opcua.Prelude.{
  ℕ, zero, suc, ◌≤◌, ◌<◌, ◌≡◌, Option, none, some, List, [], ◌∷◌, map, arith, Result, ok, >>=-eq-ok,
  ok-injective,
}

abbrev pub IsSize : ℕ → Type 0
IsSize n = (0 < n) × (n ≤ 100)

limit_of-IsSize : (o : Option ℕ) → IsSize (limit_of o)
limit_of-IsSize none = (omega arith, omega arith)
limit_of-IsSize (some zero) = (omega arith, omega arith)
limit_of-IsSize (some (suc n)) = (omega arith, omega arith)

three_limits-AreSizes :
    {E : Type 0} (os : List (Option ℕ)) {out : ℕ × ℕ × ℕ}
    → ◌≡◌ {A = Result (LimitsError E) (ℕ × ℕ × ℕ)} (three_limits os) (ok out)
    → IsSize out.0 × IsSize out.1 × IsSize out.2
three_limits-AreSizes (a ∷ b ∷ c ∷ []) h =
    subst (λ o. IsSize o.0 × IsSize o.1 × IsSize o.2) (ok-injective h)
      (limit_of-IsSize a, limit_of-IsSize b, limit_of-IsSize c)
three_limits-AreSizes [] h = cc
three_limits-AreSizes (a ∷ []) h = cc
three_limits-AreSizes (a ∷ b ∷ []) h = cc
three_limits-AreSizes (a ∷ b ∷ c ∷ d ∷ os) h = cc

-- Whatever limits a server answers, a request has from one to a hundred items.
pub operation_limits-AreSizes :
    {I V E : Type 0} (read : List I → ReadReply V E) (spoiled : V) (limit_in : V → Option ℕ)
    (items : List I) {out : ℕ × ℕ × ℕ}
    → operation_limits read spoiled limit_in items ≡ ok out
    → IsSize out.0 × IsSize out.1 × IsSize out.2
unfolding operation_limits
operation_limits-AreSizes read spoiled limit_in items h =
    let (dvs, _, h1) =
      >>=-eq-ok (raised_as limits_not_read (read_many read spoiled items 100)) _ h in
    three_limits-AreSizes (map limit_in dvs) h1
