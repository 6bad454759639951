-- ===== src/Client/Transport/Cadence.antt =====
-- The counts that a subscription asks for.
use native.Mathlib.Nat.{div-add-mod', mod-lt, mul-le-mul_right, le-max_left, le-max_right}
use zelos_extension_opcua.Prelude.{ℕ, ◌+◌, ◌-◌, ◌*◌, ◌/◌, ◌%◌, ◌≤◌, ◌<◌, max, ◌≡◌, arith}
use zelos_extension_opcua.Client.Transport.{
  ceil_div, keepalive_ms, session_timeout_ms, subscription_request,
}

rounds_up : (a b q r p : ℕ) → p + r ≡ a + (b - 1) → r < b → a ≤ p
rounds_up a b q r p e h = omega arith

ceil_div-bound : (a b : ℕ) → 0 < b → a ≤ ceil_div a b * b
ceil_div-bound a b h =
    let n = a + (b - 1) in rounds_up a b (n / b) (n % b) (n / b * b) (div-add-mod' n b) (mod-lt n h)

le-le : (a b c : ℕ) → a ≤ b → b ≤ c → a ≤ c
le-le a b c h h' = omega arith

-- A maximum above one bound covers what the bound covers.
max-covers : (a m p interval : ℕ) → 0 < interval → a ≤ p * interval → p ≤ m → a ≤ m * interval
max-covers a m p interval pos h h' =
    le-le a (p * interval) (m * interval) h (mul-le-mul_right interval h')

lifetime_room : (k l : ℕ) → k * 10 ≤ l → 3 * k ≤ l
lifetime_room k l h = omega arith

-- For every interval, the subscription outlives the session that holds it, so a resumed session
-- finds it alive; the keep-alive count spans the keep-alive time; and the lifetime is at least the
-- three keep-alives that the specification wants, of which there is at least one.
pub subscription_request-outlives :
    (interval : ℕ)
    → 0 < interval
    → (session_timeout_ms ≤ (subscription_request interval).lifetime_count * interval)
      × (keepalive_ms ≤ (subscription_request interval).max_keepalive_count * interval)
      × (3 * (subscription_request interval).max_keepalive_count
          ≤ (subscription_request interval).lifetime_count)
      × (1 ≤ (subscription_request interval).max_keepalive_count)
unfolding subscription_request
subscription_request-outlives interval h =
    let c = ceil_div keepalive_ms interval in
    let k = max 1 c in
    let s = ceil_div session_timeout_ms interval in
    (
      max-covers session_timeout_ms (max (k * 10) s) s interval h
          (ceil_div-bound session_timeout_ms interval h) (le-max_right (k * 10) s),
      max-covers keepalive_ms k c interval h (ceil_div-bound keepalive_ms interval h)
          (le-max_right 1 c),
      lifetime_room k (max (k * 10) s) (le-max_left (k * 10) s),
      le-max_left 1 c,
    )
