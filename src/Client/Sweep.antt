-- ===== src/Client/Sweep.antt =====
-- The refresh of silent items: `_sweep` of zelos_extension_opcua/client.py, up to the rows that it
-- logs. `stale` holds the time of each subscribed item's last update, in that order; the time
-- before the Read is `now`, the one after it `later`.
pub mod Front
use zelos_extension_opcua.Client.Transport.{touch}
use zelos_extension_opcua.Prelude.{
  ℕ, ◌+◌, Bool, List, [], ◌∷◌, leb, if◌then◌else◌, nat_eq, take, Dict, keys, contains, text_eq,
}

-- `itertools.takewhile`
unfoldable pub take_while : {A : Type 0} → (A → Bool) → List A → List A
take_while p [] = []
take_while p (x ∷ xs) = let rest = take_while p xs in if p x then x ∷ rest else []

-- `now - item[1] >= self._stale_after`
abbrev pub is_due : ℕ → ℕ → ℕ × ℕ → Bool
is_due now stale_after e = leb (e.1 + stale_after) now

-- The handles to read.
unfoldable pub due_handles : ℕ → ℕ → ℕ → Dict ℕ ℕ → List ℕ
due_handles now stale_after read_chunk stale =
    keys (take read_chunk (take_while (is_due now stale_after) stale))

-- The loop over the handles read.
unfoldable pub refresh : ℕ → List ℕ → Dict ℕ ℕ → Dict ℕ ℕ
refresh later [] stale = stale
refresh later (h ∷ due) stale =
    refresh later due (if contains (keys stale) h then touch h later stale else stale)

-- `_sweep`: the handles read, and the times after it.
unfoldable pub sweep : ℕ → ℕ → ℕ → ℕ → Dict ℕ ℕ → List ℕ × Dict ℕ ℕ
sweep now later stale_after read_chunk stale =
    let due = due_handles now stale_after read_chunk stale in (due, refresh later due stale)
