-- ===== src/Client/Sweep/Front.antt =====
-- The items that are due are the front of the list.
use zelos_extension_opcua.Client.Sweep.{take_while, is_due, due_handles, refresh, sweep}
use zelos_extension_opcua.Client.Transport.{touch}
use zelos_extension_opcua.Prelude.{
  ℕ, ◌+◌, ◌≤◌, ◌<◌, ◌≡◌, refl, inl, inr, false, List, [], ◌∷◌, arith, Bool-cases, ◌==◌, nat_eq,
  take, keep_if, All, All-append, Dict, keys, contains, erase, text_eq,
}

-- In the order of the times, none of which is after `now`.
abbrev pub IsOrdered : ℕ → Dict ℕ ℕ → Type 0
IsOrdered now [] = Unit
IsOrdered now ((h, t) ∷ stale) = (t ≤ now) × All (λ e. t ≤ e.1) stale × IsOrdered now stale

none_due :
    (now stale_after t : ℕ) (stale : Dict ℕ ℕ)
    → now < t + stale_after
    → All (λ e. t ≤ e.1) stale
    → keep_if (is_due now stale_after) stale ≡ []
none_due now stale_after t [] h a = refl
none_due now stale_after t (e ∷ stale) h a =
    let late : is_due now stale_after e ≡ false = ground (arith, a.0) in
    rw late (none_due now stale_after t stale h a.1)

take_while-keep_if :
    (now stale_after : ℕ) (stale : Dict ℕ ℕ)
    → IsOrdered now stale
    → take_while (is_due now stale_after) stale ≡ keep_if (is_due now stale_after) stale
unfolding take_while
take_while-keep_if now stale_after [] h = refl
take_while-keep_if now stale_after ((k, t) ∷ stale) h =
    elim (Bool-cases (is_due now stale_after (k, t))) [
      | inl d ↦ rw (d, take_while-keep_if now stale_after stale h.2) refl
      | inr f ↦
          let late : now < t + stale_after = ground arith in
          rw (f, none_due now stale_after t stale late h.1) refl
    ]

All-erase_time :
    (t h : ℕ) (stale : Dict ℕ ℕ) → All (λ e. t ≤ e.1) stale → All (λ e. t ≤ e.1) (erase h stale)
unfolding erase
All-erase_time t h [] a = tt
All-erase_time t h ((k, s) ∷ stale) a = elim (Bool-cases (k == h)) [
  | inl same ↦ rw same (All-erase_time t h stale a.1)
  | inr other ↦ rw other (a.0, All-erase_time t h stale a.1)
]

touch-IsOrdered :
    (h now later : ℕ) (stale : Dict ℕ ℕ)
    → now ≤ later
    → IsOrdered now stale
    → IsOrdered later (touch h later stale)
unfolding erase
touch-IsOrdered h now later [] le o = (omega arith, tt, tt)
touch-IsOrdered h now later ((k, t) ∷ stale) le o = elim (Bool-cases (k == h)) [
  | inl same ↦ rw same (touch-IsOrdered h now later stale le o.2)
  | inr other ↦ rw other (
    omega arith,
    All-append (λ e. t ≤ e.1) (erase h stale) ((h, later) ∷ []) (All-erase_time t h stale o.1)
        (omega arith, tt),
    touch-IsOrdered h now later stale le o.2,
  )
]

IsOrdered-later :
    (now later : ℕ) (stale : Dict ℕ ℕ) → now ≤ later → IsOrdered now stale → IsOrdered later stale
IsOrdered-later now later [] le o = tt
IsOrdered-later now later ((k, t) ∷ stale) le o =
    (omega arith, o.1, IsOrdered-later now later stale le o.2)

refresh-IsOrdered :
    (later : ℕ) (due : List ℕ) (stale : Dict ℕ ℕ)
    → IsOrdered later stale
    → IsOrdered later (refresh later due stale)
unfolding refresh
refresh-IsOrdered later [] stale o = o
refresh-IsOrdered later (h ∷ due) stale o = elim (Bool-cases (contains (keys stale) h)) [
  | inl t ↦ rw t (
      refresh-IsOrdered later due (touch h later stale)
        (touch-IsOrdered h later later stale (omega arith) o))
  | inr f ↦ rw f (refresh-IsOrdered later due stale o)
]

-- Where the items stand in the order of their last updates, a sweep finds the due ones by looking
-- at the front only: it reads the first `read_chunk` of all the items that are silent for
-- `stale_after`; and afterwards they stand in the order of their updates again.
pub sweep-IsOrdered :
    (now later stale_after read_chunk : ℕ) (stale : Dict ℕ ℕ)
    → now ≤ later
    → IsOrdered now stale
    → let (due, after) = sweep now later stale_after read_chunk stale in
      (due ≡ keys (take read_chunk (keep_if (is_due now stale_after) stale)))
      × IsOrdered later after
unfolding sweep due_handles
sweep-IsOrdered now later stale_after read_chunk stale le o = (
  rw (take_while-keep_if now stale_after stale o) refl,
  refresh-IsOrdered later (due_handles now stale_after read_chunk stale) stale
      (IsOrdered-later now later stale le o),
)
