-- ===== src/Tests/Links.antt =====
-- Subscriptions, gaps, rows and the loop.
use zelos_extension_opcua.Client.Transport.Coverage.{IsCovered, subscribe-IsCovered}
use zelos_extension_opcua.Client.Transport.Cadence.{subscription_request-outlives}
use zelos_extension_opcua.Client.Publish.Gaps.{IsAccounted, on_publish-accounts}
use zelos_extension_opcua.Client.Rows.Carried.{IsStampedLast, IsPast, log_samples-IsPast}
use zelos_extension_opcua.Client.Loop.Backoff.{Holds, run-waits}
use zelos_extension_opcua.Client.Loop.{reconnect_initial, up, Outcome, link_lost, start, run}
use zelos_extension_opcua.Client.Publish.{data_change, Message, Feed, answer, on_publish}
use zelos_extension_opcua.Client.Rows.{Sample, Last, log_samples}
use zelos_extension_opcua.Client.Transport.{
  CodeSets, created, good, bad, results, deleted, Server, Transport, keepalive_ms,
  session_timeout_ms, subscription_request, Refusals, register, settle, add_items,
  fill_subscription, subscribe,
}
use zelos_extension_opcua.Prelude.{
  ℕ, ◌+◌, ◌*◌, ◌≤◌, ◌≡◌, refl, true, false, none, some, List, [], ◌∷◌, arith, eqb, nat_eq, length,
  chunks_from, All, contains, insert, erase, codes, text_eq,
}

subscription_request-outlives_example :
    (session_timeout_ms ≤ (subscription_request 700).lifetime_count * 700)
    × (keepalive_ms ≤ (subscription_request 700).max_keepalive_count * 700)
    × (3 * (subscription_request 700).max_keepalive_count
        ≤ (subscription_request 700).lifetime_count)
    × (1 ≤ (subscription_request 700).max_keepalive_count)
subscription_request-outlives_example = subscription_request-outlives 700 (omega arith)

abbrev pub no_codes : CodeSets
no_codes = record { server_full = λ c. eqb c 1; connection = λ c. false }

-- Two of three items fit; the second request is not made.
abbrev pub small_server : Server ℕ
small_server = record {
  create_subscription = λ r. created 4 1000 10 50;
  create_items =
      λ sid chunk. results 60 (good ∷ bad (record { code = 1; name = codes "full" }) ∷ []);
  delete_subscription = λ sid. deleted;
}

abbrev no_transport : Transport ℕ
no_transport = record { monitored = []; stale = []; stale_after = 100; subs = [] }

abbrev pub three_items : List (ℕ × ℕ)
three_items = (1, 10) ∷ (2, 20) ∷ (3, 30) ∷ []

abbrev filled : Refusals ℕ × Transport ℕ
filled = (
  ((20, codes "full") ∷ (30, codes "full") ∷ [], some (codes "full")),
  record {
    monitored = (1, 10) ∷ [];
    stale = (1, 60) ∷ [];
    stale_after = 1000;
    subs =
        (
          4,
          record {
            interval = 1000;
            items = (1, 10) ∷ [];
            deadline = 12000;
            heard = 50;
            expected = 1;
            stalled = none;
          },
        )
        ∷ [];
  },
)

subscribe-IsCovered_example : All (IsCovered filled.1.monitored filled.0.0) three_items
unfolding contains subscribe fill_subscription add_items chunks_from settle erase insert register
subscribe-IsCovered_example =
    subscribe-IsCovered no_codes small_server 2 1000 three_items none no_transport {x = filled}
      (omega arith) (refl, (refl, (refl, tt))) refl

abbrev message : ℕ → Message ℕ
message n = record { sequence = n; notifications = data_change ((1, n) ∷ []) ∷ [] }

abbrev feed : Feed ℕ ℕ
feed = record {
  sub = record {
    interval = 1000;
    items = (1, 10) ∷ [];
    deadline = 12000;
    heard = 0;
    expected = 3;
    stalled = none;
  };
  stale = [];
  connected = true;
  acks = [];
  logged = [];
}

-- Number 3 is answered, and is recovered.
on_publish-accounts_example :
    IsAccounted
      ((1, 10) ∷ [])
      (λ c. false)
      9
      (λ n. answer (message n))
      (on_publish ((1, 10) ∷ []) (λ c. false) 9 (λ n. answer (message n)) (message 4) (3 ∷ []) feed)
      3
on_publish-accounts_example =
    on_publish-accounts ((1, 10) ∷ []) (λ c. false) 9 (λ n. answer (message n)) (message 4) (3 ∷ [])
      feed 3 (omega arith) (omega arith) (omega arith)

abbrev two_samples : List (Sample ℕ)
two_samples =
    record { event = codes "e"; field = codes "t"; value = some 8; stamp = 8 }
    ∷ record { event = codes "e"; field = codes "u"; value = none; stamp = 5 }
    ∷ []

abbrev known_last : Last ℕ
known_last = (codes "e", (codes "v", (6, 6)) ∷ []) ∷ []

log_samples-IsPast_example :
    All (IsPast (λ v. v)) (log_samples (codes "e" ∷ []) two_samples known_last).0
    × IsStampedLast (λ v. v) (log_samples (codes "e" ∷ []) two_samples known_last).1
log_samples-IsPast_example =
    log_samples-IsPast (λ v. v) (codes "e" ∷ []) two_samples known_last (own, (nothing, tt))
      ((refl, tt), tt)
  where
    own : (v : ℕ) → some 8 ≡ some v → v ≡ 8
    own v e = ground arith

    nothing : (v : ℕ) → none ≡ some v → v ≡ 5
    nothing v e = cc

abbrev drops : List Outcome
drops = link_lost up false ∷ link_lost up false ∷ link_lost up false ∷ []

run-waits_example :
    Holds
      (λ last. reconnect_initial * length drops ≤ (run drops start).1 + reconnect_initial)
      (run drops start).0
run-waits_example =
    run-waits drops start (tt, (tt, (tt, tt))) (omega arith, omega arith, omega arith)
