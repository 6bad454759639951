-- ===== src/Tests/Failures.antt =====
-- Recreating a subscription, and polling in its place.
use zelos_extension_opcua.Tests.Links.{no_codes, small_server, three_items}
use zelos_extension_opcua.Client.Recovery.Restores.{IsRestored, recreate-IsRestored}
use zelos_extension_opcua.Client.Recovery.{Connection, recreate}
use zelos_extension_opcua.Client.Schedule.{poll_health, poll_chunk}
use zelos_extension_opcua.Client.Transport.{
  no_keepalive, Sub, register, settle, add_items, fill_subscription, subscribe,
}
use zelos_extension_opcua.Prelude.{
  ℕ, refl, true, false, none, some, [], ◌∷◌, arith, nat_eq, chunks_from, contains, insert, erase,
  text_eq,
}

abbrev pub stalled_sub : Sub ℕ
stalled_sub = record {
  interval = 1000;
  items = three_items;
  deadline = 12000;
  heard = 0;
  expected = 3;
  stalled = some no_keepalive;
}

abbrev pub link : Connection ℕ
link = record {
  transport = record {
    monitored = three_items;
    stale = [];
    stale_after = 100;
    subs = (2, stalled_sub) ∷ [];
  };
  connected = true;
  fresh = false;
  ready = true;
  subscribing = false;
  polled = 0;
  jobs = [];
}

-- The server takes one item only.
abbrev relinked : Connection ℕ
relinked = record {
  transport = record {
    monitored = (1, 10) ∷ (3, 30) ∷ [];
    stale = (1, 60) ∷ [];
    stale_after = 1000;
    subs =
        (
          4,
          record {
            interval = 1000;
            items = (1, 10) ∷ (3, 30) ∷ [];
            deadline = 12000;
            heard = 50;
            expected = 1;
            stalled = none;
          },
        )
        ∷ [];
  };
  connected = false;
  fresh = true;
  ready = false;
  subscribing = false;
  polled = 0;
  jobs = [];
}

recreate-IsRestored_example : IsRestored relinked three_items
unfolding contains recreate subscribe fill_subscription add_items chunks_from settle erase register
    insert
recreate-IsRestored_example =
    recreate-IsRestored no_codes small_server 2 2 stalled_sub link {after = relinked} (omega arith)
      (refl, (refl, (refl, tt))) refl

abbrev polling : Connection ℕ
polling = record {
  transport = record { monitored = []; stale = []; stale_after = 100; subs = [] };
  connected = true;
  fresh = false;
  ready = true;
  subscribing = false;
  polled = 2;
  jobs =
      (record { due = 5; period = 1000 }, poll_health)
      ∷ (record { due = 5; period = 500 }, poll_chunk (10 ∷ 20 ∷ []) 500)
      ∷ [];
}
