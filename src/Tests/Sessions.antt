-- ===== src/Tests/Sessions.antt =====
-- A session left on a dead channel: a first opening fails, the next one takes it back.
use zelos_extension_opcua.Client.Session.{
  Holder, Channel, RequestOutcome, succeeds, raises, is_closed_here, detach, resume,
}
use zelos_extension_opcua.Client.Session.Fates.{held, ended, openings, life, IsFate, life-IsFate}
use zelos_extension_opcua.Prelude.{◌≡◌, refl, true, false, none, some, List, [], ◌∷◌, codes}

abbrev dead_channel : Channel
dead_channel = record {
  token = codes "t";
  nonce = codes "n";
  policies = [];
  has_session = true;
  protocol = some (record { has_transport = false; is_closed = true });
}

abbrev holder : Holder
holder = record { detached = none; connected = true; fresh = false; ready = true; resumed = false }

abbrev two_openings : List RequestOutcome
two_openings = raises true none ∷ succeeds ∷ []

taken_back : life (λ code. false) dead_channel true succeeds two_openings holder ≡ held
unfolding life is_closed_here openings resume detach
taken_back = refl

closed_next : life (λ code. false) dead_channel false succeeds two_openings holder ≡ ended
unfolding life is_closed_here openings resume detach
closed_next = refl

life-IsFate_example :
    IsFate
      (λ code. false)
      dead_channel
      true
      succeeds
      two_openings
      (life (λ code. false) dead_channel true succeeds two_openings holder)
life-IsFate_example =
    life-IsFate (λ code. false) dead_channel true succeeds two_openings holder refl
