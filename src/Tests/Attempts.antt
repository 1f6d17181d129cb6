-- ===== src/Tests/Attempts.antt =====
-- Two attempts of the sample application.
use p_and_pp.Base.{◌≡◌, refl, [], ◌∷◌}
use p_and_pp.Ice.Agent.Choice.{made}
use p_and_pp.Ice.Connection.{address_text}
use p_and_pp.App.Attempts.{Race, Reach, Inevitably, over, race, greeting}
use p_and_pp.App.Attempts.Settling.{Settled, attempts_settle, both_greet}
use p_and_pp.Tests.Samples.{Doc}
use p_and_pp.Tests.Gathering.{Socket}
use p_and_pp.Tests.Connecting.{agent, mine, theirs, socket, resolve}
use p_and_pp.Tests.Calls.{app}
use p_and_pp.Tests.Shells.{send_to, bytes}

attempts_settle_example :
    Inevitably {R = Doc} resolve send_to bytes
      (Settled send_to bytes (made mine theirs socket (address_text theirs)) 2)
      (race app 2)
attempts_settle_example =
    attempts_settle resolve send_to bytes app agent mine [] theirs [] (address_text theirs) socket
      [] 1 refl refl refl refl refl refl

both_greet_example :
    (s : Race Socket Doc) × Reach resolve send_to bytes (race app 2) s
    × (s.attempts ≡ over ∷ over ∷ [])
    × (s.acts
        ≡ greeting send_to bytes (made mine theirs socket (address_text theirs))
          ∷ greeting send_to bytes (made mine theirs socket (address_text theirs))
          ∷ [])
both_greet_example =
    both_greet resolve send_to bytes app agent mine [] theirs [] (address_text theirs) socket []
      refl refl refl refl refl refl
