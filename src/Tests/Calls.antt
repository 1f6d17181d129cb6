-- ===== src/Tests/Calls.antt =====
-- Alice calls bob, whose application answers, and sends him a candidate.
use p_and_pp.Base.{ℕ, ◌≡◌, ◌≢◌, refl, String, [], ◌∷◌, ◌++◌, some, none, eq_iff, arith, true}
use p_and_pp.Base.Results.{ok}
use p_and_pp.GoMap.{lookup}
use p_and_pp.Sdp.{Signal, new_offer, parse_session_description}
use p_and_pp.Client.{connect, on_signal, send_offer, send_answer, send_ice_candidate_json}
use p_and_pp.App.{App, Codecs, submits, schedules, demo_answer, handle_signal}
use p_and_pp.App.Ways.{IsTrue, Arrives, CanTake}
use p_and_pp.App.Calls.{call_answered}
use p_and_pp.App.Candidates.{candidate_added}
use p_and_pp.Tests.Samples.{
  Doc, wire, wire-IsFaithful, signals-RoundTrips, sessions, sessions-RoundTrips, candidates,
  candidates-RoundTrips, messages, messages-RoundTrips, frames, read_sent, frames-IsRead, alice,
  bob, pair,
}
use p_and_pp.Base.Results.{err}
use p_and_pp.Tests.Hubs.{pair-IsValid, not_empty, found_bob}
use p_and_pp.Tests.Forgeries.{alice_named}
use p_and_pp.Tests.Exchange.{connect-Listens}
use p_and_pp.Tests.Gathering.{Socket, net}
use p_and_pp.Tests.Connecting.{agent, theirs}

abbrev pub codecs : Codecs Doc
codecs = record {
  descriptions = sessions;
  old_candidates = record { marshal = λ c. err "old"; unmarshal = λ d. err "old" };
  candidates = candidates;
  messages = messages;
  signals = wire.signals;
  frames = frames;
}

codecs-IsTrue : IsTrue wire codecs read_sent
codecs-IsTrue = record {
  faithful = wire-IsFaithful;
  signals = signals-RoundTrips;
  descriptions = sessions-RoundTrips;
  candidates = candidates-RoundTrips;
  messages = messages-RoundTrips;
  read = frames-IsRead;
}

alice-CanTake : CanTake wire codecs read_sent pair alice
unfolding lookup
alice-CanTake = record { there = refl; named = alice_named; room = omega arith }

bob-CanTake : CanTake wire codecs read_sent pair bob
bob-CanTake = record { there = found_bob; named = not_empty; room = omega arith }

abbrev pub app : App Socket
app = record { client = on_signal connect; ice_agent = some agent; ice_conn = none }

abbrev pub clock : ℕ → ℕ × ℕ
clock i = (i, i)

client_connected : app.client.transport.connected ≡ true
unfolding on_signal connect
client_connected = refl

alice_ne : ◌≢◌ {A = String} "alice" "bob"
alice_ne e = ground (arith, eq_iff "alice" "bob")

call_answered_example :
    (asked told : Signal Doc) × ((there : Arrives wire codecs read_sent
        (send_offer wire.signals frames ok sessions (on_signal connect) "bob" (new_offer "v=0") 1 2)
        pair
        alice
        bob
        (on_signal connect)
        asked
        3
        4)
      × (back : Arrives wire codecs read_sent
          (send_answer wire.signals frames ok sessions (on_signal connect) "alice" demo_answer 0 0)
          there.hub
          bob
          alice
          (on_signal connect)
          told
          5
          6)
      × (handle_signal net codecs clock 10000 app "alice" (record asked { from = "alice" })
          ≡ (10000, app, submits (ok back.frame) ∷ [])))
    × (parse_session_description sessions (record asked { from = "alice" }) ≡ ok (new_offer "v=0"))
    × (parse_session_description sessions (record told { from = "bob" }) ≡ ok demo_answer)
call_answered_example =
    call_answered net wire codecs read_sent clock 10000 pair alice bob (on_signal connect) app "v=0"
      1 2 3 4 5 6 codecs-IsTrue pair-IsValid alice-CanTake bob-CanTake alice_ne client_connected
      client_connected connect-Listens connect-Listens

candidate_added_example :
    (sig : Signal Doc) × Arrives wire codecs read_sent
      (send_ice_candidate_json wire.signals frames ok candidates messages
        (on_signal connect)
        "bob"
        theirs
        1
        2)
      pair
      alice
      bob
      (on_signal connect)
      sig
      3
      4
    × (handle_signal net codecs clock 10000 app "alice" (record sig { from = "alice" }) ≡ (
      10000,
      record app {
        ice_agent =
            some (record agent { remote_candidates = agent.remote_candidates ++ theirs ∷ [] });
      },
      schedules ∷ [],
    ))
candidate_added_example =
    candidate_added net wire codecs read_sent clock 10000 pair alice bob (on_signal connect) app
      agent theirs 1 2 3 4 codecs-IsTrue pair-IsValid bob-CanTake client_connected connect-Listens
      refl
