-- ===== src/Tests/Programs.antt =====
-- Runs of the demonstration client.
use p_and_pp.Base.{ℕ, ◌≡◌, refl, String, [], ◌∷◌, ◌++◌, some, List, true, ◌⊎◌}
use p_and_pp.Base.Results.{Result, ok}
use p_and_pp.Client.Start.{CanReach}
use p_and_pp.App.{App, Act}
use p_and_pp.App.Main.{
  Flags, Running, Happening, typed, advances, exits, returns, program, run_main,
}
use p_and_pp.App.Attempts.{sleeping, over}
use p_and_pp.App.Main.Stops.{program_stops}
use p_and_pp.App.Main.Sound.{Each, IsDirect}
use p_and_pp.App.Main.Outcome.{connection_stays, main_outcome}
use p_and_pp.Tests.Samples.{Doc, wire}
use p_and_pp.Tests.Gathering.{Socket, net}
use p_and_pp.Tests.Connecting.{theirs, resolve}
use p_and_pp.Tests.Paths.{idle, own, found}
use p_and_pp.App.Main.Stranger.{approached, attempt, stranger_connects}
use p_and_pp.Ice.Connection.{Connection, address_text}
use p_and_pp.Tests.Calls.{codecs, app, clock}
use p_and_pp.Tests.Shells.{wrote, send_to, bytes, direct, joined_app, quit_line}

abbrev flags : Flags
flags = record { server_addr = "ws://hub/ws"; peer_id = "bob"; log_level = "info"; use_ice = true }

abbrev parse : String → Result String
parse url = ok url

abbrev dial : String → Result (Unit {0})
dial url = ok tt

abbrev busy : List (Happening Doc × (ℕ → ℕ × ℕ))
busy = (typed "/ice bob", clock) ∷ (advances 0, clock) ∷ (typed "/peers", clock) ∷ []

abbrev at_rest : Running Socket
at_rest = record { app = app; attempts = sleeping ∷ [] }

program_stops_example :
    program net codecs wire.unmarshaler wrote resolve send_to bytes true 10000 at_rest
      (busy ++ (typed " /quit now", clock) ∷ busy)
    ≡ program net codecs wire.unmarshaler wrote resolve send_to bytes true 10000 at_rest
        (busy ++ (typed " /quit now", clock) ∷ [])
program_stops_example =
    program_stops net codecs wire.unmarshaler wrote resolve send_to bytes true 10000 at_rest busy
      busy " /quit now" clock quit_line

abbrev joined : Running Socket
joined = record { app = joined_app; attempts = sleeping ∷ over ∷ [] }

connection_stays_example :
    (program net codecs wire.unmarshaler wrote resolve send_to bytes true 10000 joined
      busy).1.app.ice_conn
    ≡ some direct
connection_stays_example =
    connection_stays net codecs wire.unmarshaler wrote resolve send_to bytes true 10000 joined
      direct busy refl (tt, (tt, tt))

main_outcome_example :
    (CanReach parse dial "ws://hub/ws"
      × (w' : ℕ) × (end : App Socket) × (acts : List (Act Doc)) × (run_main net codecs
            wire.unmarshaler wrote resolve send_to bytes parse dial flags 10000 [] clock busy
          ≡ returns w' end acts)
      × Each (IsDirect net resolve) end.ice_conn)
    ⊎ (¬ CanReach parse dial "ws://hub/ws"
        × (run_main net codecs wire.unmarshaler wrote resolve send_to bytes parse dial flags 10000
              [] clock busy
            ≡ exits 1))
main_outcome_example =
    main_outcome net codecs wire.unmarshaler wrote resolve send_to bytes parse dial flags 10000 []
      clock busy

-- Carol's candidate, while bob is the peer that ICE was started for.
stranger_connects_example :
    (conn : Connection Socket) × (conn.remote_candidate ≡ theirs)
    × (conn.remote_addr ≡ address_text theirs)
    × ((program net codecs wire.unmarshaler wrote resolve send_to bytes true 10000
          (approached net codecs wire.unmarshaler wrote resolve send_to bytes clock 10000 idle "bob"
            "carol" theirs)
          (attempt net codecs wire.unmarshaler wrote resolve send_to bytes clock
            ++ busy)).1.app.ice_conn
        ≡ some conn)
stranger_connects_example =
    stranger_connects net codecs wire.unmarshaler wrote resolve send_to bytes clock true 10000 10000
      idle "bob" "carol" theirs own [] (address_text theirs) busy refl found refl
