-- ===== src/Tests/Paths.antt =====
-- The direct connection at the sample application.
use mathlib.Core.Option
use p_and_pp.Base.{ℕ, List, ◌++◌, get_elem?, ◌≡◌, refl, [], ◌∷◌, none, some, false}
use p_and_pp.Base.Results.{ok}
use p_and_pp.Client.{connect, on_signal}
use p_and_pp.Ice.Gatherer
use p_and_pp.Ice.Gatherer.{
  Pointer, host_candidate, default_port_start, default_port_end, get_local_ips, gather_from,
  all_ips, interface_ips, usable, to4, bind_udp, new_gatherer,
}
use p_and_pp.Ice.Gatherer.Pairing.{Describes}
use p_and_pp.Ice.Connection.{Connection, send, address_text}
use p_and_pp.Ice.Agent.{new_agent, gather}
use p_and_pp.App.{App, Act, schedules, sends, handle_remote_candidate, try_direct}
use p_and_pp.App.Direct.{candidate_act, direct_path}
use p_and_pp.Tests.Samples.{Doc}
use p_and_pp.Tests.Gathering.{Socket, net, lan}
use p_and_pp.Tests.Connecting.{theirs, resolve}
use p_and_pp.Tests.Calls.{codecs, clock}
use p_and_pp.Tests.Shells.{send_to, bytes}

abbrev pub idle : App Socket
idle = record { client = on_signal connect; ice_agent = none; ice_conn = none }

abbrev pub own : Pointer
own = host_candidate net 0 1 (record { ip = lan; port = 10001 })

pub found : (gather net 10000 (new_agent default_port_start default_port_end)).2 ≡ ok (own ∷ [])
unfolding gather Gatherer.gather get_local_ips gather_from all_ips interface_ips usable to4 bind_udp
    new_agent new_gatherer
found = refl

direct_path_example :
    (app' : App Socket) × (c : Socket) × (conn : Connection Socket) × (sent : List (Act Doc))
    × ((handle_remote_candidate net codecs clock 10000 idle "alice" theirs).2
        ≡ sent ++ schedules ∷ [])
    × ((i : ℕ)
        → get_elem? sent i
          ≡ Option.map
              (candidate_act net codecs clock idle.client "alice" i)
              (get_elem? (own ∷ []) i))
    × (try_direct {R = Doc} resolve send_to bytes
          (handle_remote_candidate net codecs clock 10000 idle "alice" theirs).1
        ≡ (
          app',
          sends "Hello from direct UDP!" (send send_to conn (bytes "Hello from direct UDP!")) ∷ [],
        ))
    × (app'.ice_conn ≡ some conn)
    × (conn.conn ≡ some c)
    × Describes net own c
    × (conn.remote_addr ≡ address_text theirs)
    × (conn.closed ≡ false)
    × (try_direct {R = Doc} resolve send_to bytes app' ≡ (app', []))
direct_path_example =
    direct_path net codecs clock resolve send_to bytes 10000 idle "alice" theirs own []
      (address_text theirs) refl refl found refl
