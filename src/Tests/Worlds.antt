-- ===== src/Tests/Worlds.antt =====
-- A server that accepts alice, registers her, and finds her gone.
use p_and_pp.Base.{ℕ, ◌≡◌, ◌≢◌, ◌↔◌, refl, some, done, blocked, ◌⊎◌}
use p_and_pp.GoMap.{lookup}
use p_and_pp.Signaling.Hub.{Peer, Hub, register, unregister, step}
use p_and_pp.Signaling.Hub.Invariant.{IsValid}
use p_and_pp.Signaling.Hub.Handlers.{registered, handle_register_lem}
use p_and_pp.Signaling.Hub.Safety.{Stalls}
use p_and_pp.Signaling.Hub.Elsewhere.{Waiting}
use p_and_pp.Server.{new_peer}
use p_and_pp.Server.Session
use p_and_pp.Server.Session.{
  Session, running, finishing, returned, waiting, unregistering, ended, reader_stops, reader_done,
}
use p_and_pp.Server.World.{
  World, entering, serving, at, world, accepts, registers, moves, Reach, here, next,
}
use p_and_pp.Server.World.Invariant.{entering-IsNew}
use p_and_pp.Server.World.Steps.{Reach-Inv}
use p_and_pp.Server.World.Safety.{server-IsSafe, map_lists_served}
use p_and_pp.Server.World.Authenticity.{Authentic, Waiting-Authentic}
use p_and_pp.Tests.Samples.{Doc, write_docs, read_sent}
use p_and_pp.Tests.Rooms.{empty_store}

abbrev first : World Doc
first = world empty_store

abbrev ann : Peer
ann = record { id = "ann"; send = 0; joined_at = 7 }

abbrev second : World Doc
second = record {
  hub = (new_peer first.hub "ann" 0 7).1;
  connections =
      at first.connections 0 (record { peer = (new_peer first.hub "ann" 0 7).0; stage = entering });
}

to_second : Reach write_docs read_sent first second
to_second = next here (accepts 0 "ann" 7 refl (λ q c e. cc e))

second_here : second.connections 0 ≡ some (record { peer = ann; stage = entering })
unfolding new_peer
second_here = refl

abbrev third : World Doc
third = record {
  hub = registered write_docs second.hub ann 1 2 3;
  connections = at second.connections 0 (record { peer = ann; stage = serving Session.start });
}

handled : step write_docs second.hub (register ann 1 2 3) ≡ done third.hub
unfolding step
handled =
    let i = Reach-Inv write_docs read_sent empty_store (λ r. refl) to_second in
    handle_register_lem write_docs second.hub ann 1 2 3 i.valid
      (entering-IsNew second i 0 ann second_here)

to_third : Reach write_docs read_sent first third
to_third = next to_second (registers 0 ann 1 2 3 third.hub second_here handled)

-- Her reader has stopped, and her handler goes on to unregister her.
abbrev stopped : Session
stopped = record { reader = returned; writer = running; handler = unregistering }

abbrev fourth : World Doc
fourth = record {
  hub = third.hub;
  connections =
      at
        (at third.connections 0
          (record { peer = ann; stage = serving (record Session.start { reader = finishing }) }))
        0 (record { peer = ann; stage = serving stopped });
}

to_fourth : Reach write_docs read_sent first fourth
unfolding Session.start
to_fourth =
    next
      (next to_third (
        moves 0 ann Session.start (record Session.start { reader = finishing }) refl
          (reader_stops refl) (λ e. cc e)))
      (moves 0 ann (record Session.start { reader = finishing }) stopped refl
        (reader_done refl refl) (λ e. cc e))

server-IsSafe_example :
    ((h : Hub Doc) × (step write_docs fourth.hub (unregister ann 9) ≡ done h) × IsValid h)
    ⊎ ((step write_docs fourth.hub (unregister ann 9) ≡ blocked)
        × Stalls fourth.hub (unregister ann 9))
server-IsSafe_example =
    server-IsSafe write_docs read_sent empty_store fourth (unregister ann 9) (λ r. refl) to_fourth
      (0, stopped, refl, refl)

map_lists_served_example : (lookup "ann" fourth.hub.peers ≡ some ann) ↔ (
    (ann.id ≡ "ann")
    × (r : ℕ) × (s : Session) × (fourth.connections r
        ≡ some (record { peer = ann; stage = serving s }))
    × (s.handler ≢ ended))
map_lists_served_example =
    map_lists_served write_docs read_sent empty_store fourth "ann" ann (λ r. refl) to_fourth

Waiting-Authentic_example : Waiting (Authentic fourth.connections) fourth.hub.chans
Waiting-Authentic_example =
    Waiting-Authentic write_docs read_sent empty_store fourth (λ r. refl) to_fourth
