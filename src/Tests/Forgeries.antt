-- ===== src/Tests/Forgeries.antt =====
-- Carol tells alice that bob has left.
use p_and_pp.Base.{◌≡◌, ◌≢◌, String, refl, eq_iff, [], true, false, some, arith, done}
use p_and_pp.GoMap.{lookup, has}
use p_and_pp.Signaling.Message.{Message}
use p_and_pp.Signaling.Hub.{Hub, handle_broadcast}
use p_and_pp.Server
use p_and_pp.Transport
use p_and_pp.Client.{connect}
use p_and_pp.PeerView.{receive_all}
use p_and_pp.PeerView.Sync.{InSync}
use p_and_pp.PeerView.Forgery.{forged_departure}
use p_and_pp.Tests.Samples.{
  Doc, a_peer, a_frame, write_docs, wire, wire-IsFaithful, alice, bob, carol, pair, read_sent,
}
use p_and_pp.Tests.Hubs.{pair-IsValid, found_bob}
use p_and_pp.Tests.Views.{knows_bob, alice_view}

pub alice_named : ◌≢◌ {A = String} "alice" ""
alice_named e = ground (arith, eq_iff "alice" "")

nothing_waits : receive_all wire knows_bob [] ≡ knows_bob
unfolding receive_all
nothing_waits = refl

alice-InSync-pair : InSync wire pair alice knows_bob
unfolding lookup connect Transport.set_peer_handler
alice-InSync-pair = record {
  here = refl;
  ready = rw nothing_waits refl;
  keyed = rw nothing_waits (tt, tt);
  knows = λ j. rw nothing_waits (alice_view j);
}

abbrev departure : Doc
departure = a_peer (record { id = "bob"; joined_at = 0 })

forged_departure_example :
    (m : Message Doc) × (h' : Hub Doc) × (Server.read_frame read_sent carol
        (a_frame "peer_left" "" "alice" departure 9)
        1
      ≡ some m)
    × (handle_broadcast write_docs pair m 2 ≡ done h')
    × (has "bob" h'.peers ≡ true)
    × (has "bob" (receive_all wire knows_bob (h'.chans 0).buffer).peers ≡ false)
forged_departure_example =
    forged_departure wire read_sent alice pair carol bob knows_bob
      (a_frame "peer_left" "" "alice" departure 9)
      (record { type = "peer_left"; from = ""; to = "alice"; payload = departure; timestamp = 9 })
      (record { id = "bob"; joined_at = 0 }) 1 2 wire-IsFaithful pair-IsValid alice-InSync-pair
      found_bob alice_named (omega arith) refl refl refl refl refl
