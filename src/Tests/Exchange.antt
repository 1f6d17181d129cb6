-- ===== src/Tests/Exchange.antt =====
-- Alice sends an offer to bob.
use p_and_pp.Base.{◌≡◌, refl, true, [], ◌∷◌, ◌++◌, some, arith, done}
use p_and_pp.Base.Results.{ok}
use p_and_pp.Sdp.{parse_session_description, new_offer}
use p_and_pp.Signaling.Message.{Message}
use p_and_pp.Signaling.Hub.{Hub, handle_broadcast}
use p_and_pp.Server
use p_and_pp.Transport
use p_and_pp.Sdp.{Signal}
use p_and_pp.Client.{signalled, receive, send_offer, connect, on_signal}
use p_and_pp.PeerView.{arrives}
use p_and_pp.PeerView.Signals.{Listens}
use p_and_pp.PeerView.Offers.{offer_arrives}
use p_and_pp.Tests.Samples.{
  Doc, write_docs, wire, wire-IsFaithful, signals-RoundTrips, sessions, sessions-RoundTrips, frames,
  read_sent, frames-IsRead, alice, bob, pair,
}
use p_and_pp.Tests.Hubs.{pair-IsValid, not_empty, found_bob}

pub connect-Listens : Listens (on_signal connect)
unfolding on_signal connect Transport.set_handler Transport.set_peer_handler
connect-Listens = record { transport = refl; handler = refl }

pub connected : connect.transport.connected ≡ true
unfolding connect
connected = refl

offer_arrives_example :
    (frame back : Doc) × (m : Message Doc) × (h' : Hub Doc) × (sig : Signal Doc) × (send_offer
        wire.signals frames
        (λ d. ok tt)
        sessions
        connect
        "bob"
        (new_offer "v=0")
        1
        2
      ≡ ok tt)
    × (Server.read_frame read_sent alice frame 3 ≡ some m)
    × (handle_broadcast write_docs pair m 4 ≡ done h')
    × ((h'.chans 1).buffer ≡ [] ++ m ∷ [])
    × (wire.encode m ≡ ok back)
    × (wire.decode back ≡ ok (arrives m))
    × ((receive wire.unmarshaler wire.signals (on_signal connect) (arrives m)).1
        ≡ signalled "alice" sig ∷ [])
    × (parse_session_description sessions sig ≡ ok (new_offer "v=0"))
offer_arrives_example =
    offer_arrives wire frames read_sent sessions (λ d. ok tt) pair alice bob connect
      (on_signal connect) (new_offer "v=0") 1 2 3 4 wire-IsFaithful signals-RoundTrips
      sessions-RoundTrips frames-IsRead pair-IsValid found_bob not_empty (omega arith) connected
      connect-Listens
