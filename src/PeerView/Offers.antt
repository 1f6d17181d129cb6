-- ===== src/PeerView/Offers.antt =====
-- The way of an offer from one client to another: pkg/p2p/client.go and pkg/p2p/transport/websocket.go
-- at both ends, cmd/server/main.go and internal/signaling/hub.go between them.
use p_and_pp.Base.{ℕ, ◌<◌, ◌≡◌, ◌≢◌, refl, true, [], ◌∷◌, ◌++◌, some, length, done}
use p_and_pp.Base.Results.{Result, ok, Codec, RoundTrips}
use p_and_pp.GoMap.{lookup}
use p_and_pp.Sdp.{
  SessionDescription, Signal, envelope, parse_session_description, session_to_signal,
}
use p_and_pp.Signaling.Message
use p_and_pp.Signaling.Hub.{Peer, Hub, handle_broadcast}
use p_and_pp.Signaling.Hub.Invariant.{IsValid}
use p_and_pp.Server
use p_and_pp.Transport
use p_and_pp.Client.{Client, signalled, receive, send_offer}
use p_and_pp.PeerView.{Wire, IsFaithful, arrives}
use p_and_pp.PeerView.Signals.{IsRead, Listens, signal_arrives}

module _ {R : Type 0} (w : Wire R) (frames : Codec R (Transport.Message R))
    (decode : R → Result (Message.Message R)) (codec : Codec R SessionDescription) where
  -- With a faithful encoding, `SendOffer` of a connected client writes one frame. Read by the server on
  -- the connection of peer `a`, it is a message from `a`. If the hub is valid, `b` is registered under
  -- a non-empty id and `b`'s buffer has room, the hub puts the message last into that buffer. Written to
  -- a client whose handlers are set, it calls the application's handler once, with the sender `a` and a
  -- signal that parses to the offer that was sent.
  pub offer_arrives :
      (write : R → Result (Unit {0})) (h : Hub R) (a b : Peer) (ca cb : Client)
      (offer : SessionDescription) (t₁ t₂ t₃ t₄ : ℕ)
      → IsFaithful w
      → RoundTrips w.signals
      → RoundTrips codec
      → IsRead frames decode
      → IsValid h
      → lookup b.id h.peers ≡ some b
      → b.id ≢ ""
      → length (h.chans b.send).buffer < (h.chans b.send).capacity
      → ca.transport.connected ≡ true
      → Listens cb
      → (frame back : R) × (m : Message.Message R) × (h' : Hub R) × (sig : Signal R) × (send_offer
            w.signals frames write codec ca b.id offer t₁ t₂
          ≡ write frame)
        × (Server.read_frame decode a frame t₃ ≡ some m)
        × (handle_broadcast w.marshaler h m t₄ ≡ done h')
        × ((h'.chans b.send).buffer ≡ (h.chans b.send).buffer ++ m ∷ [])
        × (w.encode m ≡ ok back)
        × (w.decode back ≡ ok (arrives m))
        × ((receive w.unmarshaler w.signals cb (arrives m)).1 ≡ signalled a.id sig ∷ [])
        × (parse_session_description codec sig ≡ ok offer)
  unfolding send_offer session_to_signal parse_session_description
  offer_arrives write h a b ca cb offer t₁ t₂ t₃ t₄ faithful signals sessions read v there named
        room connected l =
      let (doc, made, parsed) = sessions offer in
      let s =
        signal_arrives w frames decode write h a b ca cb (envelope offer.type doc t₁) t₂ t₃ t₄
          faithful signals read v there named room connected l in
      (
        s.frame,
        s.back,
        s.message,
        s.hub,
        record (envelope offer.type doc t₁) { from = a.id },
        rw made s.submitted,
        s.read,
        s.handled,
        s.queued,
        s.encoded,
        s.decoded,
        s.noticed,
        rw (parse_session_description, parsed) refl,
      )
