-- ===== src/PeerView/Signals.antt =====
-- The way of any signal from one client to another: pkg/p2p/client.go and pkg/p2p/transport/websocket.go at
-- both ends, cmd/server/main.go and internal/signaling/hub.go between them.
use p_and_pp.Base.{ℕ, ◌<◌, ◌≡◌, ◌≢◌, refl, true, [], ◌∷◌, ◌++◌, some, arith, nat_eq, length, done}
use p_and_pp.Base.Results.{Result, ok, Codec, RoundTrips}
use p_and_pp.GoMap.{lookup}
use p_and_pp.Sdp.{Signal}
use p_and_pp.Signaling.Message
use p_and_pp.Signaling.Hub.{Peer, Hub, handle_broadcast}
use p_and_pp.Signaling.Hub.Invariant.{IsValid, after}
use p_and_pp.Signaling.Hub.Routing.{handle_broadcast_found}
use p_and_pp.Server
use p_and_pp.Transport
use p_and_pp.Client.{Client, signalled, receive, dispatch, handle_transport_message, signal_of}
use p_and_pp.PeerView.{Wire, IsFaithful, arrives}

-- What the server reads where a client sent a message.
abbrev pub sent : {R : Type 0} → Transport.Message R → Message.Message R
sent m = record {
  type = m.type;
  from = m.from;
  to = m.to;
  payload = m.payload;
  timestamp = m.timestamp;
}

-- A client's frame is read back by the server, with the same fields.
abbrev pub IsRead :
    {R : Type 0} → Codec R (Transport.Message R) → (R → Result (Message.Message R)) → Type 0
IsRead {R} frames decode =
    (m : Transport.Message R) → (r : R) × (frames.marshal m ≡ ok r) × (decode r ≡ ok (sent m))

-- A client whose application and transport have their handlers.
pub record Listens (c : Client) : Type 0 where
  pub transport : c.transport.has_handler ≡ true
  pub handler : c.has_handler ≡ true

module _ {R : Type 0} (w : Wire R) (frames : Codec R (Transport.Message R))
    (decode : R → Result (Message.Message R)) where
  -- The message of the hub, for the document of a signal.
  abbrev routed : Peer → Peer → R → ℕ → Message.Message R
  routed a b payload now = record {
    type = Message.signal;
    from = a.id;
    to = b.id;
    payload = payload;
    timestamp = now;
  }

  notices_signal :
      (c : Client) (a b : Peer) (payload : R) (now : ℕ) (sig : Signal R)
      → Listens c
      → w.signals.unmarshal payload ≡ ok sig
      → (receive w.unmarshaler w.signals c (arrives (routed a b payload now))).1
        ≡ signalled a.id (record sig { from = a.id }) ∷ []
  unfolding receive Transport.handle_message dispatch handle_transport_message
  notices_signal c a b payload now sig l e = rw (l.transport, l.handler, e, signal_of)

  -- What becomes of a signal that one client's transport sends to a registered peer `b` whose buffer has
  -- room: the server takes the frame for one of `a`, the hub puts the message last into the buffer of
  -- `b`, and the handler of `b`'s client is called with the signal, under the name of `a`.
  pub record Arrival {B : Type 0} (attempt : Result B) (write : R → Result B) (h : Hub R)
      (a b : Peer) (cb : Client) (sig : Signal R) (t₃ t₄ : ℕ) : Type 0 where
    pub frame : R
    pub back : R
    pub message : Message.Message R
    pub hub : Hub R
    pub submitted : attempt ≡ write frame
    pub read : Server.read_frame decode a frame t₃ ≡ some message
    pub handled : handle_broadcast w.marshaler h message t₄ ≡ done hub
    pub after_hub : hub ≡ after h (nat_eq b.send) message
    pub queued : (hub.chans b.send).buffer ≡ (h.chans b.send).buffer ++ message ∷ []
    pub encoded : w.encode message ≡ ok back
    pub decoded : w.decode back ≡ ok (arrives message)
    pub noticed :
        (receive w.unmarshaler w.signals cb (arrives message)).1
        ≡ signalled a.id (record sig { from = a.id }) ∷ []

  pub signal_arrives :
      {B : Type 0} (write : R → Result B) (h : Hub R) (a b : Peer) (ca cb : Client) (sig : Signal R)
      (t₂ t₃ t₄ : ℕ)
      → IsFaithful w
      → RoundTrips w.signals
      → IsRead frames decode
      → IsValid h
      → lookup b.id h.peers ≡ some b
      → b.id ≢ ""
      → length (h.chans b.send).buffer < (h.chans b.send).capacity
      → ca.transport.connected ≡ true
      → Listens cb
      → Arrival
          (Transport.send frames write w.signals.marshal ca.transport b.id sig t₂)
          write
          h
          a
          b
          cb
          sig
          t₃
          t₄
  unfolding Transport.send Transport.send_message Server.read_frame
  signal_arrives write h a b ca cb sig t₂ t₃ t₄ faithful signals read v there named room connected
        l =
      let (payload, marshalled, unmarshalled) = signals sig in
      let (frame, written, seen) = read (record {
        type = Transport.msg_signal;
        from = "";
        to = b.id;
        payload = payload;
        timestamp = t₂;
      }) in
      let m = routed a b payload t₃ in
      let (back, encoded, decoded) = faithful.frames m in
      record {
        frame = frame;
        back = back;
        message = m;
        hub = after h (nat_eq b.send) m;
        submitted = rw (marshalled, connected, written) refl;
        read = rw (Server.read_frame, seen) refl;
        handled = handle_broadcast_found w.marshaler h m b t₄ v named there;
        after_hub = refl;
        queued = ground (arith, room);
        encoded = encoded;
        decoded = decoded;
        noticed = notices_signal cb a b payload t₃ sig l unmarshalled;
      }
