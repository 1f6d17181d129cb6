-- ===== src/PeerView.antt =====
-- The hub and one client that it serves: the write pump of cmd/server/main.go marshals what the hub
-- put into the client's channel, and the client's transport decodes it.
pub mod Receive
pub mod Sync
pub mod Arrival
pub mod Departure
pub mod Reach
pub mod Loss
pub mod Signals
pub mod Offers
pub mod Forgery
pub mod Welcome
use p_and_pp.Base.{ℕ, ◌≡◌, String, List, [], ◌∷◌, map, Option, some}
use p_and_pp.Base.Results.{Result, ok, err, Codec}
use p_and_pp.Sdp.{Signal}
use p_and_pp.Signaling.Message
use p_and_pp.Signaling.Message.{Marshaler}
use p_and_pp.Transport
use p_and_pp.Transport.{Unmarshaler}
use p_and_pp.Client.{Client, receive}

-- The uses of encoding/json on both ends of the WebSocket.
pub record Wire (R : Type 0) : Type 0 where
  pub marshaler : Marshaler R
  pub encode : Message.Message R → Result R
  pub decode : R → Result (Transport.Message R)
  pub unmarshaler : Unmarshaler R
  pub signals : Codec R (Signal R)

abbrev pub arrives : {R : Type 0} → Message.Message R → Transport.Message R
arrives m = record {
  type = m.type;
  from = m.from;
  to = m.to;
  payload = m.payload;
  timestamp = m.timestamp;
}

abbrev pub info : Message.PeerInfo → Transport.PeerInfo
info p = record { id = p.id; joined_at = p.joined_at }

-- A struct that is marshalled is read back with the same fields by a struct with the same tags.
pub record IsFaithful {R : Type 0} (w : Wire R) : Type 0 where
  pub frames :
      (m : Message.Message R) → (r : R) × (w.encode m ≡ ok r) × (w.decode r ≡ ok (arrives m))
  pub ids :
      (p : String)
      → (r : R) × (w.marshaler.registered (record { peer_id = p }) ≡ some r)
        × (w.unmarshaler.peer_id r ≡ ok p)
  pub lists :
      (ps : List Message.PeerInfo)
      → (r : R) × (w.marshaler.list (record { peers = ps }) ≡ some r)
        × (w.unmarshaler.peers r ≡ ok (map info ps))
  pub infos :
      (p : Message.PeerInfo)
      → (r : R) × (w.marshaler.joined_left (record { peer = p }) ≡ some r)
        × (w.unmarshaler.peer r ≡ ok (info p))

module _ {R : Type 0} (w : Wire R) where
  -- The round of the client's `readPump` for one frame: a frame that does not decode is skipped.
  unfoldable pub read_frame : Client → R → Client
  read_frame c frame = elim (w.decode frame) [
    | ok msg ↦ (receive w.unmarshaler w.signals c msg).0
    | err e ↦ c
  ]

  -- One message of the peer's channel, through `writePump` and the socket.
  unfoldable pub transmit : Client → Message.Message R → Client
  transmit c m = elim (w.encode m) [ ok frame ↦ read_frame c frame | err e ↦ c ]

  unfoldable pub receive_all : Client → List (Message.Message R) → Client
  receive_all c [] = c
  receive_all c (m ∷ ms) = receive_all (transmit c m) ms
