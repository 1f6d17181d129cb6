-- ===== src/Client.antt =====
-- pkg/p2p/client.go: the set of known peers, and the signals that a client sends and receives. The
-- lock is left out; a call of a handler is an entry of the list that the function returns.
pub mod Locking
pub mod Start
pub mod Parser
use p_and_pp.Base.{ℕ, String, ◌==◌, Bool, true, false, List, [], ◌∷◌, ◌++◌, map, if◌then◌else◌}
use p_and_pp.Base.Results.{Result, ok, err, ◌>>=◌, wrap, Codec}
use p_and_pp.GoMap.{insert, erase}
use p_and_pp.Sdp.{
  SessionDescription, IceCandidate, Signal, envelope, type_ice, session_to_signal,
  candidate_to_signal,
}
use p_and_pp.Ice.Candidate.{Candidate}
use p_and_pp.Transport
use p_and_pp.Transport.{PeerInfo, WebSocketClient, Call, to_handler, to_peer_handler, Unmarshaler}

pub record PeerEvent : Type 0 where
  pub type : String
  pub peer_id : String
  pub peers : List String

pub record Client : Type 0 where
  pub transport : WebSocketClient
  pub has_handler : Bool
  pub has_peer_handler : Bool
  pub peers : List (String × Bool)

-- A call of a handler of the application.
pub data Notice (R : Type 0) : Type 0 where
  signalled : String → Signal R → Notice R
  peers_changed : PeerEvent → Notice R

unfoldable pub on_signal : Client → Client
on_signal c = record c { has_handler = true }

unfoldable pub on_peer_event : Client → Client
on_peer_event c = record c { has_peer_handler = true }

-- The keys of the map, in the order of the visit.
unfoldable pub peers : Client → List String
peers c = map (λ e. e.0) c.peers

-- `c.peers[p.ID] = true` for each entry of a list.
unfoldable pub add_all : List PeerInfo → List (String × Bool) → List (String × Bool)
add_all [] m = m
add_all (p ∷ ps) m = add_all ps (insert p.id true m)

module _ {R : Type 0} where
  abbrev pub tell : Client → PeerEvent → List (Notice R)
  tell c e = if c.has_peer_handler then peers_changed e ∷ [] else []

  unfoldable pub handle_peer_event : Client → Transport.PeerEvent → Client × List (Notice R)
  handle_peer_event c e =
      if e.type == "joined"
      then (
        record c { peers = insert e.peer.id true c.peers },
        tell c (record { type = "joined"; peer_id = e.peer.id; peers = [] }),
      )
      else if e.type == "left"
      then (
        record c { peers = erase e.peer.id c.peers },
        tell c (record { type = "left"; peer_id = e.peer.id; peers = [] }),
      )
      else if e.type == "list"
      then (
        record c { peers = add_all e.peers c.peers },
        tell c (record { type = "list"; peer_id = ""; peers = map (λ p. p.id) e.peers }),
      )
      else (c, [])

  -- Data that is no signal is passed on raw, under the type of the message.
  abbrev pub signal_of : Codec R (Signal R) → Transport.Message R → Signal R
  signal_of codec msg = elim (codec.unmarshal msg.payload) [
    | ok sig ↦ record sig { from = msg.from }
    | err e ↦ record {
      signal_type = msg.type;
      payload = msg.payload;
      timestamp = 0;
      from = msg.from;
      to = "";
    }
  ]

  unfoldable pub handle_transport_message :
      Codec R (Signal R) → Client → Transport.Message R → List (Notice R)
  handle_transport_message codec c msg =
      if c.has_handler then signalled msg.from (signal_of codec msg) ∷ [] else []

  -- The handlers that `Connect` gives to the transport.
  unfoldable pub dispatch : Codec R (Signal R) → Client → List (Call R) → Client × List (Notice R)
  dispatch codec c [] = (c, [])
  dispatch codec c (to_handler msg ∷ calls) =
      let (c', ns) = dispatch codec c calls in (c', handle_transport_message codec c msg ++ ns)
  dispatch codec c (to_peer_handler e ∷ calls) =
      let (c', ns) = handle_peer_event c e in
      let (c'', ns') = dispatch codec c' calls in (c'', ns ++ ns')

  -- A message from the server goes through the transport to the client.
  unfoldable pub receive :
      Unmarshaler R → Codec R (Signal R) → Client → Transport.Message R → Client × List (Notice R)
  receive dec codec c msg =
      let (t, calls) = Transport.handle_message dec c.transport msg in
      dispatch codec (record c { transport = t }) calls

-- The client that `Connect` makes: both handlers of the transport are its own.
unfoldable pub connect : Client
connect = record {
  transport =
      record (Transport.set_peer_handler (Transport.set_handler Transport.new_web_socket_client)) {
        connected = true;
      };
  has_handler = false;
  has_peer_handler = false;
  peers = [];
}

pub record IceCandidateMsg (R : Type 0) : Type 0 where
  pub type : String
  pub candidate : R

-- The senders: each makes a signal of its argument and hands it to the transport. The two readings of
-- the clock are the signal's and the envelope's.
module _ {R B : Type 0} (signals : Codec R (Signal R)) (frames : Codec R (Transport.Message R))
    (write : R → Result B) where
  unfoldable pub send_offer :
      Codec R SessionDescription → Client → String → SessionDescription → ℕ → ℕ → Result B
  send_offer codec c to offer now₁ now₂ = do
    sig ← wrap "convert offer to signal" (session_to_signal codec offer now₁)
    Transport.send frames write signals.marshal c.transport to sig now₂

  unfoldable pub send_answer :
      Codec R SessionDescription → Client → String → SessionDescription → ℕ → ℕ → Result B
  send_answer codec c to answer now₁ now₂ = do
    sig ← wrap "convert answer to signal" (session_to_signal codec answer now₁)
    Transport.send frames write signals.marshal c.transport to sig now₂

  unfoldable pub send_ice_candidate :
      Codec R IceCandidate → Client → String → IceCandidate → ℕ → ℕ → Result B
  send_ice_candidate codec c to candidate now₁ now₂ = do
    sig ← wrap "convert candidate to signal" (candidate_to_signal codec candidate now₁)
    Transport.send frames write signals.marshal c.transport to sig now₂

  -- The candidate's document stands in a message of its own, and that one in the signal.
  unfoldable pub send_ice_candidate_json :
      Codec R Candidate
      → Codec R (IceCandidateMsg R)
      → Client
      → String
      → Candidate
      → ℕ
      → ℕ
      → Result B
  send_ice_candidate_json candidates messages c to candidate now₁ now₂ = do
    document ← wrap "marshal candidate" (candidates.marshal candidate)
    payload ←
        wrap "marshal ice msg"
          (messages.marshal (record { type = "ice-candidate"; candidate = document }))
    Transport.send frames write signals.marshal c.transport to (envelope type_ice payload now₁) now₂
