-- ===== src/Transport.antt =====
-- pkg/p2p/transport/websocket.go: the client's end of the WebSocket. A document of encoding/json is
-- an R, and writing a frame to the socket is a parameter. A handler that is called is an entry of the
-- list that the function returns; whether one is set is a field.
pub mod Life
pub mod Closing
pub mod Dial
use p_and_pp.Base.{ℕ, String, ◌==◌, Bool, true, false, List, [], ◌∷◌, if◌then◌else◌}
use p_and_pp.Base.Results.{Result, ok, err, ◌>>=◌, wrap, Codec}

pub record Message (R : Type 0) : Type 0 where
  pub type : String
  pub from : String
  pub to : String
  pub payload : R
  pub timestamp : ℕ

pub record PeerInfo : Type 0 where
  pub id : String
  pub joined_at : ℕ

abbrev pub msg_peer_registered : String
msg_peer_registered = "peer_registered"

abbrev pub msg_peer_list : String
msg_peer_list = "peer_list"

abbrev pub msg_peer_joined : String
msg_peer_joined = "peer_joined"

abbrev pub msg_peer_left : String
msg_peer_left = "peer_left"

abbrev pub msg_signal : String
msg_signal = "signal"

abbrev pub msg_error : String
msg_error = "error"

pub record PeerEvent : Type 0 where
  pub type : String
  pub peer : PeerInfo
  pub peers : List PeerInfo
  pub my_id : String

-- What `handleMessage` decodes the data of a message to.
pub record Unmarshaler (R : Type 0) : Type 0 where
  pub peer_id : R → Result String
  pub peers : R → Result (List PeerInfo)
  pub peer : R → Result PeerInfo
  pub error : R → Result (String × String)

pub record WebSocketClient : Type 0 where
  pub connected : Bool
  pub my_id : String
  pub has_handler : Bool
  pub has_peer_handler : Bool

unfoldable pub new_web_socket_client : WebSocketClient
new_web_socket_client = record {
  connected = false;
  my_id = "";
  has_handler = false;
  has_peer_handler = false;
}

unfoldable pub set_handler : WebSocketClient → WebSocketClient
set_handler c = record c { has_handler = true }

unfoldable pub set_peer_handler : WebSocketClient → WebSocketClient
set_peer_handler c = record c { has_peer_handler = true }

-- A call of one of the two handlers.
pub data Call (R : Type 0) : Type 0 where
  to_handler : Message R → Call R
  to_peer_handler : PeerEvent → Call R

abbrev no_peer : PeerInfo
no_peer = record { id = ""; joined_at = 0 }

abbrev pub registered_event : String → PeerEvent
registered_event me = record { type = "registered"; peer = no_peer; peers = []; my_id = me }

abbrev pub list_event : List PeerInfo → PeerEvent
list_event ps = record { type = "list"; peer = no_peer; peers = ps; my_id = "" }

abbrev pub joined_event : PeerInfo → PeerEvent
joined_event p = record { type = "joined"; peer = p; peers = []; my_id = "" }

abbrev pub left_event : PeerInfo → PeerEvent
left_event p = record { type = "left"; peer = p; peers = []; my_id = "" }

module _ {R : Type 0} where
  -- `if c.peerHandler != nil { c.peerHandler(event) }`
  abbrev pub notify : WebSocketClient → PeerEvent → List (Call R)
  notify c e = if c.has_peer_handler then to_peer_handler e ∷ [] else []

  abbrev pub on_registered : WebSocketClient → Result String → WebSocketClient × List (Call R)
  on_registered c (ok me) = (record c { my_id = me }, notify c (registered_event me))
  on_registered c (err e) = (c, [])

  abbrev pub on_list : WebSocketClient → Result (List PeerInfo) → WebSocketClient × List (Call R)
  on_list c (ok ps) = (c, notify c (list_event ps))
  on_list c (err e) = (c, [])

  abbrev pub on_joined : WebSocketClient → Result PeerInfo → WebSocketClient × List (Call R)
  on_joined c (ok p) = (c, notify c (joined_event p))
  on_joined c (err e) = (c, [])

  abbrev pub on_left : WebSocketClient → Result PeerInfo → WebSocketClient × List (Call R)
  on_left c (ok p) = (c, notify c (left_event p))
  on_left c (err e) = (c, [])

  -- The switch of `handleMessage`. An error message is logged, and so is one of an unknown type.
  unfoldable pub handle_message :
      Unmarshaler R → WebSocketClient → Message R → WebSocketClient × List (Call R)
  handle_message dec c msg =
      if msg.type == msg_peer_registered
      then on_registered c (dec.peer_id msg.payload)
      else if msg.type == msg_peer_list
      then on_list c (dec.peers msg.payload)
      else if msg.type == msg_peer_joined
      then on_joined c (dec.peer msg.payload)
      else if msg.type == msg_peer_left
      then on_left c (dec.peer msg.payload)
      else if msg.type == msg_signal
      then (c, (if c.has_handler then to_handler msg ∷ [] else []))
      else (c, [])

-- What a write to the socket returns is a B, the unit in the source.
module _ {R B : Type 0} (codec : Codec R (Message R)) (write : R → Result B) where
  unfoldable pub send_message : WebSocketClient → Message R → Result B
  send_message c msg =
      if c.connected
      then (do frame ← wrap "marshal message" (codec.marshal msg); write frame)
      else err "not connected"

  -- `Send`: the envelope names the target; the server fills in the sender.
  unfoldable pub send : {A : Type 0} → (A → Result R) → WebSocketClient → String → A → ℕ → Result B
  send marshal c to x now = do
    payload ← wrap "marshal data" (marshal x)
    send_message c
        (record { type = msg_signal; from = ""; to = to; payload = payload; timestamp = now })

  unfoldable pub broadcast : {A : Type 0} → (A → Result R) → WebSocketClient → A → ℕ → Result B
  broadcast marshal c x now = do
    payload ← wrap "marshal data" (marshal x)
    send_message c
        (record { type = msg_signal; from = ""; to = ""; payload = payload; timestamp = now })
