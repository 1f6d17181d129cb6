-- ===== src/Server.antt =====
-- cmd/server/main.go: one WebSocket connection of the server. Reading and writing the socket is not
-- modelled; the frames that come in and go out are documents R of encoding/json.
pub mod Session
pub mod Ids
pub mod Pumps
pub mod World
pub mod Deadlines
pub mod Ticker
use p_and_pp.Base.{
  ℕ, ◌+◌, ◌-◌, ◌/◌, ◌%◌, String, ◌==◌, Bool, List, [], ◌∷◌, Option, none, some, if◌then◌else◌, ltb,
  nat_eq,
}
use p_and_pp.Base.Results.{Result, ok, err}
use p_and_pp.Channel.{Chan, make}
use p_and_pp.Signaling.Message.{Message}
use p_and_pp.Signaling.Hub.{Peer, Hub, Event, broadcast}

pub data Level : Type 0 where
  debug info warn error : Level

unfoldable pub parse_log_level : String → Level
parse_log_level level =
    if level == "debug"
    then debug
    else if level == "info"
    then info
    else if level == "warn"
    then warn
    else if level == "error"
    then error
    else info

-- `hex.EncodeToString`, as the codes of its letters.
unfoldable pub hex_digit : ℕ → ℕ
hex_digit n = if ltb n 10 then b'0' + n else b'a' + (n - 10)

unfoldable pub hex : List ℕ → List ℕ
hex [] = []
hex (b ∷ bs) = hex_digit (b / 16) ∷ hex_digit (b % 16) ∷ hex bs

-- `generatePeerID`, from the bytes that `rand.Read` gave.
unfoldable pub generate_peer_id : List ℕ → List ℕ
generate_peer_id b = hex b

module _ {R : Type 0} where
  -- What `handleWebSocket` makes for a connection: a peer, on a channel at an unused reference.
  unfoldable pub new_peer : Hub R → String → ℕ → ℕ → Peer × Hub R
  new_peer h id r now = (
    record { id = id; send = r; joined_at = now },
    record h { chans = λ q. if nat_eq r q then make 256 else h.chans q },
  )

  -- The round of `readPump` for one frame: the sender and the time are the server's own.
  unfoldable pub read_frame : (R → Result (Message R)) → Peer → R → ℕ → Option (Message R)
  read_frame decode peer frame now = elim (decode frame) [
    | ok msg ↦ some (record msg { from = peer.id; timestamp = now })
    | err e ↦ none
  ]

  -- The rounds of `readPump` over the frames of a connection, as events for the hub.
  unfoldable pub read_pump : (R → Result (Message R)) → Peer → List (R × ℕ) → List (Event R)
  read_pump decode peer [] = []
  read_pump decode peer ((frame, now) ∷ rest) = elim (read_frame decode peer frame now) [
    | some msg ↦ broadcast msg now ∷ read_pump decode peer rest
    | none ↦ read_pump decode peer rest
  ]

-- What `writePump` sends: text, or the close frame after which it returns.
pub data Frame (R : Type 0) : Type 0 where
  text : R → Frame R
  close_frame : Frame R

module _ {R : Type 0} where
  -- The rounds of `writePump` on what waits in the peer's channel, while every write succeeds: a message
  -- that does not marshal is skipped, and a closed channel is drained first.
  unfoldable pub write_pump : (Message R → Result R) → List (Message R) → Bool → List (Frame R)
  write_pump encode [] closed = if closed then close_frame ∷ [] else []
  write_pump encode (m ∷ ms) closed = elim (encode m) [
    | ok frame ↦ text frame ∷ write_pump encode ms closed
    | err e ↦ write_pump encode ms closed
  ]
