-- ===== src/Signaling/Hub.antt =====
-- internal/signaling/hub.go. The channels stand on a store, since a peer's `Send` is shared with its
-- write pump; a handler is a function of the hub, run to its end, as the one goroutine of `Run` runs
-- it. Each `time.Now().Unix()` is an argument of its own. The locks and the log lines are left out.
pub mod Delivery
pub mod Order
pub mod Invariant
pub mod Handlers
pub mod Routing
pub mod Safety
pub mod Drain
pub mod Resume
pub mod Elsewhere
use p_and_pp.Base.{
  ℕ, ◌≡◌, String, ◌==◌, Bool, true, false, List, [], ◌∷◌, ◌++◌, Option, none, some, if◌then◌else◌,
  Outcome, done, blocked, panicked, ◌>>=◌,
}
use p_and_pp.GoMap.{lookup, insert, erase, has}
use p_and_pp.Channel.{Chan, send, offer, close}
use p_and_pp.Signaling.Message
use p_and_pp.Signaling.Message.{Message, PeerInfo, Marshaler}

pub record Peer : Type 0 where
  pub id : String
  pub send : ℕ
  pub joined_at : ℕ

abbrev pub Channels : Type 0 → Type 0
Channels R = ℕ → Chan (Message R)

pub record Hub (R : Type 0) : Type 0 where
  pub peers : List (String × Peer)
  pub chans : Channels R

module _ {R : Type 0} where
  -- The loop of `broadcastToAll`, over the map's entries in the order of the visit.
  unfoldable pub deliver_all : List (String × Peer) → Message R → Channels R → Outcome (Channels R)
  deliver_all [] msg c = done c
  deliver_all ((id, p) ∷ ps) msg c = do c' ← offer p.send msg c; deliver_all ps msg c'

  -- The loop of `broadcastToOthers`.
  unfoldable pub deliver_others :
      String → List (String × Peer) → Message R → Channels R → Outcome (Channels R)
  deliver_others ex [] msg c = done c
  deliver_others ex ((id, p) ∷ ps) msg c = do
    c' ← if id == ex then done c else offer p.send msg c
    deliver_others ex ps msg c'

  unfoldable pub broadcast_to_all : Message R → Hub R → Outcome (Hub R)
  broadcast_to_all msg h = do c ← deliver_all h.peers msg h.chans; done (record h { chans = c })

  unfoldable pub broadcast_to_others : Message R → String → Hub R → Outcome (Hub R)
  broadcast_to_others msg ex h = do
    c ← deliver_others ex h.peers msg h.chans
    done (record h { chans = c })

  -- `peer.Send <- msg`, outside a select.
  unfoldable pub send_to : ℕ → Message R → Hub R → Outcome (Hub R)
  send_to r msg h = do c ← send r msg h.chans; done (record h { chans = c })

-- `NewHub`; the channels of the peers to come are those of the store.
unfoldable pub new_hub : {R : Type 0} → Channels R → Hub R
new_hub c = record { peers = []; chans = c }

-- The loop of `sendPeerList`: every registered peer but the one that asks.
unfoldable pub others : String → List (String × Peer) → List PeerInfo
others me [] = []
others me ((id, p) ∷ ps) =
    let rest = others me ps in
    if id == me then rest else record { id = id; joined_at = p.joined_at } ∷ rest

module _ {R : Type 0} (json : Marshaler R) where
  -- `mustMarshal`: an error gives `{}`.
  unfoldable pub must : Option R → R
  must none = json.empty_object
  must (some r) = r

  -- A message of the hub itself: no sender is set.
  unfoldable pub hub_message : String → String → Option R → ℕ → Message R
  unfolding must
  hub_message type to doc now = record {
    type = type;
    from = "";
    to = to;
    payload = must doc;
    timestamp = now;
  }

  unfoldable pub registered_message : Peer → ℕ → Message R
  registered_message peer now =
      hub_message Message.peer_registered "" (json.registered (record { peer_id = peer.id })) now

  unfoldable pub list_message : Peer → List (String × Peer) → ℕ → Message R
  list_message peer ps now =
      hub_message Message.peer_list "" (json.list (record { peers = others peer.id ps })) now

  unfoldable pub joined_message : Peer → ℕ → Message R
  joined_message peer now =
      hub_message Message.peer_joined ""
        (json.joined_left (record { peer = record { id = peer.id; joined_at = peer.joined_at } }))
        now

  -- `PeerInfo{ID: peer.ID}` leaves the time of joining at zero.
  unfoldable pub left_message : Peer → ℕ → Message R
  left_message peer now =
      hub_message Message.peer_left ""
        (json.joined_left (record { peer = record { id = peer.id; joined_at = 0 } })) now

  unfoldable pub not_found_message : Message R → ℕ → Message R
  not_found_message msg now =
      hub_message Message.error msg.from
        (json.error
          (record { message = Message.target_peer_not_found msg.to; code = "PEER_NOT_FOUND" }))
        now

  unfoldable pub send_peer_list : Peer → ℕ → Hub R → Outcome (Hub R)
  send_peer_list peer now h = send_to peer.send (list_message peer h.peers now) h

  unfoldable pub handle_register : Hub R → Peer → ℕ → ℕ → ℕ → Outcome (Hub R)
  unfolding send_peer_list
  handle_register h peer now₁ now₂ now₃ = do
    let h₀ = record h { peers = insert peer.id peer h.peers }
    h₁ ← send_to peer.send (registered_message peer now₁) h₀
    h₂ ← send_peer_list peer now₂ h₁
    broadcast_to_others (joined_message peer now₃) peer.id h₂

  -- `delete` and `close`, where the peer's id is in the map.
  unfoldable pub remove_peer : Hub R → Peer → Outcome (Hub R)
  remove_peer h peer =
      if has peer.id h.peers
      then (do
        c ← close peer.send h.chans
        done (record { peers = erase peer.id h.peers; chans = c }))
      else done h

  unfoldable pub handle_unregister : Hub R → Peer → ℕ → Outcome (Hub R)
  handle_unregister h peer now = do
    h₁ ← remove_peer h peer
    broadcast_to_all (left_message peer now) h₁

  -- The branch of `handleBroadcast` for a target that is not in the map.
  unfoldable pub reject : Hub R → Message R → ℕ → Outcome (Hub R)
  reject h msg now = elim (lookup msg.from h.peers) [
    | some sender ↦ send_to sender.send (not_found_message msg now) h
    | none ↦ done h
  ]

  -- The branch for a message with a target.
  unfoldable pub unicast : Hub R → Message R → ℕ → Outcome (Hub R)
  unfolding reject
  unicast h msg now = elim (lookup msg.to h.peers) [
    | some target ↦ do c ← offer target.send msg h.chans; done (record h { chans = c })
    | none ↦ reject h msg now
  ]

  unfoldable pub handle_broadcast : Hub R → Message R → ℕ → Outcome (Hub R)
  unfolding unicast
  handle_broadcast h msg now = if msg.to == "" then broadcast_to_all msg h else unicast h msg now

-- What the three channels of the hub bring to `Run`, with the clock's readings.
pub data Event (R : Type 0) : Type 0 where
  register : Peer → ℕ → ℕ → ℕ → Event R
  unregister : Peer → ℕ → Event R
  broadcast : Message R → ℕ → Event R

module _ {R : Type 0} (json : Marshaler R) where
  -- One round of the loop of `Run`.
  unfoldable pub step : Hub R → Event R → Outcome (Hub R)
  step h (register p a b c) = handle_register json h p a b c
  step h (unregister p a) = handle_unregister json h p a
  step h (broadcast msg a) = handle_broadcast json h msg a

  unfoldable pub run : Hub R → List (Event R) → Outcome (Hub R)
  run h [] = done h
  run h (e ∷ es) = do h' ← step h e; run h' es
