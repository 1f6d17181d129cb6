-- ===== src/Tests/Views.antt =====
-- A client that joins the sample hub, and what it learns.
use p_and_pp.Base.{
  ℕ, List, ◌++◌, map, ◌⊎◌, ◌≡◌, refl, String, ◌==◌, [], ◌∷◌, true, false, ◌&&◌, not, arith, done,
  eq_iff,
}
use p_and_pp.GoMap.{lookup, has, insert}
use p_and_pp.Signaling.Message.{Message}
use p_and_pp.Signaling.Hub.{
  Hub, register, step, handle_register, handle_unregister, registered_message, list_message,
}
use p_and_pp.Signaling.Hub.Delivery.{reached, reached_except, accept}
use p_and_pp.Signaling.Hub.Drain.{taken}
use p_and_pp.Signaling.Hub.Invariant.{IsValid}
use p_and_pp.Signaling.Hub.Handlers.{registered, handle_register_lem}
use p_and_pp.Transport
use p_and_pp.Client.{Client, connect}
use p_and_pp.PeerView.{info, transmit, receive_all}
use p_and_pp.PeerView.Receive.{IsReady}
use p_and_pp.PeerView.Sync.{Knows, InSync}
use p_and_pp.PeerView.Reach.{View, Reach, here, next, deliver, client_agrees}
use p_and_pp.Base.Results.{ok}
use p_and_pp.Signaling.Message
use p_and_pp.Signaling.Room.{Lists}
use p_and_pp.Signaling.Room.Views.{view}
use p_and_pp.PeerView.Welcome.{Says, new_peer_told}
use p_and_pp.PeerView.Loss.{departure_dropped}
use p_and_pp.Tests.Samples.{
  Doc, write_docs, wire, wire-IsFaithful, alice, bob, carol, channel, pair, message,
}
use p_and_pp.Tests.Hubs.{pair-IsValid, carol-IsNew, alice_ne_bob, found_bob}

abbrev pub joined : Hub Doc
joined = registered write_docs pair carol 1 2 3

abbrev first : Message Doc
first = registered_message write_docs carol 1

abbrev second : Message Doc
second = list_message write_docs carol (insert "carol" carol pair.peers) 2

connect-IsReady : IsReady connect
unfolding connect Transport.set_peer_handler
connect-IsReady = refl

connect_peers : connect.peers ≡ []
unfolding connect
connect_peers = refl

pub joined-step : step write_docs pair (register carol 1 2 3) ≡ done joined
unfolding step
joined-step = handle_register_lem write_docs pair carol 1 2 3 pair-IsValid carol-IsNew

waiting : (joined.chans 2).buffer ≡ first ∷ second ∷ []
unfolding reached_except insert
waiting = refl

abbrev start : View Doc
start = record { hub = joined; client = connect }

abbrev greeted : View Doc
greeted = record { hub = taken joined 2 (second ∷ []); client = transmit wire connect first }

abbrev informed : View Doc
informed = record { hub = taken greeted.hub 2 []; client = transmit wire greeted.client second }

history : Reach wire carol start informed
history = next (next here (deliver waiting)) (deliver refl)

client_agrees_example : Knows wire informed.hub.peers "carol" informed.client
client_agrees_example =
    client_agrees wire carol wire-IsFaithful pair joined connect 1 2 3 informed pair-IsValid
      carol-IsNew refl connect-IsReady connect_peers joined-step history refl

abbrev note : Message Doc
note = message "signal" "bob" "alice"

-- Alice's buffer is full of signals.
abbrev crowded : Hub Doc
crowded = record pair { chans = λ r. channel (note ∷ note ∷ note ∷ note ∷ []) }

crowded-IsValid : IsValid crowded
crowded-IsValid = record {
  keyed = pair-IsValid.keyed;
  named = pair-IsValid.named;
  live = (refl, (refl, tt));
  apart = pair-IsValid.apart;
  bounded = λ r. omega arith;
}

abbrev pub knows_bob : Client
knows_bob = record connect { peers = ("bob", true) ∷ [] }

notes_read : receive_all wire knows_bob (crowded.chans 0).buffer ≡ knows_bob
unfolding receive_all transmit p_and_pp.PeerView.read_frame p_and_pp.Client.receive
    Transport.handle_message p_and_pp.Client.dispatch p_and_pp.Client.handle_transport_message
    connect Transport.set_peer_handler Transport.set_handler
notes_read = refl

pub alice_view : (j : String) → has j knows_bob.peers ≡ (has j pair.peers && not (j == "alice"))
unfolding has
alice_view j =
    ground (arith, eq_iff "bob" j, eq_iff "alice" j, eq_iff j "alice", eq_iff "alice" "bob")

alice-InSync : InSync wire crowded alice knows_bob
unfolding lookup connect Transport.set_peer_handler
alice-InSync = record {
  here = refl;
  ready = rw notes_read refl;
  keyed = rw notes_read (tt, tt);
  knows = λ j. rw notes_read (alice_view j);
}

departure_dropped_example :
    (h' : Hub Doc) × (handle_unregister write_docs crowded bob 5 ≡ done h')
    × (has "bob" h'.peers ≡ false)
    × (has "bob" (receive_all wire knows_bob (h'.chans 0).buffer).peers ≡ true)
departure_dropped_example =
    departure_dropped wire alice crowded bob knows_bob 5 crowded-IsValid alice-InSync found_bob
      alice_ne_bob (omega arith)

-- Carol registers, and bob is there.
new_peer_told_example :
    (h' : Hub Doc) × (m₁ m₂ m₃ : Message Doc) × (d₁ d₂ d₃ : Doc) × (xs : List Message.PeerInfo)
    × (handle_register write_docs pair carol 1 2 3 ≡ done h')
    × (h'.peers ≡ insert "carol" carol pair.peers)
    × ((h'.chans carol.send).buffer ≡ ((pair.chans carol.send).buffer ++ m₁ ∷ []) ++ m₂ ∷ [])
    × Says wire m₁ Message.peer_registered 1 d₁
    × (wire.unmarshaler.peer_id d₁ ≡ ok "carol")
    × Says wire m₂ Message.peer_list 2 d₂
    × (wire.unmarshaler.peers d₂ ≡ ok (map info xs))
    × Lists (view pair) "carol" xs
    × (h'.chans bob.send ≡ accept m₃ (pair.chans bob.send))
    × Says wire m₃ Message.peer_joined 3 d₃
    × (wire.unmarshaler.peer d₃ ≡ ok (record { id = "carol"; joined_at = carol.joined_at }))
    × ((r : ℕ) → (carol.send ≡ r) ⊎ ((reached r pair.peers ≡ true) ⊎ (h'.chans r ≡ pair.chans r)))
new_peer_told_example =
    new_peer_told wire pair carol bob "bob" 1 2 3 wire-IsFaithful pair-IsValid carol-IsNew found_bob
