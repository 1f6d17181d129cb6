-- ===== src/PeerView/Forgery.antt =====
-- The server sets the sender of a client's message and leaves its type: an announcement that a client
-- makes up reaches the other clients like the hub's own.
use p_and_pp.Base.{
  ℕ, ◌<◌, ◌≡◌, ◌≢◌, refl, ap, ◌∙◌, sym, eq_refl, true, false, [], ◌∷◌, ◌++◌, some, arith, nat_eq,
  length, done,
}
use p_and_pp.Base.Results.{Result, ok}
use p_and_pp.GoMap.{lookup, erase, has, has-erase, has_of_lookup}
use p_and_pp.Signaling.Message
use p_and_pp.Signaling.Hub.{Peer, Hub, handle_broadcast}
use p_and_pp.Signaling.Hub.Invariant.{IsValid, after}
use p_and_pp.Signaling.Hub.Routing.{handle_broadcast_found}
use p_and_pp.Server
use p_and_pp.Transport
use p_and_pp.Client.{Client}
use p_and_pp.PeerView.{Wire, IsFaithful, transmit, receive_all}
use p_and_pp.PeerView.Receive.{transmit_departure}
use p_and_pp.PeerView.Sync.{InSync, receive_all-append}

module _ {R : Type 0} (w : Wire R) (decode : R → Result (Message.Message R)) (p : Peer) where
  -- With a faithful encoding, a valid hub and a client of `p` that agrees with it, let any peer `a` send
  -- `p`, whose buffer has room, a message of the type peer_left that names another registered peer `q`.
  -- The server passes it on, `q` stays registered, and the client of `p`, once it has read all that
  -- waits for it, no longer lists `q`.
  pub forged_departure :
      (h : Hub R) (a q : Peer) (c : Client) (frame : R) (msg : Message.Message R)
      (x : Transport.PeerInfo) (t₁ t₂ : ℕ)
      → IsFaithful w
      → IsValid h
      → InSync w h p c
      → lookup q.id h.peers ≡ some q
      → p.id ≢ ""
      → length (h.chans p.send).buffer < (h.chans p.send).capacity
      → decode frame ≡ ok msg
      → msg.type ≡ Message.peer_left
      → msg.to ≡ p.id
      → w.unmarshaler.peer msg.payload ≡ ok x
      → x.id ≡ q.id
      → (m : Message.Message R) × (h' : Hub R) × (Server.read_frame decode a frame t₁ ≡ some m)
        × (handle_broadcast w.marshaler h m t₂ ≡ done h')
        × (has q.id h'.peers ≡ true)
        × (has q.id (receive_all w c (h'.chans p.send).buffer).peers ≡ false)
  unfolding Server.read_frame
  forged_departure h a q c frame msg x t₁ t₂ f v s there named room d type to e same = (
    m,
    h',
    rw (Server.read_frame, d) refl,
    handle_broadcast_found w.marshaler h m p t₂ v (λ z. named (sym to ∙ z)) (rw to s.here),
    has_of_lookup q.id h.peers there,
    rw (read, gone) (has-erase q.id q.id _ s.keyed ∙ rw (eq_refl q.id)),
  )
    where
      m : Message.Message R
      m = record msg { from = a.id; timestamp = t₁ }

      h' : Hub R
      h' = after h (nat_eq p.send) m

      read :
          receive_all w c (h'.chans p.send).buffer
          ≡ transmit w (receive_all w c (h.chans p.send).buffer) m
      read = ap (receive_all w c) last ∙ receive_all-append w c (h.chans p.send).buffer m
        where
          last : (h'.chans p.send).buffer ≡ (h.chans p.send).buffer ++ m ∷ []
          last = ground (arith, room)

      gone :
          (transmit w (receive_all w c (h.chans p.send).buffer) m).peers
          ≡ erase q.id (receive_all w c (h.chans p.send).buffer).peers
      gone = transmit_departure w f _ m x s.ready type e ∙ rw same
