-- ===== src/PeerView/Loss.antt =====
-- Where a client falls out of step: an announcement that the hub drops.
use p_and_pp.Base.{ℕ, ◌≤◌, ◌≡◌, ◌≢◌, ◌∙◌, eq_refl, eq_false, true, false, some, arith, length, done}
use p_and_pp.GoMap.{lookup, erase, has, has-erase, has_of_lookup}
use p_and_pp.Signaling.Hub.{Peer, Hub, left_message, handle_unregister}
use p_and_pp.Signaling.Hub.Delivery.{reached}
use p_and_pp.Signaling.Hub.Invariant.{IsValid, after, send-ne}
use p_and_pp.Signaling.Hub.Handlers.{removed, handle_unregister_lem}
use p_and_pp.Client.{Client}
use p_and_pp.PeerView.{Wire, receive_all}
use p_and_pp.PeerView.Sync.{InSync}

module _ {R : Type 0} (w : Wire R) (p : Peer) where
  -- A departure that finds the buffer of `p` full is dropped: when the client of `p` has read all that
  -- waits for it, it still lists the peer that left, which the hub no longer has.
  pub departure_dropped :
      (h : Hub R) (q : Peer) (c : Client) (t : ℕ)
      → IsValid h
      → InSync w h p c
      → lookup q.id h.peers ≡ some q
      → q.id ≢ p.id
      → (h.chans p.send).capacity ≤ length (h.chans p.send).buffer
      → (h' : Hub R) × (handle_unregister w.marshaler h q t ≡ done h')
        × (has q.id h'.peers ≡ false)
        × (has q.id (receive_all w c (h'.chans p.send).buffer).peers ≡ true)
  departure_dropped h q c t v s there other full =
      (gone, handle_unregister_lem w.marshaler h q t v there, absent, rw same still)
    where
      gone : Hub R
      gone =
          after (removed h q) (λ r. reached r (erase q.id h.peers)) (left_message w.marshaler q t)

      absent : has q.id gone.peers ≡ false
      absent = has-erase q.id q.id h.peers v.keyed ∙ rw (eq_refl q.id)

      apart : q.send ≢ p.send
      apart = send-ne h q.id p.id q p v there s.here other

      same : (gone.chans p.send).buffer ≡ (h.chans p.send).buffer
      same = ground (arith, apart, full)

      still : has q.id (receive_all w c (h.chans p.send).buffer).peers ≡ true
      still = s.knows q.id ∙ rw (has_of_lookup q.id h.peers there, eq_false q.id p.id other)
