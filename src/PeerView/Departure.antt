-- ===== src/PeerView/Departure.antt =====
-- A client stays in step with the hub when a peer leaves, and when a message is routed.
use p_and_pp.Base.{
  ℕ, ◌<◌, ◌≡◌, ◌≢◌, refl, sym, ◌∙◌, eq_iff, eq_false, Bool, false, [], ◌∷◌, ◌++◌, some, arith,
  length, inl, inr,
}
use p_and_pp.GoMap.{lookup, erase, has, has-erase, lookup-erase, All-lookup}
use p_and_pp.Signaling.Message
use p_and_pp.Signaling.Message.{Marshaler}
use p_and_pp.Signaling.Hub.{Peer, Hub, left_message}
use p_and_pp.Signaling.Hub.Delivery.{reached}
use p_and_pp.Signaling.Hub.Invariant.{IsValid, after, Unused-erase}
use p_and_pp.Signaling.Hub.Handlers.{removed}
use p_and_pp.Client.{Client}
use p_and_pp.PeerView.{Wire, IsFaithful, transmit, receive_all}
use p_and_pp.PeerView.Receive.{IsQuiet, transmit_quiet, transmit_left}
use p_and_pp.PeerView.Sync.{
  reached-lookup, spread_hit, spread_buffer, Knows, InSync, extend, unchanged,
}

module _ {R : Type 0} (w : Wire R) where
  module _ (f : IsFaithful w) where
    -- Another peer leaves.
    pub removed-InSync :
        (h : Hub R) (p q : Peer) (c : Client) (t : ℕ)
        → IsValid h
        → InSync w h p c
        → lookup q.id h.peers ≡ some q
        → q.id ≢ p.id
        → length (h.chans p.send).buffer < (h.chans p.send).capacity
        → InSync w
            (after
              (removed h q)
              (λ r. reached r (erase q.id h.peers))
              (left_message w.marshaler q t))
            p
            c
    removed-InSync h p q c t v s there other room =
        extend w f h
          (after (removed h q) (λ r. reached r (erase q.id h.peers)) (left_message w.marshaler q t))
          p c (left_message w.marshaler q t) s found buffer known
      where
        found : lookup p.id (erase q.id h.peers) ≡ some p
        found = lookup-erase q.id p.id h.peers v.keyed ∙ rw (eq_false q.id p.id other) s.here

        apart : q.send ≢ p.send
        apart e =
            All-lookup (λ e. e.1.send ≢ q.send) p.id (erase q.id h.peers) p
              (Unused-erase q.id h.peers q v.apart there) found (sym e)

        own : (removed h q).chans p.send ≡ h.chans p.send
        own = ground (arith, apart)

        buffer :
            ((after
                (removed h q)
                (λ r. reached r (erase q.id h.peers))
                (left_message w.marshaler q t)).chans
              p.send).buffer
            ≡ (h.chans p.send).buffer ++ left_message w.marshaler q t ∷ []
        buffer =
            spread_hit (λ r. reached r (erase q.id h.peers)) (left_message w.marshaler q t)
              (removed h q).chans p.send (reached-lookup p.id (erase q.id h.peers) p found)
              (rw own room)
            ∙ rw own

        known :
            Knows w
              (erase q.id h.peers)
              p.id
              (transmit w (receive_all w c (h.chans p.send).buffer) (left_message w.marshaler q t))
        known j =
            rw
              (
                transmit_left w f (receive_all w c (h.chans p.send).buffer) q t s.ready,
                has-erase q.id j (receive_all w c (h.chans p.send).buffer).peers s.keyed,
                has-erase q.id j h.peers v.keyed,
                s.knows j,
              )
              (ground arith)

    -- A peer that is not registered is announced as gone.
    pub unknown-InSync :
        (h : Hub R) (p q : Peer) (c : Client) (t : ℕ)
        → InSync w h p c
        → has q.id h.peers ≡ false
        → length (h.chans p.send).buffer < (h.chans p.send).capacity
        → InSync w (after h (λ r. reached r h.peers) (left_message w.marshaler q t)) p c
    unknown-InSync h p q c t s none_there room =
        extend w f h (after h (λ r. reached r h.peers) (left_message w.marshaler q t)) p c
          (left_message w.marshaler q t) s s.here
          (spread_hit (λ r. reached r h.peers) (left_message w.marshaler q t) h.chans p.send
            (reached-lookup p.id h.peers p s.here) room)
          known
      where
        known :
            Knows w h.peers p.id
              (transmit w (receive_all w c (h.chans p.send).buffer) (left_message w.marshaler q t))
        known j =
            rw
              (
                transmit_left w f (receive_all w c (h.chans p.send).buffer) q t s.ready,
                has-erase q.id j (receive_all w c (h.chans p.send).buffer).peers s.keyed,
                s.knows j,
              )
              (ground (arith, eq_iff q.id j))

    -- A message that says nothing of peers.
    pub quiet-InSync :
        (h : Hub R) (p : Peer) (c : Client) (hit : ℕ → Bool) (m : Message.Message R)
        → InSync w h p c
        → IsQuiet m
        → InSync w (after h hit m) p c
    quiet-InSync h p c hit m s quiet = elim (spread_buffer hit m h.chans p.send) [
      | inl more ↦ extend w f h (after h hit m) p c m s s.here more (λ j.
          rw (transmit_quiet w f (receive_all w c (h.chans p.send).buffer) m s.ready quiet)
            (s.knows j))
      | inr same ↦ unchanged w f h (after h hit m) p c s refl same
    ]
