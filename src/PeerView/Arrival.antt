-- ===== src/PeerView/Arrival.antt =====
-- A client stays in step with the hub when a peer arrives: another one, or its own.
use p_and_pp.Base.{
  ℕ, ◌<◌, ◌≡◌, ◌≢◌, refl, sym, ap, ◌∙◌, subst, eq_iff, eq_false, true, [], ◌∷◌, ◌++◌, some, arith,
  eq_refl, nat_eq, length,
}
use p_and_pp.GoMap.{lookup, insert, has, has-insert, has_of_lookup, lookup-insert, All-lookup}
use p_and_pp.Channel.{Chan}
use p_and_pp.Signaling.Message
use p_and_pp.Signaling.Message.{Marshaler}
use p_and_pp.Signaling.Hub.{Peer, Hub, Channels, registered_message, list_message, joined_message}
use p_and_pp.Signaling.Hub.Delivery.{reached_except}
use p_and_pp.Signaling.Hub.Invariant.{IsNew, after}
use p_and_pp.Signaling.Hub.Handlers.{entered, welcomed, registered}
use p_and_pp.Client.{Client}
use p_and_pp.PeerView.{Wire, IsFaithful, transmit, receive_all}
use p_and_pp.PeerView.Receive.{
  IsReady, transmit-IsReady, transmit_quiet, transmit_list, transmit_joined, has-add_all-others,
  registered_message-IsQuiet,
}
use p_and_pp.PeerView.Sync.{
  reached_except-lookup, reached_except-insert, self_eq, spread_off, spread_hit, spread_miss, Knows,
  InSync, receive_all-IsReady, receive_all-Keyed, extend,
}

module _ {R : Type 0} (w : Wire R) where
  module _ (f : IsFaithful w) where
    -- Another peer arrives.
    pub registered-InSync :
        (h : Hub R) (p q : Peer) (c : Client) (t₁ t₂ t₃ : ℕ)
        → InSync w h p c
        → IsNew h q
        → length (h.chans p.send).buffer < (h.chans p.send).capacity
        → InSync w (registered w.marshaler h q t₁ t₂ t₃) p c
    registered-InSync h p q c t₁ t₂ t₃ s n room =
        extend w f h (registered w.marshaler h q t₁ t₂ t₃) p c (joined_message w.marshaler q t₃) s
          found buffer known
      where
        strange : p.id ≢ q.id
        strange e =
            let there : has q.id h.peers ≡ true =
              subst (λ k. has k h.peers ≡ true) e (has_of_lookup p.id h.peers s.here) in
            cc (there, n.unknown)

        apart : q.send ≢ p.send
        apart e = All-lookup (λ e. e.1.send ≢ q.send) p.id h.peers p n.unused s.here (sym e)

        found : lookup p.id (insert q.id q h.peers) ≡ some p
        found =
            lookup-insert q.id p.id q h.peers
            ∙ rw (eq_false q.id p.id (λ e. strange (sym e))) s.here

        own : (welcomed w.marshaler h q t₁ t₂).chans p.send ≡ h.chans p.send
        own =
            spread_miss q.send (list_message w.marshaler q (insert q.id q h.peers) t₂)
              (after (entered h q) (nat_eq q.send) (registered_message w.marshaler q t₁)).chans
              p.send apart
            ∙ spread_miss q.send (registered_message w.marshaler q t₁) h.chans p.send apart

        buffer :
            ((registered w.marshaler h q t₁ t₂ t₃).chans p.send).buffer
            ≡ (h.chans p.send).buffer ++ joined_message w.marshaler q t₃ ∷ []
        buffer =
            spread_hit (λ r. reached_except q.id r (insert q.id q h.peers))
              (joined_message w.marshaler q t₃) (welcomed w.marshaler h q t₁ t₂).chans p.send
              (reached_except-lookup q.id p.id (insert q.id q h.peers) p strange found)
              (rw own room)
            ∙ rw own

        known :
            Knows w (insert q.id q h.peers) p.id (
              transmit w
                (receive_all w c (h.chans p.send).buffer)
                (joined_message w.marshaler q t₃))
        known j =
            rw
              (
                transmit_joined w f (receive_all w c (h.chans p.send).buffer) q t₃ s.ready,
                has-insert q.id j true (receive_all w c (h.chans p.send).buffer).peers,
                has-insert q.id j q h.peers,
                s.knows j,
              )
              (ground (arith, strange, eq_iff q.id j, eq_iff j p.id))

    -- The peer itself arrives, with a client that knows nobody.
    pub registered-self-InSync :
        (h : Hub R) (p : Peer) (c : Client) (t₁ t₂ t₃ : ℕ)
        → IsNew h p
        → (h.chans p.send).buffer ≡ []
        → IsReady c
        → c.peers ≡ []
        → InSync w (registered w.marshaler h p t₁ t₂ t₃) p c
    unfolding has receive_all
    registered-self-InSync h p c t₁ t₂ t₃ n empty r fresh = record {
      here = lookup-insert p.id p.id p h.peers ∙ rw (eq_refl p.id);
      ready =
          receive_all-IsReady w f c ((registered w.marshaler h p t₁ t₂ t₃).chans p.send).buffer r;
      keyed =
          receive_all-Keyed w f c ((registered w.marshaler h p t₁ t₂ t₃).chans p.send).buffer r
            (rw fresh tt);
      knows = λ j. rw (buffer, receive_all) (known j);
    }
      where
        first : Message.Message R
        first = registered_message w.marshaler p t₁

        second : Message.Message R
        second = list_message w.marshaler p (insert p.id p h.peers) t₂

        one : Channels R
        one = (after (entered h p) (nat_eq p.send) first).chans

        one_buffer : (one p.send).buffer ≡ first ∷ []
        one_buffer =
            spread_hit (nat_eq p.send) first h.chans p.send (self_eq p.send) (omega (arith, n.room))
            ∙ rw empty

        one_room : length (one p.send).buffer < (one p.send).capacity
        one_room = rw one_buffer (ground (arith, n.room, self_eq p.send))

        buffer : ((registered w.marshaler h p t₁ t₂ t₃).chans p.send).buffer ≡ first ∷ second ∷ []
        buffer =
            ap (λ (d : Chan (Message.Message R)). d.buffer)
              (spread_off (λ q. reached_except p.id q (insert p.id p h.peers))
                (joined_message w.marshaler p t₃) (welcomed w.marshaler h p t₁ t₂).chans p.send
                (reached_except-insert p.id p h.peers n.unknown n.unused))
            ∙ (spread_hit (nat_eq p.send) second one p.send (self_eq p.send) one_room
                ∙ rw one_buffer)

        greeted : Client
        greeted = transmit w c first

        known : Knows w (insert p.id p h.peers) p.id (transmit w greeted second)
        known j =
            rw
              (
                transmit_list w f greeted p (insert p.id p h.peers) t₂
                    (transmit-IsReady w f c first r),
                has-add_all-others p.id j (insert p.id p h.peers) greeted.peers,
                transmit_quiet w f c first r (registered_message-IsQuiet w p t₁),
                fresh,
              )
              refl
