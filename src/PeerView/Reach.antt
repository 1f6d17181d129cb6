-- ===== src/PeerView/Reach.antt =====
-- Histories of the hub and one client: events at the hub, and write pumps that take messages off the
-- channels, in any interleaving.
use p_and_pp.Base.{ℕ, ◌<◌, ◌≡◌, ◌≢◌, refl, sym, subst, List, [], ◌∷◌, length, inl, inr, done}
use p_and_pp.GoMap.{erase}
use p_and_pp.Signaling.Message
use p_and_pp.Signaling.Hub.{
  Peer, Hub, Event, register, unregister, broadcast, step, left_message, not_found_message,
}
use p_and_pp.Signaling.Hub.Delivery.{reached}
use p_and_pp.Signaling.Hub.Invariant.{IsValid, IsNew, after}
use p_and_pp.Signaling.Hub.Handlers.{
  registered, removed, handle_register_lem, handle_unregister_lem, handle_unregister_unknown,
}
use p_and_pp.Signaling.Hub.Drain.{taken, taken-IsValid, taken_other}
use p_and_pp.Signaling.Hub.Routing.{broadcast-Effect}
use p_and_pp.Signaling.Hub.Safety.{Admissible, event-IsValid}
use p_and_pp.Client.{Client}
use p_and_pp.PeerView.{Wire, IsFaithful, transmit, receive_all}
use p_and_pp.PeerView.Receive.{IsQuiet, IsReady, not_found_message-IsQuiet}
use p_and_pp.PeerView.Sync.{Knows, InSync, self_eq, unchanged}
use p_and_pp.PeerView.Arrival.{registered-InSync, registered-self-InSync}
use p_and_pp.PeerView.Departure.{removed-InSync, unknown-InSync, quiet-InSync}

pub record View (R : Type 0) : Type 0 where
  pub hub : Hub R
  pub client : Client

module _ {R : Type 0} (w : Wire R) (p : Peer) where
  -- The channel of `p` can take one more message.
  abbrev pub HasRoom : Hub R → Type 0
  HasRoom h = length (h.chans p.send).buffer < (h.chans p.send).capacity

  -- Events that do not make the hub drop an announcement to `p`, do not take `p` out, and do not
  -- forge an announcement.
  abbrev pub Tame : Hub R → Event R → Type 0
  Tame h (register q a b c) = HasRoom h
  Tame h (unregister q a) = (q.id ≢ p.id) × HasRoom h
  Tame h (broadcast m a) = IsQuiet m

  pub data Move (v : View R) : View R → Type 0 where
    event :
        {h : Hub R} (e : Event R)
        → Admissible v.hub e
        → Tame v.hub e
        → step w.marshaler v.hub e ≡ done h
        → Move v (record v { hub = h })
    deliver :
        {m : Message.Message R} {ms : List (Message.Message R)}
        → (v.hub.chans p.send).buffer ≡ m ∷ ms
        → Move v (record { hub = taken v.hub p.send ms; client = transmit w v.client m })
    drain :
        (r : ℕ) {m : Message.Message R} {ms : List (Message.Message R)}
        → r ≢ p.send
        → (v.hub.chans r).buffer ≡ m ∷ ms
        → Move v (record v { hub = taken v.hub r ms })

  pub data Reach (v : View R) : View R → Type 0 where
    here : Reach v v
    next : {u t : View R} → Reach v u → Move u t → Reach v t

  -- Deliveries to `p` alone, one message after the other: no event at the hub, and no other channel is
  -- read.
  pub data Deliveries : View R → View R → Type 0 where
    none_left : {v : View R} → Deliveries v v
    delivered :
        {v u : View R} {m : Message.Message R} {ms : List (Message.Message R)}
        → (v.hub.chans p.send).buffer ≡ m ∷ ms
        → Deliveries (record { hub = taken v.hub p.send ms; client = transmit w v.client m }) u
        → Deliveries v u

  -- The hub is valid, and the client agrees with it on all that it has been sent.
  pub record Agrees (v : View R) : Type 0 where
    pub valid : IsValid v.hub
    pub sync : InSync w v.hub p v.client

  module _ (f : IsFaithful w) where
    event-InSync :
        (h h' : Hub R) (c : Client) (e : Event R)
        → IsValid h
        → Admissible h e
        → Tame h e
        → step w.marshaler h e ≡ done h'
        → InSync w h p c
        → InSync w h' p c
    unfolding step
    event-InSync h h' c (register q t₁ t₂ t₃) v n room e s =
        let r : registered w.marshaler h q t₁ t₂ t₃ ≡ h' =
          cc (e, handle_register_lem w.marshaler h q t₁ t₂ t₃ v n) in
        subst (λ g. InSync w g p c) r (registered-InSync w f h p q c t₁ t₂ t₃ s n room)
    event-InSync h h' c (unregister q t) v (inl there) (other, room) e s =
        let r : after (removed h q) (λ k. reached k (erase q.id h.peers))
              (left_message w.marshaler q t)
            ≡ h' =
          cc (e, handle_unregister_lem w.marshaler h q t v there) in
        subst (λ g. InSync w g p c) r (removed-InSync w f h p q c t v s there other room)
    event-InSync h h' c (unregister q t) v (inr gone) (other, room) e s =
        let r : after h (λ k. reached k h.peers) (left_message w.marshaler q t) ≡ h' =
          cc (e, handle_unregister_unknown w.marshaler h q t v gone) in
        subst (λ g. InSync w g p c) r (unknown-InSync w f h p q c t s gone room)
    event-InSync h h' c (broadcast m t) v _ quiet e s =
        elim (broadcast-Effect w.marshaler h h' m t v e) [
          | inl same ↦ subst (λ g. InSync w g p c) (sym same) s
          | inr (inl (hit, r, off)) ↦
              subst (λ g. InSync w g p c) (sym r) (quiet-InSync w f h p c hit m s quiet)
          | inr (inr (hit, r, off)) ↦
              subst (λ g. InSync w g p c) (sym r)
                (quiet-InSync w f h p c hit (not_found_message w.marshaler m t) s
                  (not_found_message-IsQuiet w m t))
        ]

    -- Reading a message moves it from what waits to what is known.
    deliver-InSync :
        (h : Hub R) (c : Client) (m : Message.Message R) (ms : List (Message.Message R))
        → (h.chans p.send).buffer ≡ m ∷ ms
        → InSync w h p c
        → InSync w (taken h p.send ms) p (transmit w c m)
    unfolding receive_all
    deliver-InSync h c m ms e s = record {
      here = s.here;
      ready = rw same s.ready;
      keyed = rw same s.keyed;
      knows = rw same s.knows;
    }
      where
        same :
            receive_all w (transmit w c m) ((taken h p.send ms).chans p.send).buffer
            ≡ receive_all w c (h.chans p.send).buffer
        same = rw (e, self_eq p.send, receive_all)

    drain-InSync :
        (h : Hub R) (c : Client) (r : ℕ) (ms : List (Message.Message R))
        → r ≢ p.send
        → InSync w h p c
        → InSync w (taken h r ms) p c
    drain-InSync h c r ms n s =
        unchanged w f h (taken h r ms) p c s refl (taken_other h r p.send ms n)

    Move-Agrees : {v u : View R} → Move v u → Agrees v → Agrees u
    Move-Agrees {v} (event {h = h'} e adm tame done_e) s = record {
      valid = event-IsValid w.marshaler v.hub h' e s.valid adm done_e;
      sync = event-InSync v.hub h' v.client e s.valid adm tame done_e s.sync;
    }
    Move-Agrees {v} (deliver {m = m} {ms = ms} e) s = record {
      valid = taken-IsValid v.hub p.send m ms e s.valid;
      sync = deliver-InSync v.hub v.client m ms e s.sync;
    }
    Move-Agrees {v} (drain r {m = m} {ms = ms} n e) s = record {
      valid = taken-IsValid v.hub r m ms e s.valid;
      sync = drain-InSync v.hub v.client r ms n s.sync;
    }

    Reach-Agrees : {v u : View R} → Reach v u → Agrees v → Agrees u
    Reach-Agrees here s = s
    Reach-Agrees (next r m) s = Move-Agrees m (Reach-Agrees r s)

    pub registered-Agrees :
        (h h' : Hub R) (c : Client) (t₁ t₂ t₃ : ℕ)
        → IsValid h
        → IsNew h p
        → (h.chans p.send).buffer ≡ []
        → IsReady c
        → c.peers ≡ []
        → step w.marshaler h (register p t₁ t₂ t₃) ≡ done h'
        → Agrees (record { hub = h'; client = c })
    unfolding step
    registered-Agrees h h' c t₁ t₂ t₃ v n empty r fresh e =
        let same : registered w.marshaler h p t₁ t₂ t₃ ≡ h' =
          cc (e, handle_register_lem w.marshaler h p t₁ t₂ t₃ v n) in
        record {
          valid = event-IsValid w.marshaler h h' (register p t₁ t₂ t₃) v n e;
          sync =
              subst (λ g. InSync w g p c) same
                (registered-self-InSync w f h p c t₁ t₂ t₃ n empty r fresh);
        }

    -- Take a faithful encoding, a valid hub, a new peer `p` with an empty buffer, and its client, which
    -- knows nobody. In every history that begins with the registration of `p` and goes on with events
    -- and deliveries in any order, where arrivals are of new peers, no announcement to `p` finds its
    -- buffer full, nobody takes `p` out, and no client sends a message of a type that announces peers:
    -- once the client has read all that waits for it, it knows a peer exactly if that peer is registered
    -- at the hub and is not the client itself.
    pub client_agrees :
        (h h' : Hub R) (c : Client) (t₁ t₂ t₃ : ℕ) (u : View R)
        → IsValid h
        → IsNew h p
        → (h.chans p.send).buffer ≡ []
        → IsReady c
        → c.peers ≡ []
        → step w.marshaler h (register p t₁ t₂ t₃) ≡ done h'
        → Reach (record { hub = h'; client = c }) u
        → (u.hub.chans p.send).buffer ≡ []
        → Knows w u.hub.peers p.id u.client
    unfolding receive_all
    client_agrees h h' c t₁ t₂ t₃ u v n empty r fresh e reach read =
        let s = Reach-Agrees reach (registered-Agrees h h' c t₁ t₂ t₃ v n empty r fresh e) in
        let same : receive_all w u.client (u.hub.chans p.send).buffer ≡ u.client =
          rw (read, receive_all) in
        rw same at s.sync.knows
