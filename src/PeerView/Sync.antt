-- ===== src/PeerView/Sync.antt =====
-- A client's set of peers, once it has read all that waits in its channel, is the hub's map less the
-- client itself; every event at the hub keeps it so.
use p_and_pp.Base.{
  ℕ, ◌<◌, ◌≡◌, ◌≢◌, refl, ap, ◌∙◌, String, ◌==◌, eq_iff, Bool, true, false, ◌&&◌, not, List, [],
  ◌∷◌, ◌++◌, some, arith, lt→ltb, nat_eq, length, ◌⊎◌,
}
use p_and_pp.GoMap.{lookup, insert, has, Keyed}
use p_and_pp.Signaling.Message
use p_and_pp.Signaling.Message.{Marshaler}
use p_and_pp.Signaling.Hub.{Peer, Hub, Channels}
use p_and_pp.Signaling.Hub.Delivery.{reached, reached_except, Unused, spread}
use p_and_pp.Client.{Client}
use p_and_pp.PeerView.{Wire, IsFaithful, transmit, receive_all}
use p_and_pp.PeerView.Receive.{IsReady, transmit-IsReady, transmit-Keyed}

pub reached-lookup :
    (k : String) (ps : List (String × Peer)) (p : Peer)
    → lookup k ps ≡ some p
    → reached p.send ps ≡ true
unfolding lookup reached
reached-lookup k [] p e = cc
reached-lookup k ((j, q) ∷ ps) p e = ground (arith, reached-lookup k ps p)

pub reached_except-lookup :
    (ex k : String) (ps : List (String × Peer)) (p : Peer)
    → k ≢ ex
    → lookup k ps ≡ some p
    → reached_except ex p.send ps ≡ true
unfolding lookup reached_except
reached_except-lookup ex k [] p n e = cc
reached_except-lookup ex k ((j, q) ∷ ps) p n e =
    ground (arith, eq_iff j k, eq_iff j ex, reached_except-lookup ex k ps p n)

-- A new peer's channel is not among those that hear of its arrival.
pub reached_except-insert :
    (ex : String) (p : Peer) (ps : List (String × Peer))
    → has ex ps ≡ false
    → Unused p.send ps
    → reached_except ex p.send (insert ex p ps) ≡ false
unfolding has insert reached_except
reached_except-insert ex p [] n u = ground (arith, eq_iff ex ex)
reached_except-insert ex p ((j, q) ∷ ps) n u =
    ground (arith, eq_iff ex ex, reached_except-insert ex p ps)

pub self_eq : (r : ℕ) → nat_eq r r ≡ true
self_eq r = ground arith

module _ {R : Type 0} where
  pub spread_off :
      (hit : ℕ → Bool) (m : Message.Message R) (c : Channels R) (q : ℕ)
      → hit q ≡ false
      → spread hit m c q ≡ c q
  spread_off hit m c q h = rw h

  pub spread_hit :
      (hit : ℕ → Bool) (m : Message.Message R) (c : Channels R) (q : ℕ)
      → hit q ≡ true
      → length (c q).buffer < (c q).capacity
      → (spread hit m c q).buffer ≡ (c q).buffer ++ m ∷ []
  spread_hit hit m c q h room = rw (h, lt→ltb _ _ room)

  pub spread_miss :
      (r : ℕ) (m : Message.Message R) (c : Channels R) (q : ℕ)
      → r ≢ q
      → spread (nat_eq r) m c q ≡ c q
  spread_miss r m c q n = ground arith

  -- A spread adds the message, or leaves the buffer.
  pub spread_buffer :
      (hit : ℕ → Bool) (m : Message.Message R) (c : Channels R) (q : ℕ)
      → ((spread hit m c q).buffer ≡ (c q).buffer ++ m ∷ [])
        ⊎ ((spread hit m c q).buffer ≡ (c q).buffer)
  spread_buffer hit m c q = ground arith

module _ {R : Type 0} (w : Wire R) where
  pub receive_all-append :
      (c : Client) (ms : List (Message.Message R)) (m : Message.Message R)
      → receive_all w c (ms ++ m ∷ []) ≡ transmit w (receive_all w c ms) m
  unfolding receive_all
  receive_all-append c [] m = refl
  receive_all-append c (n ∷ ms) m = receive_all-append (transmit w c n) ms m

  -- The client knows exactly the registered peers other than itself.
  abbrev pub Knows : List (String × Peer) → String → Client → Type 0
  Knows ps me c = (j : String) → has j c.peers ≡ (has j ps && not (j == me))

  -- The client of the peer `p`, with what waits for it.
  pub record InSync (h : Hub R) (p : Peer) (c : Client) : Type 0 where
    pub here : lookup p.id h.peers ≡ some p
    pub ready : IsReady (receive_all w c (h.chans p.send).buffer)
    pub keyed : Keyed (receive_all w c (h.chans p.send).buffer).peers
    pub knows : Knows h.peers p.id (receive_all w c (h.chans p.send).buffer)

  module _ (f : IsFaithful w) where
    pub receive_all-IsReady :
        (c : Client) (ms : List (Message.Message R)) → IsReady c → IsReady (receive_all w c ms)
    unfolding receive_all
    receive_all-IsReady c [] h = h
    receive_all-IsReady c (m ∷ ms) h =
        receive_all-IsReady (transmit w c m) ms (transmit-IsReady w f c m h)

    pub receive_all-Keyed :
        (c : Client) (ms : List (Message.Message R))
        → IsReady c
        → Keyed c.peers
        → Keyed (receive_all w c ms).peers
    unfolding receive_all
    receive_all-Keyed c [] h k = k
    receive_all-Keyed c (m ∷ ms) h k =
        receive_all-Keyed (transmit w c m) ms (transmit-IsReady w f c m h)
          (transmit-Keyed w f c m h k)

    -- One more message in the channel, whose effect on the set of peers fits the new map.
    pub extend :
        (h h' : Hub R) (p : Peer) (c : Client) (m : Message.Message R)
        → InSync h p c
        → lookup p.id h'.peers ≡ some p
        → (h'.chans p.send).buffer ≡ (h.chans p.send).buffer ++ m ∷ []
        → Knows h'.peers p.id (transmit w (receive_all w c (h.chans p.send).buffer) m)
        → InSync h' p c
    extend h h' p c m s e b k =
        let q : receive_all w c (h'.chans p.send).buffer
            ≡ transmit w (receive_all w c (h.chans p.send).buffer) m =
          ap (receive_all w c) b ∙ receive_all-append c (h.chans p.send).buffer m in
        record {
          here = e;
          ready = rw q (transmit-IsReady w f _ m s.ready);
          keyed = rw q (transmit-Keyed w f _ m s.ready s.keyed);
          knows = rw q k;
        }

    -- The channel as it was.
    pub unchanged :
        (h h' : Hub R) (p : Peer) (c : Client)
        → InSync h p c
        → h'.peers ≡ h.peers
        → (h'.chans p.send).buffer ≡ (h.chans p.send).buffer
        → InSync h' p c
    unchanged h h' p c s e b = record {
      here = rw e s.here;
      ready = rw b s.ready;
      keyed = rw b s.keyed;
      knows = rw (e, b) s.knows;
    }
