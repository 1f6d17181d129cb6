-- ===== src/Signaling/Hub/Drain.antt =====
-- What a write pump does to the hub's channels: it takes the first message off one of them.
use p_and_pp.Base.{ℕ, ◌≡◌, ◌≢◌, String, List, [], ◌∷◌, arith}
use p_and_pp.Channel.{put}
use p_and_pp.Signaling.Message.{Message}
use p_and_pp.Signaling.Hub.{Peer, Hub, Channels}
use p_and_pp.Signaling.Hub.Delivery.{Open}
use p_and_pp.Signaling.Hub.Invariant.{IsValid}

module _ {R : Type 0} where
  abbrev pub taken : Hub R → ℕ → List (Message R) → Hub R
  taken h r ms = record h { chans = put h.chans r (record (h.chans r) { buffer = ms }) }

  taken-Open :
      (c : Channels R) (r : ℕ) (ms : List (Message R)) (ps : List (String × Peer))
      → Open c ps
      → Open (put c r (record (c r) { buffer = ms })) ps
  taken-Open c r ms [] o = tt
  taken-Open c r ms ((id, p) ∷ ps) o = (ground arith, taken-Open c r ms ps o.1)

  pub taken-IsValid :
      (h : Hub R) (r : ℕ) (m : Message R) (ms : List (Message R))
      → (h.chans r).buffer ≡ m ∷ ms
      → IsValid h
      → IsValid (taken h r ms)
  taken-IsValid h r m ms e v = record {
    keyed = v.keyed;
    named = v.named;
    live = taken-Open h.chans r ms h.peers v.live;
    apart = v.apart;
    bounded = λ q. ground (arith, v.bounded q, v.bounded r);
  }

  pub taken_self :
      (h : Hub R) (r : ℕ) (ms : List (Message R)) → ((taken h r ms).chans r).buffer ≡ ms
  taken_self h r ms = ground arith

  pub taken_other :
      (h : Hub R) (r q : ℕ) (ms : List (Message R))
      → r ≢ q
      → ((taken h r ms).chans q).buffer ≡ (h.chans q).buffer
  taken_other h r q ms n = ground (arith, n)
