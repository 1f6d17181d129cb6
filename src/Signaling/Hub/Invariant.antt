-- ===== src/Signaling/Hub/Invariant.antt =====
-- The hub's invariant, and the effect of each handler on a hub that meets it.
use p_and_pp.Base.{
  ℕ, ◌+◌, ◌≤◌, ◌<◌, ◌≡◌, ◌≢◌, sym, ◌∙◌, subst, eq_false, String, ◌==◌, Bool, false, List, [], ◌∷◌,
  some, arith, lt→ltb, nat_eq, length, All, Bool-cases, done, blocked, inl, inr,
}
use p_and_pp.GoMap.{
  lookup, lookup-erase, insert, erase, has, Keyed, All-insert, All-erase, All-lookup,
}
use p_and_pp.Channel.{Chan, put, send}
use p_and_pp.Signaling.Message.{Message}
use p_and_pp.Signaling.Hub.{Peer, Hub, Channels, broadcast_to_all, broadcast_to_others, send_to}
use p_and_pp.Signaling.Hub.Delivery.{
  reached, reached_except, Unused, Apart, Open, accept_fits, spread, spread-Open, send_open,
  deliver_all_lem, deliver_others_lem,
}

-- Every entry stands under its peer's id, every channel in the map is open and belongs to one entry,
-- and no buffer holds more than its capacity.
pub record IsValid {R : Type 0} (h : Hub R) : Type 0 where
  pub keyed : Keyed h.peers
  pub named : All (λ e. e.1.id ≡ e.0) h.peers
  pub live : Open h.chans h.peers
  pub apart : Apart h.peers
  pub bounded : (r : ℕ) → length (h.chans r).buffer ≤ (h.chans r).capacity

-- A peer as `handleWebSocket` makes it: a new id, and a channel of its own with room for the two
-- messages of the registration.
pub record IsNew {R : Type 0} (h : Hub R) (p : Peer) : Type 0 where
  pub unknown : has p.id h.peers ≡ false
  pub unused : Unused p.send h.peers
  pub opened : (h.chans p.send).closed ≡ false
  pub room : length (h.chans p.send).buffer + 2 ≤ (h.chans p.send).capacity

pub Apart-insert :
    (k : String) (p : Peer) (m : List (String × Peer))
    → has k m ≡ false
    → Unused p.send m
    → Apart m
    → Apart (insert k p m)
unfolding has insert
Apart-insert k p [] n u a = (tt, tt)
Apart-insert k p ((j, q) ∷ m) n u a = elim (Bool-cases (j == k)) [
  | inl e ↦ absurd (ground arith)
  | inr e ↦ rw e (
    All-insert (λ e. e.1.send ≢ q.send) k p m (λ s. u.0 (sym s)) a.0,
    Apart-insert k p m (ground arith) u.1 a.1,
  )
]

pub Apart-erase : (k : String) (m : List (String × Peer)) → Apart m → Apart (erase k m)
unfolding erase
Apart-erase k [] a = tt
Apart-erase k ((j, q) ∷ m) a = elim (Bool-cases (j == k)) [
  | inl e ↦ rw e a.1
  | inr e ↦ rw e (All-erase (λ e. e.1.send ≢ q.send) k m a.0, Apart-erase k m a.1)
]

-- With its entry gone, a peer's channel is out of the map.
pub Unused-erase :
    (k : String) (m : List (String × Peer)) (p : Peer)
    → Apart m
    → lookup k m ≡ some p
    → Unused p.send (erase k m)
unfolding lookup erase
Unused-erase k [] p a e = cc
Unused-erase k ((j, q) ∷ m) p a e = elim (Bool-cases (j == k)) [
  | inl same ↦
      let found : q ≡ p = ground arith in rw same (subst (λ (x : Peer). Unused x.send m) found a.0)
  | inr other ↦ rw other (
    λ s. All-lookup (λ e. e.1.send ≢ q.send) k m p a.0 (ground arith) (sym s),
    Unused-erase k m p a.1 (ground arith),
  )
]

-- Two peers of the map use two channels.
pub send-ne :
    {R : Type 0} (h : Hub R) (j k : String) (p q : Peer)
    → IsValid h
    → lookup j h.peers ≡ some p
    → lookup k h.peers ≡ some q
    → j ≢ k
    → p.send ≢ q.send
send-ne h j k p q v in_p in_q n e =
    All-lookup (λ e. e.1.send ≢ p.send) k (erase j h.peers) q
      (Unused-erase j h.peers p v.apart in_p)
      (lookup-erase j k h.peers v.keyed ∙ rw (eq_false j k n) in_q) (sym e)

-- Closing a channel keeps those of the entries that do not use it.
pub Open-put :
    {R : Type 0} (c : Channels R) (r : ℕ) (d : Chan (Message R)) (ps : List (String × Peer))
    → Unused r ps
    → Open c ps
    → Open (put c r d) ps
Open-put c r d [] u o = tt
Open-put c r d ((id, p) ∷ ps) u o = (ground (arith, u.0), Open-put c r d ps u.1 o.1)

module _ {R : Type 0} where
  -- The hub with a message spread over its channels.
  abbrev pub after : Hub R → (ℕ → Bool) → Message R → Hub R
  after h hit m = record h { chans = spread hit m h.chans }

  pub after-IsValid :
      (h : Hub R) (hit : ℕ → Bool) (m : Message R) → IsValid h → IsValid (after h hit m)
  after-IsValid h hit m v = record {
    keyed = v.keyed;
    named = v.named;
    live = spread-Open hit m h.chans h.peers v.live;
    apart = v.apart;
    bounded = λ r. ground (arith, v.bounded r, accept_fits m (h.chans r));
  }

  pub broadcast_to_all_lem :
      (h : Hub R) (m : Message R)
      → IsValid h
      → broadcast_to_all m h ≡ done (after h (λ q. reached q h.peers) m)
  unfolding broadcast_to_all
  broadcast_to_all_lem h m v = rw (deliver_all_lem h.peers m h.chans v.live v.apart)

  pub broadcast_to_others_lem :
      (h : Hub R) (m : Message R) (ex : String)
      → IsValid h
      → broadcast_to_others m ex h ≡ done (after h (λ q. reached_except ex q h.peers) m)
  unfolding broadcast_to_others
  broadcast_to_others_lem h m ex v = rw (deliver_others_lem ex h.peers m h.chans v.live v.apart)

  pub send_to_lem :
      (h : Hub R) (r : ℕ) (m : Message R)
      → (h.chans r).closed ≡ false
      → length (h.chans r).buffer < (h.chans r).capacity
      → send_to r m h ≡ done (after h (nat_eq r) m)
  unfolding send_to
  send_to_lem h r m o room = rw (send_open r m h.chans o (lt→ltb _ _ room))

  pub send_to_full :
      (h : Hub R) (r : ℕ) (m : Message R)
      → (h.chans r).closed ≡ false
      → (h.chans r).capacity ≤ length (h.chans r).buffer
      → send_to r m h ≡ blocked
  unfolding send_to send
  send_to_full h r m o full = ground arith
