-- ===== src/Signaling/Hub/Routing.antt =====
-- How `handleBroadcast` routes a message, branch by branch.
use p_and_pp.Base.{
  ℕ, ◌≤◌, ◌<◌, ◌≡◌, ◌≢◌, String, ◌==◌, eq_iff, eq_false, ne_of_eq_false, Bool, true, false, none,
  some, arith, nat_eq, length, Bool-cases, Option-cases, done, blocked, ◌⊎◌, inl, inr,
}
use p_and_pp.GoMap.{lookup, All-lookup}
use p_and_pp.Channel.{Chan}
use p_and_pp.Signaling.Message.{Message, Marshaler}
use p_and_pp.Signaling.Hub.{Peer, Hub, not_found_message, reject, unicast, handle_broadcast}
use p_and_pp.Signaling.Hub.Delivery.{reached, offer_open, Unused, Unused-reached}
use p_and_pp.Signaling.Hub.Invariant.{
  IsValid, after, broadcast_to_all_lem, send_to_lem, send_to_full,
}

module _ {R : Type 0} where
  pub live_of_lookup :
      (h : Hub R) (k : String) (p : Peer)
      → IsValid h
      → lookup k h.peers ≡ some p
      → (h.chans p.send).closed ≡ false
  live_of_lookup h k p v e =
      All-lookup (λ e. (h.chans e.1.send).closed ≡ false) k h.peers p v.live e

pub room-cases :
    {R : Type 0} (c : Chan (Message R))
    → (length c.buffer < c.capacity) ⊎ (c.capacity ≤ length c.buffer)
room-cases c = omega arith

module _ {R : Type 0} (json : Marshaler R) where
  -- On a valid hub, a message whose target is in the map ends in that peer's channel alone, if its
  -- buffer has room; otherwise it is dropped. The map and all other channels stay as they were.
  pub handle_broadcast_found :
      (h : Hub R) (m : Message R) (p : Peer) (a : ℕ)
      → IsValid h
      → m.to ≢ ""
      → lookup m.to h.peers ≡ some p
      → handle_broadcast json h m a ≡ done (after h (nat_eq p.send) m)
  unfolding handle_broadcast
  handle_broadcast_found h m p a v n e =
      rw (eq_false m.to "" n, e, unicast)
        (rw (offer_open p.send m h.chans (live_of_lookup h m.to p v e)))

  pub handle_broadcast_missing :
      (h : Hub R) (m : Message R) (a : ℕ)
      → m.to ≢ ""
      → lookup m.to h.peers ≡ none
      → handle_broadcast json h m a ≡ reject json h m a
  unfolding handle_broadcast
  handle_broadcast_missing h m a n e = rw (eq_false m.to "" n, e, unicast)

  pub handle_broadcast_everyone :
      (h : Hub R) (m : Message R) (a : ℕ)
      → IsValid h
      → m.to ≡ ""
      → handle_broadcast json h m a ≡ done (after h (λ q. reached q h.peers) m)
  unfolding handle_broadcast
  handle_broadcast_everyone h m a v e =
      let test : (m.to == "") ≡ true = (eq_iff m.to "").1 e in rw test (broadcast_to_all_lem h m v)

  -- Nobody is told if the sender is gone too.
  pub reject_nobody :
      (h : Hub R) (m : Message R) (a : ℕ)
      → lookup m.from h.peers ≡ none
      → reject json h m a ≡ done h
  unfolding reject
  reject_nobody h m a e = rw (e, reject)

  -- A message to nobody is answered with an error, if its sender has room for it.
  pub reject_answered :
      (h : Hub R) (m : Message R) (s : Peer) (a : ℕ)
      → IsValid h
      → lookup m.from h.peers ≡ some s
      → length (h.chans s.send).buffer < (h.chans s.send).capacity
      → reject json h m a ≡ done (after h (nat_eq s.send) (not_found_message json m a))
  unfolding reject
  reject_answered h m s a v e room =
      rw (e, reject)
        (send_to_lem h s.send (not_found_message json m a) (live_of_lookup h m.from s v e) room)

  -- With no room the hub waits for the sender's write pump.
  pub reject_full :
      (h : Hub R) (m : Message R) (s : Peer) (a : ℕ)
      → (h.chans s.send).closed ≡ false
      → lookup m.from h.peers ≡ some s
      → (h.chans s.send).capacity ≤ length (h.chans s.send).buffer
      → reject json h m a ≡ blocked
  unfolding reject
  reject_full h m s a o e full =
      rw (e, reject) (send_to_full h s.send (not_found_message json m a) o full)

  -- The message is spread over channels of the map only.
  abbrev pub Effect : Hub R → Hub R → Message R → Type 0
  Effect h h' m =
      (hit : ℕ → Bool) × (h' ≡ after h hit m) × ((q : ℕ) → Unused q h.peers → hit q ≡ false)

  Unused-ne :
      (h : Hub R) (k : String) (p : Peer) (q : ℕ)
      → lookup k h.peers ≡ some p
      → Unused q h.peers
      → nat_eq p.send q ≡ false
  Unused-ne h k p q e u =
      let apart = All-lookup (λ e. e.1.send ≢ q) k h.peers p u e in ground (arith, apart)

  -- Whatever the branch, one message is spread over some channels, or nothing changes.
  pub broadcast-Effect :
      (h h' : Hub R) (m : Message R) (a : ℕ)
      → IsValid h
      → handle_broadcast json h m a ≡ done h'
      → (h' ≡ h) ⊎ (Effect h h' m ⊎ Effect h h' (not_found_message json m a))
  broadcast-Effect h h' m a v e = elim (Bool-cases (m.to == "")) [
    | inl everyone ↦
        let r = handle_broadcast_everyone h m a v ((eq_iff m.to "").0 everyone) in
        inr (inl (λ q. reached q h.peers, cc (e, r), λ q u. Unused-reached q h.peers u))
    | inr one ↦ elim (Option-cases (lookup m.to h.peers)) [
      | inr (p, there) ↦
          let r = handle_broadcast_found h m p a v (ne_of_eq_false m.to "" one) there in
          inr (inl (nat_eq p.send, cc (e, r), λ q u. Unused-ne h m.to p q there u))
      | inl gone ↦
          let r = handle_broadcast_missing h m a (ne_of_eq_false m.to "" one) gone in
          rejected (cc (e, r))
    ]
  ]
    where
      rejected :
          reject json h m a ≡ done h'
          → (h' ≡ h) ⊎ (Effect h h' m ⊎ Effect h h' (not_found_message json m a))
      rejected r = elim (Option-cases (lookup m.from h.peers)) [
        | inl no_sender ↦
            let q : reject json h m a ≡ done h = reject_nobody h m a no_sender in inl (cc (r, q))
        | inr (s, there) ↦ elim (room-cases (h.chans s.send)) [
          | inl room ↦
              let q = reject_answered h m s a v there room in
              inr (inr (nat_eq s.send, cc (r, q), λ k u. Unused-ne h m.from s k there u))
          | inr full ↦
              let q = reject_full h m s a (live_of_lookup h m.from s v there) there full in
              cc (r, q)
        ]
      ]
