-- ===== src/Signaling/Hub/Safety.antt =====
-- Every event that a valid hub may see either is handled, to a valid hub, or stalls the event loop
-- in the one place where it can: an error message to a sender whose buffer is full.
use p_and_pp.Base.{
  ℕ, ◌≤◌, ◌≡◌, ◌≢◌, subst, ◌∙◌, ◌==◌, eq_iff, ne_of_eq_false, Bool, false, none, some, nat_eq,
  length, Bool-cases, Option-cases, done, blocked, ◌⊎◌, inl, inr,
}
use p_and_pp.GoMap.{lookup, insert, erase, has}
use p_and_pp.Signaling.Message.{Message, Marshaler}
use p_and_pp.Signaling.Hub.{
  Peer, Hub, Event, register, unregister, broadcast, not_found_message, reject, left_message,
  joined_message, step,
}
use p_and_pp.Signaling.Hub.Delivery.{reached, reached_except}
use p_and_pp.Signaling.Hub.Invariant.{IsValid, IsNew, after, after-IsValid, send_to_full}
use p_and_pp.Signaling.Hub.Handlers.{
  registered, welcomed, removed, removed-IsValid, welcomed-IsValid, handle_register_lem,
  handle_unregister_lem, handle_unregister_unknown,
}
use p_and_pp.Signaling.Hub.Routing.{
  live_of_lookup, room-cases, handle_broadcast_found, handle_broadcast_missing,
  handle_broadcast_everyone, reject_answered, reject_full,
}

module _ {R : Type 0} where
  -- What the server guarantees of the events: `handleWebSocket` registers a new peer, and takes out
  -- the peer that it registered, if anything.
  abbrev pub Admissible : Hub R → Event R → Type 0
  Admissible h (register p a b c) = IsNew h p
  Admissible h (unregister p a) = (lookup p.id h.peers ≡ some p) ⊎ (has p.id h.peers ≡ false)
  Admissible h (broadcast m a) = Unit {0}

  -- A message to nobody, from a registered peer that has no room for the error.
  abbrev pub Stalls : Hub R → Event R → Type 0
  Stalls h (register p a b c) = ⊥
  Stalls h (unregister p a) = ⊥
  Stalls h (broadcast m a) =
      (m.to ≢ "")
      × (lookup m.to h.peers ≡ none)
      × ((s : Peer) × (lookup m.from h.peers ≡ some s)
          × ((h.chans s.send).capacity ≤ length (h.chans s.send).buffer))

module _ {R : Type 0} (json : Marshaler R) where
  -- Goes on to a valid hub, or waits for ever where it may.
  abbrev Safe : Hub R → Event R → Type 0
  Safe h e =
      ((h' : Hub R) × (step json h e ≡ done h') × IsValid h')
      ⊎ ((step json h e ≡ blocked) × Stalls h e)

  reject-Safe :
      (h : Hub R) (m : Message R) (a : ℕ)
      → IsValid h
      → ((h' : Hub R) × (reject json h m a ≡ done h') × IsValid h')
        ⊎ ((reject json h m a ≡ blocked)
            × ((s : Peer) × (lookup m.from h.peers ≡ some s)
                × ((h.chans s.send).capacity ≤ length (h.chans s.send).buffer)))
  unfolding reject
  reject-Safe h m a v = elim (Option-cases (lookup m.from h.peers)) [
    | inl e ↦ inl (h, rw (e, reject), v)
    | inr (s, e) ↦ elim (room-cases (h.chans s.send)) [
      | inl room ↦ inl (
        after h (nat_eq s.send) (not_found_message json m a),
        reject_answered json h m s a v e room,
        after-IsValid h (nat_eq s.send) (not_found_message json m a) v,
      )
      | inr full ↦
          let o = live_of_lookup h m.from s v e in
          inr (
            rw (e, reject) (send_to_full h s.send (not_found_message json m a) o full),
            (s, e, full),
          )
    ]
  ]

  broadcast-Safe : (h : Hub R) (m : Message R) (a : ℕ) → IsValid h → Safe h (broadcast m a)
  unfolding step
  broadcast-Safe h m a v = elim (Bool-cases (m.to == "")) [
    | inl everyone ↦ inl (
      after h (λ q. reached q h.peers) m,
      handle_broadcast_everyone json h m a v ((eq_iff m.to "").0 everyone),
      after-IsValid h (λ q. reached q h.peers) m v,
    )
    | inr one ↦ elim (Option-cases (lookup m.to h.peers)) [
      | inr (p, e) ↦ inl (
        after h (nat_eq p.send) m,
        handle_broadcast_found json h m p a v (ne_of_eq_false m.to "" one) e,
        after-IsValid h (nat_eq p.send) m v,
      )
      | inl e ↦ elim (reject-Safe h m a v) [
        | inl (h', r, v') ↦
            inl (h', handle_broadcast_missing json h m a (ne_of_eq_false m.to "" one) e ∙ r, v')
        | inr (r, s) ↦
            let n = ne_of_eq_false m.to "" one in
            inr (handle_broadcast_missing json h m a n e ∙ r, (n, e, s))
      ]
    ]
  ]

  unregister-Safe :
      (h : Hub R) (p : Peer) (a : ℕ)
      → IsValid h
      → (lookup p.id h.peers ≡ some p) ⊎ (has p.id h.peers ≡ false)
      → Safe h (unregister p a)
  unfolding step
  unregister-Safe h p a v (inl e) =
      let hit : ℕ → Bool = λ q. reached q (erase p.id h.peers) in
      inl (
        after (removed h p) hit (left_message json p a),
        handle_unregister_lem json h p a v e,
        after-IsValid (removed h p) hit (left_message json p a) (removed-IsValid h p v e),
      )
  unregister-Safe h p a v (inr e) =
      let hit : ℕ → Bool = λ q. reached q h.peers in
      inl (
        after h hit (left_message json p a),
        handle_unregister_unknown json h p a v e,
        after-IsValid h hit (left_message json p a) v,
      )

  register-Safe :
      (h : Hub R) (p : Peer) (a b c : ℕ) → IsValid h → IsNew h p → Safe h (register p a b c)
  unfolding step
  register-Safe h p a b c v n = inl (
    registered json h p a b c,
    handle_register_lem json h p a b c v n,
    after-IsValid (welcomed json h p a b) (λ q. reached_except p.id q (insert p.id p h.peers))
        (joined_message json p c) (welcomed-IsValid json h p a b v n),
  )

  -- From a valid hub (each peer under its own id, its channel open and its own), take the arrival of
  -- a new peer (id not in the map, an open channel of its own with room for two), the departure of the
  -- peer that its id stands for or of one that is not in the map, or any message. It is handled to its
  -- end and leaves a valid hub, or it is a message to an unknown target, from a registered sender whose
  -- buffer is full, and then the event loop is blocked. It never panics.
  pub step-IsSafe : (h : Hub R) (e : Event R) → IsValid h → Admissible h e → Safe h e
  step-IsSafe h (register p a b c) v n = register-Safe h p a b c v n
  step-IsSafe h (unregister p a) v n = unregister-Safe h p a v n
  step-IsSafe h (broadcast m a) v n = broadcast-Safe h m a v

  -- On a valid hub, a message with a target that is not in the map, from a registered sender whose
  -- buffer is full, blocks the event loop: the round waits for room in that buffer.
  pub step-Stalls : (h : Hub R) (e : Event R) → IsValid h → Stalls h e → step json h e ≡ blocked
  unfolding step
  step-Stalls h (register p a b c) v s = absurd s
  step-Stalls h (unregister p a) v s = absurd s
  step-Stalls h (broadcast m a) v (n, e, (s, f, full)) =
      handle_broadcast_missing json h m a n e ∙ stuck
    where
      stuck : reject json h m a ≡ blocked
      stuck = reject_full json h m s a (live_of_lookup h m.from s v f) f full

  -- A handled event leaves a valid hub.
  pub event-IsValid :
      (h h' : Hub R) (e : Event R)
      → IsValid h
      → Admissible h e
      → step json h e ≡ done h'
      → IsValid h'
  event-IsValid h h' e v n q = elim (step-IsSafe h e v n) [
    | inl (g, r, ok_g) ↦ let same : g ≡ h' = cc (q, r) in subst IsValid same ok_g
    | inr (r, s) ↦ cc (q, r)
  ]
