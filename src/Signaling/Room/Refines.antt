-- ===== src/Signaling/Room/Refines.antt =====
-- The hub keeps what the room promises: each event that the hub handles is a step of the room.
use p_and_pp.Base.{
  ℕ, ◌≡◌, refl, sym, ap, ◌∙◌, fun_ext, String, ◌==◌, eq_iff, eq_refl, ne_of_eq_false, true, false,
  not, none, some, nat_eq, arith, Bool-cases, Option-cases, ◌⊎◌, inl, inr, done,
}
use p_and_pp.GoMap.{lookup, lookup-insert, insert, has, lookup_of_has-false}
use p_and_pp.Signaling.Message.{Message, Marshaler}
use p_and_pp.Signaling.Hub.{
  Peer, Hub, Event, register, unregister, broadcast, others, registered_message, list_message,
  joined_message, left_message, not_found_message, reject, step,
}
use p_and_pp.Signaling.Hub.Delivery.{reached, reached_except}
use p_and_pp.Signaling.Hub.Invariant.{IsValid, IsNew, after}
use p_and_pp.Signaling.Hub.Handlers.{
  entered, entered-IsValid, removed, welcomed, registered, handle_register_lem,
  handle_unregister_lem, handle_unregister_unknown,
}
use p_and_pp.Signaling.Hub.Routing.{
  handle_broadcast_everyone, handle_broadcast_found, handle_broadcast_missing, live_of_lookup,
  reject_nobody, reject_answered, reject_full, room-cases,
}
use p_and_pp.Signaling.Hub.Safety.{Admissible}
use p_and_pp.PeerView.Sync.{reached-lookup, reached_except-lookup, reached_except-insert}
use p_and_pp.Signaling.Room.{Room, tell, enter, leave, welcome, everyone, Lists, RoomStep}
use p_and_pp.Signaling.Room.Views.{
  member, view, view-none, view-some, view-after, view-entered, view-removed, own_channel,
  tell-enter, tell_nobody, others-Lists,
}

module _ {R : Type 0} (json : Marshaler R) where
  -- The new peer's own messages.
  view-welcomed :
      (h : Hub R) (p : Peer) (a b : ℕ)
      → IsValid h
      → IsNew h p
      → view (welcomed json h p a b)
        ≡ enter p.id
            (welcome json (member h.chans p) p (others p.id (insert p.id p h.peers)) a b)
            (view h)
  unfolding list_message
  view-welcomed h p a b v n =
      let there : lookup p.id (insert p.id p h.peers) ≡ some p =
        lookup-insert p.id p.id p h.peers ∙ rw (eq_refl p.id) in
      let own = own_channel (entered h p) p.id p (entered-IsValid h p v n) there in
      let first = registered_message json p a in
      let second = list_message json p (insert p.id p h.peers) b in
      view-after (after (entered h p) (nat_eq p.send) first) (nat_eq p.send) second (λ k. p.id == k)
        own
      ∙ ap (tell (λ k. p.id == k) second)
          (view-after (entered h p) (nat_eq p.send) first (λ k. p.id == k) own)
      ∙ ap (λ r. tell (λ k. p.id == k) second (tell (λ k. p.id == k) first r)) (view-entered h p)
      ∙ tell-enter p.id (member h.chans p) first second (view h) n.room

  -- The others' channels, in the map with the new peer.
  others_hit :
      (h : Hub R) (p : Peer)
      → IsNew h p
      → (k : String) (q : Peer) → lookup k (insert p.id p h.peers) ≡ some q
      → reached_except p.id q.send (insert p.id p h.peers) ≡ not (p.id == k)
  others_hit h p n k q at_k = elim (Bool-cases (p.id == k)) [
    | inl e ↦
        let found : lookup k (insert p.id p h.peers) ≡ some p =
          lookup-insert p.id k p h.peers ∙ rw e in
        let same : p ≡ q = cc (at_k, found) in
        rw (← same, e) (reached_except-insert p.id p h.peers n.unknown n.unused)
    | inr e ↦ rw e (
        reached_except-lookup p.id k (insert p.id p h.peers) q (λ s. ground (arith, eq_iff p.id k))
          at_k)
  ]

  -- The list leaves the new peer out, so it is one of the room that the peer enters.
  pub new_Lists :
      (h : Hub R) (p : Peer)
      → IsValid h
      → IsNew h p
      → Lists (view h) p.id (others p.id (insert p.id p h.peers))
  new_Lists h p v n =
      let l = others-Lists (entered h p) p.id (entered-IsValid h p v n) in
      record {
        complete = λ k. l.complete k ∙ elim (Bool-cases (k == p.id)) [
          | inl e ↦ rw e
          | inr e ↦
              let apart : (p.id == k) ≡ false = ground (arith, eq_iff p.id k, eq_iff k p.id) in
              rw (e, view-entered h p) (unfold enter in rw apart)
        ];
        distinct = l.distinct;
      }

  register-refines :
      (h : Hub R) (p : Peer) (a b c : ℕ)
      → IsValid h
      → IsNew h p
      → RoomStep json (view h) (register p a b c) (view (registered json h p a b c))
  register-refines h p a b c v n =
      let ps = insert p.id p h.peers in
      (
        member h.chans p,
        others p.id ps,
        refl,
        new_Lists h p v n,
        view-after (welcomed json h p a b) (λ q. reached_except p.id q ps) (joined_message json p c)
              (λ k. not (p.id == k)) (others_hit h p n)
            ∙ ap (tell (λ k. not (p.id == k)) (joined_message json p c))
                (view-welcomed h p a b v n),
      )

  all_hit :
      (h : Hub R) (k : String) (q : Peer)
      → lookup k h.peers ≡ some q
      → reached q.send h.peers ≡ true
  all_hit h k q e = reached-lookup k h.peers q e

  leave_unknown : (room : Room R) (id : String) → room id ≡ none → leave id room ≡ room
  unfolding leave
  leave_unknown room id e = fun_ext (λ k. elim (Bool-cases (id == k)) [
    | inl same ↦
        let at_k : room k ≡ none = ap room (sym ((eq_iff id k).0 same)) ∙ e in rw (same, at_k)
    | inr other ↦ rw other
  ])

  unregister-refines :
      (h h' : Hub R) (p : Peer) (a : ℕ)
      → IsValid h
      → (lookup p.id h.peers ≡ some p) ⊎ (has p.id h.peers ≡ false)
      → step json h (unregister p a) ≡ done h'
      → RoomStep json (view h) (unregister p a) (view h')
  unfolding step
  unregister-refines h h' p a v (inl there) e =
      let g : Hub R =
        after (removed h p) (λ q. reached q (removed h p).peers) (left_message json p a) in
      let same : h' ≡ g = cc (e, handle_unregister_lem json h p a v there) in
      ap view same
      ∙ view-after (removed h p) (λ q. reached q (removed h p).peers) (left_message json p a)
          everyone (all_hit (removed h p))
      ∙ ap (tell everyone (left_message json p a)) (view-removed h p v there)
  unregister-refines h h' p a v (inr unknown) e =
      let g : Hub R = after h (λ q. reached q h.peers) (left_message json p a) in
      let same : h' ≡ g = cc (e, handle_unregister_unknown json h p a v unknown) in
      ap view same
      ∙ view-after h (λ q. reached q h.peers) (left_message json p a) everyone (all_hit h)
      ∙ ap (tell everyone (left_message json p a)) (
          sym (
            leave_unknown (view h) p.id
              (view-none h p.id (lookup_of_has-false p.id h.peers unknown))))

  -- A message to nobody: the sender hears of it, if there is one with room.
  reject-refines :
      (h h' : Hub R) (m : Message R) (a : ℕ)
      → IsValid h
      → reject json h m a ≡ done h'
      → view h' ≡ tell (λ k. m.from == k) (not_found_message json m a) (view h)
  reject-refines h h' m a v e = elim (Option-cases (lookup m.from h.peers)) [
    | inl nobody ↦
        let same : h' ≡ h = cc (e, reject_nobody json h m a nobody) in
        ap view same
        ∙ sym (tell_nobody m.from (not_found_message json m a) (view h) (view-none h m.from nobody))
    | inr (s, there) ↦ elim (room-cases (h.chans s.send)) [
      | inl fits ↦
          let g : Hub R = after h (nat_eq s.send) (not_found_message json m a) in
          let same : h' ≡ g = cc (e, reject_answered json h m s a v there fits) in
          ap view same
          ∙ view-after h (nat_eq s.send) (not_found_message json m a) (λ k. m.from == k)
              (own_channel h m.from s v there)
      | inr full ↦
          let stuck = reject_full json h m s a (live_of_lookup h m.from s v there) there full in
          absurd (cc (e, stuck))
    ]
  ]

  broadcast-refines :
      (h h' : Hub R) (m : Message R) (a : ℕ)
      → IsValid h
      → step json h (broadcast m a) ≡ done h'
      → RoomStep json (view h) (broadcast m a) (view h')
  unfolding step
  broadcast-refines h h' m a v e = elim (Bool-cases (m.to == "")) [
    | inl all ↦
        let to_all = (eq_iff m.to "").0 all in
        let g : Hub R = after h (λ q. reached q h.peers) m in
        let same : h' ≡ g = cc (e, handle_broadcast_everyone json h m a v to_all) in
        inl (to_all, ap view same ∙ view-after h (λ q. reached q h.peers) m everyone (all_hit h))
    | inr one ↦
        let named = ne_of_eq_false m.to "" one in
        elim (Option-cases (lookup m.to h.peers)) [
          | inr (p, there) ↦
              let g : Hub R = after h (nat_eq p.send) m in
              let same : h' ≡ g = cc (e, handle_broadcast_found json h m p a v named there) in
              inr (
                inl (
                  named,
                  λ gone. cc (gone, view-some h m.to p there),
                  ap view same
                      ∙ view-after h (nat_eq p.send) m (λ k. m.to == k)
                          (own_channel h m.to p v there),
                ))
          | inl nobody ↦
              let refused : reject json h m a ≡ done h' =
                cc (e, handle_broadcast_missing json h m a named nobody) in
              inr (inr (named, view-none h m.to nobody, reject-refines h h' m a v refused))
        ]
  ]

  -- The hub refines the room. From a valid hub, if an admissible event (a new peer that arrives, a known
  -- peer or one that is not in the map that leaves, any message) is handled to its end, then what the
  -- hub stands for makes a step of the room: on an arrival the new member gets its id and a list of all
  -- other members, each once, and the others the arrival; on a departure the member is gone and all
  -- others hear of it; a message is told to everyone, to its target alone, or, if there is no such
  -- member, an error to its sender alone. Members with a full inbox miss the message, and nothing else
  -- changes.
  pub step-refines :
      (h h' : Hub R) (e : Event R)
      → IsValid h
      → Admissible h e
      → step json h e ≡ done h'
      → RoomStep json (view h) e (view h')
  unfolding step
  step-refines h h' (register p a b c) v n e =
      let same : h' ≡ registered json h p a b c = cc (e, handle_register_lem json h p a b c v n) in
      rw same (register-refines h p a b c v n)
  step-refines h h' (unregister p a) v n e = unregister-refines h h' p a v n e
  step-refines h h' (broadcast m a) v n e = broadcast-refines h h' m a v e
