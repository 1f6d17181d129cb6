-- ===== src/Signaling/Room/Views.antt =====
-- The room that a hub stands for, and what the changes of the hub are to it.
use p_and_pp.Base.{
  ℕ, ◌+◌, ◌≤◌, ◌≡◌, ◌≢◌, sym, ap, ◌∙◌, fun_ext, String, ◌==◌, eq_iff, Bool, true, false, List, [],
  ◌∷◌, ◌++◌, Option, none, some, if◌then◌else◌, nat_eq, length, length-append, arith, Bool-cases,
  Option-cases, inl, inr,
}
use p_and_pp.GoMap.{lookup, lookup_of_Lacks, lookup-insert, lookup-erase, Keyed}
use p_and_pp.Signaling.Message.{Message}
use p_and_pp.Signaling.Hub.{Peer, Hub, Channels, others}
use p_and_pp.Signaling.Hub.Delivery.{spread}
use p_and_pp.Signaling.Hub.Invariant.{IsValid, after, send-ne}
use p_and_pp.Signaling.Hub.Handlers.{entered, removed}
use p_and_pp.Signaling.Room.{
  Member, Room, hear, tell, enter, leave, listed, Distinct, joined_of, Lists,
}

module _ {R : Type 0} where
  abbrev pub member : Channels R → Peer → Member R
  member c p = record {
    joined_at = p.joined_at;
    inbox = (c p.send).buffer;
    capacity = (c p.send).capacity;
  }

  abbrev seen : Channels R → Option Peer → Option (Member R)
  seen c none = none
  seen c (some p) = some (member c p)

  -- The map's order and the channels' places are forgotten.
  pub view : Hub R → Room R
  view h k = seen h.chans (lookup k h.peers)

  pub view-none : (h : Hub R) (k : String) → lookup k h.peers ≡ none → view h k ≡ none
  unfolding view
  view-none h k e = rw e

  pub view-some :
      (h : Hub R) (k : String) (p : Peer)
      → lookup k h.peers ≡ some p
      → view h k ≡ some (member h.chans p)
  unfolding view
  view-some h k p e = rw e

  tell-none :
      (who : String → Bool) (m : Message R) (room : Room R) (k : String)
      → room k ≡ none
      → tell who m room k ≡ none
  unfolding tell
  tell-none who m room k e = rw (e, tell)

  tell_hit :
      (who : String → Bool) (m : Message R) (room : Room R) (k : String) (x : Member R)
      → room k ≡ some x
      → who k ≡ true
      → tell who m room k ≡ some (hear m x)
  unfolding tell
  tell_hit who m room k x e w = rw (e, tell) (rw w)

  tell_miss :
      (who : String → Bool) (m : Message R) (room : Room R) (k : String)
      → who k ≡ false
      → tell who m room k ≡ room k
  unfolding tell
  tell_miss who m room k w = elim (Option-cases (room k)) [
    | inl e ↦ rw (e, tell)
    | inr (x, e) ↦ rw (e, tell) (rw w)
  ]

  pub tell_nobody :
      (id : String) (m : Message R) (room : Room R)
      → room id ≡ none
      → tell (λ k. id == k) m room ≡ room
  tell_nobody id m room e = fun_ext (λ k. elim (Bool-cases (id == k)) [
    | inl same ↦
        let at_k : room k ≡ none = ap room (sym ((eq_iff id k).0 same)) ∙ e in
        tell-none (λ k. id == k) m room k at_k ∙ sym at_k
    | inr other ↦ tell_miss (λ k. id == k) m room k other
  ])

  -- A message over some channels is told to the members whose channels they are.
  pub view-after :
      (h : Hub R) (hit : ℕ → Bool) (m : Message R) (who : String → Bool)
      → ((k : String) (p : Peer) → lookup k h.peers ≡ some p → hit p.send ≡ who k)
      → view (after h hit m) ≡ tell who m (view h)
  view-after h hit m who same = fun_ext (λ k. elim (Option-cases (lookup k h.peers)) [
    | inl e ↦ view-none (after h hit m) k e ∙ sym (tell-none who m (view h) k (view-none h k e))
    | inr (p, e) ↦ view-some (after h hit m) k p e ∙ elim (Bool-cases (who k)) [
      | inl w ↦
          let hits : hit p.send ≡ true = same k p e ∙ w in
          let told : member (spread hit m h.chans) p ≡ hear m (member h.chans p) = ground arith in
          ap some told ∙ sym (tell_hit who m (view h) k (member h.chans p) (view-some h k p e) w)
      | inr w ↦
          let misses : hit p.send ≡ false = same k p e ∙ w in
          let kept : member (spread hit m h.chans) p ≡ member h.chans p = ground arith in
          ap some kept ∙ sym (tell_miss who m (view h) k w ∙ view-some h k p e)
    ]
  ])

  -- The channel of the entry under a key.
  pub own_channel :
      (h : Hub R) (j : String) (p : Peer)
      → IsValid h
      → lookup j h.peers ≡ some p
      → (k : String) (q : Peer) → lookup k h.peers ≡ some q
      → nat_eq p.send q.send ≡ (j == k)
  own_channel h j p v at_j k q at_k = elim (Bool-cases (j == k)) [
    | inl e ↦
        let same : j ≡ k = (eq_iff j k).0 e in
        let one : p ≡ q = cc (at_j, at_k, same) in rw (e, one) (ground arith)
    | inr e ↦
        let apart : p.send ≢ q.send =
          send-ne h j k p q v at_j at_k (λ s. ground (arith, eq_iff j k)) in
        rw e (ground arith)
  ]

  pub view-entered :
      (h : Hub R) (p : Peer) → view (entered h p) ≡ enter p.id (member h.chans p) (view h)
  unfolding view enter
  view-entered h p = fun_ext (λ k. rw (lookup-insert p.id k p h.peers) (ground arith))

  pub view-removed :
      (h : Hub R) (p : Peer)
      → IsValid h
      → lookup p.id h.peers ≡ some p
      → view (removed h p) ≡ leave p.id (view h)
  unfolding view leave
  view-removed h p v there = fun_ext (λ k.
      rw (lookup-erase p.id k h.peers v.keyed) (elim (Bool-cases (p.id == k)) [
        | inl e ↦ rw e
        | inr e ↦ rw e (elim (Option-cases (lookup k h.peers)) [
          | inl gone ↦ rw gone
          | inr (q, at_k) ↦
              let apart : p.send ≢ q.send =
                send-ne h p.id k p q v there at_k (λ s. ground (arith, eq_iff p.id k)) in
              rw at_k (ground (arith, apart))
        ])
      ]))

  -- Two messages to a member that enters.
  pub tell-enter :
      (id : String) (x : Member R) (m n : Message R) (room : Room R)
      → length x.inbox + 2 ≤ x.capacity
      → tell (λ k. id == k) n (tell (λ k. id == k) m (enter id x room))
        ≡ enter id (record x { inbox = (x.inbox ++ m ∷ []) ++ n ∷ [] }) room
  unfolding enter
  tell-enter id x m n room fits = fun_ext (λ k. elim (Bool-cases (id == k)) [
    | inl e ↦
        let at_k : enter id x room k ≡ some x = rw e in
        let first = tell_hit (λ k. id == k) m (enter id x room) k x at_k e in
        let both : hear n (hear m x) ≡ record x { inbox = (x.inbox ++ m ∷ []) ++ n ∷ [] } =
          ground (arith, length-append {0} x.inbox (m ∷ [])) in
        tell_hit (λ k. id == k) n (tell (λ k. id == k) m (enter id x room)) k (hear m x) first e
        ∙ ap some both
        ∙ rw e
    | inr e ↦
        tell_miss (λ k. id == k) n (tell (λ k. id == k) m (enter id x room)) k e
        ∙ tell_miss (λ k. id == k) m (enter id x room) k e
        ∙ rw e
  ])

  -- The list that the hub sends is a list of the room, whatever the map's order.
  others-listed :
      (me k : String) (ps : List (String × Peer)) (c : Channels R)
      → listed k (others me ps) ≡ (if k == me then none else joined_of (seen c (lookup k ps)))
  unfolding others lookup
  others-listed me k [] c = ground arith
  others-listed me k ((j, p) ∷ ps) c = elim (Bool-cases (j == me)) [
    | inl mine ↦ rw mine (
        others-listed me k ps c ∙ elim (Bool-cases (j == k)) [
          | inl e ↦
              let own : (k == me) ≡ true = ground (arith, eq_iff j me, eq_iff j k, eq_iff k me) in
              rw own
          | inr e ↦ rw e
        ])
    | inr other ↦ rw other (elim (Bool-cases (j == k)) [
      | inl e ↦
          let foreign : (k == me) ≡ false = ground (arith, eq_iff j me, eq_iff j k, eq_iff k me) in
          rw (e, foreign)
      | inr e ↦ rw e (others-listed me k ps c)
    ])
  ]

  others-Distinct :
      (me : String) (ps : List (String × Peer)) (c : Channels R)
      → Keyed ps
      → Distinct (others me ps)
  unfolding others
  others-Distinct me [] c h = tt
  others-Distinct me ((j, p) ∷ ps) c h = elim (Bool-cases (j == me)) [
    | inl mine ↦ rw mine (others-Distinct me ps c h.1)
    | inr other ↦ rw other (
      others-listed me j ps c ∙ rw (other, lookup_of_Lacks j ps h.0),
      others-Distinct me ps c h.1,
    )
  ]

  pub others-Lists : (h : Hub R) (me : String) → IsValid h → Lists (view h) me (others me h.peers)
  unfolding view
  others-Lists h me v = record {
    complete = λ k. others-listed me k h.peers h.chans;
    distinct = others-Distinct me h.peers h.chans v.keyed;
  }
