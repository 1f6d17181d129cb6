-- ===== src/Signaling/Room/Histories.antt =====
-- The hub from its start: events of Run and the write pumps that take messages, in any order.
use p_and_pp.Base.{
  ℕ, ◌≡◌, ◌≢◌, refl, sym, ap, ◌∙◌, fun_ext, subst, String, ◌==◌, eq_iff, List, [], ◌∷◌, some,
  length, arith, Bool-cases, ne_of_eq_false, Option-cases, inl, inr, done,
}
use p_and_pp.GoMap.{lookup}
use p_and_pp.Signaling.Message.{Message, Marshaler}
use p_and_pp.Signaling.Hub.{Peer, Hub, Event, Channels, new_hub, step}
use p_and_pp.Signaling.Hub.Invariant.{IsValid, send-ne}
use p_and_pp.Signaling.Hub.Safety.{Admissible, event-IsValid}
use p_and_pp.Signaling.Hub.Drain.{taken, taken-IsValid}
use p_and_pp.Signaling.Room.{Room, enter, RoomReach, here, steps, takes, nobody}
use p_and_pp.Signaling.Room.Views.{member, view, view-none, view-some}
use p_and_pp.Signaling.Room.Refines.{step-refines}

module _ {R : Type 0} (json : Marshaler R) where
  -- The write pump of a registered peer takes a message, or that of one that has left the map.
  pub data HubReach (start : Hub R) : Hub R → Type 0 where
    begins : HubReach start start
    handles :
        {h h' : Hub R} (e : Event R)
        → HubReach start h
        → Admissible h e
        → step json h e ≡ done h'
        → HubReach start h'
    drains :
        {h : Hub R} (k : String) (p : Peer) (m : Message R) (ms : List (Message R))
        → HubReach start h
        → lookup k h.peers ≡ some p
        → (h.chans p.send).buffer ≡ m ∷ ms
        → HubReach start (taken h p.send ms)
    drains_left :
        {h : Hub R} (r : ℕ) (m : Message R) (ms : List (Message R))
        → HubReach start h
        → ((k : String) (p : Peer) → lookup k h.peers ≡ some p → r ≢ p.send)
        → (h.chans r).buffer ≡ m ∷ ms
        → HubReach start (taken h r ms)

module _ {R : Type 0} where
  member-taken :
      (h : Hub R) (p : Peer) (ms : List (Message R))
      → member (taken h p.send ms).chans p ≡ record (member h.chans p) { inbox = ms }
  member-taken h p ms = ground arith

  member-other :
      (h : Hub R) (r : ℕ) (q : Peer) (ms : List (Message R))
      → r ≢ q.send
      → member (taken h r ms).chans q ≡ member h.chans q
  member-other h r q ms n = ground (arith, n)

  -- A peer whose channel is another one.
  view-same :
      (h : Hub R) (r : ℕ) (ms : List (Message R)) (j : String)
      → ((q : Peer) → lookup j h.peers ≡ some q → r ≢ q.send)
      → view (taken h r ms) j ≡ view h j
  view-same h r ms j apart = elim (Option-cases (lookup j h.peers)) [
    | inl gone ↦ view-none (taken h r ms) j gone ∙ sym (view-none h j gone)
    | inr (q, at_j) ↦
        view-some (taken h r ms) j q at_j
        ∙ ap (λ x. some x) (member-other h r q ms (apart q at_j))
        ∙ sym (view-some h j q at_j)
  ]

  view-taken :
      (h : Hub R) (k : String) (p : Peer) (ms : List (Message R))
      → IsValid h
      → lookup k h.peers ≡ some p
      → view (taken h p.send ms) ≡ enter k (record (member h.chans p) { inbox = ms }) (view h)
  unfolding enter
  view-taken h k p ms v there = fun_ext (λ j. elim (Bool-cases (k == j)) [
    | inl same ↦
        let at_j : lookup j h.peers ≡ some p =
          ap (λ x. lookup x h.peers) (sym ((eq_iff k j).0 same)) ∙ there in
        rw same (view-some (taken h p.send ms) j p at_j ∙ ap (λ x. some x) (member-taken h p ms))
    | inr other ↦
        let unlike = ne_of_eq_false k j other in
        rw other (view-same h p.send ms j (λ q at_j. send-ne h k j p q v there at_j unlike))
  ])

-- A hub that has just been made, on a store of empty channels.
pub new_hub-IsValid :
    {R : Type 0} (c : Channels R) → ((r : ℕ) → (c r).buffer ≡ []) → IsValid (new_hub c)
unfolding new_hub
new_hub-IsValid c empty = record {
  keyed = tt;
  named = tt;
  live = tt;
  apart = tt;
  bounded = λ r. omega (arith, ap length (empty r));
}

view-new_hub : {R : Type 0} (c : Channels R) → view (new_hub c) ≡ nobody
unfolding new_hub lookup
view-new_hub c = fun_ext (λ k. view-none (new_hub c) k refl)

module _ {R : Type 0} (json : Marshaler R) where
  reach-carry :
      (start : Room R) (g h : Hub R)
      → HubReach json g h
      → IsValid g
      → view g ≡ start
      → IsValid h × RoomReach json start (view h)
  reach-carry start g h begins v e = (v, subst (RoomReach json start) (sym e) here)
  reach-carry start g h' (handles {h} event r n q) v e =
      let (valid, way) = reach-carry start g h r v e in
      (
        event-IsValid json h h' event valid n q,
        steps event way (step-refines json h h' event valid n q),
      )
  reach-carry start g h' (drains {h} k p m ms r there full) v e =
      let (valid, way) = reach-carry start g h r v e in
      (
        taken-IsValid h p.send m ms full valid,
        subst (RoomReach json start) (sym (view-taken h k p ms valid there))
            (takes k (member h.chans p) m ms way (view-some h k p there) full),
      )
  reach-carry start g h' (drains_left {h} r m ms before apart full) v e =
      let (valid, way) = reach-carry start g h before v e in
      (
        taken-IsValid h r m ms full valid,
        subst (RoomReach json start)
            (sym (fun_ext (λ j. view-same h r ms j (λ q at_j. apart j q at_j)))) way,
      )

  -- Take a new hub on empty channels, and any history of admissible events that are handled to their
  -- end and of write pumps that each take the first message of a channel. At each of its points the hub
  -- is valid, and the room that it stands for is one that the empty room reaches by the same kind of
  -- history: steps of the room, and members that take the first message of their inbox.
  pub history-refines :
      (c : Channels R) (h : Hub R)
      → ((r : ℕ) → (c r).buffer ≡ [])
      → HubReach json (new_hub c) h
      → IsValid h × RoomReach json nobody (view h)
  history-refines c h empty r =
      reach-carry nobody (new_hub c) h r (new_hub-IsValid c empty) (view-new_hub c)
