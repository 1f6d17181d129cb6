-- ===== src/Server/World/Steps.antt =====
-- Every step of the server keeps its invariant.
use p_and_pp.Base.{
  ℕ, ◌≡◌, ◌≢◌, refl, sym, ap, ◌∙◌, String, ◌==◌, eq_refl, eq_false, [], Option, none, some,
  if◌then◌else◌, arith, Bool-cases, ◌⊎◌, inl, inr, done,
}
use p_and_pp.Base.Results.{Result}
use p_and_pp.GoMap.{lookup}
use p_and_pp.Signaling.Message.{Message, Marshaler}
use p_and_pp.Signaling.Hub.{
  Peer, Hub, Event, Channels, register, unregister, broadcast, step, new_hub,
}
use p_and_pp.Signaling.Hub.Delivery.{Unused}
use p_and_pp.Signaling.Hub.Safety.{Admissible, event-IsValid}
use p_and_pp.Signaling.Hub.Drain.{taken, taken-IsValid}
use p_and_pp.Signaling.Hub.Elsewhere.{lookup_after, Outside, lookup-step, step-Outside}
use p_and_pp.Signaling.Room.Histories.{new_hub-IsValid}
use p_and_pp.Server.Session
use p_and_pp.Server.Session.{
  Session, running, unregistering, ended, reader_stops, writer_stops, reader_done, writer_done,
}
use p_and_pp.Server.World.{
  entering, serving, Connection, World, world, Step, accepts, registers, reads, writes, moves,
  unregisters, Reach, here, next,
}
use p_and_pp.Server.World.Invariant.{Placed, Placed-same, Inv, entering-Unused, entering-IsNew}
use p_and_pp.Server.World.Change.{evolve, rehub, accept-Inv}

-- An event about another peer.
abbrev Spares : {R : Type 0} → Event R → Peer → Type 0
Spares (register p a b c) q = (p.id ≢ q.id) × (p.send ≢ q.send)
Spares (unregister p a) q = p.id ≢ q.id
Spares (broadcast m a) q = Unit {0}

stays_ended : {s t : Session} → Session.Step s t → s.handler ≡ ended → t.handler ≡ ended
stays_ended (reader_stops r) e = e
stays_ended (writer_stops r) e = e
stays_ended (reader_done r h) e = cc (h, e)
stays_ended (writer_done r h) e = cc (h, e)
stays_ended (Session.unregisters h) e = refl

not_ended : Session.start.handler ≢ ended
unfolding Session.start
not_ended e = cc

back_register :
    (p : Peer) (k : String) (x : Peer) (found : Option Peer)
    → (if p.id == k then some p else found) ≡ some x
    → (found ≡ some x) ⊎ (x ≡ p)
back_register p k x found e = elim (Bool-cases (p.id == k)) [
  | inl same ↦
      let this : (if p.id == k then some p else found) ≡ some p = rw same in inr (cc (e, this))
  | inr other ↦
      let this : (if p.id == k then some p else found) ≡ found = rw other in inl (sym this ∙ e)
]

back_unregister :
    (id k : String) (x : Peer) (found : Option Peer)
    → (if id == k then none else found) ≡ some x
    → found ≡ some x
back_unregister id k x found e = elim (Bool-cases (id == k)) [
  | inl same ↦ let this : (if id == k then none else found) ≡ none = rw same in cc (e, this)
  | inr other ↦ let this : (if id == k then none else found) ≡ found = rw other in sym this ∙ e
]

module _ {R : Type 0} where
  lookup-spared :
      (e : Event R) (q : Peer) (found : Option Peer)
      → Spares e q
      → lookup_after e q.id found ≡ found
  lookup-spared (register p a b c) q found (n, m) = rw (eq_false p.id q.id n)
  lookup-spared (unregister p a) q found n = rw (eq_false p.id q.id n)
  lookup-spared (broadcast m a) q found n = refl

  Outside-spared :
      (h : Hub R) (e : Event R) (q : Peer) → Spares e q → Unused q.send h.peers → Outside h e q.send
  Outside-spared h (register p a b c) q (n, m) u = (u, m)
  Outside-spared h (unregister p a) q n u = u
  Outside-spared h (broadcast m a) q n u = u

  module _ (w : World R) (i : Inv w) where
    -- Two connections have two ids and two channels.
    apart_ids :
        (r q : ℕ) (c d : Connection)
        → w.connections r ≡ some c
        → w.connections q ≡ some d
        → r ≢ q
        → (c.peer.id ≢ d.peer.id) × (c.peer.send ≢ d.peer.send)
    apart_ids r q c d at_r at_q n = (
      λ same. n (i.apart r q c d at_r at_q same),
      λ same. n (sym (i.own r c at_r) ∙ same ∙ i.own q d at_q),
    )

module _ {R : Type 0} (json : Marshaler R) where
  module _ (w : World R) (i : Inv w) where
    -- An event leaves the place of every other connection.
    others_stay :
        (e : Event R) (h : Hub R)
        → Admissible w.hub e
        → step json w.hub e ≡ done h
        → (q : ℕ) (d : Connection) → w.connections q ≡ some d
        → Spares e d.peer
        → Placed h d.peer d.stage
    others_stay e h n s q d at_q spared =
        Placed-same w.hub h d.peer d.stage
          (lookup-step json w.hub h i.valid e n s d.peer.id
            ∙ lookup-spared e d.peer (lookup d.peer.id w.hub.peers) spared)
          (λ new.
            let whole : w.connections q ≡ some (record { peer = d.peer; stage = entering }) =
              at_q ∙ ap (λ x. some (record { peer = d.peer; stage = x })) new in
            step-Outside json w.hub h i.valid e n s d.peer.send
              (Outside-spared w.hub e d.peer spared (entering-Unused w i q d.peer whole)))
          (i.placed q d at_q)

module _ {R : Type 0} (json : Marshaler R) (decode : R → Result (Message R)) where
  Step-Inv : {w u : World R} → Step json decode w u → Inv w → Inv u
  Step-Inv {w} (accepts r id now e fresh) i = accept-Inv w i r id now e fresh
  Step-Inv {w} (registers r p a b c h e s) i =
      let n = entering-IsNew w i r p e in
      let event : Event R = register p a b c in
      evolve w i r p entering (serving Session.start) h e
        (event-IsValid json w.hub h event i.valid n s)
        (
          λ m. lookup-step json w.hub h i.valid event n s p.id ∙ rw (eq_refl p.id),
          λ over. absurd (not_ended over),
        )
        (λ q d ne old.
          others_stay json w i event h n s q d old
            (apart_ids w i r q (record { peer = p; stage = entering }) d e old ne))
        (λ k x found.
          back_register p k x (lookup k w.hub.peers)
            (sym (lookup-step json w.hub h i.valid event n s k) ∙ found))
  Step-Inv {w} (reads r p s frame m now a h e run read st) i =
      rehub w i h (event-IsValid json w.hub h (broadcast m a) i.valid tt st)
        (λ q d old. others_stay json w i (broadcast m a) h tt st q d old tt)
        (λ k x found. sym (lookup-step json w.hub h i.valid (broadcast m a) tt st k) ∙ found)
  Step-Inv {w} (writes r p s m ms e run full) i =
      rehub w i (taken w.hub p.send ms) (taken-IsValid w.hub p.send m ms full i.valid)
        (λ q d old.
          Placed-same w.hub (taken w.hub p.send ms) d.peer d.stage refl
            (λ new.
              let home = i.own r (record { peer = p; stage = serving s }) e in
              let ne : p.send ≢ d.peer.send = λ same.
                let place : r ≡ q = sym home ∙ same ∙ i.own q d old in
                let both : some (record { peer = p; stage = serving s }) ≡ some d =
                  sym e ∙ ap w.connections place ∙ old in
                cc (both, new) in
              ground (arith, ne))
            (i.placed q d old))
        (λ k x found. found)
  Step-Inv {w} (moves r p s t e st keep) i =
      let (there, gone) = i.placed r (record { peer = p; stage = serving s }) e in
      evolve w i r p (serving s) (serving t) w.hub e i.valid
        (λ n. there (λ over. n (stays_ended st over)), λ over. gone (keep over))
        (λ q d ne old. i.placed q d old) (λ k x found. inl found)
  Step-Inv {w} (unregisters r p s a h e busy st) i =
      let (there, gone) = i.placed r (record { peer = p; stage = serving s }) e in
      let event : Event R = unregister p a in
      let known = there (λ over. cc (over, busy)) in
      evolve w i r p (serving s) (serving (record s { handler = ended })) h e
        (event-IsValid json w.hub h event i.valid (inl known) st)
        (
          λ n. absurd (n refl),
          λ over. lookup-step json w.hub h i.valid event (inl known) st p.id ∙ rw (eq_refl p.id),
        )
        (λ q d ne old.
          others_stay json w i event h (inl known) st q d old
            (apart_ids w i r q (record { peer = p; stage = serving s }) d e old ne).0)
        (λ k x found. inl (
          back_unregister p.id k x (lookup k w.hub.peers)
            (sym (lookup-step json w.hub h i.valid event (inl known) st k) ∙ found)))

  start-Inv : (c : Channels R) → ((r : ℕ) → (c r).buffer ≡ []) → Inv (world c)
  unfolding new_hub lookup
  start-Inv c empty = record {
    valid = new_hub-IsValid c empty;
    own = λ r d e. cc e;
    apart = λ r q d f e g ids. cc e;
    placed = λ r d e. cc e;
    complete = λ k p e. cc e;
  }

  pub Reach-Inv :
      (c : Channels R) {w : World R}
      → ((r : ℕ) → (c r).buffer ≡ [])
      → Reach json decode (world c) w
      → Inv w
  Reach-Inv c empty here = start-Inv c empty
  Reach-Inv c empty (next r s) = Step-Inv s (Reach-Inv c empty r)
