-- ===== src/Server/World/Safety.antt =====
-- Whatever clients connect, write and leave, the hub gets only events that it can handle, and its map
-- lists the connections that are served.
use p_and_pp.Base.{ℕ, ◌≡◌, ◌≢◌, ◌↔◌, sym, ap, ◌∙◌, String, [], some, ◌⊎◌, inl, done, blocked}
use p_and_pp.Base.Results.{Result}
use p_and_pp.GoMap.{lookup}
use p_and_pp.Signaling.Message.{Message, Marshaler}
use p_and_pp.Signaling.Hub.{Peer, Hub, Event, Channels, register, unregister, broadcast, step}
use p_and_pp.Signaling.Hub.Invariant.{IsValid}
use p_and_pp.Signaling.Hub.Safety.{Admissible, Stalls, step-IsSafe}
use p_and_pp.Server.{read_frame}
use p_and_pp.Server.Session.{Session, running, unregistering, ended}
use p_and_pp.Server.World.{Stage, entering, serving, World, world, Reach}
use p_and_pp.Server.World.Invariant.{Inv, key, entering-IsNew}
use p_and_pp.Server.World.Steps.{Reach-Inv}

module _ {R : Type 0} (json : Marshaler R) (decode : R → Result (Message R)) where
  -- The events that the goroutines of the connections have for the hub.
  abbrev pub Hands : World R → Event R → Type 0
  Hands w (register p a b c) =
      (r : ℕ) × (w.connections r ≡ some (record { peer = p; stage = entering }))
  Hands w (unregister p a) =
      (r : ℕ) × (s : Session) × (w.connections r ≡ some (record { peer = p; stage = serving s }))
      × (s.handler ≡ unregistering)
  Hands w (broadcast m a) =
      (r : ℕ) × (p : Peer) × (s : Session) × (frame : R) × (now : ℕ) × (w.connections r
        ≡ some (record { peer = p; stage = serving s }))
      × (s.reader ≡ running)
      × (read_frame decode p frame now ≡ some m)

  Hands-Admissible : (w : World R) (e : Event R) → Inv w → Hands w e → Admissible w.hub e
  Hands-Admissible w (register p a b c) i (r, e) = entering-IsNew w i r p e
  Hands-Admissible w (unregister p a) i (r, s, e, busy) =
      inl ((i.placed r (record { peer = p; stage = serving s }) e).0 (λ over. cc (over, busy)))
  Hands-Admissible w (broadcast m a) i h = tt

  -- From the start of the server, on empty channels, whatever connections come, write, read and go, in
  -- any order of the goroutines' steps, and if no two connections draw the same id: every event that a
  -- goroutine has for the hub is handled to its end and leaves a valid hub, or it is a message to an
  -- unknown target from a registered sender whose buffer is full, and then the hub waits. The server
  -- never panics.
  pub server-IsSafe :
      (c : Channels R) (w : World R) (e : Event R)
      → ((r : ℕ) → (c r).buffer ≡ [])
      → Reach json decode (world c) w
      → Hands w e
      → ((h : Hub R) × (step json w.hub e ≡ done h) × IsValid h)
        ⊎ ((step json w.hub e ≡ blocked) × Stalls w.hub e)
  server-IsSafe c w e empty r h =
      let i = Reach-Inv json decode c empty r in
      step-IsSafe json w.hub e i.valid (Hands-Admissible w e i h)

  -- In every such state, the hub's map holds a peer under a key exactly if the key is the peer's id and
  -- there is a connection of this peer that was registered and whose handler has not unregistered it.
  pub map_lists_served :
      (c : Channels R) (w : World R) (k : String) (p : Peer)
      → ((r : ℕ) → (c r).buffer ≡ [])
      → Reach json decode (world c) w
      → (lookup k w.hub.peers ≡ some p) ↔ (
          (p.id ≡ k)
          × (r : ℕ) × (s : Session) × (w.connections r
              ≡ some (record { peer = p; stage = serving s }))
          × (s.handler ≢ ended))
  map_lists_served c w k p empty r = (listed, served)
    where
      i : Inv w
      i = Reach-Inv json decode c empty r

      by_stage :
          (t : Stage)
          → lookup k w.hub.peers ≡ some p
          → w.connections p.send ≡ some (record { peer = p; stage = t })
          → (r : ℕ) × (s : Session) × (w.connections r
              ≡ some (record { peer = p; stage = serving s }))
            × (s.handler ≢ ended)
      by_stage entering e there =
          let (gone, fresh) = i.placed p.send (record { peer = p; stage = entering }) there in
          cc (gone, ap (λ x. lookup x w.hub.peers) (key w i k p e), e)
      by_stage (serving s) e there = (
        p.send,
        s,
        there,
        λ over.
            let (in_map, gone) = i.placed p.send (record { peer = p; stage = serving s }) there in
            cc (gone over, ap (λ x. lookup x w.hub.peers) (key w i k p e), e),
      )

      listed :
          lookup k w.hub.peers ≡ some p
          → (p.id ≡ k)
            × (r : ℕ) × (s : Session) × (w.connections r
                ≡ some (record { peer = p; stage = serving s }))
            × (s.handler ≢ ended)
      listed e =
          let (t, there) = i.complete k p e in
          let (q, s, at_q, n) = by_stage t e there in (key w i k p e, q, s, at_q, n)

      served :
          (p.id ≡ k)
            × (r : ℕ) × (s : Session) × (w.connections r
                ≡ some (record { peer = p; stage = serving s }))
            × (s.handler ≢ ended)
          → lookup k w.hub.peers ≡ some p
      served (named, q, s, at_q, n) =
          ap (λ x. lookup x w.hub.peers) (sym named)
          ∙ (i.placed q (record { peer = p; stage = serving s }) at_q).0 n
