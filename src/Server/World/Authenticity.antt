-- ===== src/Server/World/Authenticity.antt =====
-- Who wrote the messages that wait in the channels.
use p_and_pp.Base.{
  ℕ, ◌≡◌, refl, sym, ap, ◌∙◌, subst, [], Option, none, some, ◌⊎◌, inl, inr, All, All-imp, arith,
  nat_eq, Bool-cases,
}
use p_and_pp.Base.Results.{Result, ok, err}
use p_and_pp.Channel.{make}
use p_and_pp.Signaling.Message.{Message, Marshaler}
use p_and_pp.Signaling.Hub.{Peer, Channels, register, unregister, broadcast, new_hub}
use p_and_pp.Signaling.Hub.Elsewhere.{Waiting, Waiting-step}
use p_and_pp.Server.{read_frame, new_peer}
use p_and_pp.Server.Session
use p_and_pp.Server.Session.{Session, ended}
use p_and_pp.Server.World.{
  Stage, entering, serving, Connection, World, at, world, Step, accepts, registers, reads, writes,
  moves, unregisters, Reach, here, next,
}
use p_and_pp.Server.World.Invariant.{Inv, entering-IsNew}
use p_and_pp.Server.World.Steps.{Reach-Inv}

-- The table keeps every connection, with its peer.
abbrev Keeps : (ℕ → Option Connection) → (ℕ → Option Connection) → Type 0
Keeps cs ds =
    (r : ℕ) (c : Connection)
    → cs r ≡ some c
    → (d : Connection) × (ds r ≡ some d) × (d.peer ≡ c.peer)

module _ {R : Type 0} where
  -- The hub's own message, or one of a connection of the table, under that connection's id.
  abbrev pub Authentic : (ℕ → Option Connection) → Message R → Type 0
  Authentic cs m =
      (m.from ≡ "") ⊎ ((r : ℕ) × (c : Connection) × (cs r ≡ some c) × (m.from ≡ c.peer.id))

  Authentic-kept :
      (cs ds : ℕ → Option Connection)
      → Keeps cs ds
      → (m : Message R) → Authentic cs m
      → Authentic ds m
  Authentic-kept cs ds k m (inl own) = inl own
  Authentic-kept cs ds k m (inr (r, c, there, from)) =
      let (d, still, same) = k r c there in
      inr (r, d, still, from ∙ ap (λ (p : Peer). p.id) (sym same))

  Waiting-kept :
      (cs ds : ℕ → Option Connection) (c : Channels R)
      → Keeps cs ds
      → Waiting (Authentic cs) c
      → Waiting (Authentic ds) c
  Waiting-kept cs ds c k w q =
      All-imp (Authentic cs) (Authentic ds) (c q).buffer (Authentic-kept cs ds k) (w q)

-- Replacing a connection by another stage of it.
Keeps-stage :
    (cs : ℕ → Option Connection) (r : ℕ) (p : Peer) (t t' : Stage)
    → cs r ≡ some (record { peer = p; stage = t })
    → Keeps cs (at cs r (record { peer = p; stage = t' }))
Keeps-stage cs r p t t' e q c f = elim (Bool-cases (nat_eq r q)) [
  | inl same ↦
      let eq : r ≡ q = ground arith in
      let is : some (record { peer = p; stage = t }) ≡ some c = sym e ∙ ap cs eq ∙ f in
      (record { peer = p; stage = t' }, rw same, cc is)
  | inr other ↦ (c, rw other f, refl)
]

Keeps-new :
    (cs : ℕ → Option Connection) (r : ℕ) (c : Connection) → cs r ≡ none → Keeps cs (at cs r c)
Keeps-new cs r c e q d f = elim (Bool-cases (nat_eq r q)) [
  | inl same ↦ let eq : r ≡ q = ground arith in cc (ap cs eq, e, f)
  | inr other ↦ (d, rw other f, refl)
]

module _ {R : Type 0} (json : Marshaler R) (decode : R → Result (Message R)) where
  read_frame_from :
      (p : Peer) (frame : R) (now : ℕ) (m : Message R)
      → read_frame decode p frame now ≡ some m
      → m.from ≡ p.id
  unfolding read_frame
  read_frame_from p frame now m e = go (decode frame) refl
    where
      go : (r : Result (Message R)) → decode frame ≡ r → m.from ≡ p.id
      go (ok x) q =
          let made : read_frame decode p frame now
              ≡ some (record x { from = p.id; timestamp = now }) =
            rw (q, read_frame) refl in
          let same : record x { from = p.id; timestamp = now } ≡ m = cc (e, made) in
          ap (λ (y : Message R). y.from) (sym same)
      go (err x) q =
          let made : read_frame decode p frame now ≡ none = rw (q, read_frame) refl in cc (e, made)

  Authenticity : World R → Type 0
  Authenticity w = Waiting (Authentic w.connections) w.hub.chans

  Step-Authenticity :
      {w u : World R} → Step json decode w u → Inv w → Authenticity w → Authenticity u
  unfolding Authenticity new_peer make
  Step-Authenticity {w} (accepts r id now e fresh) i a =
      let p : Peer = record { id = id; send = r; joined_at = now } in
      let cs = at w.connections r (record { peer = p; stage = entering }) in
      let kept =
        Waiting-kept w.connections cs w.hub.chans
          (Keeps-new w.connections r (record { peer = p; stage = entering }) e) a in
      λ q. elim (Bool-cases (nat_eq r q)) [ inl same ↦ rw same tt | inr other ↦ rw other (kept q) ]
  Step-Authenticity {w} (registers r p b c d h e s) i a =
      let n = entering-IsNew w i r p e in
      let cs = at w.connections r (record { peer = p; stage = serving Session.start }) in
      Waiting-step (Authentic cs) json (λ m own. inl own) w.hub h i.valid (register p b c d) n tt s
        (Waiting-kept w.connections cs w.hub.chans (Keeps-stage w.connections r p entering _ e) a)
  Step-Authenticity {w} (reads r p s frame m now b h e run read st) i a =
      Waiting-step (Authentic w.connections) json (λ m own. inl own) w.hub h i.valid (broadcast m b)
        tt (inr (r, record { peer = p; stage = serving s }, e, read_frame_from p frame now m read))
        st a
  Step-Authenticity {w} (writes r p s m ms e run full) i a = λ q.
      elim (Bool-cases (nat_eq p.send q)) [
        | inl same ↦ rw same (subst (All (Authentic w.connections)) full (a p.send)).1
        | inr other ↦ rw other (a q)
      ]
  Step-Authenticity {w} (moves r p s t e st keep) i a =
      Waiting-kept w.connections (at w.connections r (record { peer = p; stage = serving t }))
        w.hub.chans (Keeps-stage w.connections r p (serving s) (serving t) e) a
  Step-Authenticity {w} (unregisters r p s b h e busy st) i a =
      let cs =
        at w.connections r (record { peer = p; stage = serving (record s { handler = ended }) }) in
      let known =
        (i.placed r (record { peer = p; stage = serving s }) e).0 (λ over. cc (over, busy)) in
      Waiting-step (Authentic cs) json (λ m own. inl own) w.hub h i.valid (unregister p b)
        (inl known) tt st
        (Waiting-kept w.connections cs w.hub.chans (Keeps-stage w.connections r p (serving s) _ e)
          a)

  -- From the start of the server on empty channels, in any order of the goroutines' steps and if no two
  -- connections draw the same id: every message that waits in any channel is one of the hub's own,
  -- with no sender, or its sender is the id of a connection that the server has accepted, whatever
  -- the clients wrote into their frames.
  pub Waiting-Authentic :
      (c : Channels R) (w : World R)
      → ((r : ℕ) → (c r).buffer ≡ [])
      → Reach json decode (world c) w
      → Waiting (Authentic w.connections) w.hub.chans
  unfolding Authenticity new_hub
  Waiting-Authentic c w empty r = go r
    where
      go : {u : World R} → Reach json decode (world c) u → Authenticity u
      go here = λ q. subst (All (Authentic (λ r. none))) (sym (empty q)) tt
      go (next before s) = Step-Authenticity s (Reach-Inv json decode c empty before) (go before)
