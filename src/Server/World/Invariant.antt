-- ===== src/Server/World/Invariant.antt =====
-- What holds of the server in every state: how its connections and the hub's map belong together.
use p_and_pp.Base.{
  ℕ, ◌≡◌, ◌≢◌, refl, sym, ap, ◌∙◌, String, ◌==◌, eq_iff, eq_refl, List, [], ◌∷◌, Option, none, some,
  arith, nat_eq, length, Bool-cases, ◌⊎◌, inl, inr,
}
use p_and_pp.GoMap.{lookup, lookup_of_Lacks, has_of_lookup-none, Keyed, All-lookup}
use p_and_pp.Channel.{Chan, make}
use p_and_pp.Signaling.Message.{Message}
use p_and_pp.Signaling.Hub.{Peer, Hub}
use p_and_pp.Signaling.Hub.Delivery.{Unused}
use p_and_pp.Signaling.Hub.Invariant.{IsValid, IsNew}
use p_and_pp.Server.Session.{ended}
use p_and_pp.Server.World.{Stage, entering, serving, Connection, World, at}

-- A peer is in the map after its registration and until its handler has unregistered it; before, its
-- channel is as it was made.
abbrev pub Placed : {R : Type 0} → Hub R → Peer → Stage → Type 0
Placed h p entering = (lookup p.id h.peers ≡ none) × (h.chans p.send ≡ make 256)
Placed h p (serving s) =
    (s.handler ≢ ended → lookup p.id h.peers ≡ some p)
    × (s.handler ≡ ended → lookup p.id h.peers ≡ none)

-- What another change leaves of a peer's place.
pub Placed-same :
    {R : Type 0} (h h' : Hub R) (p : Peer) (t : Stage)
    → lookup p.id h'.peers ≡ lookup p.id h.peers
    → (t ≡ entering → h'.chans p.send ≡ h.chans p.send)
    → Placed h p t
    → Placed h' p t
Placed-same h h' p entering l c (gone, fresh) = (l ∙ gone, c refl ∙ fresh)
Placed-same h h' p (serving s) l c (there, gone) = (λ n. l ∙ there n, λ e. l ∙ gone e)

pub record Inv {R : Type 0} (w : World R) : Type 0 where
  pub valid : IsValid w.hub
  pub own : (r : ℕ) (c : Connection) → w.connections r ≡ some c → c.peer.send ≡ r
  pub apart :
      (r q : ℕ) (c d : Connection)
      → w.connections r ≡ some c
      → w.connections q ≡ some d
      → c.peer.id ≡ d.peer.id
      → r ≡ q
  pub placed : (r : ℕ) (c : Connection) → w.connections r ≡ some c → Placed w.hub c.peer c.stage
  pub complete :
      (k : String) (p : Peer)
      → lookup k w.hub.peers ≡ some p
      → (t : Stage) × (w.connections p.send ≡ some (record { peer = p; stage = t }))

pub at_self : (cs : ℕ → Option Connection) (r : ℕ) (c : Connection) → at cs r c r ≡ some c
at_self cs r c = ground arith

pub at_other : (cs : ℕ → Option Connection) (r q : ℕ) (c : Connection) → r ≢ q → at cs r c q ≡ cs q
at_other cs r q c n = ground (arith, n)

-- A connection of the table is the one that was put there, or an old one.
pub at-cases :
    (cs : ℕ → Option Connection) (r q : ℕ) (c d : Connection)
    → at cs r c q ≡ some d
    → ((r ≡ q) × (d ≡ c)) ⊎ ((r ≢ q) × (cs q ≡ some d))
at-cases cs r q c d e = elim (Bool-cases (nat_eq r q)) [
  | inl same ↦
      let eq : r ≡ q = ground arith in
      let found : at cs r c q ≡ some c = rw same in inl (eq, cc (e, found))
  | inr other ↦ let ne : r ≢ q = λ s. ground arith in inr (ne, sym (at_other cs r q c ne) ∙ e)
]

-- A channel that no lookup finds is not used.
pub Unused-of_lookup :
    (r : ℕ) (ps : List (String × Peer))
    → Keyed ps
    → ((k : String) (p : Peer) → lookup k ps ≡ some p → p.send ≢ r)
    → Unused r ps
unfolding lookup
Unused-of_lookup r [] k f = tt
Unused-of_lookup r ((j, q) ∷ ps) k f = (
  f j q (rw (eq_refl j)),
  Unused-of_lookup r ps k.1 (λ i p e. f i p (elim (Bool-cases (j == i)) [
    | inl same ↦
        let at_j : lookup j ps ≡ some p = ap (λ x. lookup x ps) ((eq_iff j i).0 same) ∙ e in
        cc (at_j, lookup_of_Lacks j ps k.0)
    | inr other ↦ rw other e
  ])),
)

module _ {R : Type 0} (w : World R) (i : Inv w) where
  -- The map's key is the peer's id.
  pub key : (k : String) (p : Peer) → lookup k w.hub.peers ≡ some p → p.id ≡ k
  key k p e = All-lookup (λ e. e.1.id ≡ e.0) k w.hub.peers p i.valid.named e

  -- A peer that has not been registered: no entry uses its channel.
  pub entering-Unused :
      (r : ℕ) (p : Peer)
      → w.connections r ≡ some (record { peer = p; stage = entering })
      → Unused p.send w.hub.peers
  entering-Unused r p e = Unused-of_lookup p.send w.hub.peers i.valid.keyed (λ k q found same.
      let (t, there) = i.complete k q found in
      let home = i.own r (record { peer = p; stage = entering }) e in
      let same_place : w.connections q.send ≡ some (record { peer = p; stage = entering }) =
        ap w.connections (same ∙ home) ∙ e in
      let peer_eq : q ≡ p = cc (there, same_place) in
      let missing = (i.placed r (record { peer = p; stage = entering }) e).0 in
      let found_id : lookup p.id w.hub.peers ≡ some q =
        ap (λ x. lookup x w.hub.peers) (ap (λ (x : Peer). x.id) (sym peer_eq) ∙ key k q found)
        ∙ found in
      cc (missing, found_id))

  pub entering-IsNew :
      (r : ℕ) (p : Peer)
      → w.connections r ≡ some (record { peer = p; stage = entering })
      → IsNew w.hub p
  unfolding make
  entering-IsNew r p e =
      let (missing, fresh) = i.placed r (record { peer = p; stage = entering }) e in
      record {
        unknown = has_of_lookup-none p.id w.hub.peers missing;
        unused = entering-Unused r p e;
        opened = ap (λ (c : Chan (Message R)). c.closed) fresh;
        room = omega (
          arith,
          ap (λ (c : Chan (Message R)). length c.buffer) fresh,
          ap (λ (c : Chan (Message R)). c.capacity) fresh,
        );
      }
