-- ===== src/Server/World/Change.antt =====
-- How the server's invariant goes through a change of one connection, of the hub, and a new connection.
use p_and_pp.Base.{
  ℕ, ◌≡◌, ◌≢◌, refl, sym, ap, ◌∙◌, subst, String, none, some, arith, nat_eq, Bool-cases,
  Option-cases, ◌⊎◌, inl, inr,
}
use p_and_pp.GoMap.{lookup}
use p_and_pp.Channel.{make}
use p_and_pp.Signaling.Hub.{Peer, Hub}
use p_and_pp.Signaling.Hub.Delivery.{Unused}
use p_and_pp.Signaling.Hub.Invariant.{IsValid, Open-put}
use p_and_pp.Server.{new_peer}
use p_and_pp.Server.World.{Stage, entering, Connection, World, at}
use p_and_pp.Server.World.Invariant.{
  Placed, Placed-same, Inv, at_self, at_other, at-cases, Unused-of_lookup, key,
}

module _ {R : Type 0} (w : World R) (i : Inv w) where
  -- One connection goes from one stage to another, while the hub changes.
  pub evolve :
      (r : ℕ) (p : Peer) (t t' : Stage) (h : Hub R)
      → w.connections r ≡ some (record { peer = p; stage = t })
      → IsValid h
      → Placed h p t'
      → ((q : ℕ) (d : Connection) → r ≢ q → w.connections q ≡ some d → Placed h d.peer d.stage)
      → ((k : String) (x : Peer)
          → lookup k h.peers ≡ some x
          → (lookup k w.hub.peers ≡ some x) ⊎ (x ≡ p))
      → Inv (record { hub = h; connections = at w.connections r (record { peer = p; stage = t' }) })
  evolve r p t t' h e v here others back = record {
    valid = v;
    own = λ q d f. elim (at-cases w.connections r q c' d f) [
      | inl (same, is) ↦ ap (λ (x : Connection). x.peer.send) is ∙ home ∙ same
      | inr (ne, old) ↦ i.own q d old
    ];
    apart = λ q s d g f f' ids.
        let (d₀, was, d_id) = before q d f in
        let (g₀, was', g_id) = before s g f' in i.apart q s d₀ g₀ was was' (d_id ∙ ids ∙ sym g_id);
    placed = λ q d f. elim (at-cases w.connections r q c' d f) [
      | inl (same, is) ↦ subst (λ (x : Connection). Placed h x.peer x.stage) (sym is) here
      | inr (ne, old) ↦ others q d ne old
    ];
    complete = λ k x found. elim (back k x found) [
      | inr is ↦ (
        t',
        ap (at w.connections r c') (ap (λ (y : Peer). y.send) is ∙ home)
            ∙ at_self w.connections r c'
            ∙ ap (λ (y : Peer). some (record { peer = y; stage = t' })) (sym is),
      )
      | inl old ↦ let (u, there) = i.complete k x old in kept x u there
    ];
  }
    where
      c' : Connection
      c' = record { peer = p; stage = t' }

      home : p.send ≡ r
      home = i.own r (record { peer = p; stage = t }) e

      before :
          (q : ℕ) (d : Connection)
          → at w.connections r c' q ≡ some d
          → (d₀ : Connection) × (w.connections q ≡ some d₀) × (d₀.peer.id ≡ d.peer.id)
      before q d f = elim (at-cases w.connections r q c' d f) [
        | inl (same, is) ↦ (
          record { peer = p; stage = t },
          ap w.connections (sym same) ∙ e,
          ap (λ (x : Connection). x.peer.id) (sym is),
        )
        | inr (ne, old) ↦ (d, old, refl)
      ]

      kept :
          (x : Peer) (u : Stage)
          → w.connections x.send ≡ some (record { peer = x; stage = u })
          → (s : Stage) × (at w.connections r c' x.send ≡ some (record { peer = x; stage = s }))
      kept x u there = elim (Bool-cases (nat_eq r x.send)) [
        | inl same ↦
            let eq : r ≡ x.send = ground arith in
            let is : p ≡ x = cc (ap w.connections eq, there, e) in
            (
              t',
              ap (at w.connections r c') (sym eq)
                  ∙ at_self w.connections r c'
                  ∙ ap (λ (y : Peer). some (record { peer = y; stage = t' })) is,
            )
        | inr other ↦
            let ne : r ≢ x.send = λ s. ground arith in
            (u, at_other w.connections r x.send c' ne ∙ there)
      ]

  -- The hub changes and the connections stay.
  pub rehub :
      (h : Hub R)
      → IsValid h
      → ((q : ℕ) (d : Connection) → w.connections q ≡ some d → Placed h d.peer d.stage)
      → ((k : String) (x : Peer) → lookup k h.peers ≡ some x → lookup k w.hub.peers ≡ some x)
      → Inv (record { hub = h; connections = w.connections })
  rehub h v places back = record {
    valid = v;
    own = i.own;
    apart = i.apart;
    placed = places;
    complete = λ k x found. i.complete k x (back k x found);
  }

  -- A new connection on an unused channel, with an id that no connection has.
  pub accept-Inv :
      (r : ℕ) (id : String) (now : ℕ)
      → w.connections r ≡ none
      → ((q : ℕ) (c : Connection) → w.connections q ≡ some c → c.peer.id ≢ id)
      → Inv (record {
        hub = (new_peer w.hub id r now).1;
        connections =
            at w.connections r (record { peer = (new_peer w.hub id r now).0; stage = entering });
      })
  unfolding new_peer make
  accept-Inv r id now empty fresh = record {
    valid = record {
      keyed = i.valid.keyed;
      named = i.valid.named;
      live = Open-put w.hub.chans r (make 256) w.hub.peers unused i.valid.live;
      apart = i.valid.apart;
      bounded = λ q. ground (arith, i.valid.bounded q);
    };
    own = λ q d f. elim (at-cases w.connections r q c' d f) [
      | inl (same, is) ↦ ap (λ (x : Connection). x.peer.send) is ∙ same
      | inr (ne, old) ↦ i.own q d old
    ];
    apart = λ q s d g f f' ids. elim (at-cases w.connections r q c' d f) [
      | inl (same, is) ↦ elim (at-cases w.connections r s c' g f') [
        | inl (same', is') ↦ sym same ∙ same'
        | inr (ne, old) ↦ absurd (fresh s g old (sym ids ∙ ap (λ (x : Connection). x.peer.id) is))
      ]
      | inr (ne, old) ↦ elim (at-cases w.connections r s c' g f') [
        | inl (same', is') ↦ absurd (fresh q d old (ids ∙ ap (λ (x : Connection). x.peer.id) is'))
        | inr (ne', old') ↦ i.apart q s d g old old' ids
      ]
    ];
    placed = λ q d f. elim (at-cases w.connections r q c' d f) [
      | inl (same, is) ↦
          subst (λ (x : Connection). Placed (new_peer w.hub id r now).1 x.peer x.stage) (sym is)
            (missing, ground arith)
      | inr (ne, old) ↦ still q d ne old
    ];
    complete = λ k x found.
        let (u, there) = i.complete k x found in
        let ne : r ≢ x.send = λ same. cc (ap w.connections same, there, empty) in
        (u, at_other w.connections r x.send c' ne ∙ there);
  }
    where
      c' : Connection
      c' = record { peer = record { id = id; send = r; joined_at = now }; stage = entering }

      unused : Unused r w.hub.peers
      unused = Unused-of_lookup r w.hub.peers i.valid.keyed (λ k x found same.
          let (u, there) = i.complete k x found in cc (ap w.connections same, there, empty))

      missing : lookup id w.hub.peers ≡ none
      missing = elim (Option-cases (lookup id w.hub.peers)) [
        | inl gone ↦ gone
        | inr (x, found) ↦
            let (u, there) = i.complete id x found in
            absurd (fresh x.send (record { peer = x; stage = u }) there (key w i id x found))
      ]

      away : (k : ℕ) → r ≢ k → (new_peer w.hub id r now).1.chans k ≡ w.hub.chans k
      away k ne = ground (arith, ne)

      still :
          (q : ℕ) (d : Connection)
          → r ≢ q
          → w.connections q ≡ some d
          → Placed (new_peer w.hub id r now).1 d.peer d.stage
      still q d ne old =
          Placed-same w.hub (new_peer w.hub id r now).1 d.peer d.stage refl
            (λ e. away (d.peer.send) (λ same. ne (same ∙ i.own q d old))) (i.placed q d old)
