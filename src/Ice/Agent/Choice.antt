-- ===== src/Ice/Agent/Choice.antt =====
-- The pair of candidates that the agent connects.
use p_and_pp.Base.{◌≡◌, refl, sym, ap, ◌∙◌, false, List, [], ◌∷◌, some, arith, subst}
use p_and_pp.Base.Results.{Result, ok}
use p_and_pp.Base.Texts.{Text}
use p_and_pp.Ice.Candidate.{Candidate}
use p_and_pp.Ice.Connection.{Connection, new_connection, address_text}
use p_and_pp.Ice.Gatherer.{Net, Pointer}
use p_and_pp.Ice.Gatherer.Pairing.{Describes, Paired}
use p_and_pp.Ice.Agent.{Agent, find_listener, try_connect, connect, connect_with, keep_connection}

module _ {C : Type 0} where
  -- The listener of the first candidate is the first listener.
  pub find_first :
      (p : Pointer) (ps : List Pointer) (c : C) (cs : List C)
      → find_listener p (p ∷ ps) 0 (c ∷ cs) ≡ some c
  unfolding find_listener
  find_first p ps c cs = ground arith

  -- The connection that `Connect` makes of a pair.
  abbrev pub made : Pointer → Candidate → C → Text → Connection C
  made p remote c addr = record {
    local_candidate = p.value;
    remote_candidate = remote;
    conn = some c;
    remote_addr = addr;
    closed = false;
    has_handler = false;
  }

  try_first :
      (resolve : Text → Result Text) (a : Agent C) (p : Pointer) (ps : List Pointer)
      (remote : Candidate) (rs : List Candidate) (addr : Text) (c : C) (cs : List C)
      → a.gatherer.listeners ≡ c ∷ cs
      → resolve (address_text remote) ≡ ok addr
      → try_connect resolve a (p ∷ ps) (remote ∷ rs) ≡ ok (made p remote c addr)
  unfolding try_connect new_connection
  try_first resolve a p ps remote rs addr c cs q e =
      let found : find_listener p (p ∷ ps) 0 a.gatherer.listeners ≡ some c =
        ap (find_listener p (p ∷ ps) 0) q ∙ find_first p ps c cs in
      ap (connect_with resolve a p remote) found ∙ rw e

  pub connect-made :
      (resolve : Text → Result Text) (a : Agent C) (p : Pointer) (ps : List Pointer)
      (remote : Candidate) (rs : List Candidate) (addr : Text) (c : C) (cs : List C)
      → a.local_candidates ≡ p ∷ ps
      → a.remote_candidates ≡ remote ∷ rs
      → a.gatherer.listeners ≡ c ∷ cs
      → resolve (address_text remote) ≡ ok addr
      → connect resolve a
        ≡ (record a { connection = some (made p remote c addr) }, ok (made p remote c addr))
  unfolding connect
  connect-made resolve a p ps remote rs addr c cs l r q e =
      let tried : try_connect resolve a a.local_candidates a.remote_candidates
          ≡ ok (made p remote c addr) =
        (λ i. try_connect resolve a (l i) (r i))
        ∙ try_first resolve a p ps remote rs addr c cs q e in
      ap (keep_connection a) tried

module _ {W C : Type 0} (net : Net W C) where
  -- With the gatherer's candidates beside their listeners, an agent that holds them and a remote
  -- candidate whose address resolves connects: to the first remote candidate, from the first local one,
  -- on the socket that this candidate describes; and it keeps the connection, which is open.
  pub connect_first :
      (resolve : Text → Result Text) (a : Agent C) (p : Pointer) (ps : List Pointer)
      (remote : Candidate) (rs : List Candidate) (addr : Text)
      → Paired net a.gatherer.candidates a.gatherer.listeners
      → a.local_candidates ≡ a.gatherer.candidates
      → a.local_candidates ≡ p ∷ ps
      → a.remote_candidates ≡ remote ∷ rs
      → resolve (address_text remote) ≡ ok addr
      → (c : C) × (conn : Connection C) × (connect resolve a
          ≡ (record a { connection = some conn }, ok conn))
        × Describes net p c
        × (conn.conn ≡ some c)
        × (conn.local_candidate ≡ p.value)
        × (conn.remote_candidate ≡ remote)
        × (conn.remote_addr ≡ addr)
        × (conn.closed ≡ false)
  connect_first resolve a p ps remote rs addr paired same l r e =
      go a.gatherer.listeners refl
        (subst (λ x. Paired net x a.gatherer.listeners) (sym same ∙ l) paired)
    where
      go :
          (cs : List C)
          → a.gatherer.listeners ≡ cs
          → Paired net (p ∷ ps) a.gatherer.listeners
          → (c : C) × (conn : Connection C) × (connect resolve a
              ≡ (record a { connection = some conn }, ok conn))
            × Describes net p c
            × (conn.conn ≡ some c)
            × (conn.local_candidate ≡ p.value)
            × (conn.remote_candidate ≡ remote)
            × (conn.remote_addr ≡ addr)
            × (conn.closed ≡ false)
      go [] q h = absurd (subst (Paired net (p ∷ ps)) q h)
      go (c ∷ cs) q h = (
        c,
        made p remote c addr,
        connect-made resolve a p ps remote rs addr c cs l r q e,
        (subst (Paired net (p ∷ ps)) q h).0,
        refl,
        refl,
        refl,
        refl,
        refl,
      )
