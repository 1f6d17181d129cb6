-- ===== src/App/Attempts/Settling.antt =====
-- What the attempts to connect come to.
use p_and_pp.Base.{
  ℕ, zero, suc, ◌≤◌, ◌<◌, ◌≡◌, refl, String, List, [], ◌∷◌, Option, none, some, arith, length, All,
  inl, inr,
}
use p_and_pp.Base.Results.{Result, ok}
use p_and_pp.Base.Texts.{Text}
use p_and_pp.Ice.Candidate.{Candidate}
use p_and_pp.Ice.Gatherer.{Pointer}
use p_and_pp.Ice.Connection.{Connection, Bytes, address_text}
use p_and_pp.Ice.Agent.{Agent, connect}
use p_and_pp.Ice.Agent.Choice.{made, connect-made}
use p_and_pp.App.{App}
use p_and_pp.App.Attempts.{
  sleeping, unconnected, connected, over, Race, race, greeting, finds_none, connects, greets,
  Inevitably, now, later, Reach, here, next,
}
use p_and_pp.App.Attempts.Greetings.{Inv, advance, moves}
use p_and_pp.App.Attempts.Counting
use p_and_pp.App.Attempts.Counting.{
  steps_left, finished, total, total-at, Has, Has-at, sleepers-Has, length-at, unfinished,
  sleepers-total, each_over, length-sleepers,
}

module _ {C R : Type 0} (send_to : C → Bytes → Text → Result ℕ) (bytes : String → Bytes)
    (conn : Connection C) (n : ℕ) where
  -- All attempts are over, with one open connection and at most one greeting each.
  pub record Settled (s : Race C R) : Type 0 where
    pub all_over : All (λ t. t ≡ over) s.attempts
    pub conn_kept : s.app.ice_conn ≡ some conn
    pub greeted : 1 ≤ length s.acts
    pub at_most : length s.acts ≤ n
    pub greetings : All (λ x. x ≡ greeting send_to bytes conn) s.acts

module _ {C R : Type 0} (resolve : Text → Result Text) (send_to : C → Bytes → Text → Result ℕ)
    (bytes : String → Bytes) (a : Agent C) (conn : Connection C)
    (ready : (x : Option (Connection C))
      → connect resolve (record a { connection = x })
        ≡ (record a { connection = some conn }, ok conn))
    (n : ℕ) where
  settled :
      (s : Race C R)
      → 1 ≤ n
      → Inv resolve send_to bytes a conn ready n s
      → total steps_left s.attempts ≡ 0
      → Settled send_to bytes conn n s
  settled s some_attempt i e =
      let counted = Counting.all_over s.attempts e in
      elim i.kept [
        | inl k ↦ absurd (omega (arith, counted, i.many, k.1, some_attempt))
        | inr k ↦ record {
          all_over = each_over s.attempts e;
          conn_kept = k.0;
          greeted = k.1;
          at_most = omega (arith, counted, i.many, i.count);
          greetings = i.greetings;
        }
      ]

  settle_inevitable :
      (fuel : ℕ) (s : Race C R)
      → 1 ≤ n
      → Inv resolve send_to bytes a conn ready n s
      → total steps_left s.attempts < fuel
      → Inevitably resolve send_to bytes (Settled send_to bytes conn n) s
  settle_inevitable zero s p i r = absurd (omega (arith, r))
  settle_inevitable (suc fuel) s p i r = elim (moves resolve send_to bytes a conn ready n s i) [
    | inl e ↦ now (settled s p i e)
    | inr (t, first) ↦ later t first (λ u step.
        let (j, less) = advance resolve send_to bytes a conn ready n s u step i in
        settle_inevitable fuel u p j (omega (arith, less, r)))
  ]

module _ {C R : Type 0} (resolve : Text → Result Text) (send_to : C → Bytes → Text → Result ℕ)
    (bytes : String → Bytes) where
  begin-Inv :
      (app : App C) (a : Agent C) (conn : Connection C)
      (ready : (x : Option (Connection C))
        → connect resolve (record a { connection = x })
          ≡ (record a { connection = some conn }, ok conn))
      (n : ℕ)
      → app.ice_agent ≡ some a
      → app.ice_conn ≡ none
      → Inv {R = R} resolve send_to bytes a conn ready n (race app n)
  begin-Inv app a conn ready n agent none_yet = record {
    agent = (a.connection, agent);
    has = sleepers-Has conn n;
    many = length-sleepers C n;
    greetings = tt;
    count = omega arith;
    kept = inl (none_yet, sleepers-total C n);
  }

  -- Take an application with no connection, whose agent has a local candidate, a remote candidate whose
  -- address resolves, and a listener. In whatever order the steps of one or more attempts are taken, they
  -- all come to their end, and then the application has a connection of the first candidates on the
  -- first listener; at least one greeting was sent and at most one for each attempt, each over such a
  -- connection.
  pub attempts_settle :
      (app : App C) (a : Agent C) (p : Pointer) (ps : List Pointer) (remote : Candidate)
      (rs : List Candidate) (addr : Text) (c : C) (cs : List C) (m : ℕ)
      → app.ice_agent ≡ some a
      → app.ice_conn ≡ none
      → a.local_candidates ≡ p ∷ ps
      → a.remote_candidates ≡ remote ∷ rs
      → a.gatherer.listeners ≡ c ∷ cs
      → resolve (address_text remote) ≡ ok addr
      → Inevitably {R = R} resolve send_to bytes
          (Settled send_to bytes (made p remote c addr) (suc m))
          (race app (suc m))
  attempts_settle app a p ps remote rs addr c cs m agent none_yet l r q e =
      let conn = made p remote c addr in
      let ready : (x : Option (Connection C))
          → connect resolve (record a { connection = x })
            ≡ (record a { connection = some conn }, ok conn) =
        λ x. connect-made resolve (record a { connection = x }) p ps remote rs addr c cs l r q e in
      settle_inevitable resolve send_to bytes a conn ready (suc m)
        (suc (total steps_left (race {R = R} app (suc m)).attempts)) (race app (suc m))
        (omega arith) (begin-Inv app a conn ready (suc m) agent none_yet) (omega arith)

  -- With the same application, two attempts can both open a connection and both send the greeting: the
  -- order in which each tests for a connection before either has one leads to two greetings.
  pub both_greet :
      (app : App C) (a : Agent C) (p : Pointer) (ps : List Pointer) (remote : Candidate)
      (rs : List Candidate) (addr : Text) (c : C) (cs : List C)
      → app.ice_agent ≡ some a
      → app.ice_conn ≡ none
      → a.local_candidates ≡ p ∷ ps
      → a.remote_candidates ≡ remote ∷ rs
      → a.gatherer.listeners ≡ c ∷ cs
      → resolve (address_text remote) ≡ ok addr
      → (s : Race C R) × Reach resolve send_to bytes (race app 2) s
        × (s.attempts ≡ over ∷ over ∷ [])
        × (s.acts
            ≡ greeting send_to bytes (made p remote c addr)
              ∷ greeting send_to bytes (made p remote c addr)
              ∷ [])
  both_greet app a p ps remote rs addr c cs agent none_yet l r q e =
      let conn = made p remote c addr in
      let kept : Agent C = record a { connection = some conn } in
      (
        record {
          app = record app { ice_agent = some kept; ice_conn = some conn };
          attempts = over ∷ over ∷ [];
          acts = greeting send_to bytes conn ∷ greeting send_to bytes conn ∷ [];
        },
        next
            (next
              (next
                (next
                  (next (next here (finds_none [] (sleeping ∷ []) refl none_yet))
                    (finds_none (unconnected ∷ []) [] refl none_yet))
                  (connects [] (unconnected ∷ []) a kept conn refl agent
                    (connect-made resolve a p ps remote rs addr c cs l r q e)))
                (connects (connected conn ∷ []) [] kept kept conn refl refl
                  (connect-made resolve kept p ps remote rs addr c cs l r q e)))
              (greets [] (connected conn ∷ []) conn refl))
            (greets (over ∷ []) [] conn refl),
        refl,
        refl,
      )
