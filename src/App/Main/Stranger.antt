-- ===== src/App/Main/Stranger.antt =====
-- `handleRemoteICECandidate` on an agent that was started for another peer.
use p_and_pp.Base.{ℕ, ◌≡◌, refl, sym, ap, ◌∙◌, String, Bool, List, [], ◌∷◌, ◌++◌, none, some}
use p_and_pp.Base.Results.{Result, ok}
use p_and_pp.Base.Texts.{Text}
use p_and_pp.Transport.{Unmarshaler}
use p_and_pp.Ice.Candidate.{Candidate}
use p_and_pp.Ice.Gatherer.{Net, Pointer, default_port_start, default_port_end}
use p_and_pp.Ice.Connection.{Connection, Bytes, address_text}
use p_and_pp.Ice.Agent.{Agent, new_agent, gather, connect, add_remote_candidate}
use p_and_pp.Ice.Agent.Choice.{connect_first}
use p_and_pp.Ice.Agent.Gathered.{gather_new}
use p_and_pp.App.{App, Codecs, start_ice, handle_remote_candidate}
use p_and_pp.App.Attempts.{sleeping, over}
use p_and_pp.App.Main.{Running, Happening, advances, advance, advance_at, react, program}
use p_and_pp.App.Main.Outcome.{connection_stays}

module _ {W C R : Type 0} (net : Net W C) (codecs : Codecs R) (dec : Unmarshaler R)
    (wrote : R → Result (Unit {0})) (resolve : Text → Result Text)
    (send_to : C → Bytes → Text → Result ℕ) (bytes : String → Bytes) where
  -- The application after `startICE` for a peer and a candidate from a sender, with the goroutine that
  -- this candidate starts and no other.
  abbrev pub approached : (ℕ → ℕ × ℕ) → W → App C → String → String → Candidate → Running C
  approached clock w app peer sender remote =
      let (w', app', acts) = start_ice net codecs clock w app peer in
      record {
        app = (handle_remote_candidate net codecs clock w' app' sender remote).1;
        attempts = sleeping ∷ [];
      }

  -- The three steps of that goroutine.
  abbrev pub attempt : (ℕ → ℕ × ℕ) → List (Happening R × (ℕ → ℕ × ℕ))
  attempt clock = (advances 0, clock) ∷ (advances 0, clock) ∷ (advances 0, clock) ∷ []

  program-attempt :
      (clock : ℕ → ℕ × ℕ) (use_ice : Bool) (v : W) (app : App C) (a b : Agent C)
      (conn : Connection C) (happenings : List (Happening R × (ℕ → ℕ × ℕ)))
      → app.ice_conn ≡ none
      → app.ice_agent ≡ some a
      → connect resolve a ≡ (b, ok conn)
      → (program net codecs dec wrote resolve send_to bytes use_ice v
          (record { app = app; attempts = sleeping ∷ [] })
          (attempt clock ++ happenings)).1
        ≡ (program net codecs dec wrote resolve send_to bytes use_ice v
            (record {
              app = record app { ice_agent = some b; ice_conn = some conn };
              attempts = over ∷ [];
            })
            happenings).1
  unfolding program react advance_at advance
  program-attempt clock use_ice v app a b conn happenings none_yet here made =
      rw (none_yet, here, made) refl

  -- Take an application with no direct connection that starts ICE for a peer and finds candidates, while no
  -- goroutine is trying to connect. Let the next candidate to come resolve, whoever sends it, and let the
  -- goroutine that it starts take its steps before anything else happens. Then the direct connection goes to
  -- that candidate; and it is the connection that the application keeps, whatever happens after that,
  -- candidates of the peer that was meant included.
  pub stranger_connects :
      (clock : ℕ → ℕ × ℕ) (use_ice : Bool) (w v : W) (app : App C) (peer sender : String)
      (remote : Candidate) (p : Pointer) (ps : List Pointer) (addr : Text)
      (happenings : List (Happening R × (ℕ → ℕ × ℕ)))
      → app.ice_conn ≡ none
      → (gather net w (new_agent default_port_start default_port_end)).2 ≡ ok (p ∷ ps)
      → resolve (address_text remote) ≡ ok addr
      → (conn : Connection C) × (conn.remote_candidate ≡ remote)
        × (conn.remote_addr ≡ addr)
        × ((program net codecs dec wrote resolve send_to bytes use_ice v
              (approached clock w app peer sender remote)
              (attempt clock ++ happenings)).1.app.ice_conn
            ≡ some conn)
  unfolding start_ice handle_remote_candidate add_remote_candidate
  stranger_connects clock use_ice w v app peer sender remote p ps addr happenings none_yet found e =
      let (g, same, own, paired) =
        gather_new net w default_port_start default_port_end (p ∷ ps) found in
      let a : Agent C = record {
        gatherer = g;
        local_candidates = p ∷ ps;
        remote_candidates = remote ∷ [];
        connection = none;
      } in
      let (c, conn, made, at, bound, mine, theirs, there, open_conn) =
        connect_first net resolve a p ps remote [] addr paired (sym own) refl refl e in
      (
        conn,
        theirs,
        there,
        ap
              (λ x.
                (program net codecs dec wrote resolve send_to bytes use_ice v
                  (record {
                    app = record app { ice_agent = some (add_remote_candidate x remote) };
                    attempts = sleeping ∷ [];
                  })
                  (attempt clock ++ happenings)).1.app.ice_conn)
              same
            ∙ ap (λ r. r.app.ice_conn)
                (program-attempt clock use_ice v (record app { ice_agent = some a }) a
                  (record a { connection = some conn }) conn happenings none_yet refl made)
            ∙ connection_stays net codecs dec wrote resolve send_to bytes use_ice v
                (record {
                  app = record app {
                    ice_agent = some (record a { connection = some conn });
                    ice_conn = some conn;
                  };
                  attempts = over ∷ [];
                })
                conn happenings refl (tt, tt),
      )
