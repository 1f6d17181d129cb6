-- ===== src/App/Direct.antt =====
-- cmd/client/main.go: from the first candidate that a peer sends to the direct connection.
use p_and_pp.Base.{
  ℕ, ◌+◌, ◌≡◌, refl, sym, ap, ◌∙◌, String, false, List, [], ◌∷◌, ◌++◌, none, some, arith, zero, suc,
  get_elem?,
}
use mathlib.Core.Option
use p_and_pp.Base.Results.{Result, ok}
use p_and_pp.Base.Texts.{Text}
use p_and_pp.Client.{Client, send_ice_candidate_json}
use p_and_pp.Ice.Candidate.{Candidate}
use p_and_pp.Ice.Gatherer.{Net, Pointer, default_port_start, default_port_end}
use p_and_pp.Ice.Gatherer.Pairing.{Describes}
use p_and_pp.Ice.Connection.{Connection, Bytes, send, address_text}
use p_and_pp.Ice.Agent.{Agent, new_agent, gather, connect, add_remote_candidate}
use p_and_pp.Ice.Agent.Choice.{connect_first}
use p_and_pp.Ice.Agent.Gathered.{gather_new}
use p_and_pp.App.{
  App, Codecs, Act, submits, schedules, sends, send_candidates, with_agent, start_ice,
  handle_remote_candidate, try_direct,
}

module _ {W C R : Type 0} (net : Net W C) (codecs : Codecs R) (clock : ℕ → ℕ × ℕ) where
  -- The frame with the candidate of a number, or the error that came before it.
  abbrev pub candidate_act : Client → String → ℕ → Pointer → Act R
  candidate_act c peer i q = submits (
      send_ice_candidate_json codecs.signals codecs.frames ok codecs.candidates codecs.messages c
        peer q.value (clock i).0 (clock i).1)

  get_elem-send_candidates :
      (c : Client) (peer : String) (ps : List Pointer) (k i : ℕ)
      → get_elem? (send_candidates net codecs clock c peer ps k) i
        ≡ Option.map (candidate_act c peer (k + i)) (get_elem? ps i)
  unfolding send_candidates
  get_elem-send_candidates c peer [] k i = refl
  get_elem-send_candidates c peer (p ∷ ps) k zero =
      let same : k ≡ k + 0 = omega arith in ap (λ n. some (candidate_act c peer n p)) same
  get_elem-send_candidates c peer (p ∷ ps) k (suc i) =
      let same : k + 1 + i ≡ k + suc i = omega arith in
      get_elem-send_candidates c peer ps (k + 1) i
      ∙ ap (λ n. Option.map (candidate_act c peer n) (get_elem? ps i)) same

  get_elem-sent :
      (c : Client) (peer : String) (ps : List Pointer) (i : ℕ)
      → get_elem? (send_candidates net codecs clock c peer ps 0) i
        ≡ Option.map (candidate_act c peer i) (get_elem? ps i)
  get_elem-sent c peer ps i =
      let same : 0 + i ≡ i = omega arith in
      get_elem-send_candidates c peer ps 0 i
      ∙ ap (λ n. Option.map (candidate_act c peer n) (get_elem? ps i)) same

  -- With no agent before it, a candidate makes a new one, which holds the gathered candidates.
  first_candidate :
      (v : W) (app : App C) (from : String) (remote : Candidate) (cs : List Pointer)
      → app.ice_agent ≡ none
      → (gather net v (new_agent default_port_start default_port_end)).2 ≡ ok cs
      → ((handle_remote_candidate net codecs clock v app from remote).1 ≡ record app {
        ice_agent = some (
            add_remote_candidate
              (gather net v (new_agent default_port_start default_port_end)).1
              remote);
      })
        × ((handle_remote_candidate net codecs clock v app from remote).2
            ≡ send_candidates net codecs clock app.client from cs 0 ++ schedules ∷ [])
  unfolding handle_remote_candidate start_ice
  first_candidate v app from remote cs absent found = (ap changed opened, ap acts opened ∙ sent)
    where
      opened : with_agent net codecs clock v app from ≡ start_ice net codecs clock v app from
      opened = rw absent refl

      changed : W × App C × List (Act R) → App C
      changed t = record t.1 {
        ice_agent = Option.map (λ a. add_remote_candidate a remote) t.1.ice_agent;
      }

      acts : W × App C × List (Act R) → List (Act R)
      acts t = t.2 ++ schedules ∷ []

      sent :
          acts (start_ice net codecs clock v app from)
          ≡ send_candidates net codecs clock app.client from cs 0 ++ schedules ∷ []
      sent = rw (start_ice, found) refl

module _ {C R : Type 0} (resolve : Text → Result Text) (send_to : C → Bytes → Text → Result ℕ)
    (bytes : String → Bytes) where
  -- An attempt with an agent that connects.
  pub try_direct-connect :
      (app : App C) (a b : Agent C) (conn : Connection C)
      → app.ice_conn ≡ none
      → app.ice_agent ≡ some a
      → connect resolve a ≡ (b, ok conn)
      → try_direct {R = R} resolve send_to bytes app ≡ (
        record app { ice_agent = some b; ice_conn = some conn },
        sends "Hello from direct UDP!" (send send_to conn (bytes "Hello from direct UDP!")) ∷ [],
      )
  unfolding try_direct
  try_direct-connect app a b conn none_yet here made = rw (none_yet, here, made) refl

  -- A connected application makes no second attempt.
  pub try_direct-again :
      (app : App C) (conn : Connection C)
      → app.ice_conn ≡ some conn
      → try_direct {R = R} resolve send_to bytes app ≡ (app, [])
  unfolding try_direct
  try_direct-again app conn there = rw there refl

module _ {W C R : Type 0} (net : Net W C) (codecs : Codecs R) (clock : ℕ → ℕ × ℕ)
    (resolve : Text → Result Text) (send_to : C → Bytes → Text → Result ℕ)
    (bytes : String → Bytes) where
  -- If an application with no agent and no connection gets a candidate whose address resolves, and the
  -- gathering that this starts finds candidates: the acts are one for each of them, in their order, which
  -- submits it to the sender of the candidate with the readings of its number, and then the start of one
  -- attempt to connect. That attempt opens a connection, on the socket of the first own candidate to the
  -- address of the peer's, keeps it and sends the greeting over it; and a second attempt changes and
  -- sends nothing.
  pub direct_path :
      (v : W) (app : App C) (from : String) (remote : Candidate) (p : Pointer) (ps : List Pointer)
      (addr : Text)
      → app.ice_agent ≡ none
      → app.ice_conn ≡ none
      → (gather net v (new_agent default_port_start default_port_end)).2 ≡ ok (p ∷ ps)
      → resolve (address_text remote) ≡ ok addr
      → (app' : App C) × (c : C) × (conn : Connection C) × (sent : List (Act R))
        × ((handle_remote_candidate net codecs clock v app from remote).2 ≡ sent ++ schedules ∷ [])
        × ((i : ℕ)
            → get_elem? sent i
              ≡ Option.map
                  (candidate_act net codecs clock app.client from i)
                  (get_elem? (p ∷ ps) i))
        × (try_direct {R = R} resolve send_to bytes
              (handle_remote_candidate net codecs clock v app from remote).1
            ≡ (
              app',
              sends "Hello from direct UDP!" (send send_to conn (bytes "Hello from direct UDP!"))
                  ∷ [],
            ))
        × (app'.ice_conn ≡ some conn)
        × (conn.conn ≡ some c)
        × Describes net p c
        × (conn.remote_addr ≡ addr)
        × (conn.closed ≡ false)
        × (try_direct {R = R} resolve send_to bytes app' ≡ (app', []))
  unfolding add_remote_candidate
  direct_path v app from remote p ps addr absent none_yet found e =
      let (changed, acts) =
        first_candidate net codecs clock v app from remote (p ∷ ps) absent found in
      let (g, same, own, paired) =
        gather_new net v default_port_start default_port_end (p ∷ ps) found in
      let a : Agent C = record {
        gatherer = g;
        local_candidates = p ∷ ps;
        remote_candidates = remote ∷ [];
        connection = none;
      } in
      let (c, conn, made, at, bound, mine, theirs, there, open_conn) =
        connect_first net resolve a p ps remote [] addr paired (sym own) refl refl e in
      let added : (handle_remote_candidate net codecs clock v app from remote).1
          ≡ record app { ice_agent = some a } =
        changed ∙ ap (λ x. record app { ice_agent = some (add_remote_candidate x remote) }) same in
      let app' : App C = record app {
        ice_agent = some (record a { connection = some conn });
        ice_conn = some conn;
      } in
      (
        app',
        c,
        conn,
        send_candidates net codecs clock app.client from (p ∷ ps) 0,
        acts,
        get_elem-sent net codecs clock app.client from (p ∷ ps),
        ap (try_direct resolve send_to bytes) added
            ∙ try_direct-connect resolve send_to bytes (record app { ice_agent = some a }) a
                (record a { connection = some conn }) conn none_yet refl made,
        refl,
        bound,
        at,
        there,
        open_conn,
        try_direct-again resolve send_to bytes app' conn refl,
      )
