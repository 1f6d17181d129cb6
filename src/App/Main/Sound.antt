-- ===== src/App/Main/Sound.antt =====
-- The direct connection through every run of the program.
use p_and_pp.Base.{
  ℕ, ◌≡◌, refl, subst, String, false, List, [], ◌∷◌, Option, none, some, ◌⊎◌, inl, inr,
}
use p_and_pp.Base.Results.{Result, ok, err}
use p_and_pp.Base.Texts.{Text}
use p_and_pp.Transport.{Unmarshaler}
use p_and_pp.Ice.Candidate.{Candidate}
use p_and_pp.Ice.Gatherer
use p_and_pp.Ice.Gatherer.{
  Net, Gatherer, Pointer, new_gatherer, default_port_start, default_port_end,
}
use p_and_pp.Ice.Gatherer.Pairing.{Describes, Paired, gather-Paired}
use p_and_pp.Ice.Connection.{Connection, Bytes, new_connection, address_text}
use p_and_pp.Ice.Agent.{
  Agent, new_agent, gather, keep_gathered, add_remote_candidate, try_connect, connect, connect_with,
  keep_connection,
}
use p_and_pp.Ice.Agent.Choice.{find_first}
use p_and_pp.Ice.Agent.Gathered.{gather_all}
use p_and_pp.App.{Act, App, Codecs, start_ice}
use p_and_pp.App.Attempts.{Attempt, sleeping, unconnected, connected, over}
use p_and_pp.App.Main.{keep_connected, advance}
use p_and_pp.App.Main.Laws.{Lasts}

abbrev pub Each : {A : Type 0} → (A → Type 0) → Option A → Type 0
Each P none = Unit
Each P (some x) = P x

module _ {W C : Type 0} (net : Net W C) (resolve : Text → Result Text) where
  -- An open connection, on the socket of the local candidate, to the address that the remote candidate
  -- resolves to.
  pub record IsDirect (conn : Connection C) : Type 0 where
    pub own : Pointer
    pub socket : C
    pub local : conn.local_candidate ≡ own.value
    pub described : Describes net own socket
    pub bound : conn.conn ≡ some socket
    pub far : resolve (address_text conn.remote_candidate) ≡ ok conn.remote_addr
    pub open_conn : conn.closed ≡ false

  -- The local candidates of an agent, if it has any, stand beside their sockets.
  abbrev HasSockets : Agent C → Type 0
  HasSockets a = (a.local_candidates ≡ []) ⊎ Paired net a.local_candidates a.gatherer.listeners

  pub record IsSound (app : App C) : Type 0 where
    pub agent : Each HasSockets app.ice_agent
    pub direct : Each IsDirect app.ice_conn

  keep_gathered-HasSockets :
      (a : Agent C) (t : W × Gatherer C × Result (List Pointer))
      → a.local_candidates ≡ []
      → Paired net t.1.candidates t.1.listeners
      → ((cs : List Pointer) → t.2 ≡ ok cs → t.1.candidates ≡ cs)
      → HasSockets (keep_gathered net a t).1
  keep_gathered-HasSockets a (w, g, ok cs) e h same =
      inr (subst (λ x. Paired net x g.listeners) (same cs refl) h)
  keep_gathered-HasSockets a (w, g, err x) e h same = inl e

  gather-HasSockets :
      (w : W) → HasSockets (gather net w (new_agent default_port_start default_port_end)).1
  unfolding gather new_agent new_gatherer
  gather-HasSockets w =
      let fresh = new_gatherer default_port_start default_port_end in
      keep_gathered-HasSockets (new_agent default_port_start default_port_end)
        (Gatherer.gather net w fresh) refl (gather-Paired net w fresh tt) (gather_all net w fresh)

  abbrev Made : Result (Connection C) → Type 0
  Made (ok conn) = IsDirect conn
  Made (err e) = Unit

  connect_with-Made :
      (a : Agent C) (p : Pointer) (remote : Candidate) (c : C)
      → Describes net p c
      → Made (connect_with resolve a p remote (some c))
  unfolding new_connection
  connect_with-Made a p remote c d = go (resolve (address_text remote)) refl
    where
      go :
          (r : Result Text)
          → resolve (address_text remote) ≡ r
          → Made (connect_with resolve a p remote (some c))
      go (ok addr) e = rw e (record {
        own = p;
        socket = c;
        local = refl;
        described = d;
        bound = refl;
        far = e;
        open_conn = refl;
      })
      go (err x) e = rw e tt

  try_connect-Made :
      (a : Agent C) (ls : List Pointer) (rs : List Candidate)
      → (ls ≡ []) ⊎ Paired net ls a.gatherer.listeners
      → Made (try_connect resolve a ls rs)
  unfolding try_connect
  try_connect-Made a [] rs h = tt
  try_connect-Made a (p ∷ ps) [] h = tt
  try_connect-Made a (p ∷ ps) (remote ∷ rs) (inl e) = cc e
  try_connect-Made a (p ∷ ps) (remote ∷ rs) (inr h) = go a.gatherer.listeners refl h
    where
      go :
          (cs : List C)
          → a.gatherer.listeners ≡ cs
          → Paired net (p ∷ ps) cs
          → Made (try_connect resolve a (p ∷ ps) (remote ∷ rs))
      go [] q h = absurd h
      go (c ∷ cs) q h = rw (q, find_first p ps c cs) (connect_with-Made a p remote c h.0)

  abbrev Kept : Agent C × Result (Connection C) → Type 0
  Kept t = HasSockets t.0 × Made t.1

  keep_connection-Kept :
      (a : Agent C) (r : Result (Connection C)) → HasSockets a → Made r → Kept (keep_connection a r)
  keep_connection-Kept a (ok conn) h m = (h, m)
  keep_connection-Kept a (err e) h m = (h, tt)

  connect-Kept : (a : Agent C) → HasSockets a → Kept (connect resolve a)
  unfolding connect
  connect-Kept a h =
      keep_connection-Kept a (try_connect resolve a a.local_candidates a.remote_candidates) h
        (try_connect-Made a a.local_candidates a.remote_candidates h)

  module _ {R : Type 0} (codecs : Codecs R) (dec : Unmarshaler R) (wrote : R → Result (Unit {0}))
      (send_to : C → Bytes → Text → Result ℕ) (bytes : String → Bytes) where
    -- The connection that a goroutine holds before it is assigned.
    abbrev pub HoldsDirect : Attempt C → Type 0
    HoldsDirect (connected conn) = IsDirect conn
    HoldsDirect _ = Unit

    keep_connected-IsSound :
        (app : App C) (t : Agent C × Result (Connection C))
        → IsSound app
        → Kept t
        → IsSound (keep_connected {R = R} resolve send_to bytes app t).0
          × HoldsDirect (keep_connected {R = R} resolve send_to bytes app t).1
    keep_connected-IsSound app (a, ok conn) s k = (record { agent = k.0; direct = s.direct }, k.1)
    keep_connected-IsSound app (a, err e) s k = (record { agent = k.0; direct = s.direct }, tt)

    abbrev tested : App C → Option (Connection C) → App C × Attempt C × List (Act R)
    tested app o = elim o [ none ↦ (app, unconnected, []) | some conn ↦ (app, over, []) ]

    abbrev dialled : App C → Option (Agent C) → App C × Attempt C × List (Act R)
    dialled app o = elim o [
      | none ↦ (app, over, [])
      | some a ↦ keep_connected resolve send_to bytes app (connect resolve a)
    ]

    tested-IsSound :
        (app : App C) (o : Option (Connection C))
        → IsSound app
        → IsSound (tested app o).0 × HoldsDirect (tested app o).1
    tested-IsSound app none s = (s, tt)
    tested-IsSound app (some conn) s = (s, tt)

    dialled-IsSound :
        (app : App C) (o : Option (Agent C))
        → Each HasSockets o
        → IsSound app
        → IsSound (dialled app o).0 × HoldsDirect (dialled app o).1
    dialled-IsSound app none h s = (s, tt)
    dialled-IsSound app (some a) h s =
        keep_connected-IsSound app (connect resolve a) s (connect-Kept a h)

    advance-IsSound :
        (app : App C) (x : Attempt C)
        → IsSound app
        → HoldsDirect x
        → IsSound (advance {R = R} resolve send_to bytes app x).0
          × HoldsDirect (advance {R = R} resolve send_to bytes app x).1
    unfolding advance
    advance-IsSound app sleeping s h = tested-IsSound app app.ice_conn s
    advance-IsSound app unconnected s h = dialled-IsSound app app.ice_agent s.agent s
    advance-IsSound app (connected conn) s h = (record { agent = s.agent; direct = h }, tt)
    advance-IsSound app over s h = (s, tt)

    pub Lasts-IsSound : Lasts net codecs dec wrote resolve send_to bytes IsSound HoldsDirect
    unfolding start_ice add_remote_candidate
    Lasts-IsSound = record {
      starting = λ clock w app peer s. record { agent = gather-HasSockets w; direct = s.direct };
      adding = λ app a remote e s. record {
        agent = subst (Each HasSockets) e s.agent;
        direct = s.direct;
      };
      receiving = λ app c s. record { agent = s.agent; direct = s.direct };
      fresh = tt;
      trying = advance-IsSound;
    }
