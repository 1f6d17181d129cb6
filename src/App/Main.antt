-- ===== src/App/Main.antt =====
-- cmd/client/main.go: the program. What happens to it after its start is a list of happenings, each with
-- the clock of its reactions. A line and a message are handled whole; the goroutines that connect go step
-- by step, in any order, with lines and messages between their steps. Parsing the flags is not modelled.
pub mod Stops
pub mod Laws
pub mod Sound
pub mod Outcome
pub mod Stranger
use p_and_pp.Base.{
  ℕ, String, ◌==◌, Bool, true, false, ◌&&◌, not, List, [], ◌∷◌, ◌++◌, none, some, zero, suc,
  if◌then◌else◌,
}
use p_and_pp.Base.Results.{Result, ok, err}
use p_and_pp.Base.Texts.{Text}
use p_and_pp.Transport.{Unmarshaler}
use p_and_pp.Transport
use p_and_pp.Client.{Client, Notice, signalled, peers_changed, receive, on_signal, on_peer_event}
use p_and_pp.Client.Start.{connect_to}
use p_and_pp.Ice.Gatherer.{Net}
use p_and_pp.Ice.Connection.{Connection, Bytes}
use p_and_pp.Ice.Agent.{Agent, connect}
use p_and_pp.App.Attempts.{Attempt, sleeping, unconnected, connected, over, greeting}
use p_and_pp.Server.{Level, debug, info, warn, error}
use p_and_pp.App.{
  App, Codecs, Act, start_ice, handle_signal, handle_event, submits, schedules, sends, prints,
}
use p_and_pp.App.Shell.{banner, turn}

pub record Flags : Type 0 where
  pub server_addr : String
  pub peer_id : String
  pub log_level : String
  pub use_ice : Bool

unfoldable pub parse_log_level : String → Level
parse_log_level level =
    if level == "debug"
    then debug
    else if level == "info"
    then info
    else if level == "warn"
    then warn
    else if level == "error"
    then error
    else info

-- The application, and the goroutines that `handleRemoteICECandidate` has started.
pub record Running (C : Type 0) : Type 0 where
  pub app : App C
  pub attempts : List (Attempt C)

-- A line is typed, a message comes from the server, or the goroutine with a number takes its next step.
pub data Happening (R : Type 0) : Type 0 where
  typed : String → Happening R
  arrived : Transport.Message R → Happening R
  advances : ℕ → Happening R

-- How `main` ends: by `os.Exit`, or by returning from the shell, after which the deferred `Close` of
-- the client runs.
pub data Ending (W C R : Type 0) : Type 0 where
  exits : ℕ → Ending W C R
  returns : W → App C → List (Act R) → Ending W C R

-- The goroutines that a reaction starts.
unfoldable pub started : {C R : Type 0} → List (Act R) → List (Attempt C)
started [] = []
started (schedules ∷ acts) = sleeping ∷ started acts
started (submits attempt ∷ acts) = started acts
started (sends message result ∷ acts) = started acts
started (prints line ∷ acts) = started acts

-- The resolver of an address, `WriteToUDP`, and the bytes of a text.
module _ {C R : Type 0} (resolve : Text → Result Text) (send_to : C → Bytes → Text → Result ℕ)
    (bytes : String → Bytes) where
  abbrev pub keep_connected :
      App C → Agent C × Result (Connection C) → App C × Attempt C × List (Act R)
  keep_connected app (a, ok conn) = (record app { ice_agent = some a }, connected conn, [])
  keep_connected app (a, err e) = (record app { ice_agent = some a }, over, [])

  -- One step of a goroutine: the test of `iceConn`; `Connect`, under the agent's lock; the assignment of
  -- `iceConn` with the greeting. At `Connect` there is an agent: the candidate that started the goroutine
  -- was added to one, and the program never takes it away.
  unfoldable pub advance : App C → Attempt C → App C × Attempt C × List (Act R)
  advance app sleeping = elim app.ice_conn [
    | none ↦ (app, unconnected, [])
    | some conn ↦ (app, over, [])
  ]
  advance app unconnected = elim app.ice_agent [
    | none ↦ (app, over, [])
    | some a ↦ keep_connected app (connect resolve a)
  ]
  advance app (connected conn) =
      (record app { ice_conn = some conn }, over, greeting send_to bytes conn ∷ [])
  advance app over = (app, over, [])

  -- The step of the goroutine with a number, if there is one.
  unfoldable pub advance_at : App C → List (Attempt C) → ℕ → App C × List (Attempt C) × List (Act R)
  unfolding advance
  advance_at app [] i = (app, [], [])
  advance_at app (x ∷ xs) zero = let (app', x', acts) = advance app x in (app', x' ∷ xs, acts)
  advance_at app (x ∷ xs) (suc i) =
      let (app', xs', acts) = advance_at app xs i in (app', x ∷ xs', acts)

-- The network, encoding/json, the result of a write to the socket of the transport, the resolver of an
-- address, `WriteToUDP`, and the bytes of a text.
module _ {W C R : Type 0} (net : Net W C) (codecs : Codecs R) (dec : Unmarshaler R)
    (wrote : R → Result (Unit {0})) (resolve : Text → Result Text)
    (send_to : C → Bytes → Text → Result ℕ) (bytes : String → Bytes) (use_ice : Bool) where
  -- The two handlers that `main` gives to the client.
  unfoldable pub heed : (ℕ → ℕ × ℕ) → W → App C → Notice R → W × App C × List (Act R)
  heed clock w app (signalled from sig) = handle_signal net codecs clock w app from sig
  heed clock w app (peers_changed event) = handle_event net codecs clock use_ice w app event

  unfoldable pub heed_all : (ℕ → ℕ × ℕ) → W → App C → List (Notice R) → W × App C × List (Act R)
  heed_all clock w app [] = (w, app, [])
  heed_all clock w app (notice ∷ notices) =
      let (w₁, app₁, acts) = heed clock w app notice in
      let (w₂, app₂, more) = heed_all clock w₁ app₁ notices in (w₂, app₂, acts ++ more)

  -- A message goes through the transport and the client to the handlers.
  abbrev pub take_message : (ℕ → ℕ × ℕ) → W → App C → Transport.Message R → W × App C × List (Act R)
  take_message clock w app msg =
      let (c, notices) = receive dec codecs.signals app.client msg in
      heed_all clock w (record app { client = c }) notices

  -- Lines and messages are handled whole; the goroutines that they start come to the others.
  unfoldable pub react :
      (ℕ → ℕ × ℕ) → W → Running C → Happening R → W × Running C × List (Act R) × Bool
  react clock w r (typed line) =
      let (w', app', acts, ended) = turn net codecs wrote send_to bytes clock w r.app line in
      (w', record { app = app'; attempts = r.attempts ++ started acts }, acts, ended)
  react clock w r (arrived msg) =
      let (w', app', acts) = take_message clock w r.app msg in
      (w', record { app = app'; attempts = r.attempts ++ started acts }, acts, false)
  react clock w r (advances i) =
      let (app', attempts', acts) = advance_at resolve send_to bytes r.app r.attempts i in
      (w, record { app = app'; attempts = attempts' }, acts, false)

  -- The program from its start to the return of the shell; after the last happening the read of a line
  -- fails.
  unfoldable pub program :
      W → Running C → List (Happening R × (ℕ → ℕ × ℕ)) → W × Running C × List (Act R)
  program w r [] = (w, r, [])
  program w r ((happening, clock) ∷ happenings) =
      let (w₁, r₁, acts, ended) = react clock w r happening in
      let (w₂, r₂, more) = program w₁ r₁ happenings in
      if ended then (w₁, r₁, acts) else (w₂, r₂, acts ++ more)

-- The messages that come during the half second before the handlers are set: the client takes them in,
-- and no handler is called.
unfoldable pub settle :
    {R : Type 0} → Codecs R → Unmarshaler R → Client → List (Transport.Message R) → Client
settle codecs dec c [] = c
settle codecs dec c (msg ∷ msgs) = settle codecs dec (receive dec codecs.signals c msg).0 msgs

abbrev pub new_app : {C : Type 0} → Client → App C
new_app c = record { client = on_peer_event (on_signal c); ice_agent = none; ice_conn = none }

module _ {W C R U : Type 0} (net : Net W C) (codecs : Codecs R) (dec : Unmarshaler R)
    (wrote : R → Result (Unit {0})) (resolve : Text → Result Text)
    (send_to : C → Bytes → Text → Result ℕ) (bytes : String → Bytes) (parse : String → Result U)
    (dial : U → Result (Unit {0})) where
  -- The gathering at the start, for the peer of the flag `-peer`.
  abbrev pub open_ice : Flags → (ℕ → ℕ × ℕ) → W → App C → W × App C × List (Act R)
  open_ice flags clock w app =
      if flags.use_ice && not (flags.peer_id == "")
      then start_ice net codecs clock w app flags.peer_id
      else (w, app, [])

  abbrev pub run_client :
      Flags
      → W
      → List (Transport.Message R)
      → (ℕ → ℕ × ℕ)
      → List (Happening R × (ℕ → ℕ × ℕ))
      → Result Client
      → Ending W C R
  run_client flags w early clock happenings (err e) = exits 1
  run_client flags w early clock happenings (ok c) =
      let (w₁, app₁, acts) = open_ice flags clock w (new_app (settle codecs dec c early)) in
      let (w₂, r₂, more) =
        program net codecs dec wrote resolve send_to bytes flags.use_ice w₁
          (record { app = app₁; attempts = [] }) happenings in
      returns w₂ r₂.app (acts ++ (banner ++ more))

  unfoldable pub run_main :
      Flags
      → W
      → List (Transport.Message R)
      → (ℕ → ℕ × ℕ)
      → List (Happening R × (ℕ → ℕ × ℕ))
      → Ending W C R
  run_main flags w early clock happenings =
      run_client flags w early clock happenings (connect_to parse dial flags.server_addr)
