-- ===== src/App.antt =====
-- cmd/client/main.go: the demonstration client, its state and its reactions to signals and peers. What
-- a reaction does is the list of its acts, log lines left out.
pub mod Words
pub mod Shell
pub mod Ways
pub mod Calls
pub mod Candidates
pub mod Direct
pub mod Attempts
pub mod Leak
pub mod Main
use p_and_pp.Base.{
  ℕ, ◌+◌, ◌≡◌, String, ◌==◌, Bool, true, false, ◌&&◌, List, [], ◌∷◌, ◌++◌, Option, none, some,
  if◌then◌else◌,
}
use mathlib.Core.Option
use p_and_pp.Base.Results.{Result, ok, err, Codec}
use p_and_pp.Base.Texts.{Text}
use p_and_pp.Sdp.{
  SessionDescription, IceCandidate, Signal, type_offer, type_answer, type_ice, new_answer,
  parse_session_description,
}
use p_and_pp.Transport
use p_and_pp.Client.{Client, IceCandidateMsg, PeerEvent, send_answer, send_ice_candidate_json}
use p_and_pp.Ice.Candidate.{Candidate}
use p_and_pp.Ice.Gatherer.{Net, Pointer, default_port_start, default_port_end}
use p_and_pp.Ice.Connection.{Connection, Bytes, send}
use p_and_pp.Ice.Agent.{Agent, new_agent, gather, connect, add_remote_candidate}

pub record App (C : Type 0) : Type 0 where
  pub client : Client
  pub ice_agent : Option (Agent C)
  pub ice_conn : Option (Connection C)

-- The uses of encoding/json at the client.
pub record Codecs (R : Type 0) : Type 0 where
  pub descriptions : Codec R SessionDescription
  pub old_candidates : Codec R IceCandidate
  pub candidates : Codec R Candidate
  pub messages : Codec R (IceCandidateMsg R)
  pub signals : Codec R (Signal R)
  pub frames : Codec R (Transport.Message R)

-- A frame that is given to the socket, or the error that came before; the start of the goroutine that
-- tries to connect; a text that is sent to the peer, and what `SendString` returned; a line printed.
pub data Act (R : Type 0) : Type 0 where
  submits : Result R → Act R
  schedules : Act R
  sends : String → Result (Unit {0}) → Act R
  prints : String → Act R

-- The answer of the demonstration.
abbrev pub demo_answer : SessionDescription
demo_answer =
    new_answer
      "v=0\r\no=- 0 0 IN IP4 0.0.0.0\r\ns=P2P Demo Answer\r\nt=0 0\r\nm=application 9 UDP/DTLS/SCTP webrtc-datachannel\r\n"

-- The operating system's network, encoding/json, and the clock: the two readings of the send at an
-- index.
module _ {W C R : Type 0} (net : Net W C) (codecs : Codecs R) (clock : ℕ → ℕ × ℕ) where
  -- The loop of `startICE` over the candidates.
  unfoldable pub send_candidates : Client → String → List Pointer → ℕ → List (Act R)
  send_candidates c peer [] i = []
  send_candidates c peer (p ∷ ps) i =
      submits (
        send_ice_candidate_json codecs.signals codecs.frames ok codecs.candidates codecs.messages c
          peer p.value (clock i).0 (clock i).1)
      ∷ send_candidates c peer ps (i + 1)

  abbrev pub send_gathered : Client → String → Result (List Pointer) → List (Act R)
  send_gathered c peer (ok cs) = send_candidates c peer cs 0
  send_gathered c peer (err e) = []

  -- `startICE`: the agent is a new one, whatever agent there was.
  unfoldable pub start_ice : W → App C → String → W × App C × List (Act R)
  start_ice w app peer =
      let (w', a, found) = gather net w (new_agent default_port_start default_port_end) in
      (w', record app { ice_agent = some a }, send_gathered app.client peer found)

  abbrev pub with_agent : W → App C → String → W × App C × List (Act R)
  with_agent w app from = elim app.ice_agent [ none ↦ start_ice w app from | some a ↦ (w, app, []) ]

  -- `handleRemoteICECandidate`
  unfoldable pub handle_remote_candidate : W → App C → String → Candidate → W × App C × List (Act R)
  handle_remote_candidate w app from candidate =
      let (w', app', acts) = with_agent w app from in
      (
        w',
        record app' {
          ice_agent = Option.map (λ a. add_remote_candidate a candidate) app'.ice_agent;
        },
        acts ++ schedules ∷ [],
      )

  -- An offer is answered, if it can be read.
  abbrev pub answer_offer : App C → String → Result SessionDescription → List (Act R)
  answer_offer app from (err e) = []
  answer_offer app from (ok offer) =
      submits (
        send_answer codecs.signals codecs.frames ok codecs.descriptions app.client from demo_answer
          (clock 0).0 (clock 0).1)
      ∷ []

  abbrev pub take_candidate : W → App C → String → Result Candidate → W × App C × List (Act R)
  take_candidate w app from (err e) = (w, app, [])
  take_candidate w app from (ok candidate) = handle_remote_candidate w app from candidate

  -- A candidate of the new format; one of the old format is logged.
  abbrev pub take_ice : W → App C → String → Result (IceCandidateMsg R) → W × App C × List (Act R)
  take_ice w app from (err e) = (w, app, [])
  take_ice w app from (ok msg) =
      if msg.type == "ice-candidate"
      then take_candidate w app from (codecs.candidates.unmarshal msg.candidate)
      else (w, app, [])

  -- `handleSignal`; an answer is logged, and so is a signal of another type.
  unfoldable pub handle_signal : W → App C → String → Signal R → W × App C × List (Act R)
  handle_signal w app from sig =
      if sig.signal_type == type_offer
      then (w, app, answer_offer app from (parse_session_description codecs.descriptions sig))
      else if sig.signal_type == type_answer
      then (w, app, [])
      else if sig.signal_type == type_ice
      then take_ice w app from (codecs.messages.unmarshal sig.payload)
      else (w, app, [])

  -- The handler of peer events, with the flag `-ice`.
  unfoldable pub handle_event : Bool → W → App C → PeerEvent → W × App C × List (Act R)
  handle_event use_ice w app event =
      if event.type == "joined" && use_ice then start_ice w app event.peer_id else (w, app, [])

-- `SendString`
abbrev pub send_string :
    {C R : Type 0}
    → (C → Bytes → Text → Result ℕ)
    → (String → Bytes)
    → Connection C
    → String
    → Act R
send_string send_to bytes conn msg = sends msg (send send_to conn (bytes msg))

module _ {C R : Type 0} (resolve : Text → Result Text) (send_to : C → Bytes → Text → Result ℕ)
    (bytes : String → Bytes) where
  abbrev pub keep_direct : App C → Agent C × Result (Connection C) → App C × List (Act R)
  keep_direct app (a, ok conn) = (
    record app { ice_agent = some a; ice_conn = some conn },
    send_string send_to bytes conn "Hello from direct UDP!" ∷ [],
  )
  keep_direct app (a, err e) = (record app { ice_agent = some a }, [])

  -- The goroutine that `handleRemoteICECandidate` starts, after its half second.
  unfoldable pub try_direct : App C → App C × List (Act R)
  try_direct app = elim app.ice_conn [
    | some conn ↦ (app, [])
    | none ↦ elim app.ice_agent [ none ↦ (app, []) | some a ↦ keep_direct app (connect resolve a) ]
  ]
