-- ===== src/App/Shell.antt =====
-- cmd/client/main.go: the interactive shell.
pub mod Commands
use p_and_pp.Base.{
  ℕ, ◌≡◌, String, ◌==◌, Bool, true, false, ◌||◌, List, [], ◌∷◌, ◌++◌, Option, none, some,
  if◌then◌else◌,
}
use p_and_pp.Base.Results.{Result, ok, err, ◌>>=◌}
use p_and_pp.Base.Texts.{Text}
use p_and_pp.Sdp.{SessionDescription, new_offer}
use p_and_pp.Client.{send_offer}
use p_and_pp.Ice.Gatherer.{Net}
use p_and_pp.Ice.Connection.{Connection, Bytes, send}
use p_and_pp.App.{App, Codecs, Act, submits, sends, prints, start_ice, send_string}
use p_and_pp.App.Words.{trim_space, fields, join}

abbrev pub demo_offer : SessionDescription
demo_offer =
    new_offer
      "v=0\r\no=- 0 0 IN IP4 0.0.0.0\r\ns=P2P Demo\r\nt=0 0\r\nm=application 9 UDP/DTLS/SCTP webrtc-datachannel\r\n"

abbrev help : {R : Type 0} → List (Act R)
help =
    prints "Commands:"
    ∷ prints "  /peers              - List connected peers"
    ∷ prints "  /offer <peer_id>    - Send an SDP offer to a peer"
    ∷ prints "  /ice <peer_id>      - Start ICE and send candidates"
    ∷ prints "  /send <msg>         - Send message via direct UDP (if connected)"
    ∷ prints "  /signal <peer_id> <msg> - Send a custom signal"
    ∷ prints "  /quit               - Exit"
    ∷ []

-- What is printed before the first line is read.
abbrev pub banner : {R : Type 0} → List (Act R)
banner =
    prints "\n=== P2P Client Interactive Shell ===" ∷ help
    ++ prints "=====================================\n" ∷ []

-- The line that is printed where a call went well.
abbrev pub report : {R : Type 0} → Result (Unit {0}) → String → List (Act R)
report (ok done) line = prints line ∷ []
report (err e) line = []

-- The world and the state after a command, what it did, and whether the shell ends.
abbrev pub Turn : Type 0 → Type 0 → Type 0 → Type 0
Turn W C R = W × App C × List (Act R) × Bool

abbrev pub stay : {W C R : Type 0} → W → App C → List (Act R) → Turn W C R
stay w app acts = (w, app, acts, false)

-- The network, encoding/json, the result of a write to the socket of the transport, `WriteToUDP`, and
-- the bytes of a text.
module _ {W C R : Type 0} (net : Net W C) (codecs : Codecs R) (wrote : R → Result (Unit {0}))
    (send_to : C → Bytes → Text → Result ℕ) (bytes : String → Bytes) where
  abbrev pub ice_command : (ℕ → ℕ × ℕ) → W → App C → List String → Turn W C R
  ice_command clock w app [] = stay w app (prints "Usage: /ice <peer_id>" ∷ [])
  ice_command clock w app (target ∷ more) =
      let (w', app', acts) = start_ice net codecs clock w app target in stay w' app' acts

  abbrev send_acts : Option (Connection C) → String → List (Act R)
  send_acts none message = prints "No direct UDP connection. Use /ice first." ∷ []
  send_acts (some conn) message =
      send_string send_to bytes conn message
      ∷ report (send send_to conn (bytes message)) "Sent via direct UDP!"

  abbrev pub send_command : W → App C → List String → Turn W C R
  send_command w app [] = stay w app (prints "Usage: /send <message>" ∷ [])
  send_command w app (word ∷ words) = stay w app (send_acts app.ice_conn (join (word ∷ words)))

  abbrev pub offer_acts : (ℕ → ℕ × ℕ) → App C → String → List (Act R)
  offer_acts clock app target =
      let attempt =
        send_offer codecs.signals codecs.frames ok codecs.descriptions app.client target demo_offer
          (clock 0).0 (clock 0).1 in
      submits attempt ∷ report (attempt >>= wrote) "Offer sent!"

  abbrev pub offer_command : (ℕ → ℕ × ℕ) → W → App C → List String → Turn W C R
  offer_command clock w app [] = stay w app (prints "Usage: /offer <peer_id>" ∷ [])
  offer_command clock w app (target ∷ more) = stay w app (offer_acts clock app target)

  abbrev signal_usage : W → App C → Turn W C R
  signal_usage w app = stay w app (prints "Usage: /signal <peer_id> <message>" ∷ [])

  -- The message is logged, and the line is printed.
  abbrev pub signal_command : W → App C → List String → Turn W C R
  signal_command w app [] = signal_usage w app
  signal_command w app (target ∷ []) = signal_usage w app
  signal_command w app (target ∷ word ∷ words) = stay w app (prints "Signal sent!" ∷ [])

  -- The switch of `runInteractiveShell`. The peers are logged.
  unfoldable pub command : (ℕ → ℕ × ℕ) → W → App C → String → List String → Turn W C R
  command clock w app cmd args =
      if cmd == "/quit" || cmd == "/exit"
      then (w, app, prints "Goodbye!" ∷ [], true)
      else if cmd == "/peers"
      then stay w app []
      else if cmd == "/ice"
      then ice_command clock w app args
      else if cmd == "/send"
      then send_command w app args
      else if cmd == "/offer"
      then offer_command clock w app args
      else if cmd == "/signal"
      then signal_command w app args
      else if cmd == "/help"
      then stay w app help
      else stay w app (prints "Unknown command. Type /help for available commands." ∷ [])

  abbrev pub run_parts : (ℕ → ℕ × ℕ) → W → App C → List String → Turn W C R
  run_parts clock w app [] = stay w app []
  run_parts clock w app (cmd ∷ args) = command clock w app cmd args

  -- One round of the shell, on a line.
  unfoldable pub turn : (ℕ → ℕ × ℕ) → W → App C → String → Turn W C R
  turn clock w app line =
      if trim_space line == ""
      then stay w app []
      else run_parts clock w app (fields (trim_space line))

  -- The loop over the lines, each with the clock of its round; after the last one the read fails.
  unfoldable pub shell : W → App C → List (String × (ℕ → ℕ × ℕ)) → W × App C × List (Act R)
  shell w app [] = (w, app, [])
  shell w app ((line, clock) ∷ lines) =
      let (w₁, app₁, acts, over) = turn clock w app line in
      let (w₂, app₂, more) = shell w₁ app₁ lines in
      if over then (w₁, app₁, acts) else (w₂, app₂, acts ++ more)
