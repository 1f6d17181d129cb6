-- ===== src/App/Shell/Commands.antt =====
-- What the lines of the shell do.
use p_and_pp.Base.{
  Option, none, ℕ, ◌≡◌, ◌≢◌, refl, ap, ◌∙◌, String, ◌==◌, eq_iff, eq_false, Bool, true, false, ◌||◌,
  List, [], ◌∷◌, some, if◌then◌else◌, ◌⊎◌, inl, inr, All,
}
use p_and_pp.Base.Results.{Result, ok, err}
use p_and_pp.Base.Texts.{Text}
use p_and_pp.Ice.Gatherer.{Net}
use p_and_pp.Ice.Connection.{Connection, Bytes, send}
use p_and_pp.App.{App, Codecs, Act, submits, schedules, sends, prints, start_ice}
use p_and_pp.App.Words.{trim_space, fields, join}
use p_and_pp.App.Words.Fields.{IsName, fields-join, fields-trim_space}
use p_and_pp.App.Shell.{
  Turn, report, send_acts, send_command, offer_command, signal_command, command, turn,
}

-- The lines that end the shell.
abbrev pub Ends : String → Type 0
Ends line = (args : List String) × ((fields line ≡ "/quit" ∷ args) ⊎ (fields line ≡ "/exit" ∷ args))

module _ {W C R : Type 0} (net : Net W C) (codecs : Codecs R) (wrote : R → Result (Unit {0}))
    (send_to : C → Bytes → Text → Result ℕ) (bytes : String → Bytes) where
  not_blank :
      (line cmd : String) (args : List String)
      → fields line ≡ cmd ∷ args
      → (trim_space line == "") ≡ false
  unfolding fields p_and_pp.App.Words.split
  not_blank line cmd args e =
      eq_false (trim_space line) "" (λ blank. cc (ap fields blank, fields-trim_space line, e))

  -- A line with a word runs the command of its words.
  turn-fields :
      (clock : ℕ → ℕ × ℕ) (w : W) (app : App C) (line cmd : String) (args : List String)
      → fields line ≡ cmd ∷ args
      → turn net codecs wrote send_to bytes clock w app line
        ≡ command net codecs wrote send_to bytes clock w app cmd args
  unfolding turn
  turn-fields clock w app line cmd args e =
      rw (not_blank line cmd args e, fields-trim_space line, e) refl

  -- Over an open connection whose socket takes the datagram, a line whose words are `/send` and others
  -- sends one text: the other words, joined by single spaces, which has just these words.
  pub send_joined :
      (clock : ℕ → ℕ × ℕ) (w : W) (app : App C) (line word : String) (words : List String)
      (conn : Connection C) (socket : C) (n : ℕ)
      → fields line ≡ "/send" ∷ word ∷ words
      → All IsName (word ∷ words)
      → app.ice_conn ≡ some conn
      → conn.closed ≡ false
      → conn.conn ≡ some socket
      → send_to socket (bytes (join (word ∷ words))) conn.remote_addr ≡ ok n
      → (text : String) × (turn net codecs wrote send_to bytes clock w app line
          ≡ (w, app, sends text (ok tt) ∷ prints "Sent via direct UDP!" ∷ [], false))
        × (fields text ≡ word ∷ words)
  unfolding command send
  send_joined clock w app line word words conn socket n e names here open_conn bound taken = (
    join (word ∷ words),
    turn-fields clock w app line "/send" (word ∷ words) e ∙ sent,
    fields-join (word ∷ words) names,
  )
    where
      went : send send_to conn (bytes (join (word ∷ words))) ≡ ok tt
      went = rw (open_conn, bound) (rw taken)

      sent : command net codecs wrote send_to bytes clock w app "/send" (word ∷ words) ≡ (
        w,
        app,
        sends (join (word ∷ words)) (ok tt) ∷ prints "Sent via direct UDP!" ∷ [],
        false,
      )
      sent = rw here (rw went)

  abbrev Keeps : W → App C → Turn W C R → Type 0
  Keeps w app t = (t.0 ≡ w) × (t.1 ≡ app)

  Keeps-if :
      (w : W) (app : App C) (b : Bool) (x y : Turn W C R)
      → (b ≡ true → Keeps w app x)
      → Keeps w app y
      → Keeps w app (if b then x else y)
  Keeps-if w app true x y f h = f refl
  Keeps-if w app false x y f h = h

  send_command-Keeps :
      (w : W) (app : App C) (args : List String)
      → Keeps w app (send_command net codecs wrote send_to bytes w app args)
  send_command-Keeps w app [] = (refl, refl)
  send_command-Keeps w app (word ∷ words) = (refl, refl)

  offer_command-Keeps :
      (clock : ℕ → ℕ × ℕ) (w : W) (app : App C) (args : List String)
      → Keeps w app (offer_command net codecs wrote send_to bytes clock w app args)
  offer_command-Keeps clock w app [] = (refl, refl)
  offer_command-Keeps clock w app (target ∷ more) = (refl, refl)

  signal_command-Keeps :
      (w : W) (app : App C) (args : List String)
      → Keeps w app (signal_command net codecs wrote send_to bytes w app args)
  signal_command-Keeps w app [] = (refl, refl)
  signal_command-Keeps w app (target ∷ []) = (refl, refl)
  signal_command-Keeps w app (target ∷ word ∷ words) = (refl, refl)

  -- Without `/ice`, a command leaves the network and the state.
  pub command-Keeps :
      (clock : ℕ → ℕ × ℕ) (w : W) (app : App C) (cmd : String) (args : List String)
      → cmd ≢ "/ice"
      → Keeps w app (command net codecs wrote send_to bytes clock w app cmd args)
  unfolding command
  command-Keeps clock w app cmd args other =
      Keeps-if w app (cmd == "/quit" || cmd == "/exit") _ _ (λ e. (refl, refl))
        (Keeps-if w app (cmd == "/peers") _ _ (λ e. (refl, refl))
          (Keeps-if w app (cmd == "/ice") _ _ (λ e. absurd (other ((eq_iff cmd "/ice").0 e)))
            (Keeps-if w app (cmd == "/send") _ _ (λ e. send_command-Keeps w app args)
              (Keeps-if w app (cmd == "/offer") _ _ (λ e. offer_command-Keeps clock w app args)
                (Keeps-if w app (cmd == "/signal") _ _ (λ e. signal_command-Keeps w app args)
                  (Keeps-if w app (cmd == "/help") _ _ (λ e. (refl, refl)) (refl, refl)))))))

  -- The frames that are given to the socket of the transport, and the errors that come before.
  pub submitted : List (Act R) → List (Result R)
  submitted [] = []
  submitted (submits attempt ∷ acts) = attempt ∷ submitted acts
  submitted (schedules ∷ acts) = submitted acts
  submitted (sends message result ∷ acts) = submitted acts
  submitted (prints line ∷ acts) = submitted acts

  if-submitted :
      (b : Bool) (x y : Turn W C R)
      → (b ≡ true → submitted x.2 ≡ [])
      → submitted y.2 ≡ []
      → submitted (if b then x else y).2 ≡ []
  if-submitted true x y f h = f refl
  if-submitted false x y f h = h

  submitted-report : (r : Result (Unit {0})) (line : String) → submitted (report r line) ≡ []
  unfolding submitted
  submitted-report (ok done) line = refl
  submitted-report (err e) line = refl

  submitted-send_acts :
      (o : Option (Connection C)) (message : String)
      → submitted (send_acts net codecs wrote send_to bytes o message) ≡ []
  unfolding submitted
  submitted-send_acts none message = refl
  submitted-send_acts (some conn) message =
      submitted-report (send send_to conn (bytes message)) "Sent via direct UDP!"

  submitted-send_command :
      (w : W) (app : App C) (args : List String)
      → submitted (send_command net codecs wrote send_to bytes w app args).2 ≡ []
  unfolding submitted
  submitted-send_command w app [] = refl
  submitted-send_command w app (word ∷ words) =
      submitted-send_acts app.ice_conn (join (word ∷ words))

  submitted-signal_command :
      (w : W) (app : App C) (args : List String)
      → submitted (signal_command net codecs wrote send_to bytes w app args).2 ≡ []
  unfolding submitted
  submitted-signal_command w app [] = refl
  submitted-signal_command w app (target ∷ []) = refl
  submitted-signal_command w app (target ∷ word ∷ words) = refl

  submitted-command :
      (clock : ℕ → ℕ × ℕ) (w : W) (app : App C) (cmd : String) (args : List String)
      → cmd ≢ "/ice"
      → cmd ≢ "/offer"
      → submitted (command net codecs wrote send_to bytes clock w app cmd args).2 ≡ []
  unfolding command submitted
  submitted-command clock w app cmd args not_ice not_offer =
      if-submitted (cmd == "/quit" || cmd == "/exit") _ _ (λ e. refl)
        (if-submitted (cmd == "/peers") _ _ (λ e. refl)
          (if-submitted (cmd == "/ice") _ _ (λ e. absurd (not_ice ((eq_iff cmd "/ice").0 e)))
            (if-submitted (cmd == "/send") _ _ (λ e. submitted-send_command w app args)
              (if-submitted (cmd == "/offer") _ _
                (λ e. absurd (not_offer ((eq_iff cmd "/offer").0 e)))
                (if-submitted (cmd == "/signal") _ _ (λ e. submitted-signal_command w app args)
                  (if-submitted (cmd == "/help") _ _ (λ e. refl) refl))))))

  -- A line whose first word is neither `/ice` nor `/offer`, whatever it is, so also a complete `/signal`
  -- line, gives no frame to the socket of the transport and leaves the network, the client, the agent and
  -- the connection as they were.
  pub turn_submits_nothing :
      (clock : ℕ → ℕ × ℕ) (w : W) (app : App C) (line cmd : String) (args : List String)
      → fields line ≡ cmd ∷ args
      → cmd ≢ "/ice"
      → cmd ≢ "/offer"
      → (submitted (turn net codecs wrote send_to bytes clock w app line).2 ≡ [])
        × ((turn net codecs wrote send_to bytes clock w app line).0 ≡ w)
        × ((turn net codecs wrote send_to bytes clock w app line).1 ≡ app)
  turn_submits_nothing clock w app line cmd args e not_ice not_offer =
      rw (turn-fields clock w app line cmd args e) (
        submitted-command clock w app cmd args not_ice not_offer,
        (command-Keeps clock w app cmd args not_ice).0,
        (command-Keeps clock w app cmd args not_ice).1,
      )

  pub turn-Ends :
      (clock : ℕ → ℕ × ℕ) (w : W) (app : App C) (line : String)
      → Ends line
      → turn net codecs wrote send_to bytes clock w app line
        ≡ (w, app, prints "Goodbye!" ∷ [], true)
  unfolding command
  turn-Ends clock w app line (args, inl e) = turn-fields clock w app line "/quit" args e ∙ refl
  turn-Ends clock w app line (args, inr e) = turn-fields clock w app line "/exit" args e ∙ refl
