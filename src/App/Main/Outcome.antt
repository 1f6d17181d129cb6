-- ===== src/App/Main/Outcome.antt =====
-- How the program ends, and what becomes of its direct connection.
use p_and_pp.Base.{
  ℕ, ◌≡◌, refl, ap, All, [], String, ◌==◌, Bool, not, ◌&&◌, List, ◌++◌, ◌⊎◌, inl, inr, some,
}
use p_and_pp.Base.Results.{Result}
use p_and_pp.Base.Texts.{Text}
use p_and_pp.Transport.{Unmarshaler}
use p_and_pp.Transport
use p_and_pp.Client.{connect}
use p_and_pp.Client.Start.{CanReach, connect_to-cases}
use p_and_pp.Ice.Gatherer.{Net}
use p_and_pp.Ice.Connection.{Connection, Bytes}
use p_and_pp.App.{App, Codecs, Act}
use p_and_pp.App.Attempts.{Attempt, sleeping, unconnected, connected, over}
use p_and_pp.App.Shell.{banner}
use p_and_pp.App.Main.{
  Flags, Running, Happening, advance, exits, returns, open_ice, new_app, settle, run_client,
  run_main, program,
}
use p_and_pp.App.Main.Laws.{Lasts, if-Lasts, program-Lasts}
use p_and_pp.App.Main.Sound.{Each, IsDirect, IsSound, Lasts-IsSound}

module _ {W C R : Type 0} (net : Net W C) (codecs : Codecs R) (dec : Unmarshaler R)
    (wrote : R → Result (Unit {0})) (resolve : Text → Result Text)
    (send_to : C → Bytes → Text → Result ℕ) (bytes : String → Bytes) where
  -- A goroutine that is not between its test of the connection and its assignment of one.
  abbrev pub Waits : Attempt C → Type 0
  Waits sleeping = Unit
  Waits over = Unit
  Waits _ = ⊥

  advance-same :
      (app : App C) (x : Attempt C) (conn : Connection C)
      → app.ice_conn ≡ some conn
      → Waits x
      → ((advance {R = R} resolve send_to bytes app x).0.ice_conn ≡ some conn)
        × Waits (advance {R = R} resolve send_to bytes app x).1
  unfolding advance
  advance-same app sleeping conn e h = rw e (refl, tt)
  advance-same app unconnected conn e h = absurd h
  advance-same app (connected c) conn e h = absurd h
  advance-same app over conn e h = (e, tt)

  Lasts-same :
      (conn : Connection C)
      → Lasts net codecs dec wrote resolve send_to bytes (λ app. app.ice_conn ≡ some conn) Waits
  unfolding p_and_pp.App.start_ice
  Lasts-same conn = record {
    starting = λ clock w app peer e. e;
    adding = λ app a remote f e. e;
    receiving = λ app c e. e;
    fresh = tt;
    trying = λ app x e h. advance-same app x conn e h;
  }

  -- From a state with a direct connection where no goroutine is between its test of the connection and
  -- its assignment of one, no line, no message and no step of a goroutine, in any order, gives the
  -- application another connection or takes this one away.
  pub connection_stays :
      (use_ice : Bool) (w : W) (r : Running C) (conn : Connection C)
      (happenings : List (Happening R × (ℕ → ℕ × ℕ)))
      → r.app.ice_conn ≡ some conn
      → All Waits r.attempts
      → (program net codecs dec wrote resolve send_to bytes use_ice w r happenings).1.app.ice_conn
        ≡ some conn
  connection_stays use_ice w r conn happenings e waiting =
      (program-Lasts net codecs dec wrote resolve send_to bytes (Lasts-same conn) use_ice w r
        happenings (e, waiting)).0

module _ {W C R U : Type 0} (net : Net W C) (codecs : Codecs R) (dec : Unmarshaler R)
    (wrote : R → Result (Unit {0})) (resolve : Text → Result Text)
    (send_to : C → Bytes → Text → Result ℕ) (bytes : String → Bytes) (parse : String → Result U)
    (dial : U → Result (Unit {0})) where
  opened :
      (flags : Flags) (clock : ℕ → ℕ × ℕ) (w : W) (app : App C)
      → IsSound net resolve app
      → IsSound net resolve
          (open_ice net codecs dec wrote resolve send_to bytes parse dial flags clock w app).1
  opened flags clock w app s =
      let law = Lasts-IsSound net resolve codecs dec wrote send_to bytes in
      if-Lasts net codecs dec wrote resolve send_to bytes law
        (flags.use_ice && not (flags.peer_id == "")) _ _
        (λ e. law.starting clock w app flags.peer_id s) (λ e. s)

  -- If the URL of the flag parses and can be dialled, then whatever the other flags, the messages before
  -- and after the start, the lines that are typed and the steps of the goroutines that connect, the program
  -- returns from its shell, after the last line at the latest, and where it then has a direct connection,
  -- this is open, on the socket that its local candidate describes, to the address that its remote
  -- candidate resolves to. Else it exits with the status 1.
  pub main_outcome :
      (flags : Flags) (w : W) (early : List (Transport.Message R)) (clock : ℕ → ℕ × ℕ)
      (happenings : List (Happening R × (ℕ → ℕ × ℕ)))
      → (CanReach parse dial flags.server_addr
          × (w' : W) × (app : App C) × (acts : List (Act R)) × (run_main net codecs dec wrote
                resolve send_to bytes parse dial flags w early clock happenings
              ≡ returns w' app acts)
          × Each (IsDirect net resolve) app.ice_conn)
        ⊎ (¬ CanReach parse dial flags.server_addr
            × (run_main net codecs dec wrote resolve send_to bytes parse dial flags w early clock
                  happenings
                ≡ exits 1))
  unfolding run_main
  main_outcome flags w early clock happenings =
      elim (connect_to-cases parse dial flags.server_addr) [
        | inl (there, made) ↦
            let app : App C = new_app (settle codecs dec connect early) in
            let (w', app', acts) =
              open_ice net codecs dec wrote resolve send_to bytes parse dial flags clock w app in
            let ended =
              program net codecs dec wrote resolve send_to bytes flags.use_ice w'
                (record { app = app'; attempts = [] }) happenings in
            inl (
              there,
              ended.0,
              ended.1.app,
              acts ++ (banner ++ ended.2),
              ap
                  (run_client net codecs dec wrote resolve send_to bytes parse dial flags w early
                    clock happenings)
                  made,
              (program-Lasts net codecs dec wrote resolve send_to bytes
                  (Lasts-IsSound net resolve codecs dec wrote send_to bytes) flags.use_ice w'
                  (record { app = app'; attempts = [] }) happenings
                  (opened flags clock w app (record { agent = tt; direct = tt }), tt)).0.direct,
            )
        | inr (missing, e, failed) ↦ inr (
          missing,
          ap
              (run_client net codecs dec wrote resolve send_to bytes parse dial flags w early clock
                happenings)
              failed,
        )
      ]
