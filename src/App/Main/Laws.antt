-- ===== src/App/Main/Laws.antt =====
-- What holds of the application's state through every run of the program.
use p_and_pp.Base.{
  ℕ, ◌≡◌, refl, sym, subst, eq_iff, String, ◌==◌, Bool, true, false, ◌&&◌, arith, List, [], ◌∷◌,
  zero, suc, All, All-append, Option, none, some, if◌then◌else◌,
}
use mathlib.Core.Option
use p_and_pp.Base.Results.{Result, ok, err}
use p_and_pp.Base.Texts.{Text}
use p_and_pp.Sdp.{type_offer, type_answer, type_ice}
use p_and_pp.Transport.{Unmarshaler}
use p_and_pp.Client.{Client, Notice, IceCandidateMsg, signalled, peers_changed}
use p_and_pp.Ice.Candidate.{Candidate}
use p_and_pp.Ice.Gatherer.{Net}
use p_and_pp.Ice.Connection.{Bytes}
use p_and_pp.Ice.Agent.{Agent, add_remote_candidate}
use p_and_pp.App.{
  App, Codecs, Act, start_ice, with_agent, handle_remote_candidate, take_candidate, take_ice,
  handle_signal, handle_event, submits, schedules, sends, prints,
}
use p_and_pp.App.Words.{trim_space, fields}
use p_and_pp.App.Shell.{stay, ice_command, command, run_parts, turn}
use p_and_pp.App.Shell.Commands.{command-Keeps}
use p_and_pp.App.Attempts.{Attempt, sleeping}
use p_and_pp.App.Main.{
  Running, Happening, typed, arrived, advances, started, advance, advance_at, heed, heed_all, react,
  program,
}

module _ {W C R : Type 0} (net : Net W C) (codecs : Codecs R) (dec : Unmarshaler R)
    (wrote : R → Result (Unit {0})) (resolve : Text → Result Text)
    (send_to : C → Bytes → Text → Result ℕ) (bytes : String → Bytes) where
  -- The ways in which the program changes its state keep a predicate on the application and one on the
  -- goroutines that connect.
  pub record Lasts (P : App C → Type 0) (Q : Attempt C → Type 0) : Type 0 where
    pub starting :
        (clock : ℕ → ℕ × ℕ) (w : W) (app : App C) (peer : String)
        → P app
        → P (start_ice net codecs clock w app peer).1
    pub adding :
        (app : App C) (a : Agent C) (remote : Candidate)
        → app.ice_agent ≡ some a
        → P app
        → P (record app { ice_agent = some (add_remote_candidate a remote) })
    pub receiving : (app : App C) (c : Client) → P app → P (record app { client = c })
    pub fresh : Q sleeping
    pub trying :
        (app : App C) (x : Attempt C)
        → P app
        → Q x
        → P (advance {R = R} resolve send_to bytes app x).0
          × Q (advance {R = R} resolve send_to bytes app x).1

  module _ {P : App C → Type 0} {Q : Attempt C → Type 0} (law : Lasts P Q) where
    pub if-Lasts :
        {B : Type 0} (b : Bool) (x y : W × App C × B)
        → (b ≡ true → P x.1)
        → (b ≡ false → P y.1)
        → P (if b then x else y).1
    if-Lasts true x y p q = p refl
    if-Lasts false x y p q = q refl

    add-Lasts :
        (app : App C) (o : Option (Agent C)) (remote : Candidate)
        → app.ice_agent ≡ o
        → P app
        → P (record app { ice_agent = Option.map (λ a. add_remote_candidate a remote) o })
    add-Lasts app none remote e p = subst (λ o. P (record app { ice_agent = o })) e p
    add-Lasts app (some a) remote e p = law.adding app a remote e p

    abbrev pick :
        Option (Agent C)
        → W × App C × List (Act R)
        → W × App C × List (Act R)
        → W × App C × List (Act R)
    pick o x y = elim o [ none ↦ x | some a ↦ y ]

    elim-Lasts :
        (o : Option (Agent C)) (x y : W × App C × List (Act R)) → P x.1 → P y.1 → P (pick o x y).1
    elim-Lasts none x y p q = p
    elim-Lasts (some a) x y p q = q

    remote-Lasts :
        (clock : ℕ → ℕ × ℕ) (w : W) (app : App C) (from : String) (remote : Candidate)
        → P app
        → P (handle_remote_candidate net codecs clock w app from remote).1
    unfolding handle_remote_candidate
    remote-Lasts clock w app from remote p =
        add-Lasts (with_agent net codecs clock w app from).1 _ remote refl (
          elim-Lasts app.ice_agent (start_ice net codecs clock w app from) (w, app, [])
            (law.starting clock w app from p) p)

    candidate-Lasts :
        (clock : ℕ → ℕ × ℕ) (w : W) (app : App C) (from : String) (r : Result Candidate)
        → P app
        → P (take_candidate net codecs clock w app from r).1
    candidate-Lasts clock w app from (err e) p = p
    candidate-Lasts clock w app from (ok remote) p = remote-Lasts clock w app from remote p

    ice-Lasts :
        (clock : ℕ → ℕ × ℕ) (w : W) (app : App C) (from : String) (r : Result (IceCandidateMsg R))
        → P app
        → P (take_ice net codecs clock w app from r).1
    ice-Lasts clock w app from (err e) p = p
    ice-Lasts clock w app from (ok msg) p =
        if-Lasts (msg.type == "ice-candidate") _ _
          (λ e. candidate-Lasts clock w app from (codecs.candidates.unmarshal msg.candidate) p)
          (λ e. p)

    heed-Lasts :
        (use_ice : Bool) (clock : ℕ → ℕ × ℕ) (w : W) (app : App C) (notice : Notice R)
        → P app
        → P (heed net codecs dec wrote resolve send_to bytes use_ice clock w app notice).1
    unfolding heed handle_signal handle_event
    heed-Lasts use_ice clock w app (signalled from sig) p =
        if-Lasts (sig.signal_type == type_offer) _ _ (λ e. p)
          (λ e.
            if-Lasts (sig.signal_type == type_answer) _ _ (λ e. p)
              (λ e.
                if-Lasts (sig.signal_type == type_ice) _ _
                  (λ e. ice-Lasts clock w app from (codecs.messages.unmarshal sig.payload) p)
                  (λ e. p)))
    heed-Lasts use_ice clock w app (peers_changed event) p =
        if-Lasts (event.type == "joined" && use_ice) _ _
          (λ e. law.starting clock w app event.peer_id p) (λ e. p)

    heed_all-Lasts :
        (use_ice : Bool) (clock : ℕ → ℕ × ℕ) (w : W) (app : App C) (notices : List (Notice R))
        → P app
        → P (heed_all net codecs dec wrote resolve send_to bytes use_ice clock w app notices).1
    unfolding heed_all
    heed_all-Lasts use_ice clock w app [] p = p
    heed_all-Lasts use_ice clock w app (notice ∷ notices) p =
        let (w', app', acts) =
          heed net codecs dec wrote resolve send_to bytes use_ice clock w app notice in
        heed_all-Lasts use_ice clock w' app' notices (heed-Lasts use_ice clock w app notice p)

    ice_command-Lasts :
        (clock : ℕ → ℕ × ℕ) (w : W) (app : App C) (args : List String)
        → P app
        → P (ice_command net codecs wrote send_to bytes clock w app args).1
    ice_command-Lasts clock w app [] p = p
    ice_command-Lasts clock w app (target ∷ more) p = law.starting clock w app target p

    command-Lasts :
        (clock : ℕ → ℕ × ℕ) (w : W) (app : App C) (cmd : String) (args : List String)
        → P app
        → P (command net codecs wrote send_to bytes clock w app cmd args).1
    unfolding command
    command-Lasts clock w app cmd args p = go (cmd == "/ice") refl
      where
        go :
            (b : Bool)
            → (cmd == "/ice") ≡ b
            → P (command net codecs wrote send_to bytes clock w app cmd args).1
        go true e =
            subst (λ c. P (command net codecs wrote send_to bytes clock w app c args).1)
              (sym ((eq_iff cmd "/ice").0 e)) (ice_command-Lasts clock w app args p)
        go false e =
            subst P
              (sym
                (command-Keeps net codecs wrote send_to bytes clock w app cmd args
                  (λ same. ground (arith, eq_iff cmd "/ice", same, e))).1)
              p

    parts-Lasts :
        (clock : ℕ → ℕ × ℕ) (w : W) (app : App C) (words : List String)
        → P app
        → P (run_parts net codecs wrote send_to bytes clock w app words).1
    parts-Lasts clock w app [] p = p
    parts-Lasts clock w app (cmd ∷ args) p = command-Lasts clock w app cmd args p

    line-Lasts :
        (clock : ℕ → ℕ × ℕ) (w : W) (app : App C) (blank : Bool) (words : List String)
        → P app
        → P
            (if blank
              then stay w app []
              else run_parts net codecs wrote send_to bytes clock w app words).1
    line-Lasts clock w app true words p = p
    line-Lasts clock w app false words p = parts-Lasts clock w app words p

    started-Lasts : (acts : List (Act R)) → All Q (started acts)
    unfolding started
    started-Lasts [] = tt
    started-Lasts (schedules ∷ acts) = (law.fresh, started-Lasts acts)
    started-Lasts (submits attempt ∷ acts) = started-Lasts acts
    started-Lasts (sends message result ∷ acts) = started-Lasts acts
    started-Lasts (prints line ∷ acts) = started-Lasts acts

    advance_at-Lasts :
        (app : App C) (xs : List (Attempt C)) (i : ℕ)
        → P app
        → All Q xs
        → P (advance_at {R = R} resolve send_to bytes app xs i).0
          × All Q (advance_at {R = R} resolve send_to bytes app xs i).1
    unfolding advance_at
    advance_at-Lasts app [] i p q = (p, tt)
    advance_at-Lasts app (x ∷ xs) zero p q =
        let (p', q') = law.trying app x p q.0 in (p', (q', q.1))
    advance_at-Lasts app (x ∷ xs) (suc i) p q =
        let (p', q') = advance_at-Lasts app xs i p q.1 in (p', (q.0, q'))

    -- The predicates hold of the application and of every goroutine.
    abbrev pub Holds : Running C → Type 0
    Holds r = P r.app × All Q r.attempts

    react-Lasts :
        (use_ice : Bool) (clock : ℕ → ℕ × ℕ) (w : W) (r : Running C) (happening : Happening R)
        → Holds r
        → Holds (react net codecs dec wrote resolve send_to bytes use_ice clock w r happening).1
    unfolding react turn
    react-Lasts use_ice clock w r (typed line) (p, q) = (
      line-Lasts clock w r.app (trim_space line == "") (fields (trim_space line)) p,
      All-append Q r.attempts _ q (started-Lasts _),
    )
    react-Lasts use_ice clock w r (arrived msg) (p, q) = (
      heed_all-Lasts use_ice clock w _ _ (law.receiving r.app _ p),
      All-append Q r.attempts _ q (started-Lasts _),
    )
    react-Lasts use_ice clock w r (advances i) (p, q) = advance_at-Lasts r.app r.attempts i p q

    if-Holds :
        (b : Bool) (x y : W × Running C × List (Act R))
        → (b ≡ true → Holds x.1)
        → (b ≡ false → Holds y.1)
        → Holds (if b then x else y).1
    if-Holds true x y p q = p refl
    if-Holds false x y p q = q refl

    pub program-Lasts :
        (use_ice : Bool) (w : W) (r : Running C) (happenings : List (Happening R × (ℕ → ℕ × ℕ)))
        → Holds r
        → Holds (program net codecs dec wrote resolve send_to bytes use_ice w r happenings).1
    unfolding program
    program-Lasts use_ice w r [] p = p
    program-Lasts use_ice w r ((happening, clock) ∷ happenings) p =
        let (w', r', acts, ended) =
          react net codecs dec wrote resolve send_to bytes use_ice clock w r happening in
        let q : Holds r' = react-Lasts use_ice clock w r happening p in
        if-Holds ended _ _ (λ e. q) (λ e. program-Lasts use_ice w' r' happenings q)
