-- ===== src/App/Main/Stops.antt =====
-- The end of the program.
use p_and_pp.Base.{
  true, false, ℕ, ◌≡◌, refl, ap, fun_ext, ◌∙◌, map, String, Bool, List, [], ◌∷◌, ◌++◌,
  if◌then◌else◌,
}
use p_and_pp.Base.Results.{Result}
use p_and_pp.Base.Texts.{Text}
use p_and_pp.Transport.{Unmarshaler}
use p_and_pp.Ice.Gatherer.{Net}
use p_and_pp.Ice.Connection.{Bytes}
use p_and_pp.App.{App, Codecs, Act, prints}
use p_and_pp.App.Shell.{turn, shell}
use p_and_pp.App.Shell.Commands.{Ends, turn-Ends}
use p_and_pp.App.Attempts.{Attempt}
use p_and_pp.App.Main.{Running, Happening, typed, started, react, program}

module _ {W C R : Type 0} (net : Net W C) (codecs : Codecs R) (dec : Unmarshaler R)
    (wrote : R → Result (Unit {0})) (resolve : Text → Result Text)
    (send_to : C → Bytes → Text → Result ℕ) (bytes : String → Bytes) (use_ice : Bool) where
  react-Ends :
      (clock : ℕ → ℕ × ℕ) (w : W) (r : Running C) (line : String)
      → Ends line
      → react net codecs dec wrote resolve send_to bytes use_ice clock w r (typed line)
        ≡ (w, record { app = r.app; attempts = r.attempts ++ [] }, prints "Goodbye!" ∷ [], true)
  unfolding react started
  react-Ends clock w r line e =
      rw (turn-Ends net codecs wrote send_to bytes clock w r.app line e) refl

  -- Whatever happened before it, a line whose first word is `/quit` or `/exit` ends the program: nothing
  -- that would happen after it has any effect.
  pub program_stops :
      (w : W) (r : Running C) (before after : List (Happening R × (ℕ → ℕ × ℕ))) (line : String)
      (clock : ℕ → ℕ × ℕ)
      → Ends line
      → program net codecs dec wrote resolve send_to bytes use_ice w r
          (before ++ (typed line, clock) ∷ after)
        ≡ program net codecs dec wrote resolve send_to bytes use_ice w r
            (before ++ (typed line, clock) ∷ [])
  unfolding program
  program_stops w r [] after line clock e = rw (react-Ends clock w r line e) refl
  program_stops w r ((l, c) ∷ before) after line clock e =
      ap
        (λ (s : W → Running C → W × Running C × List (Act R)).
          let t = react net codecs dec wrote resolve send_to bytes use_ice c w r l in
          if t.3 then (t.0, t.1, t.2) else ((s t.0 t.1).0, (s t.0 t.1).1, t.2 ++ (s t.0 t.1).2))
        (fun_ext (λ v. fun_ext (λ q. program_stops v q before after line clock e)))

  -- What a run leaves but for the goroutines.
  abbrev shown : W × Running C × List (Act R) → W × App C × List (Act R)
  shown t = (t.0, t.1.app, t.2)

  shown-if :
      (b : Bool) (x y : W × Running C × List (Act R))
      → shown (if b then x else y) ≡ (if b then shown x else shown y)
  shown-if true x y = refl
  shown-if false x y = refl

  -- With nothing but typed lines, the program is the shell.
  program-typed :
      (w : W) (app : App C) (xs : List (Attempt C)) (lines : List (String × (ℕ → ℕ × ℕ)))
      → shown (
          program net codecs dec wrote resolve send_to bytes use_ice w
            (record { app = app; attempts = xs })
            (map (λ l. (typed l.0, l.1)) lines))
        ≡ shell net codecs wrote send_to bytes w app lines
  unfolding program react shell
  program-typed w app xs [] = refl
  program-typed w app xs ((line, clock) ∷ lines) =
      let t = turn net codecs wrote send_to bytes clock w app line in
      shown-if t.3 _ _
      ∙ ap
          (λ (s : W × App C × List (Act R)).
            if t.3 then (t.0, t.1, t.2) else (s.0, s.1, t.2 ++ s.2))
          (program-typed t.0 t.1 (xs ++ started t.2) lines)
