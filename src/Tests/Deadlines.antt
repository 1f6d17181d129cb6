-- ===== src/Tests/Deadlines.antt =====
-- A client that answers a ping, and a write pump with a ping between two messages.
use p_and_pp.Base.{
  ℕ, ◌≡◌, ◌≤◌, refl, [], ◌∷◌, ◌++◌, List, Option, none, some, true, ap, arith, ◌+◌, subst, sym, ◌∙◌,
}
use p_and_pp.Base.Results.{ok}
use p_and_pp.Server.{read_pump}
use p_and_pp.Server.Pumps.{messages}
use p_and_pp.Server.Deadlines.{
  Arrival, frame, pong, open_pump, frames, last_pong, IsAnswering, answering_stays,
}
use p_and_pp.Server.Ticker.{write_loop, wakes, somes, without_pings, messages-write_loop}
use p_and_pp.Signaling.Message.{Message}
use p_and_pp.Tests.Samples.{Doc, empty, a_frame, frame_of, read_sent, carol, message}

abbrev offer_frame : Doc
offer_frame = a_frame "signal" "bob" "alice" empty 5

abbrev arrivals : List (Arrival Doc × ℕ)
arrivals = (frame offer_frame, 20) ∷ (pong, 31) ∷ (frame offer_frame, 90) ∷ []

-- The condition is checked arrival by arrival.
IsAnswering-end : (start : ℕ) → IsAnswering {R = Doc} start []
IsAnswering-end start [] after a now e = cc e
IsAnswering-end start (x ∷ before) after a now e = cc e

IsAnswering-step :
    (start next : ℕ) (x : Arrival Doc × ℕ) (rest : List (Arrival Doc × ℕ))
    → x.1 ≤ start + 60
    → ((before : List (Arrival Doc × ℕ)) → last_pong start (x ∷ before) ≡ last_pong next before)
    → IsAnswering next rest
    → IsAnswering start (x ∷ rest)
unfolding last_pong
IsAnswering-step start next x rest soon same h [] after a now e =
    let at : x ≡ (a, now) = cc e in subst (λ y. y.1 ≤ start + 60) at soon
IsAnswering-step start next x rest soon same h (y ∷ before) after a now e =
    let first : x ≡ y = cc e in
    let others : rest ≡ before ++ (a, now) ∷ after = cc e in
    subst (λ n. now ≤ n + 60) (sym (same before) ∙ ap (λ z. last_pong start (z ∷ before)) first)
      (h before after a now others)

arrivals-IsAnswering : IsAnswering 0 arrivals
unfolding last_pong
arrivals-IsAnswering =
    IsAnswering-step 0 0 _ _ (omega arith) (λ b. refl)
      (IsAnswering-step 0 31 _ _ (omega arith) (λ b. refl)
        (IsAnswering-step 31 31 _ _ (omega arith) (λ b. refl) (IsAnswering-end 31)))

answering_stays_example :
    open_pump read_sent carol 0 arrivals ≡ read_pump read_sent carol (frames arrivals)
answering_stays_example = answering_stays read_sent carol 0 arrivals arrivals-IsAnswering

abbrev rounds : List (Option (Message Doc))
rounds = some (message "signal" "bob" "alice") ∷ none ∷ some (message "signal" "carol" "alice") ∷ []

messages-write_loop_example :
    messages read_sent (without_pings (write_loop (λ m. ok (frame_of m)) (wakes rounds true)))
    ≡ somes rounds
messages-write_loop_example =
    messages-write_loop (λ m. ok (frame_of m)) read_sent rounds true (λ m. (frame_of m, refl, refl))
