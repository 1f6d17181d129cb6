-- ===== src/Server/Deadlines.antt =====
-- cmd/server/main.go: `readPump` with its read deadline. Times are in seconds. That a read fails once its deadline is over is the promise of the WebSocket library.
use p_and_pp.Base.{
  ℕ, ◌+◌, ◌≤◌, ◌≡◌, refl, ap, ◌∙◌, map, Bool, true, false, List, [], ◌∷◌, ◌++◌, Option, none, some,
  leb, if◌then◌else◌, arith, All,
}
use p_and_pp.Base.Results.{Result}
use p_and_pp.Signaling.Message.{Message}
use p_and_pp.Signaling.Hub.{Peer, Event, broadcast}
use p_and_pp.Server.{read_frame, read_pump}

-- What comes in over a connection: a frame of the client, or its answer to a ping.
pub data Arrival (R : Type 0) : Type 0 where
  frame : R → Arrival R
  pong : Arrival R

le→leb : (a b : ℕ) → a ≤ b → leb a b ≡ true
le→leb a b h = ground arith

leb→le : (a b : ℕ) → leb a b ≡ true → a ≤ b
leb→le a b e = ground arith

module _ {R : Type 0} where
  abbrev pub handed : Option (Message R) → ℕ → List (Event R) → List (Event R)
  handed none now events = events
  handed (some msg) now events = broadcast msg now ∷ events

  -- The rounds of `readPump` from a deadline on, over what arrives and when. Only a pong moves the
  -- deadline.
  unfoldable pub timed_pump :
      (R → Result (Message R)) → Peer → ℕ → List (Arrival R × ℕ) → List (Event R)
  timed_pump decode peer deadline [] = []
  timed_pump decode peer deadline ((frame r, now) ∷ rest) =
      let more = timed_pump decode peer deadline rest in
      if leb now deadline then handed (read_frame decode peer r now) now more else []
  timed_pump decode peer deadline ((pong, now) ∷ rest) =
      let more = timed_pump decode peer (now + 60) rest in if leb now deadline then more else []

  -- The pump of a connection that starts at a time.
  unfoldable pub open_pump :
      (R → Result (Message R)) → Peer → ℕ → List (Arrival R × ℕ) → List (Event R)
  open_pump decode peer start arrivals = timed_pump decode peer (start + 60) arrivals

  -- The frames that arrive, with their times.
  pub frames : List (Arrival R × ℕ) → List (R × ℕ)
  frames [] = []
  frames ((frame r, now) ∷ rest) = (r, now) ∷ frames rest
  frames ((pong, now) ∷ rest) = frames rest

  -- The time of the last pong, or the start.
  unfoldable pub last_pong : ℕ → List (Arrival R × ℕ) → ℕ
  last_pong start [] = start
  last_pong start ((frame r, now) ∷ rest) = last_pong start rest
  last_pong start ((pong, now) ∷ rest) = last_pong now rest

  -- Everything comes within 60 seconds of the last pong before it, or of the start.
  abbrev pub IsAnswering : ℕ → List (Arrival R × ℕ) → Type 0
  IsAnswering start arrivals =
      (before after : List (Arrival R × ℕ)) (a : Arrival R) (now : ℕ)
      → arrivals ≡ before ++ (a, now) ∷ after
      → now ≤ last_pong start before + 60

  handed-read_pump :
      (decode : R → Result (Message R)) (peer : Peer) (r : R) (now : ℕ) (rest : List (R × ℕ))
      → handed (read_frame decode peer r now) now (read_pump decode peer rest)
        ≡ read_pump decode peer ((r, now) ∷ rest)
  unfolding read_pump
  handed-read_pump decode peer r now rest = go (read_frame decode peer r now)
    where
      go :
          (o : Option (Message R))
          → handed o now (read_pump decode peer rest) ≡ (elim o as (λ x. List (Event R)) [
            | some msg ↦ broadcast msg now ∷ read_pump decode peer rest
            | none ↦ read_pump decode peer rest
          ])
      go none = refl
      go (some msg) = refl

  -- Where everything comes within 60 seconds of the last pong before it, or of the start if there was
  -- none, the pump with its deadline hands to the hub what the pump without one does.
  pub answering_stays :
      (decode : R → Result (Message R)) (peer : Peer) (start : ℕ) (arrivals : List (Arrival R × ℕ))
      → IsAnswering start arrivals
      → open_pump decode peer start arrivals ≡ read_pump decode peer (frames arrivals)
  unfolding open_pump timed_pump frames last_pong read_pump
  answering_stays decode peer start [] h = refl
  answering_stays decode peer start ((frame r, now) ∷ rest) h =
      ap
        (λ b.
          if b
          then handed (read_frame decode peer r now) now (open_pump decode peer start rest)
          else [])
        (le→leb now (start + 60) (h [] rest (frame r) now refl))
      ∙ ap (handed (read_frame decode peer r now) now) (
          answering_stays decode peer start rest (λ before after a t e.
            h ((frame r, now) ∷ before) after a t (ap (λ l. (frame r, now) ∷ l) e)))
      ∙ handed-read_pump decode peer r now (frames rest)
  answering_stays decode peer start ((pong, now) ∷ rest) h =
      ap (λ b. if b then open_pump decode peer now rest else [])
        (le→leb now (start + 60) (h [] rest pong now refl))
      ∙ answering_stays decode peer now rest
          (λ before after a t e. h ((pong, now) ∷ before) after a t (ap (λ l. (pong, now) ∷ l) e))

  abbrev pub By : ℕ → Event R → Type 0
  By deadline (broadcast msg now) = now ≤ deadline
  By deadline _ = ⊥

  handed-By :
      (deadline now : ℕ) (b : Bool)
      → leb now deadline ≡ b
      → (o : Option (Message R)) (more : List (Event R)) → All (By deadline) more
      → All (By deadline) (if b then handed o now more else [])
  handed-By deadline now false e o more h = tt
  handed-By deadline now true e none more h = h
  handed-By deadline now true e (some msg) more h = (leb→le now deadline e, h)

  -- A client that answers no ping is cut off after 60 seconds, however much it sends: of its messages the
  -- hub gets only those that came by then.
  pub silent_cut :
      (decode : R → Result (Message R)) (peer : Peer) (start : ℕ) (sent : List (R × ℕ))
      → All (By (start + 60)) (open_pump decode peer start (map (λ s. (frame s.0, s.1)) sent))
  unfolding open_pump timed_pump
  silent_cut decode peer start [] = tt
  silent_cut decode peer start ((r, now) ∷ sent) =
      handed-By (start + 60) now (leb now (start + 60)) refl (read_frame decode peer r now)
        (open_pump decode peer start (map (λ s. (frame s.0, s.1)) sent))
        (silent_cut decode peer start sent)
