-- ===== src/Server/Ticker.antt =====
-- cmd/server/main.go: `writePump` with its ticker and with writes that fail.
use p_and_pp.Base.{
  ◌≡◌, refl, ap, ◌∙◌, Bool, true, false, List, [], ◌∷◌, Option, none, some, if◌then◌else◌,
}
use p_and_pp.Base.Results.{Result, ok, err}
use p_and_pp.Signaling.Message.{Message}
use p_and_pp.Server.{Frame, text, close_frame, write_pump}
use p_and_pp.Server.Pumps.{messages, messages-write_pump}

-- What wakes the write pump: a message, the close of the channel, or the ticker.
pub data Wake (R : Type 0) : Type 0 where
  takes : Message R → Wake R
  finds_closed : Wake R
  ticks : Wake R

-- What the write pump gives to the socket.
pub data Output (R : Type 0) : Type 0 where
  framed : Frame R → Output R
  ping : Output R

module _ {R : Type 0} where
  -- The rounds of `writePump`, each with whether its write, if it comes to one, succeeds.
  unfoldable pub write_loop : (Message R → Result R) → List (Wake R × Bool) → List (Output R)
  write_loop encode [] = []
  write_loop encode ((takes msg, written) ∷ rest) =
      let more = write_loop encode rest in
      elim (encode msg) [ ok r ↦ framed (text r) ∷ (if written then more else []) | err e ↦ more ]
  write_loop encode ((finds_closed, written) ∷ rest) = framed close_frame ∷ []
  write_loop encode ((ticks, written) ∷ rest) =
      let more = write_loop encode rest in ping ∷ (if written then more else [])

  -- The ticks and the messages of a write pump whose writes succeed, and the close of its channel at the
  -- end.
  pub wakes : List (Option (Message R)) → Bool → List (Wake R × Bool)
  wakes [] closed = if closed then (finds_closed, true) ∷ [] else []
  wakes (none ∷ rest) closed = (ticks, true) ∷ wakes rest closed
  wakes (some msg ∷ rest) closed = (takes msg, true) ∷ wakes rest closed

  pub somes : List (Option (Message R)) → List (Message R)
  somes [] = []
  somes (none ∷ rest) = somes rest
  somes (some msg ∷ rest) = msg ∷ somes rest

  pub without_pings : List (Output R) → List (Frame R)
  without_pings [] = []
  without_pings (framed f ∷ rest) = f ∷ without_pings rest
  without_pings (ping ∷ rest) = without_pings rest

  write_loop-write_pump :
      (encode : Message R → Result R) (rounds : List (Option (Message R))) (closed : Bool)
      → without_pings (write_loop encode (wakes rounds closed))
        ≡ write_pump encode (somes rounds) closed
  unfolding write_loop write_pump without_pings somes wakes
  write_loop-write_pump encode [] true = refl
  write_loop-write_pump encode [] false = refl
  write_loop-write_pump encode (none ∷ rest) closed = write_loop-write_pump encode rest closed
  write_loop-write_pump encode (some msg ∷ rest) closed =
      go (encode msg) refl (write_loop-write_pump encode rest closed)
    where
      go :
          (r : Result R)
          → encode msg ≡ r
          → without_pings (write_loop encode (wakes rest closed))
            ≡ write_pump encode (somes rest) closed
          → without_pings (write_loop encode (wakes (some msg ∷ rest) closed))
            ≡ write_pump encode (somes (some msg ∷ rest)) closed
      go (ok r) e more = rw e (ap (λ l. text r ∷ l) more)
      go (err x) e more = rw e more

  -- If every message is read back as it was written, then while the writes succeed, what the write pump
  -- writes beside its pings is read as the messages of the channel, each once and in their order, wherever
  -- the pings stand and also if the channel was closed at the end.
  pub messages-write_loop :
      (encode : Message R → Result R) (decode : R → Result (Message R))
      (rounds : List (Option (Message R))) (closed : Bool)
      → ((m : Message R) → (r : R) × (encode m ≡ ok r) × (decode r ≡ ok m))
      → messages decode (without_pings (write_loop encode (wakes rounds closed))) ≡ somes rounds
  messages-write_loop encode decode rounds closed h =
      ap (messages decode) (write_loop-write_pump encode rounds closed)
      ∙ messages-write_pump encode decode (somes rounds) closed h
