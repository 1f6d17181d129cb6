-- ===== src/Server/Pumps.antt =====
-- What the two pumps of a connection pass on.
use p_and_pp.Base.{ℕ, ◌≡◌, refl, ap, List, [], ◌∷◌, Bool, true, false, All}
use p_and_pp.Base.Results.{Result, ok, err}
use p_and_pp.Signaling.Message.{Message}
use p_and_pp.Signaling.Hub.{Peer, Event, register, unregister, broadcast}
use p_and_pp.Server.{Frame, text, close_frame, read_frame, read_pump, write_pump}

module _ {R : Type 0} where
  -- A message of the peer's own, at the server's time.
  abbrev pub IsFrom : Peer → Event R → Type 0
  IsFrom p (register q a b c) = ⊥
  IsFrom p (unregister q a) = ⊥
  IsFrom p (broadcast m a) = (m.from ≡ p.id) × (m.timestamp ≡ a)

  -- Whatever frames a client writes, each event that its read pump hands to the hub is a message with
  -- the connection's own peer as its sender and the server's time as its time.
  pub read_pump-IsFrom :
      (decode : R → Result (Message R)) (p : Peer) (frames : List (R × ℕ))
      → All (IsFrom p) (read_pump decode p frames)
  unfolding read_pump read_frame
  read_pump-IsFrom decode p [] = tt
  read_pump-IsFrom decode p ((frame, now) ∷ rest) =
      by_frame (decode frame) refl (read_pump-IsFrom decode p rest)
    where
      by_frame :
          (r : Result (Message R))
          → decode frame ≡ r
          → All (IsFrom p) (read_pump decode p rest)
          → All (IsFrom p) (read_pump decode p ((frame, now) ∷ rest))
      by_frame (ok m) e others =
          let shape : read_pump decode p ((frame, now) ∷ rest)
              ≡ broadcast (record m { from = p.id; timestamp = now }) now
                ∷ read_pump decode p rest =
            rw (read_pump, read_frame, e) refl in
          rw shape ((refl, refl), others)
      by_frame (err s) e others =
          let shape : read_pump decode p ((frame, now) ∷ rest) ≡ read_pump decode p rest =
            rw (read_pump, read_frame, e) refl in
          rw shape others

  -- The messages that a reader makes of frames; it stops at the close frame.
  pub messages : (R → Result (Message R)) → List (Frame R) → List (Message R)
  messages decode [] = []
  messages decode (close_frame ∷ fs) = []
  messages decode (text r ∷ fs) = elim (decode r) [
    | ok m ↦ m ∷ messages decode fs
    | err e ↦ messages decode fs
  ]

  -- If every message is read back as it was written, then what the write pump writes is read as the
  -- messages that waited in the channel, each once and in their order, also if the channel was closed
  -- behind them.
  pub messages-write_pump :
      (encode : Message R → Result R) (decode : R → Result (Message R)) (ms : List (Message R))
      (closed : Bool)
      → ((m : Message R) → (r : R) × (encode m ≡ ok r) × (decode r ≡ ok m))
      → messages decode (write_pump encode ms closed) ≡ ms
  unfolding messages write_pump
  messages-write_pump encode decode [] true h = refl
  messages-write_pump encode decode [] false h = refl
  messages-write_pump encode decode (m ∷ ms) closed h =
      let (r, e, d) = h m in
      rw (e, write_pump)
        (rw (d, messages) (ap (λ l. m ∷ l) (messages-write_pump encode decode ms closed h)))
