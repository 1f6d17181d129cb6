-- ===== src/Ice/Connection/Traffic.antt =====
-- What goes through a connection: data from the remote peer only, and nothing once it is closed.
use p_and_pp.Base.{ℕ, ◌≡◌, refl, ap, true, false, List, [], ◌∷◌, ◌++◌, arith, ◌⊎◌}
use p_and_pp.Base.Results.{Result, ok, err}
use p_and_pp.Base.Texts.{Text, text_eq_sound}
use p_and_pp.Ice.Connection.{
  Connection, Bytes, failure, datagram, Round, Next, stop, skip, handled, round, receive_loop, send,
  receive_from, close,
}

module _ {C : Type 0} where
  -- After `Close` nothing is written to the socket or read from it: `Send` and `Receive` fail, whatever
  -- the socket would do, and closing again changes nothing.
  pub close_final :
      (c : Connection C) (send_to : C → Bytes → Text → Result ℕ) (bytes : Bytes)
      (got : Result (Bytes × Text))
      → (send send_to (close c) bytes ≡ err "connection closed")
        × (receive_from (close c) got ≡ err "connection closed")
        × (close (close c) ≡ close c)
  unfolding close send receive_from
  close_final c send_to bytes got = ground arith

  -- `Receive` returns bytes only from the remote address of an open connection.
  pub receive_sound :
      (c : Connection C) (bytes got : Bytes) (from : Text)
      → receive_from c (ok (got, from)) ≡ ok bytes
      → (c.closed ≡ false) × (from ≡ c.remote_addr) × (bytes ≡ got)
  unfolding receive_from
  receive_sound c bytes got from h = ground (arith, text_eq_sound from c.remote_addr)

  -- A round that the loop passes on: an open connection with a handler, and its peer's datagram.
  abbrev pub Accepts : Round C → Bytes × Text → Type 0
  Accepts r (bytes, from) =
      (r.seen.closed ≡ false)
      × (r.seen.has_handler ≡ true)
      × (r.read ≡ datagram bytes from)
      × (from ≡ r.seen.remote_addr)

  -- The calls are those of some of the rounds, in their order.
  pub data Calls : List (Round C) → List (Bytes × Text) → Type 0 where
    none_left : (rs : List (Round C)) → Calls rs []
    passed :
        (r : Round C) {rs : List (Round C)} {cs : List (Bytes × Text)}
        → Calls rs cs
        → Calls (r ∷ rs) cs
    called :
        (r : Round C) {rs : List (Round C)} {c : Bytes × Text} {cs : List (Bytes × Text)}
        → Accepts r c
        → Calls rs cs
        → Calls (r ∷ rs) (c ∷ cs)

  round_handled :
      (r : Round C) (bytes : Bytes) (from : Text)
      → round r ≡ handled bytes from
      → Accepts r (bytes, from)
  unfolding round
  round_handled r bytes from h = ground (arith, text_eq_sound from r.seen.remote_addr)

  stops : (r : Round C) → (r.seen.closed ≡ true) ⊎ (r.read ≡ failure) → round r ≡ stop
  unfolding round
  stops r h = ground arith

  -- Every call of the handler is for a datagram of the remote peer, read on an open connection with a
  -- handler set, and the calls keep the order of the reads.
  pub receive_loop_sound : (rs : List (Round C)) → Calls rs (receive_loop rs)
  unfolding receive_loop
  receive_loop_sound [] = none_left []
  receive_loop_sound (r ∷ rs) = go (round r) refl (receive_loop_sound rs)
    where
      go :
          (n : Next)
          → round r ≡ n
          → Calls rs (receive_loop rs)
          → Calls (r ∷ rs) (receive_loop (r ∷ rs))
      go stop q ih = rw (q, receive_loop) (none_left (r ∷ rs))
      go skip q ih = rw (q, receive_loop) (passed r ih)
      go (handled bytes from) q ih =
          rw (q, receive_loop) (called r (round_handled r bytes from q) ih)

  -- Once a round stops the loop, by a closed connection or a failed read, no later round is handled.
  pub receive_loop_stops :
      (rs ts : List (Round C)) (r : Round C)
      → (r.seen.closed ≡ true) ⊎ (r.read ≡ failure)
      → receive_loop (rs ++ r ∷ ts) ≡ receive_loop rs
  unfolding receive_loop
  receive_loop_stops [] ts r h = let q = stops r h in rw (q, receive_loop)
  receive_loop_stops (s ∷ rs) ts r h = go (round s) refl (receive_loop_stops rs ts r h)
    where
      go :
          (n : Next)
          → round s ≡ n
          → receive_loop (rs ++ r ∷ ts) ≡ receive_loop rs
          → receive_loop (s ∷ rs ++ r ∷ ts) ≡ receive_loop (s ∷ rs)
      go stop q ih = rw (q, receive_loop)
      go skip q ih = rw (q, receive_loop) ih
      go (handled bytes from) q ih = rw (q, receive_loop) (ap (◌∷◌ (bytes, from)) ih)
