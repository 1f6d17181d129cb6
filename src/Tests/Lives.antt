-- ===== src/Tests/Lives.antt =====
-- A client connects, reads a frame, and is closed, with handlers that return and with one that does not.
use p_and_pp.Base.{Bool, ◌≡◌, ◌≢◌, refl, true, false, inl}
use p_and_pp.Transport.Life.{
  Env, Life, Reach, here, next, begin, close_socket, connects, polls, reads, cancels, closes,
  sticks, handling, stuck, waiting, returned, Inevitably, ticking,
}
use p_and_pp.Transport.Closing.{close_returns, close_never_returns}

abbrev env_with : Bool → Env
env_with b = record { reaches = true; blocks = b }

-- `Close` waits while the read pump handles the frame.
abbrev busy : Life
busy = record {
  reader = handling;
  writer = ticking;
  closer = waiting;
  cancelled = true;
  socket_closed = true;
  done_closed = false;
}

to_busy : (b : Bool) → Reach (env_with b) begin busy
unfolding begin close_socket
to_busy b =
    next
      (next (next (next (next here (connects refl refl)) (polls refl refl)) (reads refl refl))
        (cancels refl))
      (closes refl)

close_returns_example : Inevitably (env_with false) (λ t. t.closer ≡ returned) busy
close_returns_example = close_returns refl (to_busy false) refl (λ e. cc e)

-- The handler of the frame waits for ever.
abbrev held : Life
held = record busy { reader = stuck }

close_never_returns_example : held.closer ≢ returned
close_never_returns_example =
    close_never_returns {env = env_with true} {s = held} {t = held}
      (next (to_busy true) (sticks refl refl)) (inl refl) here
