-- ===== src/Transport/Closing.antt =====
-- `Close` of the client's transport, and the read pump that it waits for.
use p_and_pp.Base.{ℕ, zero, suc, ◌⊎◌, inl, inr, ◌+◌, ◌<◌, ◌≡◌, ◌≢◌, refl, true, false, arith}
use p_and_pp.Transport.Life.{
  Env, Reader, unborn, polling, reading, handling, stuck, leaving, finished, Writer, absent,
  ticking, gone, idle, waiting, returned, Life, begin, close_socket, Step, connects, polls,
  sees_cancel, reads, skips, fails, handles, sticks, closes_done, writer_stops, cancels, closes,
  wakes, Reach, here, next, Inevitably, now, later,
}

-- `Close` has cancelled the context, and a reader that it finds in `ReadMessage` has its socket closed;
-- the channel `done` is closed exactly if the reader is back, and `Close` is only back then.
pub record Inv (env : Env) (s : Life) : Type 0 where
  pub cancelled : s.closer ≢ idle → s.cancelled ≡ true
  pub closed : s.closer ≡ waiting → s.reader ≡ reading → s.socket_closed ≡ true
  pub done_after : s.done_closed ≡ true → s.reader ≡ finished
  pub done_before : s.reader ≡ finished → s.done_closed ≡ true
  pub back : s.closer ≡ returned → s.done_closed ≡ true
  pub born : env.reaches ≡ false → s.reader ≡ unborn
  pub free : env.blocks ≡ false → s.reader ≢ stuck

-- A step of the reader from one place to another, neither of which is its end.
moved :
    {env : Env} {s : Life} (r : Reader)
    → Inv env s
    → s.reader ≢ unborn
    → s.reader ≢ finished
    → r ≢ finished
    → (s.closer ≡ waiting → r ≡ reading → s.socket_closed ≡ true)
    → (env.blocks ≡ false → r ≢ stuck)
    → Inv env (record s { reader = r })
moved {env} {s} r i alive going ending closed free = record {
  cancelled = i.cancelled;
  closed = closed;
  done_after = λ d. absurd (going (i.done_after d));
  done_before = λ e. absurd (ending e);
  back = i.back;
  born = λ e. absurd (alive (i.born e));
  free = free;
}

Step-Inv : {env : Env} {s t : Life} → Step env s t → Inv env s → Inv env t
unfolding close_socket
Step-Inv (connects e r) i = record {
  cancelled = i.cancelled;
  closed = λ a b. cc b;
  done_after = λ d. cc (r, i.done_after d);
  done_before = λ f. cc f;
  back = i.back;
  born = λ f. cc (e, f);
  free = λ b f. cc f;
}
Step-Inv (polls r c) i =
    moved reading i (λ e. cc (r, e)) (λ e. cc (r, e)) (λ e. cc e)
      (λ a b. cc (c, i.cancelled (λ e. cc (a, e)))) (λ b e. cc e)
Step-Inv (sees_cancel r c) i =
    moved leaving i (λ e. cc (r, e)) (λ e. cc (r, e)) (λ e. cc e) (λ a b. cc b) (λ b e. cc e)
Step-Inv (reads r c) i =
    moved handling i (λ e. cc (r, e)) (λ e. cc (r, e)) (λ e. cc e) (λ a b. cc b) (λ b e. cc e)
Step-Inv (skips r c) i =
    moved polling i (λ e. cc (r, e)) (λ e. cc (r, e)) (λ e. cc e) (λ a b. cc b) (λ b e. cc e)
Step-Inv (fails r) i =
    moved leaving i (λ e. cc (r, e)) (λ e. cc (r, e)) (λ e. cc e) (λ a b. cc b) (λ b e. cc e)
Step-Inv (handles r) i =
    moved polling i (λ e. cc (r, e)) (λ e. cc (r, e)) (λ e. cc e) (λ a b. cc b) (λ b e. cc e)
Step-Inv (sticks may r) i =
    moved stuck i (λ e. cc (r, e)) (λ e. cc (r, e)) (λ e. cc e) (λ a b. cc b) (λ b e. cc (may, b))
Step-Inv (closes_done r) i = record {
  cancelled = i.cancelled;
  closed = λ a b. cc b;
  done_after = λ d. refl;
  done_before = λ e. refl;
  back = λ e. refl;
  born = λ e. cc (r, i.born e);
  free = λ b e. cc e;
}
Step-Inv (writer_stops r) i = record {
  cancelled = i.cancelled;
  closed = i.closed;
  done_after = i.done_after;
  done_before = i.done_before;
  back = i.back;
  born = i.born;
  free = i.free;
}
Step-Inv (cancels r) i = record {
  cancelled = λ n. refl;
  closed = λ a b. cc a;
  done_after = i.done_after;
  done_before = i.done_before;
  back = λ e. cc e;
  born = i.born;
  free = i.free;
}
Step-Inv (closes r) i = record {
  cancelled = λ n. i.cancelled (λ e. cc (r, e));
  closed = λ a b. rw b refl;
  done_after = i.done_after;
  done_before = i.done_before;
  back = λ e. cc e;
  born = i.born;
  free = i.free;
}
Step-Inv (wakes r d) i = record {
  cancelled = λ n. i.cancelled (λ e. cc (r, e));
  closed = λ a b. cc a;
  done_after = i.done_after;
  done_before = i.done_before;
  back = λ e. d;
  born = i.born;
  free = i.free;
}

Reach-Inv : {env : Env} {s : Life} → Reach env begin s → Inv env s
unfolding begin
Reach-Inv here = record {
  cancelled = λ n. absurd (n refl);
  closed = λ a b. cc a;
  done_after = λ d. cc d;
  done_before = λ e. cc e;
  back = λ e. cc e;
  born = λ e. refl;
  free = λ b e. cc e;
}
Reach-Inv (next r s) = Step-Inv s (Reach-Inv r)

-- How many steps the two pumps can still take, once `Close` waits.
rank_reader : Reader → ℕ
rank_reader unborn = 5
rank_reader handling = 4
rank_reader polling = 3
rank_reader reading = 2
rank_reader leaving = 1
rank_reader stuck = 0
rank_reader finished = 0

rank_writer : Writer → ℕ
rank_writer absent = 2
rank_writer ticking = 1
rank_writer gone = 0

rank : Life → ℕ
unfolding rank_reader rank_writer
rank s = rank_reader s.reader + rank_writer s.writer

-- A state in which `Close` waits for a reader that was started, where handlers return.
record Closing (env : Env) (s : Life) : Type 0 where
  inv : Inv env s
  waits : s.closer ≡ waiting
  born : s.reader ≢ unborn
  quiet : env.blocks ≡ false

-- From there, a step is the return of `Close`, or one of the pumps comes nearer to its end.
Step-Closing :
    {env : Env} {s t : Life}
    → Step env s t
    → Closing env s
    → (t.closer ≡ returned) ⊎ (Closing env t × (rank t < rank s))
unfolding rank
Step-Closing {env} {s} {t} step c = by_step step (Step-Inv step c.inv)
  where
    on :
        {t : Life}
        → Inv env t
        → t.closer ≡ s.closer
        → t.reader ≢ unborn
        → rank t < rank s
        → (t.closer ≡ returned) ⊎ (Closing env t × (rank t < rank s))
    on i same alive less =
        inr (record { inv = i; waits = cc (same, c.waits); born = alive; quiet = c.quiet }, less)

    by_step :
        {t : Life}
        → Step env s t
        → Inv env t
        → (t.closer ≡ returned) ⊎ (Closing env t × (rank t < rank s))
    by_step (connects e r) i = absurd (c.born r)
    by_step (polls r n) i = absurd (cc (n, c.inv.cancelled (λ e. cc (c.waits, e))))
    by_step (sees_cancel r n) i = on i refl (λ e. cc e) (rw r (ground arith))
    by_step (reads r n) i = absurd (cc (n, c.inv.closed c.waits r))
    by_step (skips r n) i = absurd (cc (n, c.inv.closed c.waits r))
    by_step (fails r) i = on i refl (λ e. cc e) (rw r (ground arith))
    by_step (handles r) i = on i refl (λ e. cc e) (rw r (ground arith))
    by_step (sticks may r) i = absurd (cc (may, c.quiet))
    by_step (closes_done r) i = on i refl (λ e. cc e) (rw r (ground arith))
    by_step (writer_stops w) i = on i refl c.born (rw w (ground arith))
    by_step (cancels r) i = absurd (cc (r, c.waits))
    by_step (closes r) i = absurd (cc (r, c.waits))
    by_step (wakes r f) i = inl refl

-- There is a step to take.
Closing-moves : {env : Env} (s : Life) → Closing env s → (t : Life) × Step env s t
Closing-moves {env} s c = by_reader s.reader refl
  where
    by_reader : (r : Reader) → s.reader ≡ r → (t : Life) × Step env s t
    by_reader unborn e = absurd (c.born e)
    by_reader polling e =
        (record s { reader = leaving }, sees_cancel e (c.inv.cancelled (λ q. cc (c.waits, q))))
    by_reader reading e = (record s { reader = leaving }, fails e)
    by_reader handling e = (record s { reader = polling }, handles e)
    by_reader stuck e = absurd (c.inv.free c.quiet e)
    by_reader leaving e = (record s { reader = finished; done_closed = true }, closes_done e)
    by_reader finished e = (record s { closer = returned }, wakes c.waits (c.inv.done_before e))

close_inevitable :
    {env : Env} (n : ℕ) (s : Life)
    → Closing env s
    → rank s < n
    → Inevitably env (λ t. t.closer ≡ returned) s
close_inevitable zero s c r = absurd (omega arith)
close_inevitable (suc n) s c r =
    let (t, first) = Closing-moves s c in
    later t first (λ u step. elim (Step-Closing step c) [
      | inl back ↦ now back
      | inr (d, less) ↦ close_inevitable n u d (omega arith)
    ])

-- If every handler of the application returns: in every reachable state in which `Close` waits and the read
-- pump was started, `Close` returns in whatever order the goroutines go on, as long as some goroutine that
-- can go on does.
pub close_returns :
    {env : Env} {s : Life}
    → env.blocks ≡ false
    → Reach env begin s
    → s.closer ≡ waiting
    → s.reader ≢ unborn
    → Inevitably env (λ t. t.closer ≡ returned) s
close_returns {env} {s} q r w b =
    close_inevitable (suc (rank s)) s (record { inv = Reach-Inv r; waits = w; born = b; quiet = q })
      (omega arith)

Step-stuck : {env : Env} {s t : Life} → Step env s t → s.reader ≡ stuck → t.reader ≡ stuck
Step-stuck (connects e r) h = cc (r, h)
Step-stuck (polls r c) h = cc (r, h)
Step-stuck (sees_cancel r c) h = cc (r, h)
Step-stuck (reads r c) h = cc (r, h)
Step-stuck (skips r c) h = cc (r, h)
Step-stuck (fails r) h = cc (r, h)
Step-stuck (handles r) h = cc (r, h)
Step-stuck (sticks may r) h = refl
Step-stuck (closes_done r) h = cc (r, h)
Step-stuck (writer_stops r) h = h
Step-stuck (cancels r) h = h
Step-stuck (closes r) h = h
Step-stuck (wakes r d) h = h

Reach-stuck : {env : Env} {s t : Life} → Reach env s t → s.reader ≡ stuck → t.reader ≡ stuck
Reach-stuck here h = h
Reach-stuck (next r step) h = Step-stuck step (Reach-stuck r h)

Reach-trans : {env : Env} {s t u : Life} → Reach env s t → Reach env t u → Reach env s u
Reach-trans r here = r
Reach-trans r (next k step) = next (Reach-trans r k) step

-- From a reachable state in which a handler waits for ever on the read pump, or from any reachable one if
-- `Connect` does not reach the server, no schedule of the goroutines leads to a return of `Close`.
pub close_never_returns :
    {env : Env} {s t : Life}
    → Reach env begin s
    → (s.reader ≡ stuck) ⊎ (env.reaches ≡ false)
    → Reach env s t
    → t.closer ≢ returned
close_never_returns r (inl h) k back =
    let i = Reach-Inv (Reach-trans r k) in cc (i.done_after (i.back back), Reach-stuck k h)
close_never_returns r (inr away) k back =
    let i = Reach-Inv (Reach-trans r k) in cc (i.done_after (i.back back), i.born away)
