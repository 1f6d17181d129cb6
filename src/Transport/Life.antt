-- ===== src/Transport/Life.antt =====
-- pkg/p2p/transport/websocket.go: the goroutines of a client, from `NewWebSocketClient` on. One call of
-- `Connect` that reaches the server starts the two pumps, and one call of `Close` ends them.
use p_and_pp.Base.{◌≡◌, Bool, true, false}

-- What surrounds the client: whether `Connect` reaches the server, and whether a handler of the
-- application may wait for ever, as one that calls `Peers` does.
pub record Env : Type 0 where
  pub reaches : Bool
  pub blocks : Bool

-- `readPump`: not started, at the select on the context, in `ReadMessage`, in `handleMessage`, in a handler
-- that waits for ever, at the deferred `close(c.done)`, and back.
pub data Reader : Type 0 where
  unborn polling reading handling stuck leaving finished : Reader

-- `writePump`: not started, at its select, and back.
pub data Writer : Type 0 where
  absent ticking gone : Writer

-- `Close`: not called, after `cancel`, at the receive from `done`, and back.
pub data Closer : Type 0 where
  idle cancelling waiting returned : Closer

pub record Life : Type 0 where
  pub reader : Reader
  pub writer : Writer
  pub closer : Closer
  pub cancelled : Bool
  pub socket_closed : Bool
  pub done_closed : Bool

unfoldable pub begin : Life
begin = record {
  reader = unborn;
  writer = absent;
  closer = idle;
  cancelled = false;
  socket_closed = false;
  done_closed = false;
}

-- `if c.conn != nil { c.conn.Close() }`: a connection is there once the reader is.
unfoldable pub close_socket : Reader → Bool
close_socket unborn = false
close_socket polling = true
close_socket reading = true
close_socket handling = true
close_socket stuck = true
close_socket leaving = true
close_socket finished = true

pub data Step (env : Env) (s : Life) : Life → Type 0 where
  connects :
      env.reaches ≡ true
      → s.reader ≡ unborn
      → Step env s (record s { reader = polling; writer = ticking })
  polls : s.reader ≡ polling → s.cancelled ≡ false → Step env s (record s { reader = reading })
  sees_cancel : s.reader ≡ polling → s.cancelled ≡ true → Step env s (record s { reader = leaving })
  -- a frame that decodes, and one that does not
  reads : s.reader ≡ reading → s.socket_closed ≡ false → Step env s (record s { reader = handling })
  skips : s.reader ≡ reading → s.socket_closed ≡ false → Step env s (record s { reader = polling })
  fails : s.reader ≡ reading → Step env s (record s { reader = leaving })
  -- `handleMessage` returns, or the handler that it calls does not
  handles : s.reader ≡ handling → Step env s (record s { reader = polling })
  sticks : env.blocks ≡ true → s.reader ≡ handling → Step env s (record s { reader = stuck })
  closes_done : s.reader ≡ leaving → Step env s (record s { reader = finished; done_closed = true })
  -- the context is cancelled, or a ping fails
  writer_stops : s.writer ≡ ticking → Step env s (record s { writer = gone })
  cancels : s.closer ≡ idle → Step env s (record s { closer = cancelling; cancelled = true })
  closes :
      s.closer ≡ cancelling
      → Step env s (record s { closer = waiting; socket_closed = close_socket s.reader })
  -- the receive from `done`
  wakes : s.closer ≡ waiting → s.done_closed ≡ true → Step env s (record s { closer = returned })

pub data Reach (env : Env) (s : Life) : Life → Type 0 where
  here : Reach env s s
  next : {t u : Life} → Reach env s t → Step env t u → Reach env s u

-- Whatever step is taken, and as long as steps are taken, P is met.
pub data Inevitably (env : Env) (P : Life → Type 0) : Life → Type 0 where
  now : {s : Life} → P s → Inevitably env P s
  later :
      {s : Life} (t : Life)
      → Step env s t
      → ((u : Life) → Step env s u → Inevitably env P u)
      → Inevitably env P s
