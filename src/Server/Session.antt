-- ===== src/Server/Session.antt =====
-- The three goroutines of one connection, in `handleWebSocket`, `readPump` and `writePump`: each pump
-- sends once on the unbuffered channel `done` when it ends, and `handleWebSocket` receives once.
use p_and_pp.Base.{◌≡◌, ◌≢◌, refl, ◌⊎◌, inl, inr, arith}

-- `finishing` stands in the deferred `done <- struct{}{}`.
pub data Pump : Type 0 where
  running finishing returned : Pump

-- `waiting` stands at `<-done`, `unregistering` at the send to the hub.
pub data Handler : Type 0 where
  waiting unregistering ended : Handler

pub record Session : Type 0 where
  pub reader : Pump
  pub writer : Pump
  pub handler : Handler

unfoldable pub start : Session
start = record { reader = running; writer = running; handler = waiting }

pub data Step (s : Session) : Session → Type 0 where
  -- the socket fails, or the peer's channel is closed
  reader_stops : s.reader ≡ running → Step s (record s { reader = finishing })
  writer_stops : s.writer ≡ running → Step s (record s { writer = finishing })
  -- a send on an unbuffered channel goes on only with its receiver
  reader_done :
      s.reader ≡ finishing
      → s.handler ≡ waiting
      → Step s (record s { reader = returned; handler = unregistering })
  writer_done :
      s.writer ≡ finishing
      → s.handler ≡ waiting
      → Step s (record s { writer = returned; handler = unregistering })
  -- the hub takes the peer, and `conn` is closed
  unregisters : s.handler ≡ unregistering → Step s (record s { handler = ended })

pub data Reach (s : Session) : Session → Type 0 where
  here : Reach s s
  next : {t u : Session} → Reach s t → Step t u → Reach s u

-- While the handler waits no pump has returned; after that exactly one has.
pub data Inv (s : Session) : Type 0 where
  both_here : s.handler ≡ waiting → s.reader ≢ returned → s.writer ≢ returned → Inv s
  reader_gone : s.handler ≢ waiting → s.reader ≡ returned → s.writer ≢ returned → Inv s
  writer_gone : s.handler ≢ waiting → s.reader ≢ returned → s.writer ≡ returned → Inv s

Step-Inv : {s t : Session} → Step s t → Inv s → Inv t
Step-Inv (reader_stops r) (both_here h a b) = both_here h (λ e. cc) b
Step-Inv (reader_stops r) (reader_gone h a b) = absurd (ground arith)
Step-Inv (reader_stops r) (writer_gone h a b) = writer_gone h (λ e. cc) b
Step-Inv (writer_stops r) (both_here h a b) = both_here h a (λ e. cc)
Step-Inv (writer_stops r) (reader_gone h a b) = reader_gone h a (λ e. cc)
Step-Inv (writer_stops r) (writer_gone h a b) = absurd (ground arith)
Step-Inv (reader_done r w) (both_here h a b) = reader_gone (λ e. cc) refl b
Step-Inv (reader_done r w) (reader_gone h a b) = absurd (h w)
Step-Inv (reader_done r w) (writer_gone h a b) = absurd (h w)
Step-Inv (writer_done r w) (both_here h a b) = writer_gone (λ e. cc) a refl
Step-Inv (writer_done r w) (reader_gone h a b) = absurd (h w)
Step-Inv (writer_done r w) (writer_gone h a b) = absurd (h w)
Step-Inv (unregisters w) (both_here h a b) = absurd (ground arith)
Step-Inv (unregisters w) (reader_gone h a b) = reader_gone (λ e. cc) a b
Step-Inv (unregisters w) (writer_gone h a b) = writer_gone (λ e. cc) a b

Reach-Inv : {s : Session} → Reach start s → Inv s
unfolding start
Reach-Inv here = both_here refl (λ e. cc) (λ e. cc)
Reach-Inv (next r st) = Step-Inv st (Reach-Inv r)

-- In every state that a connection can reach, at least one of its two pumps has not returned.
pub pump_never_returns :
    {s : Session} → Reach start s → (s.reader ≢ returned) ⊎ (s.writer ≢ returned)
pump_never_returns r = elim (Reach-Inv r) [
  | both_here h a b ↦ inl a
  | reader_gone h a b ↦ inr b
  | writer_gone h a b ↦ inl a
]

-- The handler goes on to unregister the peer only after exactly one of the pumps has returned.
pub unregisters_after_one :
    {s : Session}
    → Reach start s
    → s.handler ≢ waiting
    → ((s.reader ≡ returned) × (s.writer ≢ returned))
      ⊎ ((s.reader ≢ returned) × (s.writer ≡ returned))
unregisters_after_one r n = elim (Reach-Inv r) [
  | both_here h a b ↦ absurd (n h)
  | reader_gone h a b ↦ inl (a, b)
  | writer_gone h a b ↦ inr (a, b)
]
