-- ===== src/Server/World.antt =====
-- The whole server: the goroutines of all connections of cmd/server/main.go, and the hub of
-- internal/signaling/hub.go that they share. A send on a channel of the hub and the round of `Run` that
-- takes it are one step, since these channels are unbuffered. A connection has the number of its
-- peer's channel.
pub mod Invariant
pub mod Change
pub mod Steps
pub mod Safety
pub mod Authenticity
use p_and_pp.Base.{
  ℕ, ◌≡◌, ◌≢◌, String, Bool, List, [], ◌∷◌, Option, none, some, if◌then◌else◌, nat_eq, done,
}
use p_and_pp.Base.Results.{Result}
use p_and_pp.Signaling.Message.{Message, Marshaler}
use p_and_pp.Signaling.Hub.{Peer, Hub, Channels, new_hub, register, unregister, broadcast, step}
use p_and_pp.Signaling.Hub.Drain.{taken}
use p_and_pp.Server.{new_peer, read_frame}
use p_and_pp.Server.Session
use p_and_pp.Server.Session.{Session, running, waiting, unregistering, ended}

-- `entering` stands in front of the send to the hub's channel of arrivals; after it the pumps run.
pub data Stage : Type 0 where
  entering : Stage
  serving : Session → Stage

pub record Connection : Type 0 where
  pub peer : Peer
  pub stage : Stage

pub record World (R : Type 0) : Type 0 where
  pub hub : Hub R
  pub connections : ℕ → Option Connection

abbrev pub at : (ℕ → Option Connection) → ℕ → Connection → ℕ → Option Connection
at cs r c q = if nat_eq r q then some c else cs q

-- The server at its start.
abbrev pub world : {R : Type 0} → Channels R → World R
world c = record { hub = new_hub c; connections = λ r. none }

module _ {R : Type 0} (json : Marshaler R) (decode : R → Result (Message R)) where
  pub data Step (w : World R) : World R → Type 0 where
    -- `upgrader.Upgrade` gave a connection; the random id is one that no connection has had.
    accepts :
        (r : ℕ) (id : String) (now : ℕ)
        → w.connections r ≡ none
        → ((q : ℕ) (c : Connection) → w.connections q ≡ some c → c.peer.id ≢ id)
        → Step w (record {
          hub = (new_peer w.hub id r now).1;
          connections =
              at w.connections r (record { peer = (new_peer w.hub id r now).0; stage = entering });
        })
    registers :
        (r : ℕ) (p : Peer) (a b c : ℕ) (h : Hub R)
        → w.connections r ≡ some (record { peer = p; stage = entering })
        → step json w.hub (register p a b c) ≡ done h
        → Step w (record {
          hub = h;
          connections = at w.connections r (record { peer = p; stage = serving Session.start });
        })
    -- The read pump reads a frame that decodes; the others change nothing.
    reads :
        (r : ℕ) (p : Peer) (s : Session) (frame : R) (m : Message R) (now a : ℕ) (h : Hub R)
        → w.connections r ≡ some (record { peer = p; stage = serving s })
        → s.reader ≡ running
        → read_frame decode p frame now ≡ some m
        → step json w.hub (broadcast m a) ≡ done h
        → Step w (record { hub = h; connections = w.connections })
    -- The write pump takes a message off the peer's channel.
    writes :
        (r : ℕ) (p : Peer) (s : Session) (m : Message R) (ms : List (Message R))
        → w.connections r ≡ some (record { peer = p; stage = serving s })
        → s.writer ≡ running
        → (w.hub.chans p.send).buffer ≡ m ∷ ms
        → Step w (record { hub = taken w.hub p.send ms; connections = w.connections })
    -- A step of the goroutines of one connection among themselves: a pump stops, or is received.
    moves :
        (r : ℕ) (p : Peer) (s t : Session)
        → w.connections r ≡ some (record { peer = p; stage = serving s })
        → Session.Step s t
        → (t.handler ≡ ended → s.handler ≡ ended)
        → Step w (record {
          hub = w.hub;
          connections = at w.connections r (record { peer = p; stage = serving t });
        })
    unregisters :
        (r : ℕ) (p : Peer) (s : Session) (a : ℕ) (h : Hub R)
        → w.connections r ≡ some (record { peer = p; stage = serving s })
        → s.handler ≡ unregistering
        → step json w.hub (unregister p a) ≡ done h
        → Step w (record {
          hub = h;
          connections =
              at w.connections r
                (record { peer = p; stage = serving (record s { handler = ended }) });
        })

  pub data Reach (v : World R) : World R → Type 0 where
    here : Reach v v
    next : {w u : World R} → Reach v w → Step w u → Reach v u
