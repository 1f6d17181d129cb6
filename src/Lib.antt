-- ===== src/Lib.antt =====
-- p2phub, a signaling server and a peer-to-peer client library in Go.
--
-- The parts. The server (cmd/server/main.go) upgrades each HTTP request to a WebSocket, makes a
-- peer with a random id and a buffered channel, and starts two goroutines for it: a read pump that
-- hands the client's messages to the hub, and a write pump that sends the channel's messages to the
-- client. The hub (internal/signaling/hub.go) is one goroutine that owns the map of peers and
-- handles arrivals, departures and messages one at a time. The client's transport
-- (pkg/p2p/transport/websocket.go) parses the server's messages and calls the handlers of the
-- client (pkg/p2p/client.go), which keeps the set of peers it knows. Offers, answers and candidates
-- (pkg/p2p/sdp/sdp.go) travel as signals. The ICE part (pkg/p2p/ice) binds sockets on the local
-- addresses, makes a candidate of each, and sends over the first pair. The demonstration client
-- (cmd/client/main.go) answers offers, exchanges candidates, opens a direct connection, and runs a
-- shell.
--
-- The files.
--   Base, Base/*: the names that all files share, lists over native numbers, texts and decimal
--     numbers, results (a value or an error), and outcomes: code ends, waits for ever on a channel
--     or a lock, or panics.
--   GoMap: a Go map as an association list with one entry a key.
--   Channel: a Go channel on a store of channels: a send blocks on a full buffer and panics on a
--     closed channel, an `offer` is the send in a select with a default.
--   Mutex: a sync.RWMutex as a count of readers and a writer.
--   Signaling/Message: internal/signaling/message.go.
--   Signaling/Hub: internal/signaling/hub.go, one function a handler, `step` for one round of Run.
--     Hub/Delivery is about broadcasts, Order about the order in which Go visits a map, Invariant
--     about valid hubs, Handlers and Routing about arrivals, departures and messages, Safety about
--     any event, Drain about a write pump that takes messages from a channel, Resume about the
--     event that waited for it, Elsewhere about what an event leaves as it was.
--   Signaling/Room: an abstract specification of the hub, members by id with their inboxes;
--     Room/Views is the room that a hub stands for, Room/Refines the refinement of a step,
--     Room/Histories that of a history from NewHub.
--   Sdp: pkg/p2p/sdp/sdp.go; Sdp/Structured: its types without operations. Client:
--     pkg/p2p/client.go; Client/Locking: its lock, where handlers run; Client/Start: Connect with
--     its errors; Client/Parser: SignalParser.
--   Transport: pkg/p2p/transport/websocket.go; Transport/Life: its goroutines with Connect and
--     Close, as a step relation, and Transport/Closing about Close; Transport/Dial: the
--     configuration and Connect up to the start of the goroutines.
--   Server: cmd/server/main.go; Server/Session: the goroutines of one connection, as a step
--     relation; Server/Ids: the ids of peers; Server/Pumps: what the pumps pass on;
--     Server/Deadlines: the read pump with its deadline; Server/Ticker: the write pump with its
--     pings and with writes that fail. Server/World: all connections and the hub they share, as one
--     step relation; World/Invariant is the invariant, World/Change and World/Steps carry it
--     through the steps, World/Safety and World/Authenticity are about every state that is reached.
--   PeerView: hub and client together, from the hub's channel over the write pump, the WebSocket
--     and the client's read pump to the client's set of peers. Receive, Sync, Arrival and Departure
--     carry the agreement of both sides through every event; Reach is about histories, Loss and
--     Forgery about where it fails, Signals about the way of a signal from one client to another,
--     Offers about an offer, Welcome about what a registration tells.
--   Ice/Candidate, Ice/Gatherer, Ice/Gatherer/*: pkg/p2p/ice/gatherer.go; Gatherer/Sockets is about
--     which sockets are bound. Ice/Line: its String and ParseCandidate, Line/RoundTrip and
--     Line/Gathered about both. Ice/Scan: the verbs of fmt.Sscanf that ParseCandidate uses;
--     Scan/Words and Scan/Numbers about them.
--   Ice/Agent, Ice/Agent/*, Ice/Connection, Ice/Connection/*: pkg/p2p/ice/connection.go.
--   App: cmd/client/main.go, its reactions to signals and peers, each with the list of its acts;
--     App/Shell: the interactive shell, one `turn` a line, and Shell/Commands about lines;
--     App/Words: the functions of package strings that the shell uses. App/Ways, App/Calls and
--     App/Candidates are about two applications with the hub between them, App/Direct about the way
--     to a direct connection. App/Attempts: the goroutines that candidates start, as a step
--     relation, with what holds on the way in Attempts/Greetings, sums in Attempts/Counting, and
--     the ends in Attempts/Settling. App/Leak: startICE on an application that has an agent.
--     App/Main: the program, from the dial to its end, over a list of happenings: a line is typed,
--     a message arrives, a goroutine takes its next step; Main/Stops is about its end, Main/Laws
--     carries a predicate through every happening, Main/Sound and Main/Outcome are about the direct
--     connection, Main/Stranger about a candidate of a peer that was not meant.
--   Tests/*: examples.
--
-- What stands for code of other packages. encoding/json is a parameter: the payloads are a type R,
-- the documents of the hub are made by a `Marshaler`, read back by an `Unmarshaler`, and `Wire`
-- says that reading gives what was written. The operating system's network is a record of functions
-- on a state of its own (`Net`): binding a socket, closing one, and its address. The resolution of
-- an address and a write to a socket are function arguments, and so are the bytes of a text; a read
-- from a socket is an argument that holds what it gave, and so is each reading of the clock. The
-- parser of a URL and the WebSocket dialler are function arguments. What the system promises of
-- bound sockets is the record `Binds`: one that `listen` gives was not bound before, those that are
-- bound stay so, and closing one frees that one alone. For the round trip of gathered candidates
-- the texts of addresses are words and ports have sixteen bits.
--
-- Choices. A handler of the hub runs to its end before the next one, since one goroutine runs them
-- all; the hub's mutex is left out, and the locks of the agent and of the client are states where
-- it matters: for the agent's accessors, and for a handler that runs under the client's lock. The
-- entries of a map are visited in one order of the list, and `deliver_all-perm` is about the other
-- ones. A peer that registers has an id that no other has, since the server draws eight random
-- bytes for it. In the whole server this is a condition of the step that accepts a connection, and
-- the send of an event to the hub and the round of Run that takes it are one step, since the hub's
-- channels have no buffer. Times are natural numbers. A uint32 keeps its wrap-around. The one fuel
-- is that of decimal digits, n + 1 for a number n; the loop of bindUDP runs on the count of ports
-- that are left, which is the fuel it needs. The goroutine that handleRemoteICECandidate starts is
-- a function of the application's state where it runs alone, and a step relation where several of
-- them run. The shell takes its lines as a list, and the program its happenings: a line or a
-- message is handled whole, and the steps of the goroutines that connect stand between them in any
-- order. An application's handler may wait for ever where `Env` says so.
--
-- Not modelled: log lines, the parsing of flags, HTTP routing and shutdown, write deadlines, the
-- client's pings and deadlines, what overlaps within one reaction, such as an attempt that runs
-- while a startICE gathers, the text of a description for log lines, and the scripts.
mod Base
pub mod GoMap
pub mod Channel
pub mod Mutex
pub mod Signaling
pub mod Sdp
pub mod Transport
pub mod Client
pub mod PeerView
pub mod Server
pub mod Ice
pub mod App
mod Tests
