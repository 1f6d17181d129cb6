-- ===== src/Tests/Samples.antt =====
-- A concrete encoding of documents, and a hub with two registered peers, with a third one to come.
use p_and_pp.Base.{ℕ, refl, String, List, [], ◌∷◌, map, some, false}
use p_and_pp.Base.Results.{Result, ok, err, Codec, RoundTrips}
use p_and_pp.Sdp.{SessionDescription, Signal}
use p_and_pp.Channel.{Chan}
use p_and_pp.Signaling.Message
use p_and_pp.Signaling.Message.{Message, Marshaler}
use p_and_pp.Signaling.Hub.{Peer, Hub}
use p_and_pp.Ice.Candidate.{Candidate}
use p_and_pp.Client.{IceCandidateMsg}
use p_and_pp.Transport
use p_and_pp.Transport.{Unmarshaler}
use p_and_pp.PeerView.{Wire, IsFaithful, info}
use p_and_pp.PeerView.Signals.{IsRead, sent}

pub data Doc : Type 0 where
  empty : Doc
  an_id : String → Doc
  a_list : List Message.PeerInfo → Doc
  a_peer : Message.PeerInfo → Doc
  an_error : String → String → Doc
  a_frame : String → String → String → Doc → ℕ → Doc
  a_session : SessionDescription → Doc
  a_candidate : Candidate → Doc
  a_message : String → Doc → Doc
  a_signal : String → Doc → ℕ → String → String → Doc

abbrev pub write_docs : Marshaler Doc
write_docs = record {
  registered = λ d. some (an_id d.peer_id);
  list = λ d. some (a_list d.peers);
  joined_left = λ d. some (a_peer d.peer);
  error = λ d. some (an_error d.message d.code);
  empty_object = empty;
}

abbrev pub frame_of : Message Doc → Doc
frame_of m = a_frame m.type m.from m.to m.payload m.timestamp

abbrev read_id : Doc → Result String
read_id (an_id s) = ok s
read_id _ = err "no id"

abbrev read_list : Doc → Result (List Transport.PeerInfo)
read_list (a_list ps) = ok (map info ps)
read_list _ = err "no list"

abbrev read_peer : Doc → Result Transport.PeerInfo
read_peer (a_peer p) = ok (info p)
read_peer _ = err "no peer"

abbrev read_error : Doc → Result (String × String)
read_error (an_error m c) = ok (m, c)
read_error _ = err "no error"

abbrev read_frame : Doc → Result (Transport.Message Doc)
read_frame (a_frame type from to doc now) =
    ok (record { type = type; from = from; to = to; payload = doc; timestamp = now })
read_frame _ = err "no frame"

abbrev read_signal : Doc → Result (Signal Doc)
read_signal (a_signal type doc now from to) =
    ok (record { signal_type = type; payload = doc; timestamp = now; from = from; to = to })
read_signal _ = err "no signal"

abbrev pub wire : Wire Doc
wire = record {
  marshaler = write_docs;
  encode = λ m. ok (frame_of m);
  decode = read_frame;
  unmarshaler = record {
    peer_id = read_id;
    peers = read_list;
    peer = read_peer;
    error = read_error;
  };
  signals = record {
    marshal = λ s. ok (a_signal s.signal_type s.payload s.timestamp s.from s.to);
    unmarshal = read_signal;
  };
}

pub wire-IsFaithful : IsFaithful wire
wire-IsFaithful = record {
  frames = λ m. (frame_of m, refl, refl);
  ids = λ p. (an_id p, refl, refl);
  lists = λ ps. (a_list ps, refl, refl);
  infos = λ p. (a_peer p, refl, refl);
}

pub signals-RoundTrips : RoundTrips wire.signals
signals-RoundTrips s = (a_signal s.signal_type s.payload s.timestamp s.from s.to, refl, refl)

abbrev read_session : Doc → Result SessionDescription
read_session (a_session s) = ok s
read_session _ = err "no session"

abbrev pub sessions : Codec Doc SessionDescription
sessions = record { marshal = λ s. ok (a_session s); unmarshal = read_session }

pub sessions-RoundTrips : RoundTrips sessions
sessions-RoundTrips s = (a_session s, refl, refl)

-- The client's side of a frame, and the server's reading of it.
abbrev pub frames : Codec Doc (Transport.Message Doc)
frames = record { marshal = λ m. ok (frame_of (sent m)); unmarshal = read_frame }

abbrev pub read_sent : Doc → Result (Message Doc)
read_sent (a_frame type from to doc now) =
    ok (record { type = type; from = from; to = to; payload = doc; timestamp = now })
read_sent _ = err "no frame"

pub frames-IsRead : IsRead frames read_sent
frames-IsRead m = (frame_of (sent m), refl, refl)

abbrev read_candidate : Doc → Result Candidate
read_candidate (a_candidate c) = ok c
read_candidate _ = err "no candidate"

abbrev pub candidates : Codec Doc Candidate
candidates = record { marshal = λ c. ok (a_candidate c); unmarshal = read_candidate }

pub candidates-RoundTrips : RoundTrips candidates
candidates-RoundTrips c = (a_candidate c, refl, refl)

abbrev read_message : Doc → Result (IceCandidateMsg Doc)
read_message (a_message type doc) = ok (record { type = type; candidate = doc })
read_message _ = err "no message"

abbrev pub messages : Codec Doc (IceCandidateMsg Doc)
messages = record { marshal = λ m. ok (a_message m.type m.candidate); unmarshal = read_message }

pub messages-RoundTrips : RoundTrips messages
messages-RoundTrips m = (a_message m.type m.candidate, refl, refl)

abbrev pub peer_of : String → ℕ → Peer
peer_of id r = record { id = id; send = r; joined_at = 7 }

abbrev pub alice : Peer
alice = peer_of "alice" 0

abbrev pub bob : Peer
bob = peer_of "bob" 1

abbrev pub carol : Peer
carol = peer_of "carol" 2

abbrev pub channel : List (Message Doc) → Chan (Message Doc)
channel ms = record { buffer = ms; capacity = 4; closed = false }

-- Alice and bob are registered; their channels, and all others, are empty.
abbrev pub pair : Hub Doc
pair = record { peers = ("alice", alice) ∷ ("bob", bob) ∷ []; chans = λ r. channel [] }

abbrev pub message : String → String → String → Message Doc
message type from to = record { type = type; from = from; to = to; payload = empty; timestamp = 9 }
