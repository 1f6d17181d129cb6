-- ===== src/Tests/Connecting.antt =====
-- An agent on the sample machine, its lock, and a connection with a stranger's datagram among those of
-- the peer.
use p_and_pp.Base.{
  ℕ, ◌≡◌, ◌≢◌, ◌++◌, refl, List, [], ◌∷◌, Option, some, none, true, false, arith, ◌⊎◌, inl, inr,
  done, blocked, panicked, if◌then◌else◌,
}
use p_and_pp.Base.Results.{Result, ok, pos}
use p_and_pp.Base.Texts.{Text, codes}
use p_and_pp.Ice.Candidate.{Candidate, host}
use p_and_pp.Mutex.{RwMutex}
use p_and_pp.Ice.Gatherer.{Pointer}
use p_and_pp.Ice.Agent.{Agent, get_local_candidates, get_remote_candidates}
use p_and_pp.Ice.Agent.Locking.{accessors_differ}
use p_and_pp.Ice.Connection.{
  Connection, Bytes, Read, datagram, timeout, Round, receive_loop, send, receive_from, address_text,
  close,
}
use p_and_pp.Ice.Connection
use p_and_pp.Tests.Gathering.{Socket, lan}

abbrev pub candidate_at : Text → ℕ → Candidate
candidate_at ip port = record {
  type = host;
  foundation = codes "1";
  component = pos 1;
  protocol = codes "udp";
  priority = 7;
  ip = ip;
  port = pos port;
  base = [];
}

abbrev pub mine : Pointer
mine = record { address = 0; value = candidate_at lan 10001 }

abbrev pub theirs : Candidate
theirs = candidate_at (codes "h") 5

abbrev pub socket : Socket
socket = record { ip = lan; port = 10001 }

abbrev pub agent : Agent Socket
agent = record {
  gatherer = record {
    candidates = mine ∷ [];
    listeners = socket ∷ [];
    port_start = 10000;
    port_end = 10100;
  };
  local_candidates = mine ∷ [];
  remote_candidates = theirs ∷ [];
  connection = none;
}

abbrev pub resolve : Text → Result Text
resolve t = ok t

abbrev free : RwMutex
free = record { readers = 2; writer = false }

accessors_differ_example :
    (get_remote_candidates free agent ≡ panicked)
    × (get_local_candidates free agent ≡ done (free, agent.local_candidates))
accessors_differ_example = accessors_differ free agent

abbrev open_one : Connection Socket
open_one = record {
  local_candidate = mine.value;
  remote_candidate = theirs;
  conn = some socket;
  remote_addr = codes "h:5";
  closed = false;
  has_handler = true;
}

received : receive_from open_one (ok (codes "x", codes "h:5")) ≡ ok (codes "x")
unfolding receive_from p_and_pp.Base.Texts.text_eq
received = refl

abbrev rounds : List (Round Socket)
rounds =
    record { seen = open_one; read = datagram (codes "a") (codes "h:5") }
    ∷ record { seen = open_one; read = datagram (codes "b") (codes "z:9") }
    ∷ record { seen = open_one; read = timeout }
    ∷ record { seen = open_one; read = datagram (codes "c") (codes "h:5") }
    ∷ []

two_calls : receive_loop rounds ≡ (codes "a", codes "h:5") ∷ (codes "c", codes "h:5") ∷ []
unfolding receive_loop p_and_pp.Ice.Connection.round p_and_pp.Base.Texts.text_eq
two_calls = refl
