-- ===== src/Ice/Connection.antt =====
-- pkg/p2p/ice/connection.go: the connection. A socket is a C; resolving an address, and reading and
-- writing a datagram, are parameters or events. The address of a peer is its text.
pub mod Traffic
use p_and_pp.Base.{
  ℕ, ◌+◌, ◌≡◌, Bool, true, false, not, List, [], ◌∷◌, ◌++◌, Option, none, some, if◌then◌else◌,
  String,
}
use p_and_pp.Base.Results.{Result, ok, err, ◌>>=◌, wrap, ℤ, pos, negsuc}
use p_and_pp.Base.Texts.{Text, codes, text_eq, decimal}
use p_and_pp.Ice.Candidate.{Candidate}

abbrev pub Bytes : Type 0
Bytes = List ℕ

pub record Connection (C : Type 0) : Type 0 where
  pub local_candidate : Candidate
  pub remote_candidate : Candidate
  pub conn : Option C
  pub remote_addr : Text
  pub closed : Bool
  pub has_handler : Bool

-- `%d`
unfoldable pub int_text : ℤ → Text
int_text (pos n) = decimal n
int_text (negsuc n) = b'-' ∷ decimal (n + 1)

-- `fmt.Sprintf("%s:%d", remote.IP, remote.Port)`
unfoldable pub address_text : Candidate → Text
unfolding int_text
address_text c = c.ip ++ b':' ∷ int_text c.port

module _ {C : Type 0} where
  unfoldable pub new_connection :
      (Text → Result Text) → Candidate → Candidate → Option C → Result (Connection C)
  new_connection resolve local remote conn = do
    addr ← wrap "resolve remote address" (resolve (address_text remote))
    ok (record {
      local_candidate = local;
      remote_candidate = remote;
      conn = conn;
      remote_addr = addr;
      closed = false;
      has_handler = false;
    })

  unfoldable pub set_receive_handler : Connection C → Connection C
  set_receive_handler c = record c { has_handler = true }

  -- `Close` also cancels the context; a second call does nothing.
  unfoldable pub close : Connection C → Connection C
  close c = if c.closed then c else record c { closed = true }

  unfoldable pub write : (C → Bytes → Text → Result ℕ) → Option C → Bytes → Text → Result (Unit {0})
  write send_to none bytes addr = err "no connection"
  write send_to (some socket) bytes addr = do n ← wrap "send" (send_to socket bytes addr); ok tt

  -- `Send`: `send_to` is the socket's `WriteToUDP`.
  unfoldable pub send : (C → Bytes → Text → Result ℕ) → Connection C → Bytes → Result (Unit {0})
  unfolding write
  send send_to c bytes =
      if c.closed then err "connection closed" else write send_to c.conn bytes c.remote_addr

  -- `Receive`, on what the socket's `ReadFromUDP` returned: the bytes and their sender.
  abbrev pub accept_from : Connection C → Result (Bytes × Text) → Result Bytes
  accept_from c (err e) = err e
  accept_from c (ok (bytes, from)) =
      if text_eq from c.remote_addr then ok bytes else err "unexpected sender"

  unfoldable pub receive_from : Connection C → Result (Bytes × Text) → Result Bytes
  receive_from c got =
      if c.closed
      then err "connection closed"
      else elim c.conn [ none ↦ err "no connection" | some socket ↦ accept_from c got ]

-- What one read of the loop brings: nothing in 100 ms, a failure, or a datagram and its sender.
pub data Read : Type 0 where
  timeout : Read
  failure : Read
  datagram : Bytes → Text → Read

-- One round of `receiveLoop`: the connection as the round finds it, and what it reads.
pub record Round (C : Type 0) : Type 0 where
  pub seen : Connection C
  pub read : Read

-- How a round goes on, and what it gives to the handler.
pub data Next : Type 0 where
  stop : Next
  skip : Next
  handled : Bytes → Text → Next

module _ {C : Type 0} where
  abbrev pub take_in : Connection C → Read → Next
  take_in c timeout = skip
  take_in c failure = stop
  take_in c (datagram bytes from) =
      if not (text_eq from c.remote_addr)
      then skip
      else if c.has_handler
      then handled bytes from
      else skip

  unfoldable pub round : Round C → Next
  round r =
      if r.seen.closed
      then stop
      else elim r.seen.conn [ none ↦ stop | some socket ↦ take_in r.seen r.read ]

  -- The calls of the handler over the rounds of the loop.
  unfoldable pub receive_loop : List (Round C) → List (Bytes × Text)
  receive_loop [] = []
  receive_loop (r ∷ rs) = elim (round r) [
    | stop ↦ []
    | skip ↦ receive_loop rs
    | handled bytes from ↦ (bytes, from) ∷ receive_loop rs
  ]
