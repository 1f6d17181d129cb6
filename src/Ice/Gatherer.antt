-- ===== src/Ice/Gatherer.antt =====
-- pkg/p2p/ice/gatherer.go: the gatherer. An address is the list of its bytes; the operating system is
-- a parameter, whose state W is passed along. The bounds of the port range are numbers: a negative one
-- means what 0 means.
pub mod Priority
pub mod Loop
pub mod Addresses
pub mod Ports
pub mod Pairing
pub mod Sockets
use p_and_pp.Base.{
  ℕ, zero, suc, ◌+◌, ◌-◌, ◌*◌, ◌%◌, ◌^◌, ◌≡◌, Bool, true, false, ◌&&◌, ◌||◌, not, List, [], ◌∷◌,
  ◌++◌, Option, none, some, if◌then◌else◌, ltb, leb, nat_eq, length, String, ◌/◌, drop, get_or,
}
use p_and_pp.Base.Results.{Result, ok, err, ◌>>=◌, wrap, ℤ, pos}
use p_and_pp.Base.Texts.{Text, codes, text_eq, decimal}
use p_and_pp.Ice.Candidate.{Candidate, CandidateType, host, server_reflexive, peer_reflexive, relay}

abbrev pub Ip : Type 0
Ip = List ℕ

-- The first so many bytes are zero.
zeros : ℕ → Ip → Bool
zeros zero ip = true
zeros (suc n) [] = false
zeros (suc n) (b ∷ ip) = nat_eq b 0 && zeros n ip

-- `ip.To4()` of package net: four bytes, or the last four of sixteen that map an IPv4 address.
unfoldable pub to4 : Ip → Option Ip
unfolding zeros
to4 ip =
    if nat_eq (length ip) 4
    then some ip
    else if nat_eq (length ip) 16
        && zeros 10 ip
        && nat_eq (get_or ip 10 0) 255
        && nat_eq (get_or ip 11 0) 255
    then some (drop 12 ip)
    else none

-- `ip.IsPrivate()` of package net: 10/8, 172.16/12, 192.168/16, and fc00::/7.
unfoldable pub is_private : Ip → Bool
unfolding to4
is_private ip = elim (to4 ip) [
  | some v4 ↦
      nat_eq (get_or v4 0 0) 10
      || (nat_eq (get_or v4 0 0) 172 && nat_eq (get_or v4 1 0 / 16) 1)
      || (nat_eq (get_or v4 0 0) 192 && nat_eq (get_or v4 1 0) 168)
  | none ↦ nat_eq (length ip) 16 && nat_eq (get_or ip 0 0 / 2) 126
]

-- `calculatePriority`, in uint32.
unfoldable pub type_preference : CandidateType → ℕ
type_preference type =
    if text_eq type host
    then 126
    else if text_eq type peer_reflexive
    then 110
    else if text_eq type server_reflexive
    then 100
    else 0

unfoldable pub local_preference : Ip → ℕ
local_preference ip = if is_private ip then 100 else 200

unfoldable pub calculate_priority : CandidateType → Ip → ℕ
unfolding local_preference
calculate_priority type ip =
    (2 ^ 24 * type_preference type + 2 ^ 8 * local_preference ip + (256 - 1)) % 2 ^ 32

-- An address of an interface, by the type that `iface.Addrs` gave it.
pub data NetAddr : Type 0 where
  ip_net : Ip → NetAddr
  ip_addr : Ip → NetAddr
  other_addr : NetAddr

pub record Interface : Type 0 where
  pub is_up : Bool
  pub is_loopback : Bool
  pub addrs : Result (List NetAddr)

-- The system calls: `net.Interfaces`, `net.ListenUDP`, `conn.LocalAddr`, `conn.Close`, and `ip.String`.
pub record Net (W C : Type 0) : Type 0 where
  pub interfaces : W → Result (List Interface)
  pub listen : W → Ip → ℕ → W × Result C
  pub local_ip : C → Ip
  pub local_port : C → ℕ
  pub close : W → C → W
  pub ip_string : Ip → Text

abbrev pub ip_of : NetAddr → Ip
ip_of (ip_net ip) = ip
ip_of (ip_addr ip) = ip
ip_of other_addr = []

-- The inner loop of `getLocalIPs`: IPv4 addresses only.
unfoldable pub usable : List NetAddr → List Ip
usable [] = []
usable (a ∷ rest) = elim (to4 (ip_of a)) [ some v4 ↦ ip_of a ∷ usable rest | none ↦ usable rest ]

unfoldable pub interface_ips : Interface → List Ip
interface_ips i =
    if not i.is_up
    then []
    else if i.is_loopback
    then []
    else elim i.addrs [ ok addrs ↦ usable addrs | err e ↦ [] ]

unfoldable pub all_ips : List Interface → List Ip
all_ips [] = []
all_ips (i ∷ rest) = interface_ips i ++ all_ips rest

-- `net.ParseIP("127.0.0.1")`, in its sixteen bytes.
abbrev pub localhost : Ip
localhost = 0 ∷ 0 ∷ 0 ∷ 0 ∷ 0 ∷ 0 ∷ 0 ∷ 0 ∷ 0 ∷ 0 ∷ 255 ∷ 255 ∷ 127 ∷ 0 ∷ 0 ∷ 1 ∷ []

-- With no address found the fallback is localhost.
unfoldable pub or_localhost : List Ip → List Ip
or_localhost [] = localhost ∷ []
or_localhost (ip ∷ ips) = ip ∷ ips

unfoldable pub get_local_ips : Result (List Interface) → Result (List Ip)
unfolding or_localhost
get_local_ips found = do ifaces ← wrap "get interfaces" found; ok (or_localhost (all_ips ifaces))

-- A candidate behind its pointer: the address tells pointers apart.
pub record Pointer : Type 0 where
  pub address : ℕ
  pub value : Candidate

pub record Gatherer (C : Type 0) : Type 0 where
  pub candidates : List Pointer
  pub listeners : List C
  pub port_start : ℕ
  pub port_end : ℕ

unfoldable pub new_gatherer : {C : Type 0} → ℕ → ℕ → Gatherer C
new_gatherer low high = record {
  candidates = [];
  listeners = [];
  port_start = low;
  port_end = high;
}

-- `DefaultGathererConfig`
abbrev pub default_port_start : ℕ
default_port_start = 10000

abbrev pub default_port_end : ℕ
default_port_end = 10100

module _ {W C : Type 0} (net : Net W C) where
  -- The loop of `bindUDP` over the ports from `port`, with so many rounds left.
  unfoldable pub bind_range : W → Ip → ℕ → ℕ → W × Option C
  bind_range w ip port zero = (w, none)
  bind_range w ip port (suc rounds) =
      let (w', r) = net.listen w ip port in
      elim r [ ok conn ↦ (w', some conn) | err e ↦ bind_range w' ip (port + 1) rounds ]

  abbrev pub to_option : {A : Type 0} → Result A → Option A
  to_option (ok a) = some a
  to_option (err e) = none

  -- The error is not kept: `Gather` skips the address.
  unfoldable pub bind_udp : W → Ip → ℕ → ℕ → W × Option C
  unfolding bind_range
  bind_udp w ip low high =
      if ltb 0 low && ltb 0 high
      then bind_range w ip low (high + 1 - low)
      else (let (w', r) = net.listen w ip 0 in (w', to_option r))

  -- The host candidate of a listener; `next` is the address that it is allocated at.
  unfoldable pub host_candidate : ℕ → ℕ → C → Pointer
  host_candidate next foundation conn = record {
    address = next;
    value = record {
      type = host;
      foundation = decimal foundation;
      component = pos 1;
      protocol = codes "udp";
      priority = calculate_priority host (net.local_ip conn);
      ip = net.ip_string (net.local_ip conn);
      port = pos (net.local_port conn);
      base = [];
    };
  }

  -- The loop of `Gather` over the addresses.
  unfoldable pub gather_from : W → Gatherer C → List Ip → ℕ → W × Gatherer C
  gather_from w g [] foundation = (w, g)
  gather_from w g (ip ∷ ips) foundation =
      let (w', bound) = bind_udp w ip g.port_start g.port_end in
      elim bound [
        | none ↦ gather_from w' g ips foundation
        | some conn ↦
            gather_from w'
              (record g {
                candidates =
                    g.candidates ++ host_candidate (length g.candidates) foundation conn ∷ [];
                listeners = g.listeners ++ conn ∷ [];
              })
              ips (foundation + 1)
      ]

  abbrev pub gathered : Gatherer C → Result (List Pointer)
  gathered g = elim g.candidates [
    | [] ↦ err "no local candidates gathered"
    | c ∷ cs ↦ ok g.candidates
  ]

  -- `Gather`
  unfoldable pub gather : W → Gatherer C → W × Gatherer C × Result (List Pointer)
  gather w g = elim (wrap "get local IPs" (get_local_ips (net.interfaces w))) [
    | err e ↦ (w, g, err e)
    | ok ips ↦ (let (w', g') = gather_from w g ips 1 in (w', g', gathered g'))
  ]

  unfoldable pub close_all : W → List C → W
  close_all w [] = w
  close_all w (conn ∷ rest) = close_all (net.close w conn) rest

  -- `Close` closes the listeners and empties their list; the candidates stay.
  unfoldable pub close : W → Gatherer C → W × Gatherer C
  unfolding close_all
  close w g = (close_all w g.listeners, record g { listeners = [] })
