-- ===== src/Tests/Gathering.antt =====
-- A machine with one outward interface, and one port in use, whose number is the system's state.
use p_and_pp.Base.{
  refl, ◌↔◌, ◌⊎◌, ℕ, ◌≡◌, ◌<◌, ◌+◌, ◌-◌, [], ◌∷◌, true, false, arith, nat_eq, if◌then◌else◌,
}
use p_and_pp.Base.Results.{ok, err}
use p_and_pp.Ice.Candidate.{host, relay}
use p_and_pp.Ice.Gatherer.{is_private, Ip, Net, Interface, ip_net, bind_udp, calculate_priority}
use p_and_pp.Ice.Gatherer.Priority.{calculate_priority_ranks}
use p_and_pp.Ice.Gatherer.Ports.{ListensAt, FirstFree, bind_udp-FirstFree}

pub record Socket : Type 0 where
  pub ip : Ip
  pub port : ℕ

abbrev pub lan : Ip
lan = 10 ∷ 0 ∷ 0 ∷ 5 ∷ []

abbrev pub public_ip : Ip
public_ip = 8 ∷ 8 ∷ 4 ∷ 4 ∷ []

abbrev pub eth : Interface
eth = record { is_up = true; is_loopback = false; addrs = ok (ip_net lan ∷ []) }

abbrev pub net : Net ℕ Socket
net = record {
  interfaces = λ w. ok (eth ∷ []);
  listen = λ w ip port.
      (w, (if nat_eq port w then err "in use" else ok (record { ip = ip; port = port })));
  local_ip = λ s. s.ip;
  local_port = λ s. s.port;
  close = λ w s. w;
  ip_string = λ ip. ip;
}

net-ListensAt : ListensAt net
net-ListensAt w w' ip port c n e = ground (arith, e)

bind_udp_example :
    FirstFree net 10000 lan 10000 (10100 + 1 - 10000) (bind_udp net 10000 lan 10000 10100)
bind_udp_example = bind_udp-FirstFree net 10000 lan 10000 10100 (omega arith) (omega arith)

priority_ranks_example :
    (calculate_priority relay public_ip < calculate_priority host lan)
    ↔ ((0 < 3) ⊎ ((◌≡◌ {A = ℕ} 3 0) × (is_private public_ip ≡ true) × (is_private lan ≡ false)))
priority_ranks_example = calculate_priority_ranks 3 0 relay host public_ip lan refl refl
