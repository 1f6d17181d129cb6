-- ===== src/Tests/Sockets.antt =====
-- A machine whose sockets are numbers, each new one the next number.
use p_and_pp.Base.{
  ℕ, ◌+◌, ◌<◌, ◌≡◌, refl, Bool, true, false, if◌then◌else◌, nat_eq, [], ◌∷◌, none, some, All, arith,
}
use p_and_pp.Base.Results.{ok}
use p_and_pp.Ice.Gatherer.{Net}
use p_and_pp.Ice.Gatherer.Sockets.{Binds}
use p_and_pp.Ice.Agent.{Agent, close}
use p_and_pp.App.{App, start_ice}
use p_and_pp.App.Leak.{start_ice_leaks}
use p_and_pp.Tests.Gathering.{eth, lan}
use p_and_pp.Tests.Calls.{codecs, clock}
use p_and_pp.Client.{connect, on_signal}

-- The next number, and the sockets that are bound.
abbrev Machine : Type 0
Machine = ℕ × (ℕ → Bool)

abbrev mark : (ℕ → Bool) → ℕ → Bool → ℕ → Bool
mark b c v d = if nat_eq c d then v else b d

abbrev machine : Net Machine ℕ
machine = record {
  interfaces = λ w. ok (eth ∷ []);
  listen = λ w ip port. ((w.0 + 1, mark w.1 w.0 true), ok w.0);
  local_ip = λ c. lan;
  local_port = λ c. c;
  close = λ w c. (w.0, mark w.1 c false);
  ip_string = λ ip. ip;
}

abbrev Bound : Machine → ℕ → Type 0
Bound w c = (c < w.0) × (w.1 c ≡ true)

machine-Binds : Binds machine Bound
machine-Binds = record {
  keeps = λ w ip port d b. ground (arith, b.0, b.1);
  fresh = λ w ip port c e b. ground (arith, e, b.0);
  frees = λ w c b. ground (arith, b.1);
  alone = λ w c d b n. ground (arith, b.0, b.1, n);
  only = λ w c d b. ground (arith, b.0, b.1);
}

abbrev used : Agent ℕ
used = record {
  gatherer = record {
    candidates = [];
    listeners = 3 ∷ 4 ∷ [];
    port_start = 10000;
    port_end = 10100;
  };
  local_candidates = [];
  remote_candidates = [];
  connection = none;
}

abbrev app : App ℕ
app = record { client = on_signal connect; ice_agent = some used; ice_conn = none }

abbrev before : Machine
before = (5, λ c. true)

start_ice_leaks_example :
    (new : Agent ℕ) × ((start_ice machine codecs clock before app "bob").1.ice_agent ≡ some new)
    × All
        (Bound (close machine (start_ice machine codecs clock before app "bob").0 new).0)
        (3 ∷ 4 ∷ [])
    × All (λ c. ¬ Bound (close machine before used).0 c) (3 ∷ 4 ∷ [])
start_ice_leaks_example =
    start_ice_leaks machine codecs clock Bound machine-Binds before app used "bob" refl
      ((omega arith, refl), ((omega arith, refl), tt))
