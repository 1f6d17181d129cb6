-- ===== src/Ice/Gatherer/Loop.antt =====
-- A rule for the loop of `Gather`: what each new candidate keeps, the loop keeps.
use p_and_pp.Base.{ℕ, ◌+◌, ◌≡◌, refl, List, [], ◌∷◌, ◌++◌, Option, none, some, length}
use p_and_pp.Base.Results.{Result, ok, err, wrap}
use p_and_pp.Ice.Gatherer.{
  Ip, Net, Gatherer, bind_udp, host_candidate, gather_from, gather, get_local_ips,
}

module _ {W C : Type 0} (net : Net W C) where
  -- The gatherer with the candidate of one more listener.
  abbrev pub added : Gatherer C → ℕ → C → Gatherer C
  added g f conn = record g {
    candidates = g.candidates ++ host_candidate net (length g.candidates) f conn ∷ [];
    listeners = g.listeners ++ conn ∷ [];
  }

  abbrev pub next_round : Gatherer C → List Ip → ℕ → W × Option C → W × Gatherer C
  next_round g ips f (w, none) = gather_from net w g ips f
  next_round g ips f (w, some conn) = gather_from net w (added g f conn) ips (f + 1)

  -- The round as the loop takes it, on what `bindUDP` returned.
  split :
      (g : Gatherer C) (ips : List Ip) (f : ℕ) (r : W × Option C)
      → (elim r.1 as (λ x. W × Gatherer C) [
        | none ↦ gather_from net r.0 g ips f
        | some conn ↦ gather_from net r.0 (added g f conn) ips (f + 1)
      ])
        ≡ next_round g ips f r
  split g ips f (w, none) = refl
  split g ips f (w, some conn) = refl

  pub gather_from_round :
      (w : W) (g : Gatherer C) (ip : Ip) (ips : List Ip) (f : ℕ)
      → gather_from net w g (ip ∷ ips) f
        ≡ next_round g ips f (bind_udp net w ip g.port_start g.port_end)
  unfolding gather_from
  gather_from_round w g ip ips f = split g ips f (bind_udp net w ip g.port_start g.port_end)

  module _ {ℓ} (P : Gatherer C → Type ℓ)
      (keep : (v v' : W) (ip : Ip) (g : Gatherer C) (f : ℕ) (c : C)
        → P g
        → bind_udp net v ip g.port_start g.port_end ≡ (v', some c)
        → P (added g f c)) where
    gather_from_keeps :
        (w : W) (g : Gatherer C) (ips : List Ip) (f : ℕ) → P g → P (gather_from net w g ips f).1
    gather_from_keeps w g [] f h = unfold gather_from in h
    gather_from_keeps w g (ip ∷ ips) f h = rw (gather_from_round w g ip ips f) (
        go (bind_udp net w ip g.port_start g.port_end) refl (λ v. gather_from_keeps v g ips f h)
          (λ v c. gather_from_keeps v (added g f c) ips (f + 1)))
      where
        go :
            (r : W × Option C)
            → bind_udp net w ip g.port_start g.port_end ≡ r
            → ((v : W) → P (gather_from net v g ips f).1)
            → ((v : W) (c : C)
                → P (added g f c)
                → P (gather_from net v (added g f c) ips (f + 1)).1)
            → P (next_round g ips f r).1
        go (v, none) q same more = same v
        go (v, some c) q same more = more v c (keep w v ip g f c h q)

    pub gather_keeps : (w : W) (g : Gatherer C) → P g → P (gather net w g).1
    unfolding gather
    gather_keeps w g h = go (wrap "get local IPs" (get_local_ips (net.interfaces w))) refl
      where
        go :
            (r : Result (List Ip))
            → wrap "get local IPs" (get_local_ips (net.interfaces w)) ≡ r
            → P (gather net w g).1
        go (err e) q = rw (q, gather) h
        go (ok ips) q = rw (q, gather) (gather_from_keeps w g ips 1 h)
