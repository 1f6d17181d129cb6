-- ===== src/Ice/Gatherer/Sockets.antt =====
-- The sockets of a machine, and what gathering and closing do to those that are bound.
use p_and_pp.Base.{
  ℕ, zero, suc, ◌+◌, ◌-◌, ◌≡◌, ◌≢◌, refl, sym, subst, ◌&&◌, List, [], ◌∷◌, Option, none, some, ltb,
  All, All-append, Bool-cases, inl, inr,
}
use p_and_pp.Base.Results.{Result, ok, err, wrap}
use p_and_pp.Ice.Gatherer.{
  Ip, Net, Gatherer, bind_range, bind_udp, to_option, gather_from, gather, get_local_ips, close_all,
}
use p_and_pp.Ice.Gatherer.Loop.{added, next_round, gather_from_round}

-- What the operating system promises of the sockets that are bound in a state.
pub record Binds {W C : Type 0} (net : Net W C) (bound : W → C → Type 0) : Type 0 where
  pub keeps : (w : W) (ip : Ip) (port : ℕ) (d : C) → bound w d → bound (net.listen w ip port).0 d
  pub fresh : (w : W) (ip : Ip) (port : ℕ) (c : C) → (net.listen w ip port).1 ≡ ok c → ¬ bound w c
  pub frees : (w : W) (c : C) → ¬ bound (net.close w c) c
  pub alone : (w : W) (c d : C) → bound w d → c ≢ d → bound (net.close w c) d
  pub only : (w : W) (c d : C) → bound (net.close w c) d → bound w d

module _ {W C : Type 0} (net : Net W C) (bound : W → C → Type 0) (law : Binds net bound) where
  -- A socket that is bound stays bound, and what was opened meanwhile is another one.
  abbrev Spared : C → W × Option C → Type 0
  Spared d (w, none) = bound w d
  Spared d (w, some c) = bound w d × (c ≢ d)

  opened :
      (w : W) (ip : Ip) (port : ℕ) (d c : C) → bound w d → (net.listen w ip port).1 ≡ ok c → c ≢ d
  opened w ip port d c b e same = law.fresh w ip port c e (subst (bound w) (sym same) b)

  bind_range-Spared :
      (w : W) (ip : Ip) (port rounds : ℕ) (d : C)
      → bound w d
      → Spared d (bind_range net w ip port rounds)
  unfolding bind_range
  bind_range-Spared w ip port zero d b = b
  bind_range-Spared w ip port (suc rounds) d b =
      go (net.listen w ip port).1 refl (
        bind_range-Spared (net.listen w ip port).0 ip (port + 1) rounds d (law.keeps w ip port d b))
    where
      go :
          (r : Result C)
          → (net.listen w ip port).1 ≡ r
          → Spared d (bind_range net (net.listen w ip port).0 ip (port + 1) rounds)
          → Spared d (bind_range net w ip port (suc rounds))
      go (ok c) e rest = rw (e, bind_range) (law.keeps w ip port d b, opened w ip port d c b e)
      go (err m) e rest = rw (e, bind_range) rest

  bind_udp-Spared :
      (w : W) (ip : Ip) (low high : ℕ) (d : C) → bound w d → Spared d (bind_udp net w ip low high)
  unfolding bind_udp
  bind_udp-Spared w ip low high d b = elim (Bool-cases (ltb 0 low && ltb 0 high)) [
    | inl range ↦ rw range (bind_range-Spared w ip low (high + 1 - low) d b)
    | inr any ↦ rw any (go (net.listen w ip 0).1 refl)
  ]
    where
      go :
          (r : Result C)
          → (net.listen w ip 0).1 ≡ r
          → Spared d ((net.listen w ip 0).0, to_option net (net.listen w ip 0).1)
      go (ok c) e = rw e (law.keeps w ip 0 d b, opened w ip 0 d c b e)
      go (err m) e = rw e (law.keeps w ip 0 d b)

  -- A bound socket, and a gatherer that does not have it among its listeners.
  abbrev pub Apart : C → W × Gatherer C → Type 0
  Apart d (w, g) = bound w d × All (λ c. c ≢ d) g.listeners

  gather_from-Apart :
      (w : W) (g : Gatherer C) (ips : List Ip) (f : ℕ) (d : C)
      → Apart d (w, g)
      → Apart d (gather_from net w g ips f)
  gather_from-Apart w g [] f d h = unfold gather_from in h
  gather_from-Apart w g (ip ∷ ips) f d h = rw (gather_from_round net w g ip ips f) (
      go (bind_udp net w ip g.port_start g.port_end)
        (bind_udp-Spared w ip g.port_start g.port_end d h.0)
        (λ v b. gather_from-Apart v g ips f d (b, h.1))
        (λ v c b n.
          gather_from-Apart v (added net g f c) ips (f + 1) d
            (b, All-append (λ c. c ≢ d) g.listeners (c ∷ []) h.1 (n, tt))))
    where
      go :
          (r : W × Option C)
          → Spared d r
          → ((v : W) → bound v d → Apart d (gather_from net v g ips f))
          → ((v : W) (c : C)
              → bound v d
              → c ≢ d
              → Apart d (gather_from net v (added net g f c) ips (f + 1)))
          → Apart d (next_round net g ips f r)
      go (v, none) b same more = same v b
      go (v, some c) (b, n) same more = more v c b n

  -- Gathering leaves a bound socket bound, and out of the new listeners.
  pub gather-Apart :
      (w : W) (g : Gatherer C) (d : C)
      → Apart d (w, g)
      → Apart d ((gather net w g).0, (gather net w g).1)
  unfolding gather
  gather-Apart w g d h = go (wrap "get local IPs" (get_local_ips (net.interfaces w))) refl
    where
      go :
          (r : Result (List Ip))
          → wrap "get local IPs" (get_local_ips (net.interfaces w)) ≡ r
          → Apart d ((gather net w g).0, (gather net w g).1)
      go (err e) q = rw (q, gather) h
      go (ok ips) q = rw (q, gather) (gather_from-Apart w g ips 1 d h)

  -- Closing other sockets leaves a bound one bound.
  pub close_all-other :
      (w : W) (cs : List C) (d : C) → bound w d → All (λ c. c ≢ d) cs → bound (close_all net w cs) d
  unfolding close_all
  close_all-other w [] d b h = b
  close_all-other w (c ∷ cs) d b h =
      close_all-other (net.close w c) cs d (law.alone w c d b h.0) h.1

  close_all-only : (w : W) (cs : List C) (d : C) → bound (close_all net w cs) d → bound w d
  unfolding close_all
  close_all-only w [] d b = b
  close_all-only w (c ∷ cs) d b = law.only w c d (close_all-only (net.close w c) cs d b)

  -- The sockets of a list that is closed are free.
  pub close_all-frees : (w : W) (cs : List C) → All (λ c. ¬ bound (close_all net w cs) c) cs
  unfolding close_all
  close_all-frees w [] = tt
  close_all-frees w (c ∷ cs) = (
    λ b. law.frees w c (close_all-only (net.close w c) cs c b),
    close_all-frees (net.close w c) cs,
  )
