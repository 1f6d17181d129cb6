-- ===== src/Ice/Gatherer/Ports.antt =====
-- The ports that the gatherer binds, and the addresses that it binds them on.
use p_and_pp.Base.{
  String, ℕ, zero, suc, ◌+◌, ◌-◌, ◌≤◌, ◌<◌, ◌≡◌, ◌≢◌, refl, ap, subst, [], ◌∷◌, Option, none, some,
  arith, lt→ltb, All, All-append, length,
}
use p_and_pp.Base.Results.{Result, ok, err, pos}
use p_and_pp.Ice.Gatherer.Loop.{added, gather_keeps}
use p_and_pp.Ice.Gatherer.{
  Ip, Net, Pointer, Gatherer, new_gatherer, bind_range, bind_udp, host_candidate, gather,
}

-- The port of a candidate lies in the range.
abbrev pub InRange : ℕ → ℕ → Pointer → Type 0
InRange low high p = (n : ℕ) × (p.value.port ≡ pos n) × (low ≤ n) × (n ≤ high)

module _ {W C : Type 0} (net : Net W C) where
  -- `net.ListenUDP` at a port other than 0 gives a socket on that port.
  abbrev pub ListensAt : Type 0
  ListensAt =
      (w w' : W) (ip : Ip) (port : ℕ) (c : C)
      → port ≢ 0
      → net.listen w ip port ≡ (w', ok c)
      → net.local_port c ≡ port

  -- So many ports in a row are refused, from one state of the system to another.
  abbrev pub Refused : W → Ip → ℕ → ℕ → W → Type 0
  Refused w ip port zero w' = w ≡ w'
  Refused w ip port (suc k) w' =
      (v : W) × (m : String) × (net.listen w ip port ≡ (v, err m)) × Refused v ip (port + 1) k w'

  -- The outcome of trying so many ports in order: the first that is free, or none.
  abbrev pub FirstFree : W → Ip → ℕ → ℕ → W × Option C → Type 0
  FirstFree w ip port rounds (w', none) = Refused w ip port rounds w'
  FirstFree w ip port rounds (w', some c) =
      (k : ℕ) × (v : W) × (k < rounds)
      × Refused w ip port k v
      × (net.listen v ip (port + k) ≡ (w', ok c))

  later :
      (w v : W) (m : String) (ip : Ip) (port rounds : ℕ) (r : W × Option C)
      → net.listen w ip port ≡ (v, err m)
      → FirstFree v ip (port + 1) rounds r
      → FirstFree w ip port (suc rounds) r
  later w v m ip port rounds (w', none) q f = (v, m, q, f)
  later w v m ip port rounds (w', some c) q (k, u, lt, refused, e) =
      let shift : port + 1 + k ≡ port + suc k = omega arith in
      (suc k, u, omega arith, (v, m, q, refused), rw (← shift) e)

  bind_range_free :
      (w v : W) (ip : Ip) (port rounds : ℕ) (c : C)
      → net.listen w ip port ≡ (v, ok c)
      → bind_range net w ip port (suc rounds) ≡ (v, some c)
  unfolding bind_range
  bind_range_free w v ip port rounds c q =
      ap
        (λ (x : W × Result C). elim x.1 as (λ r. W × Option C) [
          | ok conn ↦ (x.0, some conn)
          | err e ↦ bind_range net x.0 ip (port + 1) rounds
        ])
        q

  bind_range_taken :
      (w v : W) (ip : Ip) (port rounds : ℕ) (m : String)
      → net.listen w ip port ≡ (v, err m)
      → bind_range net w ip port (suc rounds) ≡ bind_range net v ip (port + 1) rounds
  unfolding bind_range
  bind_range_taken w v ip port rounds m q =
      ap
        (λ (x : W × Result C). elim x.1 as (λ r. W × Option C) [
          | ok conn ↦ (x.0, some conn)
          | err e ↦ bind_range net x.0 ip (port + 1) rounds
        ])
        q

  bind_range_first :
      (w : W) (ip : Ip) (port rounds : ℕ)
      → FirstFree w ip port rounds (bind_range net w ip port rounds)
  bind_range_first w ip port zero = unfold bind_range in refl
  bind_range_first w ip port (suc rounds) =
      go (net.listen w ip port).0 (net.listen w ip port).1 refl
        (λ v. bind_range_first v ip (port + 1) rounds)
    where
      go :
          (v : W) (r : Result C)
          → net.listen w ip port ≡ (v, r)
          → ((u : W) → FirstFree u ip (port + 1) rounds (bind_range net u ip (port + 1) rounds))
          → FirstFree w ip port (suc rounds) (bind_range net w ip port (suc rounds))
      go v (ok c) q ih =
          let same : port + 0 ≡ port = omega arith in
          rw (bind_range_free w v ip port rounds c q) (0, w, omega arith, refl, rw same q)
      go v (err m) q ih =
          rw (bind_range_taken w v ip port rounds m q)
            (later w v m ip port rounds (bind_range net v ip (port + 1) rounds) q (ih v))

  -- With a port range, `bindUDP` tries the ports of the range in order, from its first one, and gives
  -- the first that is free; it gives none only after every port up to the last one was refused.
  pub bind_udp-FirstFree :
      (w : W) (ip : Ip) (low high : ℕ)
      → 0 < low
      → 0 < high
      → FirstFree w ip low (high + 1 - low) (bind_udp net w ip low high)
  unfolding bind_udp
  bind_udp-FirstFree w ip low high a b =
      rw (lt→ltb 0 low a, lt→ltb 0 high b) (bind_range_first w ip low (high + 1 - low))

  module _ (law : ListensAt) where
    bound_port :
        (w w' : W) (ip : Ip) (low rounds : ℕ) (c : C)
        → 0 < low
        → FirstFree w ip low rounds (w', some c)
        → (low ≤ net.local_port c) × (net.local_port c < low + rounds)
    bound_port w w' ip low rounds c a (k, v, lt, refused, e) =
        let there = law v w' ip (low + k) c (omega arith) e in omega arith

    bind_udp_port :
        (w w' : W) (ip : Ip) (low high : ℕ) (c : C)
        → 0 < low
        → 0 < high
        → bind_udp net w ip low high ≡ (w', some c)
        → (low ≤ net.local_port c) × (net.local_port c ≤ high)
    bind_udp_port w w' ip low high c a b e =
        let f =
          subst (FirstFree w ip low (high + 1 - low)) e (bind_udp-FirstFree w ip low high a b) in
        let g = bound_port w w' ip low (high + 1 - low) c a f in omega arith

    -- With a port range, `Gather` on a new gatherer makes candidates with ports of the range only.
    pub gather_ports :
        (w : W) (low high : ℕ)
        → 0 < low
        → 0 < high
        → All (InRange low high) (gather net w (new_gatherer low high)).1.candidates
    unfolding new_gatherer
    gather_ports w low high a b =
        (gather_keeps net P keep w (new_gatherer low high) (tt, (refl, refl))).0
      where
        P : Gatherer C → Type 0
        P g = All (InRange low high) g.candidates × ((g.port_start ≡ low) × (g.port_end ≡ high))

        keep :
            (v v' : W) (ip : Ip) (g : Gatherer C) (f : ℕ) (c : C)
            → P g
            → bind_udp net v ip g.port_start g.port_end ≡ (v', some c)
            → P (added net g f c)
        keep v v' ip g f c (all, (s, e)) q =
            let (lo, hi) = bind_udp_port v v' ip low high c a b (rw (← s, ← e) q) in
            (
              All-append (InRange low high) g.candidates
                  (host_candidate net (length g.candidates) f c ∷ []) all
                  ((net.local_port c, unfold host_candidate in refl, lo, hi), tt),
              (s, e),
            )
