-- ===== src/Ice/Agent/Gathered.antt =====
-- A new agent after `Gather`.
use p_and_pp.Base.{ℕ, ◌≡◌, refl, List, [], ◌∷◌, none}
use p_and_pp.Base.Results.{Result, ok, err, wrap}
use p_and_pp.Ice.Gatherer.{
  Ip, Net, Gatherer, Pointer, new_gatherer, gathered, gather_from, get_local_ips,
}
use p_and_pp.Ice.Gatherer
use p_and_pp.Ice.Gatherer.Pairing.{Paired, gather-Paired}
use p_and_pp.Ice.Agent.{Agent, new_agent, gather, keep_gathered}

module _ {W C : Type 0} (net : Net W C) where
  gathered_all : (g : Gatherer C) (cs : List Pointer) → gathered net g ≡ ok cs → g.candidates ≡ cs
  gathered_all g cs e = go g.candidates refl
    where
      go : (ps : List Pointer) → g.candidates ≡ ps → g.candidates ≡ cs
      go [] q =
          let none_found : gathered net g ≡ err "no local candidates gathered" = rw q in
          cc (e, none_found)
      go (p ∷ ps) q = let found : gathered net g ≡ ok (p ∷ ps) = rw q in cc (e, q, found)

  pub gather_all :
      (w : W) (g : Gatherer C) (cs : List Pointer)
      → (Gatherer.gather net w g).2 ≡ ok cs
      → (Gatherer.gather net w g).1.candidates ≡ cs
  unfolding Gatherer.gather
  gather_all w g cs = go (wrap "get local IPs" (get_local_ips (net.interfaces w))) refl
    where
      go :
          (r : Result (List Ip))
          → wrap "get local IPs" (get_local_ips (net.interfaces w)) ≡ r
          → (Gatherer.gather net w g).2 ≡ ok cs
          → (Gatherer.gather net w g).1.candidates ≡ cs
      go (err e) q = rw (q, Gatherer.gather) (λ e. cc e)
      go (ok ips) q = rw (q, Gatherer.gather) (gathered_all (gather_from net w g ips 1).1 cs)

  kept :
      (a : Agent C) (t : W × Gatherer C × Result (List Pointer)) (cs : List Pointer)
      → (keep_gathered net a t).2 ≡ ok cs
      → (t.2 ≡ ok cs)
        × ((keep_gathered net a t).1 ≡ record a { gatherer = t.1; local_candidates = cs })
  kept a (w, g, ok ps) cs e = (e, cc e)
  kept a (w, g, err x) cs e = cc e

  -- After `Gather` with candidates, the agent holds those of its gatherer, each beside its listener.
  pub gather_new :
      (w : W) (low high : ℕ) (cs : List Pointer)
      → (gather net w (new_agent low high)).2 ≡ ok cs
      → (g : Gatherer C) × ((gather net w (new_agent low high)).1 ≡ record {
        gatherer = g;
        local_candidates = cs;
        remote_candidates = [];
        connection = none;
      })
        × (g.candidates ≡ cs)
        × Paired net g.candidates g.listeners
  unfolding gather new_agent new_gatherer
  gather_new w low high cs e =
      let (whole, same) =
        kept (new_agent low high) (Gatherer.gather net w (new_gatherer low high)) cs e in
      (
        (Gatherer.gather net w (new_gatherer low high)).1,
        same,
        gather_all w (new_gatherer low high) cs whole,
        gather-Paired net w (new_gatherer low high) tt,
      )
