-- ===== src/Ice/Gatherer/Pairing.antt =====
-- The gatherer's candidates and listeners stand side by side: the candidate at an index gives the
-- address of the listener at that index.
use p_and_pp.Base.{ℕ, ◌≡◌, ◌≢◌, refl, List, [], ◌∷◌, ◌++◌, some, length}
use p_and_pp.Base.Results.{pos}
use p_and_pp.Ice.Gatherer.Loop.{added, gather_keeps}
use p_and_pp.Ice.Gatherer.{Ip, Net, Gatherer, Pointer, bind_udp, host_candidate, gather, close}

module _ {W C : Type 0} (net : Net W C) where
  abbrev pub Describes : Pointer → C → Type 0
  Describes p c =
      (p.value.ip ≡ net.ip_string (net.local_ip c)) × (p.value.port ≡ pos (net.local_port c))

  abbrev pub Paired : List Pointer → List C → Type 0
  Paired [] [] = Unit {0}
  Paired (p ∷ ps) (c ∷ cs) = Describes p c × Paired ps cs
  Paired _ _ = ⊥

  Paired-append :
      (ps : List Pointer) (cs : List C) (p : Pointer) (c : C)
      → Paired ps cs
      → Describes p c
      → Paired (ps ++ p ∷ []) (cs ++ c ∷ [])
  Paired-append [] [] p c h d = (d, tt)
  Paired-append (q ∷ ps) (e ∷ cs) p c h d = (h.0, Paired-append ps cs p c h.1 d)
  Paired-append [] (e ∷ cs) p c h d = absurd h
  Paired-append (q ∷ ps) [] p c h d = absurd h

  -- Gathering, also again and after failures to bind, keeps every listener beside its candidate.
  pub gather-Paired :
      (w : W) (g : Gatherer C)
      → Paired g.candidates g.listeners
      → Paired (gather net w g).1.candidates (gather net w g).1.listeners
  gather-Paired = gather_keeps net (λ g. Paired g.candidates g.listeners) keep
    where
      keep :
          (v v' : W) (ip : Ip) (g : Gatherer C) (f : ℕ) (c : C)
          → Paired g.candidates g.listeners
          → bind_udp net v ip g.port_start g.port_end ≡ (v', some c)
          → Paired (added net g f c).candidates (added net g f c).listeners
      keep v v' ip g f c h q =
          Paired-append g.candidates g.listeners (host_candidate net (length g.candidates) f c) c h
            (unfold host_candidate in (refl, refl))

  -- Closing a gatherer that has gathered something leaves candidates with no listener beside them.
  pub close-unpaired :
      (w : W) (g : Gatherer C)
      → g.candidates ≢ []
      → ¬ Paired (close net w g).1.candidates (close net w g).1.listeners
  unfolding close
  close-unpaired w g n h = go g.candidates n h
    where
      go : (ps : List Pointer) → ps ≢ [] → ¬ Paired ps []
      go [] m k = m refl
      go (p ∷ ps) m k = k
