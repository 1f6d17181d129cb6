-- ===== src/App/Leak.antt =====
-- cmd/client/main.go: `startICE` on an application that has an agent.
use p_and_pp.Base.{ℕ, ◌≡◌, refl, String, List, some, All, All-imp}
use p_and_pp.Base.Results.{Result, ok, err}
use p_and_pp.Ice.Gatherer.{
  Net, Gatherer, Pointer, new_gatherer, default_port_start, default_port_end, close_all,
}
use p_and_pp.Ice.Gatherer
use p_and_pp.Ice.Gatherer.Sockets.{Binds, Apart, gather-Apart, close_all-other, close_all-frees}
use p_and_pp.Ice.Agent.{Agent, new_agent, gather, close, keep_gathered}
use p_and_pp.App.{App, Codecs, start_ice}

module _ {W C R : Type 0} (net : Net W C) (codecs : Codecs R) (clock : ℕ → ℕ × ℕ)
    (bound : W → C → Type 0) (law : Binds net bound) where
  -- The agent keeps the gatherer, whether it has candidates or not.
  kept_gatherer :
      (a : Agent C) (t : W × Gatherer C × Result (List Pointer))
      → ((keep_gathered net a t).0 ≡ t.0) × ((keep_gathered net a t).1.gatherer ≡ t.1)
  kept_gatherer a (w, g, ok cs) = (refl, refl)
  kept_gatherer a (w, g, err e) = (refl, refl)

  gather-agent :
      (w : W) (d : C)
      → bound w d
      → Apart net bound law d (
        (gather net w (new_agent default_port_start default_port_end)).0,
        (gather net w (new_agent default_port_start default_port_end)).1.gatherer,
      )
  unfolding gather new_agent new_gatherer
  gather-agent w d b =
      let fresh = new_gatherer default_port_start default_port_end in
      let (world, same) =
        kept_gatherer (new_agent default_port_start default_port_end)
          (Gatherer.gather net w fresh) in
      rw (world, same) (gather-Apart net bound law w fresh d (b, tt))

  -- With what the operating system promises of bound sockets, take an application whose agent has
  -- listeners, all of them bound. After `startICE`, closing the agent that the application then has
  -- leaves them all bound; had the old agent been closed, none of them would be.
  pub start_ice_leaks :
      (w : W) (app : App C) (old : Agent C) (peer : String)
      → app.ice_agent ≡ some old
      → All (bound w) old.gatherer.listeners
      → (new : Agent C) × ((start_ice net codecs clock w app peer).1.ice_agent ≡ some new)
        × All
            (bound (close net (start_ice net codecs clock w app peer).0 new).0)
            old.gatherer.listeners
        × All (λ c. ¬ bound (close net w old).0 c) old.gatherer.listeners
  unfolding start_ice close Gatherer.close
  start_ice_leaks w app old peer there all =
      let started = gather net w (new_agent default_port_start default_port_end) in
      (
        started.1,
        refl,
        All-imp (bound w) (bound (close_all net started.0 started.1.gatherer.listeners))
            old.gatherer.listeners
            (λ d b.
              let (still, apart) = gather-agent w d b in
              close_all-other net bound law started.0 started.1.gatherer.listeners d still apart)
            all,
        close_all-frees net bound law w old.gatherer.listeners,
      )
