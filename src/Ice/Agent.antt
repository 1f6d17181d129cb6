-- ===== src/Ice/Agent.antt =====
-- pkg/p2p/ice/connection.go: the agent. Its lock is modelled where it matters, in `getRemoteCandidates`
-- and its twin.
pub mod Locking
pub mod Choice
pub mod Gathered
use p_and_pp.Base.{
  ℕ, ◌≡◌, Bool, true, false, ◌&&◌, List, [], ◌∷◌, ◌++◌, Option, none, some, if◌then◌else◌, nat_eq,
  ltb, length, Outcome, done, ◌>>=◌, get_elem?, ◌+◌, map,
}
use mathlib.Core.Option
use p_and_pp.Base.Results.{Result, ok, err, wrap}
use p_and_pp.Base.Texts.{Text}
use p_and_pp.Ice.Candidate.{Candidate}
use p_and_pp.Mutex.{RwMutex, r_lock, r_unlock, unlock}
use p_and_pp.Ice.Connection.{Connection, new_connection}
use p_and_pp.Ice.Connection
use p_and_pp.Ice.Gatherer.{Net, Gatherer, Pointer, new_gatherer}
use p_and_pp.Ice.Gatherer

pub record Agent (C : Type 0) : Type 0 where
  pub gatherer : Gatherer C
  pub local_candidates : List Pointer
  pub remote_candidates : List Candidate
  pub connection : Option (Connection C)

unfoldable pub new_agent : {C : Type 0} → ℕ → ℕ → Agent C
new_agent low high = record {
  gatherer = new_gatherer low high;
  local_candidates = [];
  remote_candidates = [];
  connection = none;
}

module _ {C : Type 0} where
  unfoldable pub add_remote_candidate : Agent C → Candidate → Agent C
  add_remote_candidate a c = record a { remote_candidates = a.remote_candidates ++ c ∷ [] }

  -- The loop of `Connect` that looks for the listener of a local candidate, by its pointer.
  unfoldable pub find_listener : Pointer → List Pointer → ℕ → List C → Option C
  find_listener local [] i listeners = none
  find_listener local (c ∷ cs) i listeners =
      let rest = find_listener local cs (i + 1) listeners in
      if nat_eq c.address local.address && ltb i (length listeners)
      then get_elem? listeners i
      else rest

  abbrev pub connect_with :
      (Text → Result Text) → Agent C → Pointer → Candidate → Option C → Result (Connection C)
  connect_with resolve a local remote none = err "no listener for local candidate"
  connect_with resolve a local remote (some conn) =
      wrap "create connection" (new_connection resolve local.value remote (some conn))

  -- The pair that `Connect` tries: the first local and the first remote candidate.
  unfoldable pub try_connect :
      (Text → Result Text) → Agent C → List Pointer → List Candidate → Result (Connection C)
  unfolding find_listener
  try_connect resolve a [] remotes = err "no local candidates"
  try_connect resolve a (local ∷ ls) [] = err "no remote candidates"
  try_connect resolve a (local ∷ ls) (remote ∷ rs) =
      connect_with resolve a local remote (find_listener local (local ∷ ls) 0 a.gatherer.listeners)

  abbrev pub keep_connection : Agent C → Result (Connection C) → Agent C × Result (Connection C)
  keep_connection a (ok conn) = (record a { connection = some conn }, ok conn)
  keep_connection a (err e) = (a, err e)

  -- `Connect`; `resolve` is `net.ResolveUDPAddr`.
  unfoldable pub connect : (Text → Result Text) → Agent C → Agent C × Result (Connection C)
  unfolding try_connect
  connect resolve a =
      keep_connection a (try_connect resolve a a.local_candidates a.remote_candidates)

  -- `GetLocalCandidates` takes the read lock and gives it back.
  unfoldable pub get_local_candidates : RwMutex → Agent C → Outcome (RwMutex × List Pointer)
  get_local_candidates m a = do m₁ ← r_lock m; m₂ ← r_unlock m₁; done (m₂, a.local_candidates)

  -- `GetRemoteCandidates` takes the read lock and gives back the write lock.
  unfoldable pub get_remote_candidates : RwMutex → Agent C → Outcome (RwMutex × List Candidate)
  get_remote_candidates m a = do m₁ ← r_lock m; m₂ ← unlock m₁; done (m₂, a.remote_candidates)

module _ {W C : Type 0} (net : Net W C) where
  abbrev pub keep_gathered :
      Agent C → W × Gatherer C × Result (List Pointer) → W × Agent C × Result (List Pointer)
  keep_gathered a (w, g, ok cs) = (w, record a { gatherer = g; local_candidates = cs }, ok cs)
  keep_gathered a (w, g, err e) = (w, record a { gatherer = g }, err e)

  -- `Gather`
  unfoldable pub gather : W → Agent C → W × Agent C × Result (List Pointer)
  gather w a = keep_gathered a (Gatherer.gather net w a.gatherer)

  -- `Close` closes the connection, if there is one, and the gatherer's listeners.
  unfoldable pub close : W → Agent C → W × Agent C
  close w a =
      let (w', g) = Gatherer.close net w a.gatherer in
      (w', record a { gatherer = g; connection = Option.map Connection.close a.connection })
