-- ===== src/Ice/Agent/Locking.antt =====
-- The two accessors of the agent's candidates, and its lock.
use p_and_pp.Base.{◌≡◌, arith, done, blocked, panicked, if◌then◌else◌}
use p_and_pp.Mutex.{RwMutex, r_lock, r_unlock, unlock}
use p_and_pp.Ice.Agent.{Agent, get_local_candidates, get_remote_candidates}

module _ {C : Type 0} where
  -- Whatever the state of the lock, `GetRemoteCandidates` never returns: it waits while a writer holds
  -- the lock, and otherwise it stops the program. `GetLocalCandidates` waits in the same states, and
  -- otherwise returns the local candidates with the lock as it was.
  pub accessors_differ :
      (m : RwMutex) (a : Agent C)
      → (get_remote_candidates m a ≡ (if m.writer then blocked else panicked))
        × (get_local_candidates m a ≡ (if m.writer then blocked else done (m, a.local_candidates)))
  unfolding get_local_candidates get_remote_candidates r_lock r_unlock unlock
  accessors_differ m a = ground arith
