-- ===== src/Mutex.antt =====
-- sync.RWMutex, as the client and the agent use it: what each call does to the lock.
use p_and_pp.Base.{
  ℕ, Bool, true, false, Outcome, done, blocked, panicked, if◌then◌else◌, ltb, ◌||◌, ◌-◌, ◌+◌,
}

pub record RwMutex : Type 0 where
  pub readers : ℕ
  pub writer : Bool

unfoldable pub lock : RwMutex → Outcome RwMutex
lock m = if m.writer || ltb 0 m.readers then blocked else done (record m { writer = true })

-- Unlocking a lock that no writer holds stops the program.
unfoldable pub unlock : RwMutex → Outcome RwMutex
unlock m = if m.writer then done (record m { writer = false }) else panicked

unfoldable pub r_lock : RwMutex → Outcome RwMutex
r_lock m = if m.writer then blocked else done (record m { readers = m.readers + 1 })

unfoldable pub r_unlock : RwMutex → Outcome RwMutex
r_unlock m = if ltb 0 m.readers then done (record m { readers = m.readers - 1 }) else panicked
