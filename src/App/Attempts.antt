-- ===== src/App/Attempts.antt =====
-- cmd/client/main.go: the goroutines that `handleRemoteICECandidate` starts, one for each candidate, in any
-- order of their steps, while the rest of the program is at rest. Their accesses to the fields of the
-- application are taken one after the other.
pub mod Counting
pub mod Greetings
pub mod Settling
use p_and_pp.Base.{ℕ, zero, suc, ◌+◌, ◌<◌, ◌≡◌, String, List, [], ◌∷◌, ◌++◌, Option, none, some}
use p_and_pp.Base.Results.{Result, ok, err}
use p_and_pp.Base.Texts.{Text}
use p_and_pp.Ice.Connection.{Connection, Bytes}
use p_and_pp.Ice.Agent.{Agent, connect}
use p_and_pp.App.{App, Act, send_string}

-- `sleeping` stands in front of the test of `iceConn`, `unconnected` behind it, in front of `Connect`;
-- `connected` has the connection that `Connect` returned.
pub data Attempt (C : Type 0) : Type 0 where
  sleeping unconnected : Attempt C
  connected : Connection C → Attempt C
  over : Attempt C

pub record Race (C R : Type 0) : Type 0 where
  pub app : App C
  pub attempts : List (Attempt C)
  pub acts : List (Act R)

abbrev pub sleepers : {C : Type 0} → ℕ → List (Attempt C)
sleepers zero = []
sleepers (suc n) = sleeping ∷ sleepers n

abbrev pub race : {C R : Type 0} → App C → ℕ → Race C R
race app n = record { app = app; attempts = sleepers n; acts = [] }

module _ {C R : Type 0} (send_to : C → Bytes → Text → Result ℕ) (bytes : String → Bytes) where
  abbrev pub greeting : Connection C → Act R
  greeting conn = send_string send_to bytes conn "Hello from direct UDP!"

module _ {C R : Type 0} (resolve : Text → Result Text) (send_to : C → Bytes → Text → Result ℕ)
    (bytes : String → Bytes) where
  pub data Step (s : Race C R) : Race C R → Type 0 where
    finds_none :
        (xs ys : List (Attempt C))
        → s.attempts ≡ xs ++ sleeping ∷ ys
        → s.app.ice_conn ≡ none
        → Step s (record s { attempts = xs ++ unconnected ∷ ys })
    finds_one :
        (xs ys : List (Attempt C)) (conn : Connection C)
        → s.attempts ≡ xs ++ sleeping ∷ ys
        → s.app.ice_conn ≡ some conn
        → Step s (record s { attempts = xs ++ over ∷ ys })
    connects :
        (xs ys : List (Attempt C)) (a b : Agent C) (conn : Connection C)
        → s.attempts ≡ xs ++ unconnected ∷ ys
        → s.app.ice_agent ≡ some a
        → connect resolve a ≡ (b, ok conn)
        → Step s (record s {
          app = record s.app { ice_agent = some b };
          attempts = xs ++ connected conn ∷ ys;
        })
    fails :
        (xs ys : List (Attempt C)) (a b : Agent C) (e : String)
        → s.attempts ≡ xs ++ unconnected ∷ ys
        → s.app.ice_agent ≡ some a
        → connect resolve a ≡ (b, err e)
        → Step s
            (record s { app = record s.app { ice_agent = some b }; attempts = xs ++ over ∷ ys })
    greets :
        (xs ys : List (Attempt C)) (conn : Connection C)
        → s.attempts ≡ xs ++ connected conn ∷ ys
        → Step s (record s {
          app = record s.app { ice_conn = some conn };
          attempts = xs ++ over ∷ ys;
          acts = s.acts ++ greeting send_to bytes conn ∷ [];
        })

  -- Whatever step is taken, and as long as steps are taken, P is met.
  pub data Inevitably (P : Race C R → Type 0) : Race C R → Type 0 where
    now : {s : Race C R} → P s → Inevitably P s
    later :
        {s : Race C R} (t : Race C R)
        → Step s t
        → ((u : Race C R) → Step s u → Inevitably P u)
        → Inevitably P s

  pub data Reach (s : Race C R) : Race C R → Type 0 where
    here : Reach s s
    next : {t u : Race C R} → Reach s t → Step t u → Reach s u
