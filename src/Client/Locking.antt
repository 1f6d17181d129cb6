-- ===== src/Client/Locking.antt =====
-- pkg/p2p/client.go: the lock that `handlePeerEvent` holds while it calls the application's handler.
use p_and_pp.Base.{
  ◌≡◌, refl, String, true, false, List, [], ◌∷◌, ◌⊎◌, inl, inr, Outcome, done, blocked, ◌>>=◌,
  Bool-cases, map, ltb, ◌||◌,
}
use p_and_pp.Mutex.{RwMutex, lock, unlock, r_lock, r_unlock}
use p_and_pp.Transport
use p_and_pp.Client.{Client, PeerEvent, Notice, peers_changed, signalled, handle_peer_event, peers}

-- What a handler does with the lock and the client.
abbrev pub PeerHandler : Type 0
PeerHandler = PeerEvent → RwMutex → Client → Outcome RwMutex

-- `Peers` takes the read lock and gives it back.
unfoldable pub locked_peers : RwMutex → Client → Outcome (RwMutex × List String)
locked_peers m c = do m₁ ← r_lock m; m₂ ← r_unlock m₁; done (m₂, peers c)

-- A lock that nobody holds.
abbrev pub free : RwMutex
free = record { readers = 0; writer = false }

-- A handler that asks for the known peers.
abbrev pub asks_peers : PeerHandler
asks_peers e m c = do (m', known) ← locked_peers m c; done m'

-- The events that the handler is called for.
abbrev pub IsAnnounced : Transport.PeerEvent → Type 0
IsAnnounced e = (e.type ≡ "joined") ⊎ ((e.type ≡ "left") ⊎ (e.type ≡ "list"))

unfoldable pub call_handler :
    {R : Type 0} → PeerHandler → List (Notice R) → RwMutex → Client → Outcome RwMutex
call_handler handler [] m c = done m
call_handler handler (peers_changed e ∷ ns) m c = do
  m' ← handler e m c
  call_handler handler ns m' c
call_handler handler (signalled from sig ∷ ns) m c = call_handler handler ns m c

module _ (R : Type 0) where
  -- `handlePeerEvent` with its lock.
  unfoldable pub locked_handle_peer_event :
      PeerHandler → RwMutex → Client → Transport.PeerEvent → Outcome (RwMutex × Client)
  unfolding call_handler
  locked_handle_peer_event handler m c e = do
    m₁ ← lock m
    let (c', ns) = handle_peer_event {R = R} c e
    m₂ ← call_handler handler ns m₁ c'
    m₃ ← unlock m₂
    done (m₃, c')

  announced :
      (c : Client) (e : Transport.PeerEvent)
      → c.has_peer_handler ≡ true
      → IsAnnounced e
      → (ev : PeerEvent) × ((handle_peer_event {R = R} c e).1 ≡ peers_changed ev ∷ [])
  unfolding handle_peer_event
  announced c e h (inl t) =
      (record { type = "joined"; peer_id = e.peer.id; peers = [] }, rw (t, h) refl)
  announced c e h (inr (inl t)) =
      (record { type = "left"; peer_id = e.peer.id; peers = [] }, rw (t, h) refl)
  announced c e h (inr (inr t)) =
      (record { type = "list"; peer_id = ""; peers = map (λ p. p.id) e.peers }, rw (t, h) refl)

  -- If the application's handler asks for the known peers, the handling of an arrival, a departure or a
  -- list never ends, whatever the state of the lock. With a handler that leaves the lock alone, and a
  -- lock that nobody holds, it ends with the lock as it was and the set of peers changed.
  pub peers_in_handler :
      (m : RwMutex) (c : Client) (e : Transport.PeerEvent) (quiet : PeerHandler)
      → c.has_peer_handler ≡ true
      → IsAnnounced e
      → ((ev : PeerEvent) (m : RwMutex) (c : Client) → quiet ev m c ≡ done m)
      → (locked_handle_peer_event asks_peers m c e ≡ blocked)
        × (locked_handle_peer_event quiet free c e ≡ done (free, (handle_peer_event {R = R} c e).0))
  unfolding locked_handle_peer_event locked_peers lock unlock r_lock r_unlock
  peers_in_handler m c e quiet h known leaves =
      let (ev, called) = announced c e h known in (stuck ev called, ended ev called)
    where
      stuck :
          (ev : PeerEvent)
          → (handle_peer_event {R = R} c e).1 ≡ peers_changed ev ∷ []
          → locked_handle_peer_event asks_peers m c e ≡ blocked
      stuck ev called = elim (Bool-cases (m.writer || ltb 0 m.readers)) [
        | inl held ↦ rw held
        | inr open_lock ↦ rw (open_lock, called) refl
      ]

      ended :
          (ev : PeerEvent)
          → (handle_peer_event {R = R} c e).1 ≡ peers_changed ev ∷ []
          → locked_handle_peer_event quiet free c e ≡ done (free, (handle_peer_event {R = R} c e).0)
      ended ev called = rw called (
          rw (leaves ev (record { readers = 0; writer = true }) (handle_peer_event {R = R} c e).0)
            refl)
