-- ===== src/Tests/Locks.antt =====
-- An arrival, at a client whose application asks for the peers.
use p_and_pp.Base.{◌≡◌, refl, true, inl, done, blocked}
use p_and_pp.Transport
use p_and_pp.Client.{connect, on_peer_event, handle_peer_event}
use p_and_pp.Client.Locking.{
  PeerHandler, asks_peers, free, locked_handle_peer_event, peers_in_handler,
}
use p_and_pp.Tests.Samples.{Doc}

abbrev event : Transport.PeerEvent
event = Transport.joined_event (record { id = "bob"; joined_at = 7 })

abbrev quiet : PeerHandler
quiet e m c = done m

listens : (on_peer_event connect).has_peer_handler ≡ true
unfolding on_peer_event
listens = refl

peers_in_handler_example :
    (locked_handle_peer_event Doc asks_peers free (on_peer_event connect) event ≡ blocked)
    × (locked_handle_peer_event Doc quiet free (on_peer_event connect) event
        ≡ done (free, (handle_peer_event {R = Doc} (on_peer_event connect) event).0))
peers_in_handler_example =
    peers_in_handler Doc free (on_peer_event connect) event quiet listens (inl refl)
      (λ ev m c. refl)
