-- ===== src/Signaling/Hub/Handlers.antt =====
-- What `handleRegister` and `handleUnregister` make of a valid hub, as one equation each.
use p_and_pp.Base.{
  ℕ, ◌+◌, ◌≤◌, ◌<◌, ◌≡◌, refl, true, false, [], ◌∷◌, some, arith, nat_eq, length, length-append,
  done,
}
use p_and_pp.GoMap.{
  lookup, insert, erase, has, insert-Keyed, erase-Keyed, All-insert, All-erase, All-lookup,
  has_of_lookup,
}
use p_and_pp.Channel.{put, close}
use p_and_pp.Signaling.Message.{Message, Marshaler}
use p_and_pp.Signaling.Hub.{
  Peer, Hub, Channels, registered_message, list_message, joined_message, left_message,
  handle_register, remove_peer, handle_unregister,
}
use p_and_pp.Signaling.Hub.Delivery.{reached, reached_except, spread}
use p_and_pp.Signaling.Hub.Invariant.{
  IsValid, IsNew, Apart-insert, Apart-erase, Unused-erase, Open-put, after, after-IsValid,
  broadcast_to_all_lem, broadcast_to_others_lem, send_to_lem,
}

module _ {R : Type 0} where
  -- `h.peers[peer.ID] = peer`
  abbrev pub entered : Hub R → Peer → Hub R
  entered h p = record h { peers = insert p.id p h.peers }

  pub entered-IsValid : (h : Hub R) (p : Peer) → IsValid h → IsNew h p → IsValid (entered h p)
  entered-IsValid h p v n = record {
    keyed = insert-Keyed p.id p h.peers v.keyed;
    named = All-insert (λ e. e.1.id ≡ e.0) p.id p h.peers refl v.named;
    live = All-insert (λ e. (h.chans e.1.send).closed ≡ false) p.id p h.peers n.opened v.live;
    apart = Apart-insert p.id p h.peers n.unknown n.unused v.apart;
    bounded = v.bounded;
  }

  -- The entry is deleted and the channel closed.
  abbrev pub removed : Hub R → Peer → Hub R
  removed h p = record {
    peers = erase p.id h.peers;
    chans = put h.chans p.send (record (h.chans p.send) { closed = true });
  }

  pub removed-IsValid :
      (h : Hub R) (p : Peer) → IsValid h → lookup p.id h.peers ≡ some p → IsValid (removed h p)
  removed-IsValid h p v e = record {
    keyed = erase-Keyed p.id h.peers v.keyed;
    named = All-erase (λ e. e.1.id ≡ e.0) p.id h.peers v.named;
    live =
        Open-put h.chans p.send _ (erase p.id h.peers) (Unused-erase p.id h.peers p v.apart e)
          (All-erase (λ e. (h.chans e.1.send).closed ≡ false) p.id h.peers v.live);
    apart = Apart-erase p.id h.peers v.apart;
    bounded = λ r. ground (arith, v.bounded r);
  }

  after-room :
      (c : Channels R) (r : ℕ) (m : Message R)
      → length (c r).buffer + 2 ≤ (c r).capacity
      → (c r).closed ≡ false
      → (length (spread (nat_eq r) m c r).buffer < (spread (nat_eq r) m c r).capacity)
        × ((spread (nat_eq r) m c r).closed ≡ false)
  after-room c r m h o = ground (arith, length-append {0} (c r).buffer (m ∷ []))

module _ {R : Type 0} (json : Marshaler R) where
  -- The peer's own channel with the two messages of its registration.
  abbrev pub welcomed : Hub R → Peer → ℕ → ℕ → Hub R
  welcomed h p now₁ now₂ =
      after (after (entered h p) (nat_eq p.send) (registered_message json p now₁)) (nat_eq p.send)
        (list_message json p (insert p.id p h.peers) now₂)

  abbrev pub registered : Hub R → Peer → ℕ → ℕ → ℕ → Hub R
  registered h p now₁ now₂ now₃ =
      after (welcomed h p now₁ now₂) (λ q. reached_except p.id q (insert p.id p h.peers))
        (joined_message json p now₃)

  pub welcomed-IsValid :
      (h : Hub R) (p : Peer) (a b : ℕ) → IsValid h → IsNew h p → IsValid (welcomed h p a b)
  welcomed-IsValid h p a b v n =
      after-IsValid (after (entered h p) (nat_eq p.send) (registered_message json p a))
        (nat_eq p.send) (list_message json p (insert p.id p h.peers) b)
        (after-IsValid (entered h p) (nat_eq p.send) (registered_message json p a)
          (entered-IsValid h p v n))

  -- On a valid hub, for a peer whose id is not in the map and whose channel is open, has room for two
  -- messages and is nobody else's: registering it ends; it is in the map, its channel takes its id and
  -- then the list of the others, and each other peer with room in its buffer gets its arrival.
  pub handle_register_lem :
      (h : Hub R) (p : Peer) (a b c : ℕ)
      → IsValid h
      → IsNew h p
      → handle_register json h p a b c ≡ done (registered h p a b c)
  unfolding handle_register
  handle_register_lem h p a b c v n =
      let first = registered_message json p a in
      let (room, open_still) = after-room h.chans p.send first n.room n.opened in
      rw
        (
          send_to_lem (entered h p) p.send first n.opened (omega (arith, n.room)),
          send_to_lem (after (entered h p) (nat_eq p.send) first) p.send
              (list_message json p (insert p.id p h.peers) b) open_still room,
        )
        (broadcast_to_others_lem (welcomed h p a b) (joined_message json p c) p.id
          (welcomed-IsValid h p a b v n))

  pub remove_peer_lem :
      (h : Hub R) (p : Peer)
      → IsValid h
      → lookup p.id h.peers ≡ some p
      → remove_peer json h p ≡ done (removed h p)
  unfolding remove_peer close
  remove_peer_lem h p v e = rw (
    has_of_lookup p.id h.peers e,
    All-lookup (λ e. (h.chans e.1.send).closed ≡ false) p.id h.peers p v.live e,
  )

  -- On a valid hub, unregistering a peer of the map ends: the peer is out of the map, its channel is
  -- closed, and each peer that stays and has room in its buffer gets the departure; no other channel
  -- changes.
  pub handle_unregister_lem :
      (h : Hub R) (p : Peer) (a : ℕ)
      → IsValid h
      → lookup p.id h.peers ≡ some p
      → handle_unregister json h p a
        ≡ done (after (removed h p) (λ q. reached q (erase p.id h.peers)) (left_message json p a))
  unfolding handle_unregister
  handle_unregister_lem h p a v e =
      rw (remove_peer_lem h p v e)
        (broadcast_to_all_lem (removed h p) (left_message json p a) (removed-IsValid h p v e))

  -- A peer that is not in the map is announced as gone all the same, and nothing else changes.
  pub handle_unregister_unknown :
      (h : Hub R) (p : Peer) (a : ℕ)
      → IsValid h
      → has p.id h.peers ≡ false
      → handle_unregister json h p a
        ≡ done (after h (λ q. reached q h.peers) (left_message json p a))
  unfolding handle_unregister remove_peer
  handle_unregister_unknown h p a v e = rw e (broadcast_to_all_lem h (left_message json p a) v)
