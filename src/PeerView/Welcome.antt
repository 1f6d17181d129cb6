-- ===== src/PeerView/Welcome.antt =====
-- What a registration tells, as it is read from the documents: to the new peer, to the others, and to
-- nobody else.
use p_and_pp.Base.{
  ℕ, ◌<◌, ◌≡◌, ◌≢◌, refl, sym, ap, ◌∙◌, subst, String, eq_false, true, false, List, [], ◌∷◌, ◌++◌,
  some, arith, nat_eq, length, length-append, map, ℕ_discrete, Bool-cases, ◌⊎◌, inl, inr, done,
}
use p_and_pp.Base.Results.{ok}
use p_and_pp.GoMap.{lookup, insert, has, has_of_lookup, lookup-insert, All-lookup, All-insert}
use p_and_pp.Channel.{Chan}
use p_and_pp.Signaling.Message
use p_and_pp.Signaling.Hub.{
  Peer, Hub, Channels, others, hub_message, registered_message, list_message, joined_message,
  handle_register,
}
use p_and_pp.Signaling.Hub.Delivery.{reached, reached_except, accept, Unused, Unused-reached_except}
use p_and_pp.Signaling.Hub.Invariant.{IsValid, IsNew, after}
use p_and_pp.Signaling.Hub.Handlers.{entered, welcomed, registered, handle_register_lem}
use p_and_pp.Signaling.Room.{Lists}
use p_and_pp.Signaling.Room.Views.{view}
use p_and_pp.Signaling.Room.Refines.{new_Lists}
use p_and_pp.PeerView.{Wire, IsFaithful, info}
use p_and_pp.PeerView.Sync.{
  reached_except-lookup, reached_except-insert, self_eq, spread_off, spread_hit, spread_miss,
}

not_reached-Unused : (r : ℕ) (ps : List (String × Peer)) → reached r ps ≡ false → Unused r ps
unfolding reached
not_reached-Unused r [] e = tt
not_reached-Unused r ((id, p) ∷ ps) e =
    (λ s. ground (arith, e, s), not_reached-Unused r ps (ground (arith, e)))

module _ {R : Type 0} (w : Wire R) where
  -- A message of the hub's own, of a type and a time, whose payload is a document.
  abbrev pub Says : Message.Message R → Message.MessageType → ℕ → R → Type 0
  Says m type now doc =
      (m.type ≡ type) × (m.timestamp ≡ now) × (m.from ≡ "") × (m.to ≡ "") × (m.payload ≡ doc)

  -- The new peer's channel takes two messages.
  own_buffer :
      (h : Hub R) (p : Peer) (a b c : ℕ)
      → IsNew h p
      → ((registered w.marshaler h p a b c).chans p.send).buffer
        ≡ ((h.chans p.send).buffer ++ registered_message w.marshaler p a ∷ [])
          ++ list_message w.marshaler p (insert p.id p h.peers) b ∷ []
  own_buffer h p a b c n =
      ap (λ (d : Chan (Message.Message R)). d.buffer)
        (spread_off (λ q. reached_except p.id q (insert p.id p h.peers))
          (joined_message w.marshaler p c) (welcomed w.marshaler h p a b).chans p.send
          (reached_except-insert p.id p h.peers n.unknown n.unused))
      ∙ (spread_hit (nat_eq p.send) second one p.send (self_eq p.send) one_room
          ∙ rw one_buffer refl)
    where
      first : Message.Message R
      first = registered_message w.marshaler p a

      second : Message.Message R
      second = list_message w.marshaler p (insert p.id p h.peers) b

      one : Channels R
      one = (after (entered h p) (nat_eq p.send) first).chans

      one_buffer : (one p.send).buffer ≡ (h.chans p.send).buffer ++ first ∷ []
      one_buffer =
          spread_hit (nat_eq p.send) first h.chans p.send (self_eq p.send) (omega (arith, n.room))

      one_room : length (one p.send).buffer < (one p.send).capacity
      one_room = rw one_buffer (
          ground
            (arith, n.room, self_eq p.send, length-append {0} (h.chans p.send).buffer (first ∷ [])))

  -- Another channel is not touched by the two messages for the new peer.
  welcomed_other :
      (h : Hub R) (p : Peer) (a b r : ℕ)
      → p.send ≢ r
      → (welcomed w.marshaler h p a b).chans r ≡ h.chans r
  welcomed_other h p a b r n =
      spread_miss p.send (list_message w.marshaler p (insert p.id p h.peers) b)
        (after (entered h p) (nat_eq p.send) (registered_message w.marshaler p a)).chans r n
      ∙ spread_miss p.send (registered_message w.marshaler p a) h.chans r n

  -- A peer that was there takes the arrival, if it has room.
  other_channel :
      (h : Hub R) (p q : Peer) (k : String) (a b c : ℕ)
      → IsNew h p
      → lookup k h.peers ≡ some q
      → (registered w.marshaler h p a b c).chans q.send
        ≡ accept (joined_message w.marshaler p c) (h.chans q.send)
  other_channel h p q k a b c n there =
      let strange : k ≢ p.id = λ e.
        let known : has p.id h.peers ≡ true =
          subst (λ j. has j h.peers ≡ true) e (has_of_lookup k h.peers there) in
        cc (known, n.unknown) in
      let apart : p.send ≢ q.send =
        λ e. All-lookup (λ e. e.1.send ≢ p.send) k h.peers q n.unused there (sym e) in
      let found : lookup k (insert p.id p h.peers) ≡ some q =
        lookup-insert p.id k p h.peers ∙ rw (eq_false p.id k (λ e. strange (sym e))) there in
      let hit = reached_except-lookup p.id k (insert p.id p h.peers) q strange found in
      rw (hit, welcomed_other h p a b q.send apart) refl

  -- No other channel changes.
  quiet_channel :
      (h : Hub R) (p : Peer) (a b c r : ℕ)
      → p.send ≢ r
      → Unused r h.peers
      → (registered w.marshaler h p a b c).chans r ≡ h.chans r
  quiet_channel h p a b c r apart unused =
      let missed =
        Unused-reached_except p.id r (insert p.id p h.peers)
          (All-insert (λ e. e.1.send ≢ r) p.id p h.peers apart unused) in
      rw (missed, welcomed_other h p a b r apart) refl

  untouched :
      (h : Hub R) (p : Peer) (a b c r : ℕ)
      → (p.send ≡ r)
        ⊎ ((reached r h.peers ≡ true) ⊎ ((registered w.marshaler h p a b c).chans r ≡ h.chans r))
  untouched h p a b c r = elim (ℕ_discrete p.send r) [
    | yes e ↦ inl e
    | no n ↦ elim (Bool-cases (reached r h.peers)) [
      | inl e ↦ inr (inl e)
      | inr e ↦ inr (inr (quiet_channel h p a b c r n (not_reached-Unused r h.peers e)))
    ]
  ]

  -- With a faithful encoding, on a valid hub, for a peer `p` whose id is not in the map and whose channel is
  -- open, has room for two messages and is nobody else's, and any registered peer `q`: registering `p`
  -- ends. It is in the map, and its channel takes two messages: one from which the client reads the id of
  -- `p`, and then one from which it reads, in some order and each once, all peers that were in the map, with
  -- their times of joining. The channel of `q` takes, if it has room, a message from which a client reads the
  -- id and the time of `p`. The channels of no others change.
  pub new_peer_told :
      (h : Hub R) (p q : Peer) (k : String) (a b c : ℕ)
      → IsFaithful w
      → IsValid h
      → IsNew h p
      → lookup k h.peers ≡ some q
      → (h' : Hub R) × (m₁ m₂ m₃ : Message.Message R) × (d₁ d₂ d₃ : R) × (xs : List
          Message.PeerInfo)
        × (handle_register w.marshaler h p a b c ≡ done h')
        × (h'.peers ≡ insert p.id p h.peers)
        × ((h'.chans p.send).buffer ≡ ((h.chans p.send).buffer ++ m₁ ∷ []) ++ m₂ ∷ [])
        × Says m₁ Message.peer_registered a d₁
        × (w.unmarshaler.peer_id d₁ ≡ ok p.id)
        × Says m₂ Message.peer_list b d₂
        × (w.unmarshaler.peers d₂ ≡ ok (map info xs))
        × Lists (view h) p.id xs
        × (h'.chans q.send ≡ accept m₃ (h.chans q.send))
        × Says m₃ Message.peer_joined c d₃
        × (w.unmarshaler.peer d₃ ≡ ok (record { id = p.id; joined_at = p.joined_at }))
        × ((r : ℕ) → (p.send ≡ r) ⊎ ((reached r h.peers ≡ true) ⊎ (h'.chans r ≡ h.chans r)))
  unfolding registered_message list_message joined_message hub_message p_and_pp.Signaling.Hub.must
  new_peer_told h p q k a b c f v n there =
      let (d₁, made₁, read₁) = f.ids p.id in
      let xs = others p.id (insert p.id p h.peers) in
      let (d₂, made₂, read₂) = f.lists xs in
      let (d₃, made₃, read₃) = f.infos (record { id = p.id; joined_at = p.joined_at }) in
      (
        registered w.marshaler h p a b c,
        registered_message w.marshaler p a,
        list_message w.marshaler p (insert p.id p h.peers) b,
        joined_message w.marshaler p c,
        d₁,
        d₂,
        d₃,
        xs,
        handle_register_lem w.marshaler h p a b c v n,
        refl,
        own_buffer h p a b c n,
        (refl, refl, refl, refl, rw made₁ refl),
        read₁,
        (refl, refl, refl, refl, rw made₂ refl),
        read₂,
        new_Lists w.marshaler h p v n,
        other_channel h p q k a b c n there,
        (refl, refl, refl, refl, rw made₃ refl),
        read₃,
        untouched h p a b c,
      )
