-- ===== src/PeerView/Receive.antt =====
-- What each message of the hub does to a client's set of peers.
use p_and_pp.Base.{
  ℕ, ◌≡◌, ◌≢◌, ◌∙◌, String, ◌==◌, eq_iff, eq_false, Bool, true, ◌&&◌, ◌||◌, not, List, [], ◌∷◌, map,
  arith, if◌then◌else◌, Bool-cases, inl, inr,
}
use p_and_pp.Base.Results.{Result, ok, err}
use p_and_pp.GoMap.{insert, erase, has, has-insert, Keyed, insert-Keyed, erase-Keyed}
use p_and_pp.Signaling.Message
use p_and_pp.Signaling.Hub.{
  Peer, others, hub_message, registered_message, list_message, joined_message, left_message,
  not_found_message,
}
use p_and_pp.Transport
use p_and_pp.Client.{Client, receive, dispatch, handle_peer_event, add_all}
use p_and_pp.PeerView.{Wire, IsFaithful, arrives, info, transmit, read_frame}

pub add_all-Keyed :
    (ps : List Transport.PeerInfo) (m : List (String × Bool)) → Keyed m → Keyed (add_all ps m)
unfolding add_all
add_all-Keyed [] m h = h
add_all-Keyed (p ∷ ps) m h = add_all-Keyed ps (insert p.id true m) (insert-Keyed p.id true m h)

-- The list that a peer gets adds the other keys of the hub's map.
pub has-add_all-others :
    (me j : String) (ps : List (String × Peer)) (m : List (String × Bool))
    → has j (add_all (map info (others me ps)) m) ≡ (has j m || (has j ps && not (j == me)))
unfolding add_all others has
has-add_all-others me j [] m = ground arith
has-add_all-others me j ((id, p) ∷ ps) m = elim (Bool-cases (id == me)) [
  | inl same ↦
      rw same (ground (arith, has-add_all-others me j ps m, eq_iff id me, eq_iff id j, eq_iff j me))
  | inr other ↦
      rw (other, has-add_all-others me j ps (insert id true m), has-insert id j true m)
        (ground (arith, eq_iff id me, eq_iff id j, eq_iff j me))
]

-- Messages that leave the set of peers alone.
abbrev pub IsQuiet : {R : Type 0} → Message.Message R → Type 0
IsQuiet m =
    (m.type ≢ Message.peer_list) × (m.type ≢ Message.peer_joined) × (m.type ≢ Message.peer_left)

-- The ids that the hub hands out, and its errors, say nothing of peers.
pub registered_message-IsQuiet :
    {R : Type 0} (w : Wire R) (p : Peer) (t : ℕ) → IsQuiet (registered_message w.marshaler p t)
unfolding registered_message hub_message
registered_message-IsQuiet w p t = (
  λ e. ground (arith, eq_iff "peer_registered" "peer_list"),
  λ e. ground (arith, eq_iff "peer_registered" "peer_joined"),
  λ e. ground (arith, eq_iff "peer_registered" "peer_left"),
)

pub not_found_message-IsQuiet :
    {R : Type 0} (w : Wire R) (m : Message.Message R) (t : ℕ)
    → IsQuiet (not_found_message w.marshaler m t)
unfolding not_found_message hub_message
not_found_message-IsQuiet w m t = (
  λ e. ground (arith, eq_iff "error" "peer_list"),
  λ e. ground (arith, eq_iff "error" "peer_joined"),
  λ e. ground (arith, eq_iff "error" "peer_left"),
)

-- The client hears of peers.
abbrev pub IsReady : Client → Type 0
IsReady c = c.transport.has_peer_handler ≡ true

-- What a message makes of a set of peers, by its type and its decoded data.
absorb_list : Result (List Transport.PeerInfo) → List (String × Bool) → List (String × Bool)
absorb_list (ok ps) known = add_all ps known
absorb_list (err e) known = known

absorb_joined : Result Transport.PeerInfo → List (String × Bool) → List (String × Bool)
absorb_joined (ok p) known = insert p.id true known
absorb_joined (err e) known = known

absorb_left : Result Transport.PeerInfo → List (String × Bool) → List (String × Bool)
absorb_left (ok p) known = erase p.id known
absorb_left (err e) known = known

absorb_list-Keyed :
    (r : Result (List Transport.PeerInfo)) (m : List (String × Bool))
    → Keyed m
    → Keyed (absorb_list r m)
unfolding absorb_list
absorb_list-Keyed (ok ps) m h = add_all-Keyed ps m h
absorb_list-Keyed (err e) m h = h

absorb_joined-Keyed :
    (r : Result Transport.PeerInfo) (m : List (String × Bool)) → Keyed m → Keyed (absorb_joined r m)
unfolding absorb_joined
absorb_joined-Keyed (ok p) m h = insert-Keyed p.id true m h
absorb_joined-Keyed (err e) m h = h

absorb_left-Keyed :
    (r : Result Transport.PeerInfo) (m : List (String × Bool)) → Keyed m → Keyed (absorb_left r m)
unfolding absorb_left
absorb_left-Keyed (ok p) m h = erase-Keyed p.id m h
absorb_left-Keyed (err e) m h = h

module _ {R : Type 0} (w : Wire R) where
  receive-IsReady :
      (c : Client) (m : Transport.Message R)
      → IsReady c
      → IsReady (receive w.unmarshaler w.signals c m).0
  unfolding receive Transport.handle_message dispatch handle_peer_event
  receive-IsReady c m h = ground (arith, h)

  absorb : Transport.Message R → List (String × Bool) → List (String × Bool)
  absorb m known =
      if m.type == "peer_list"
      then absorb_list (w.unmarshaler.peers m.payload) known
      else if m.type == "peer_joined"
      then absorb_joined (w.unmarshaler.peer m.payload) known
      else if m.type == "peer_left"
      then absorb_left (w.unmarshaler.peer m.payload) known
      else known

  receive-absorb :
      (c : Client) (m : Transport.Message R)
      → IsReady c
      → (receive w.unmarshaler w.signals c m).0.peers ≡ absorb m c.peers
  unfolding receive Transport.handle_message dispatch handle_peer_event absorb absorb_list
      absorb_joined absorb_left
  receive-absorb c m h = ground (
    arith,
    eq_iff m.type "peer_registered",
    eq_iff m.type "peer_list",
    eq_iff m.type "peer_joined",
    eq_iff m.type "peer_left",
    eq_iff "peer_registered" "peer_list",
    eq_iff "peer_registered" "peer_joined",
    eq_iff "peer_registered" "peer_left",
  )

  absorb-Keyed :
      (m : Transport.Message R) (known : List (String × Bool))
      → Keyed known
      → Keyed (absorb m known)
  unfolding absorb
  absorb-Keyed m known h = ground (
    arith,
    absorb_list-Keyed (w.unmarshaler.peers m.payload) known,
    absorb_joined-Keyed (w.unmarshaler.peer m.payload) known,
    absorb_left-Keyed (w.unmarshaler.peer m.payload) known,
  )

  module _ (f : IsFaithful w) where
    transmit-receive :
        (c : Client) (m : Message.Message R)
        → transmit w c m ≡ (receive w.unmarshaler w.signals c (arrives m)).0
    unfolding transmit read_frame
    transmit-receive c m = let (r, e, d) = f.frames m in rw (e, transmit) (rw (d, read_frame))

    pub transmit-IsReady :
        (c : Client) (m : Message.Message R) → IsReady c → IsReady (transmit w c m)
    transmit-IsReady c m h = rw (transmit-receive c m) (receive-IsReady c (arrives m) h)

    transmit_peers :
        (c : Client) (m : Message.Message R)
        → IsReady c
        → (transmit w c m).peers ≡ absorb (arrives m) c.peers
    transmit_peers c m h = rw (transmit-receive c m) (receive-absorb c (arrives m) h)

    pub transmit-Keyed :
        (c : Client) (m : Message.Message R)
        → IsReady c
        → Keyed c.peers
        → Keyed (transmit w c m).peers
    transmit-Keyed c m h k = rw (transmit_peers c m h) (absorb-Keyed (arrives m) c.peers k)

    pub transmit_quiet :
        (c : Client) (m : Message.Message R)
        → IsReady c
        → IsQuiet m
        → (transmit w c m).peers ≡ c.peers
    unfolding absorb
    transmit_quiet c m h (l, j, g) = transmit_peers c m h ∙ same
      where
        same : absorb (arrives m) c.peers ≡ c.peers
        same = rw (
          absorb,
          eq_false m.type Message.peer_list l,
          eq_false m.type Message.peer_joined j,
          eq_false m.type Message.peer_left g,
        )

    -- The list of the peers that were there before.
    pub transmit_list :
        (c : Client) (p : Peer) (ps : List (String × Peer)) (now : ℕ)
        → IsReady c
        → (transmit w c (list_message w.marshaler p ps now)).peers
          ≡ add_all (map info (others p.id ps)) c.peers
    unfolding list_message hub_message absorb absorb_list
    transmit_list c p ps now h =
        let (r, e, d) = f.lists (others p.id ps) in
        transmit_peers c (list_message w.marshaler p ps now) h ∙ rw e (rw d)

    pub transmit_joined :
        (c : Client) (p : Peer) (now : ℕ)
        → IsReady c
        → (transmit w c (joined_message w.marshaler p now)).peers ≡ insert p.id true c.peers
    unfolding joined_message hub_message absorb absorb_joined
    transmit_joined c p now h =
        let (r, e, d) = f.infos (record { id = p.id; joined_at = p.joined_at }) in
        transmit_peers c (joined_message w.marshaler p now) h ∙ rw e (rw d)

    pub transmit_left :
        (c : Client) (p : Peer) (now : ℕ)
        → IsReady c
        → (transmit w c (left_message w.marshaler p now)).peers ≡ erase p.id c.peers
    unfolding left_message hub_message absorb absorb_left
    transmit_left c p now h =
        let (r, e, d) = f.infos (record { id = p.id; joined_at = 0 }) in
        transmit_peers c (left_message w.marshaler p now) h ∙ rw e (rw d)

    -- The same, for a departure that anyone announced.
    pub transmit_departure :
        (c : Client) (m : Message.Message R) (x : Transport.PeerInfo)
        → IsReady c
        → m.type ≡ Message.peer_left
        → w.unmarshaler.peer m.payload ≡ ok x
        → (transmit w c m).peers ≡ erase x.id c.peers
    unfolding absorb absorb_left
    transmit_departure c m x h e d = transmit_peers c m h ∙ rw e (rw d)
