-- ===== src/Signaling/Hub/Resume.antt =====
-- The event loop after it was blocked: the sender's write pump lets it go on.
use p_and_pp.Base.{
  ℕ, ◌<◌, ◌≡◌, ◌≢◌, ap, ◌∙◌, none, some, List, [], ◌∷◌, ◌++◌, arith, length, done, nat_eq,
}
use p_and_pp.GoMap.{lookup}
use p_and_pp.Signaling.Message.{Message, Marshaler}
use p_and_pp.Signaling.Hub.{Peer, Hub, broadcast, not_found_message, step}
use p_and_pp.Signaling.Hub.Invariant.{IsValid, after}
use p_and_pp.Signaling.Hub.Routing.{handle_broadcast_missing, reject_answered}
use p_and_pp.Signaling.Hub.Drain.{taken, taken-IsValid, taken_self}
use p_and_pp.PeerView.Sync.{spread_hit, self_eq}

module _ {R : Type 0} (json : Marshaler R) where
  one_room :
      (h : Hub R) (r : ℕ) (xs : List (Message R))
      → length ((taken h r xs).chans r).buffer < (h.chans r).capacity
      → length ((taken h r xs).chans r).buffer < ((taken h r xs).chans r).capacity
  one_room h r xs room = ground (arith, room)

  -- On a valid hub, take a message with a target that is not in the map, from a registered sender with
  -- messages in its buffer, be it full or not. Once the sender's write pump has taken one message off
  -- the buffer, the event is handled to its end, and the error waits behind the rest.
  pub taken_resumes :
      (h : Hub R) (m : Message R) (a : ℕ) (s : Peer) (x : Message R) (xs : List (Message R))
      → IsValid h
      → m.to ≢ ""
      → lookup m.to h.peers ≡ none
      → lookup m.from h.peers ≡ some s
      → (h.chans s.send).buffer ≡ x ∷ xs
      → (h' : Hub R) × (step json (taken h s.send xs) (broadcast m a) ≡ done h')
        × ((h'.chans s.send).buffer ≡ xs ++ not_found_message json m a ∷ [])
  unfolding step
  taken_resumes h m a s x xs v named nobody sender full =
      let v' = taken-IsValid h s.send x xs full v in
      let room : length ((taken h s.send xs).chans s.send).buffer < (h.chans s.send).capacity =
        ground (arith, v.bounded s.send, full) in
      let error = not_found_message json m a in
      (
        after (taken h s.send xs) (nat_eq s.send) error,
        handle_broadcast_missing json (taken h s.send xs) m a named nobody
            ∙ reject_answered json (taken h s.send xs) m s a v' sender (one_room h s.send xs room),
        spread_hit (nat_eq s.send) error (taken h s.send xs).chans s.send (self_eq s.send)
              (one_room h s.send xs room)
            ∙ ap (λ b. b ++ error ∷ []) (taken_self h s.send xs),
      )
