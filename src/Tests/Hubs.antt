-- ===== src/Tests/Hubs.antt =====
-- The hub's theorems at the sample hub.
use mathlib.Core.List.{Permᴰ}
use p_and_pp.Base.{
  ◌≡◌, ◌≢◌, refl, String, List, [], ◌∷◌, ◌++◌, none, some, arith, eq_iff, done, blocked, ◌⊎◌,
  nat_eq,
}
use p_and_pp.GoMap.{lookup, has, erase}
use p_and_pp.Signaling.Message.{Message}
use p_and_pp.Signaling.Hub.{
  Hub, broadcast, step, handle_unregister, handle_broadcast, deliver_all, left_message,
  not_found_message,
}
use p_and_pp.Signaling.Hub.Delivery.{reached}
use p_and_pp.Signaling.Hub.Order.{deliver_all-perm}
use p_and_pp.Signaling.Hub.Invariant.{IsValid, IsNew, after}
use p_and_pp.Signaling.Hub.Handlers.{removed, handle_unregister_lem}
use p_and_pp.Signaling.Hub.Routing.{handle_broadcast_found}
use p_and_pp.Signaling.Hub.Safety.{Stalls, step-IsSafe, step-Stalls}
use p_and_pp.Signaling.Hub.Drain.{taken}
use p_and_pp.Signaling.Hub.Resume.{taken_resumes}
use p_and_pp.Tests.Samples.{Doc, write_docs, alice, bob, carol, channel, pair, message}

pub alice_ne_bob : ◌≢◌ {A = String} "bob" "alice"
alice_ne_bob e = ground (arith, eq_iff "bob" "alice")

pub pair-IsValid : IsValid pair
pair-IsValid = record {
  keyed = ((alice_ne_bob, tt), (tt, tt));
  named = (refl, (refl, tt));
  live = (refl, (refl, tt));
  apart = ((λ e. omega arith, tt), (tt, tt));
  bounded = λ r. omega arith;
}

pub carol-IsNew : IsNew pair carol
unfolding has
carol-IsNew = record {
  unknown = refl;
  unused = (λ e. omega arith, (λ e. omega arith, tt));
  opened = refl;
  room = omega arith;
}

pub found_bob : lookup "bob" pair.peers ≡ some bob
unfolding lookup
found_bob = refl

handle_unregister_example :
    handle_unregister write_docs pair bob 1
    ≡ done (
        after
          (removed pair bob)
          (λ q. reached q (erase "bob" pair.peers))
          (left_message write_docs bob 1))
handle_unregister_example = handle_unregister_lem write_docs pair bob 1 pair-IsValid found_bob

pub not_empty : ◌≢◌ {A = String} "bob" ""
not_empty e = ground (arith, eq_iff "bob" "")

handle_broadcast_example :
    handle_broadcast write_docs pair (message "signal" "alice" "bob") 5
    ≡ done (after pair (nat_eq 1) (message "signal" "alice" "bob"))
handle_broadcast_example =
    handle_broadcast_found write_docs pair (message "signal" "alice" "bob") bob 5 pair-IsValid
      not_empty found_bob

step-IsSafe_example :
    ((h' : Hub Doc) × (step write_docs pair (broadcast (message "signal" "alice" "dave") 5)
        ≡ done h')
      × IsValid h')
    ⊎ ((step write_docs pair (broadcast (message "signal" "alice" "dave") 5) ≡ blocked)
        × Stalls pair (broadcast (message "signal" "alice" "dave") 5))
step-IsSafe_example =
    step-IsSafe write_docs pair (broadcast (message "signal" "alice" "dave") 5) pair-IsValid tt

-- Alice's buffer is full.
abbrev full : List (Message Doc)
full =
    message "signal" "bob" "alice"
    ∷ message "signal" "bob" "alice"
    ∷ message "signal" "bob" "alice"
    ∷ message "signal" "bob" "alice"
    ∷ []

abbrev crowded : Hub Doc
crowded = record pair { chans = λ r. channel full }

crowded-IsValid : IsValid crowded
crowded-IsValid = record {
  keyed = ((alice_ne_bob, tt), (tt, tt));
  named = (refl, (refl, tt));
  live = (refl, (refl, tt));
  apart = ((λ e. omega arith, tt), (tt, tt));
  bounded = λ r. omega arith;
}

to_dave : ◌≢◌ {A = String} "dave" ""
to_dave e = ground (arith, eq_iff "dave" "")

crowded-Stalls : Stalls crowded (broadcast (message "signal" "alice" "dave") 5)
unfolding lookup
crowded-Stalls = (to_dave, refl, (alice, refl, omega arith))

step-Stalls_example :
    step write_docs crowded (broadcast (message "signal" "alice" "dave") 5) ≡ blocked
step-Stalls_example =
    step-Stalls write_docs crowded (broadcast (message "signal" "alice" "dave") 5) crowded-IsValid
      crowded-Stalls

-- The rest of Alice's buffer.
abbrev rest : List (Message Doc)
rest =
    message "signal" "bob" "alice"
    ∷ message "signal" "bob" "alice"
    ∷ message "signal" "bob" "alice"
    ∷ []

no_dave : lookup "dave" crowded.peers ≡ none
unfolding lookup
no_dave = refl

found_alice : lookup "alice" crowded.peers ≡ some alice
unfolding lookup
found_alice = refl

taken_resumes_example :
    (h' : Hub Doc) × (step write_docs
        (taken crowded 0 rest)
        (broadcast (message "signal" "alice" "dave") 5)
      ≡ done h')
    × ((h'.chans 0).buffer
        ≡ rest ++ not_found_message write_docs (message "signal" "alice" "dave") 5 ∷ [])
taken_resumes_example =
    taken_resumes write_docs crowded (message "signal" "alice" "dave") 5 alice
      (message "signal" "bob" "alice") rest crowded-IsValid to_dave no_dave found_alice refl

deliver_all-perm_example :
    deliver_all (("bob", bob) ∷ ("alice", alice) ∷ []) (message "signal" "carol" "") pair.chans
    ≡ deliver_all (("alice", alice) ∷ ("bob", bob) ∷ []) (message "signal" "carol" "") pair.chans
deliver_all-perm_example =
    deliver_all-perm (message "signal" "carol" "") pair.chans (Permᴰ.swap refl refl)
      pair-IsValid.live pair-IsValid.apart
