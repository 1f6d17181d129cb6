-- ===== src/Signaling/Hub/Delivery.antt =====
-- The two loops that hand a message to many peers: what they do to every channel.
use p_and_pp.Base.{
  ℕ, ◌≤◌, ◌≡◌, ◌≢◌, refl, ap, fun_ext, String, ◌==◌, Bool, true, false, ◌||◌, List, [], ◌∷◌, arith,
  if◌then◌else◌, nat_eq, length, length-append, All, Bool-cases, done, inl, inr,
}
use p_and_pp.Channel.{Chan, has_room, push, offer, send}
use p_and_pp.Signaling.Message.{Message}
use p_and_pp.Signaling.Hub.{Peer, Channels, deliver_all, deliver_others}

-- Whether an entry of the list sends on the channel.
unfoldable pub reached : ℕ → List (String × Peer) → Bool
reached r [] = false
reached r ((id, p) ∷ ps) = nat_eq p.send r || reached r ps

-- The same, for the entries with another key.
unfoldable pub reached_except : String → ℕ → List (String × Peer) → Bool
reached_except ex r [] = false
reached_except ex r ((id, p) ∷ ps) =
    (if id == ex then false else nat_eq p.send r) || reached_except ex r ps

abbrev pub Unused : ℕ → List (String × Peer) → Type 0
Unused r = All (λ e. e.1.send ≢ r)

-- No two entries share a channel.
abbrev pub Apart : List (String × Peer) → Type 0
Apart [] = Unit {0}
Apart ((id, p) ∷ ps) = Unused p.send ps × Apart ps

pub Unused-reached : (r : ℕ) (ps : List (String × Peer)) → Unused r ps → reached r ps ≡ false
unfolding reached
Unused-reached r [] u = refl
Unused-reached r ((id, p) ∷ ps) u = ground (arith, Unused-reached r ps u.1)

pub Unused-reached_except :
    (ex : String) (r : ℕ) (ps : List (String × Peer)) → Unused r ps → reached_except ex r ps ≡ false
unfolding reached_except
Unused-reached_except ex r [] u = refl
Unused-reached_except ex r ((id, p) ∷ ps) u = ground (arith, Unused-reached_except ex r ps u.1)

reached_apart :
    (r : ℕ) (ps : List (String × Peer))
    → Unused r ps
    → (q : ℕ) → nat_eq r q ≡ true
    → reached q ps ≡ false
reached_apart r ps u q e = ground (arith, Unused-reached r ps u)

reached_except_apart :
    (ex : String) (r : ℕ) (ps : List (String × Peer))
    → Unused r ps
    → (q : ℕ) → nat_eq r q ≡ true
    → reached_except ex q ps ≡ false
reached_except_apart ex r ps u q e = ground (arith, Unused-reached_except ex r ps u)

module _ {R : Type 0} where
  abbrev pub Open : Channels R → List (String × Peer) → Type 0
  Open c = All (λ e. (c e.1.send).closed ≡ false)

  -- A channel that takes the message if it has room.
  abbrev pub accept : Message R → Chan (Message R) → Chan (Message R)
  accept m c = if has_room c then push m c else c

  abbrev pub spread : (ℕ → Bool) → Message R → Channels R → Channels R
  spread hit m c q = if hit q then accept m (c q) else c q

  pub accept-closed : (m : Message R) (c : Chan (Message R)) → (accept m c).closed ≡ c.closed
  accept-closed m c = ground arith

  pub accept_fits :
      (m : Message R) (c : Chan (Message R))
      → length c.buffer ≤ c.capacity
      → length (accept m c).buffer ≤ (accept m c).capacity
  accept_fits m c h = ground (arith, length-append {0} c.buffer (m ∷ []))

  pub offer_open :
      (r : ℕ) (m : Message R) (c : Channels R)
      → (c r).closed ≡ false
      → offer r m c ≡ done (spread (nat_eq r) m c)
  unfolding offer
  offer_open r m c h = elim (Bool-cases (has_room (c r))) [
    | inl room ↦ rw (h, room) (ap done (fun_ext (λ q. ground arith)))
    | inr full ↦ rw (h, full) (ap done (fun_ext (λ q. ground arith)))
  ]

  pub send_open :
      (r : ℕ) (m : Message R) (c : Channels R)
      → (c r).closed ≡ false
      → has_room (c r) ≡ true
      → send r m c ≡ done (spread (nat_eq r) m c)
  unfolding send
  send_open r m c h room = rw (h, room) (ap done (fun_ext (λ q. ground arith)))

  -- A spread leaves a channel that it does not hit.
  pub spread-Open :
      (hit : ℕ → Bool) (m : Message R) (c : Channels R) (ps : List (String × Peer))
      → Open c ps
      → Open (spread hit m c) ps
  spread-Open hit m c [] o = tt
  spread-Open hit m c ((id, p) ∷ ps) o = (ground arith, spread-Open hit m c ps o.1)

  -- Two spreads of one message over disjoint sets are one.
  spread-spread :
      (f g : ℕ → Bool) (m : Message R) (c : Channels R)
      → ((q : ℕ) → f q ≡ true → g q ≡ false)
      → spread g m (spread f m c) ≡ spread (λ q. f q || g q) m c
  spread-spread f g m c apart = fun_ext (λ q. ground (arith, apart q))

  -- The loop of `broadcastToAll` puts the message once into every channel that has room.
  pub deliver_all_lem :
      (ps : List (String × Peer)) (m : Message R) (c : Channels R)
      → Open c ps
      → Apart ps
      → deliver_all ps m c ≡ done (spread (λ q. reached q ps) m c)
  unfolding deliver_all reached
  deliver_all_lem [] m c o a = refl
  deliver_all_lem ((id, p) ∷ ps) m c o a =
      rw
        (
          offer_open p.send m c o.0,
          deliver_all_lem ps m (spread (nat_eq p.send) m c) (spread-Open _ m c ps o.1) a.1,
        )
        (ap done
          (spread-spread (nat_eq p.send) (λ q. reached q ps) m c (reached_apart p.send ps a.0)))

  -- The loop of `broadcastToOthers` does so for every entry but the excluded one.
  pub deliver_others_lem :
      (ex : String) (ps : List (String × Peer)) (m : Message R) (c : Channels R)
      → Open c ps
      → Apart ps
      → deliver_others ex ps m c ≡ done (spread (λ q. reached_except ex q ps) m c)
  unfolding deliver_others reached_except
  deliver_others_lem ex [] m c o a = refl
  deliver_others_lem ex ((id, p) ∷ ps) m c o a = elim (Bool-cases (id == ex)) [
    | inl skip ↦ rw skip (deliver_others_lem ex ps m c o.1 a.1)
    | inr keep ↦
        rw
          (
            keep,
            offer_open p.send m c o.0,
            deliver_others_lem ex ps m (spread (nat_eq p.send) m c) (spread-Open _ m c ps o.1) a.1,
          )
          (ap done (
            spread-spread (nat_eq p.send) (λ q. reached_except ex q ps) m c
              (reached_except_apart ex p.send ps a.0)))
  ]
