-- ===== src/Signaling/Hub/Elsewhere.antt =====
-- What an event does to the entries of the map, to channels that are not in it, and to the messages in
-- any of the channels.
use p_and_pp.Base.{
  ℕ, ◌≡◌, ◌≢◌, refl, sym, ap, ◌∙◌, subst, String, ◌==◌, eq_iff, Bool, false, List, [], ◌∷◌, ◌++◌,
  Option, none, some, if◌then◌else◌, arith, nat_eq, All, All-append, Bool-cases, ◌⊎◌, inl, inr,
  done,
}
use p_and_pp.GoMap.{
  lookup, lookup-insert, lookup-erase, lookup_of_has-false, insert, erase, has, All-insert,
  All-erase, All-lookup,
}
use p_and_pp.Signaling.Message.{Message, Marshaler}
use p_and_pp.Signaling.Hub.{
  Peer, Hub, Event, Channels, register, unregister, broadcast, step, registered_message,
  list_message, joined_message, left_message, not_found_message, hub_message,
}
use p_and_pp.Signaling.Hub.Delivery.{
  reached, reached_except, Unused, Unused-reached, Unused-reached_except, spread,
}
use p_and_pp.Signaling.Hub.Invariant.{IsValid, after}
use p_and_pp.Signaling.Hub.Handlers.{
  registered, welcomed, removed, handle_register_lem, handle_unregister_lem,
  handle_unregister_unknown,
}
use p_and_pp.Signaling.Hub.Routing.{broadcast-Effect}
use p_and_pp.Signaling.Hub.Safety.{Admissible}

unknown_erased :
    (id k : String) (ps : List (String × Peer))
    → has id ps ≡ false
    → lookup k ps ≡ (if id == k then none else lookup k ps)
unknown_erased id k ps gone = elim (Bool-cases (id == k)) [
  | inl same ↦
      let at_k : lookup k ps ≡ none =
        ap (λ x. lookup x ps) (sym ((eq_iff id k).0 same)) ∙ lookup_of_has-false id ps gone in
      rw same at_k
  | inr other ↦ rw other
]

module _ {R : Type 0} where
  -- The entry for a key after an event, from the entry before it.
  abbrev pub lookup_after : Event R → String → Option Peer → Option Peer
  lookup_after (register p a b c) k found = if p.id == k then some p else found
  lookup_after (unregister p a) k found = if p.id == k then none else found
  lookup_after (broadcast m a) k found = found

  -- A channel that no entry uses, and that the event does not bring in.
  abbrev pub Outside : Hub R → Event R → ℕ → Type 0
  Outside h (register p a b c) q = Unused q h.peers × (p.send ≢ q)
  Outside h (unregister p a) q = Unused q h.peers
  Outside h (broadcast m a) q = Unused q h.peers

  closed_buffer :
      (h : Hub R) (p : Peer) (q : ℕ) → (h.chans q).buffer ≡ ((removed h p).chans q).buffer
  closed_buffer h p q = ground arith

  spread_buffer :
      (hit : ℕ → Bool) (m : Message R) (c : Channels R) (q : ℕ)
      → ((spread hit m c q).buffer ≡ (c q).buffer ++ m ∷ [])
        ⊎ ((spread hit m c q).buffer ≡ (c q).buffer)
  spread_buffer hit m c q = ground arith

  spread_missed :
      (hit : ℕ → Bool) (m : Message R) (c : Channels R) (q : ℕ)
      → hit q ≡ false
      → spread hit m c q ≡ c q
  spread_missed hit m c q off = rw off

module _ {R : Type 0} (json : Marshaler R) (h h' : Hub R) (v : IsValid h) where
  -- The map after a handled event.
  pub lookup-step :
      (e : Event R)
      → Admissible h e
      → step json h e ≡ done h'
      → (k : String) → lookup k h'.peers ≡ lookup_after e k (lookup k h.peers)
  unfolding step
  lookup-step (register p a b c) n e k =
      let same : h' ≡ registered json h p a b c = cc (e, handle_register_lem json h p a b c v n) in
      ap (λ (g : Hub R). lookup k g.peers) same ∙ lookup-insert p.id k p h.peers
  lookup-step (unregister p a) (inl there) e k =
      let g : Hub R =
        after (removed h p) (λ q. reached q (erase p.id h.peers)) (left_message json p a) in
      let same : h' ≡ g = cc (e, handle_unregister_lem json h p a v there) in
      ap (λ (x : Hub R). lookup k x.peers) same ∙ lookup-erase p.id k h.peers v.keyed
  lookup-step (unregister p a) (inr gone) e k =
      let g : Hub R = after h (λ q. reached q h.peers) (left_message json p a) in
      let same : h' ≡ g = cc (e, handle_unregister_unknown json h p a v gone) in
      ap (λ (x : Hub R). lookup k x.peers) same ∙ unknown_erased p.id k h.peers gone
  lookup-step (broadcast m a) n e k = elim (broadcast-Effect json h h' m a v e) [
    | inl same ↦ ap (λ (x : Hub R). lookup k x.peers) same
    | inr (inl (hit, same, off)) ↦ ap (λ (x : Hub R). lookup k x.peers) same
    | inr (inr (hit, same, off)) ↦ ap (λ (x : Hub R). lookup k x.peers) same
  ]

  -- A channel outside of the map stays as it was.
  pub step-Outside :
      (e : Event R)
      → Admissible h e
      → step json h e ≡ done h'
      → (q : ℕ) → Outside h e q
      → h'.chans q ≡ h.chans q
  unfolding step
  step-Outside (register p a b c) n e q (u, other) =
      let same : h' ≡ registered json h p a b c = cc (e, handle_register_lem json h p a b c v n) in
      let apart : nat_eq p.send q ≡ false = ground (arith, other) in
      let not_told =
        Unused-reached_except p.id q (insert p.id p h.peers)
          (All-insert (λ e. e.1.send ≢ q) p.id p h.peers other u) in
      let first : Message R = registered_message json p a in
      let second : Message R = list_message json p (insert p.id p h.peers) b in
      ap (λ (x : Hub R). x.chans q) same
      ∙ spread_missed (λ k. reached_except p.id k (insert p.id p h.peers)) (joined_message json p c)
          (welcomed json h p a b).chans q not_told
      ∙ spread_missed (nat_eq p.send) second (spread (nat_eq p.send) first h.chans) q apart
      ∙ spread_missed (nat_eq p.send) first h.chans q apart
  step-Outside (unregister p a) (inl there) e q u =
      let g : Hub R =
        after (removed h p) (λ q. reached q (erase p.id h.peers)) (left_message json p a) in
      let same : h' ≡ g = cc (e, handle_unregister_lem json h p a v there) in
      let other = All-lookup (λ e. e.1.send ≢ q) p.id h.peers p u there in
      let apart : nat_eq p.send q ≡ false = ground (arith, other) in
      let not_told =
        Unused-reached q (erase p.id h.peers) (All-erase (λ e. e.1.send ≢ q) p.id h.peers u) in
      ap (λ (x : Hub R). x.chans q) same
      ∙ spread_missed (λ k. reached k (erase p.id h.peers)) (left_message json p a)
          (removed h p).chans q not_told
      ∙ rw apart
  step-Outside (unregister p a) (inr gone) e q u =
      let g : Hub R = after h (λ q. reached q h.peers) (left_message json p a) in
      let same : h' ≡ g = cc (e, handle_unregister_unknown json h p a v gone) in
      ap (λ (x : Hub R). x.chans q) same
      ∙ spread_missed (λ k. reached k h.peers) (left_message json p a) h.chans q
          (Unused-reached q h.peers u)
  step-Outside (broadcast m a) n e q u = elim (broadcast-Effect json h h' m a v e) [
    | inl same ↦ ap (λ (x : Hub R). x.chans q) same
    | inr (inl (hit, same, off)) ↦
        ap (λ (x : Hub R). x.chans q) same ∙ spread_missed hit m h.chans q (off q u)
    | inr (inr (hit, same, off)) ↦
        ap (λ (x : Hub R). x.chans q) same
        ∙ spread_missed hit (not_found_message json m a) h.chans q (off q u)
  ]

-- Every message that waits in some channel.
abbrev pub Waiting {ℓ} : {R : Type 0} → (Message R → Type ℓ) → Channels R → Type ℓ
Waiting P c = (q : ℕ) → All P (c q).buffer

module _ {ℓ} {R : Type 0} (P : Message R → Type ℓ) where
  pub Waiting-spread :
      (hit : ℕ → Bool) (m : Message R) (c : Channels R)
      → P m
      → Waiting P c
      → Waiting P (spread hit m c)
  Waiting-spread hit m c p w q = elim (spread_buffer hit m c q) [
    | inl more ↦ subst (All P) (sym more) (All-append P (c q).buffer (m ∷ []) (w q) (p, tt))
    | inr same ↦ subst (All P) (sym same) (w q)
  ]

  -- The message of an event is one that meets P.
  abbrev pub Brings : Event R → Type ℓ
  Brings (register p a b c) = Unit
  Brings (unregister p a) = Unit
  Brings (broadcast m a) = P m

  module _ (json : Marshaler R) (own : (m : Message R) → m.from ≡ "" → P m) (h h' : Hub R)
      (v : IsValid h) where
    -- If the hub's own messages meet P, and the message of the event, then all that wait still do.
    pub Waiting-step :
        (e : Event R)
        → Admissible h e
        → Brings e
        → step json h e ≡ done h'
        → Waiting P h.chans
        → Waiting P h'.chans
    unfolding step registered_message list_message joined_message left_message not_found_message
        hub_message
    Waiting-step (register p a b c) n g e w =
        let same : h' ≡ registered json h p a b c =
          cc (e, handle_register_lem json h p a b c v n) in
        let first : Message R = registered_message json p a in
        let second : Message R = list_message json p (insert p.id p h.peers) b in
        let third : Message R = joined_message json p c in
        subst (λ (x : Hub R). Waiting P x.chans) (sym same)
          (Waiting-spread (λ k. reached_except p.id k (insert p.id p h.peers)) third
            (welcomed json h p a b).chans (own third refl)
            (Waiting-spread (nat_eq p.send) second (spread (nat_eq p.send) first h.chans)
              (own second refl) (Waiting-spread (nat_eq p.send) first h.chans (own first refl) w)))
    Waiting-step (unregister p a) (inl there) g e w =
        let x : Hub R =
          after (removed h p) (λ q. reached q (erase p.id h.peers)) (left_message json p a) in
        let same : h' ≡ x = cc (e, handle_unregister_lem json h p a v there) in
        subst (λ (x : Hub R). Waiting P x.chans) (sym same)
          (Waiting-spread (λ k. reached k (erase p.id h.peers)) (left_message json p a)
            (removed h p).chans (own (left_message json p a) refl)
            (λ q. subst (All P) (closed_buffer h p q) (w q)))
    Waiting-step (unregister p a) (inr gone) g e w =
        let x : Hub R = after h (λ q. reached q h.peers) (left_message json p a) in
        let same : h' ≡ x = cc (e, handle_unregister_unknown json h p a v gone) in
        subst (λ (x : Hub R). Waiting P x.chans) (sym same)
          (Waiting-spread (λ k. reached k h.peers) (left_message json p a) h.chans
            (own (left_message json p a) refl) w)
    Waiting-step (broadcast m a) n g e w = elim (broadcast-Effect json h h' m a v e) [
      | inl same ↦ subst (λ (x : Hub R). Waiting P x.chans) (sym same) w
      | inr (inl (hit, same, off)) ↦
          subst (λ (x : Hub R). Waiting P x.chans) (sym same) (Waiting-spread hit m h.chans g w)
      | inr (inr (hit, same, off)) ↦
          subst (λ (x : Hub R). Waiting P x.chans) (sym same)
            (Waiting-spread hit (not_found_message json m a) h.chans
              (own (not_found_message json m a) refl) w)
    ]
