-- ===== src/App/Ways.antt =====
-- The way of an offer, an answer and a candidate from one client's senders to the other client.
use p_and_pp.Base.{ℕ, ◌<◌, ◌≡◌, ◌≢◌, refl, sym, true, some, length, nat_eq}
use p_and_pp.Base.Results.{Result, ok, RoundTrips}
use p_and_pp.GoMap.{lookup}
use p_and_pp.Sdp.{
  SessionDescription, Signal, envelope, type_ice, session_to_signal, parse_session_description,
}
use p_and_pp.Signaling.Message
use p_and_pp.Signaling.Hub.{Peer, Hub}
use p_and_pp.Signaling.Hub.Invariant.{IsValid, after, send-ne}
use p_and_pp.Transport
use p_and_pp.Client.{Client, IceCandidateMsg, send_offer, send_answer, send_ice_candidate_json}
use p_and_pp.PeerView.{Wire, IsFaithful}
use p_and_pp.PeerView.Sync.{spread_miss}
use p_and_pp.PeerView.Signals.{IsRead, Listens, Arrival, signal_arrives}
use p_and_pp.Ice.Candidate.{Candidate}
use p_and_pp.App.{Codecs}

module _ {R : Type 0} (w : Wire R) (codecs : Codecs R)
    (decode : R → Result (Message.Message R)) where
  -- The wire, with the client's encoding of signals.
  abbrev pub wired : Wire R
  wired = record w { signals = codecs.signals }

  -- What is written is read back, on all ways between the two clients.
  pub record IsTrue : Type 0 where
    pub faithful : IsFaithful wired
    pub signals : RoundTrips codecs.signals
    pub descriptions : RoundTrips codecs.descriptions
    pub candidates : RoundTrips codecs.candidates
    pub messages : RoundTrips codecs.messages
    pub read : IsRead codecs.frames decode

  -- The way of one signal, from `a` with the client `ca` to `b` with the client `cb`.
  abbrev pub Arrives : Result R → Hub R → Peer → Peer → Client → Signal R → ℕ → ℕ → Type 0
  Arrives attempt h a b cb sig t t' =
      Arrival wired codecs.frames decode attempt ok h a b cb sig t t'

  -- A peer of the hub that can be written to, and room for one more message.
  pub record CanTake (h : Hub R) (p : Peer) : Type 0 where
    pub there : lookup p.id h.peers ≡ some p
    pub named : p.id ≢ ""
    pub room : length (h.chans p.send).buffer < (h.chans p.send).capacity

  carried :
      (h : Hub R) (a b : Peer) (ca cb : Client) (sig : Signal R) (t₂ t₃ t₄ : ℕ)
      → IsTrue
      → IsValid h
      → CanTake h b
      → ca.transport.connected ≡ true
      → Listens cb
      → Arrives
          (Transport.send codecs.frames ok codecs.signals.marshal ca.transport b.id sig t₂)
          h
          a
          b
          cb
          sig
          t₃
          t₄
  carried h a b ca cb sig t₂ t₃ t₄ i v there connected l =
      signal_arrives wired codecs.frames decode ok h a b ca cb sig t₂ t₃ t₄ i.faithful i.signals
        i.read v there.there there.named there.room connected l

  -- A message for one peer leaves the others as able to take one as they were.
  pub CanTake-after :
      (h : Hub R) (a b : Peer) (m : Message.Message R)
      → IsValid h
      → CanTake h a
      → CanTake h b
      → a.id ≢ b.id
      → CanTake (after h (nat_eq b.send) m) a
  CanTake-after h a b m v x y n =
      let same =
        spread_miss b.send m h.chans a.send
          (λ e. send-ne h a.id b.id a b v x.there y.there n (sym e)) in
      record { there = x.there; named = x.named; room = rw same x.room }

  module _ (i : IsTrue) where
    pub offer_way :
        (h : Hub R) (a b : Peer) (ca cb : Client) (offer : SessionDescription) (t₁ t₂ t₃ t₄ : ℕ)
        → IsValid h
        → CanTake h b
        → ca.transport.connected ≡ true
        → Listens cb
        → (sig : Signal R) × (sig.signal_type ≡ offer.type)
          × (parse_session_description codecs.descriptions sig ≡ ok offer)
          × Arrives
              (send_offer codecs.signals codecs.frames ok codecs.descriptions ca b.id offer t₁ t₂)
              h
              a
              b
              cb
              sig
              t₃
              t₄
    unfolding send_offer session_to_signal parse_session_description
    offer_way h a b ca cb offer t₁ t₂ t₃ t₄ v there connected l =
        let (doc, made, parsed) = i.descriptions offer in
        (
          envelope offer.type doc t₁,
          refl,
          rw (parse_session_description, parsed) refl,
          rw made (carried h a b ca cb (envelope offer.type doc t₁) t₂ t₃ t₄ i v there connected l),
        )

    pub answer_way :
        (h : Hub R) (a b : Peer) (ca cb : Client) (answer : SessionDescription) (t₁ t₂ t₃ t₄ : ℕ)
        → IsValid h
        → CanTake h b
        → ca.transport.connected ≡ true
        → Listens cb
        → (sig : Signal R) × (sig.signal_type ≡ answer.type)
          × (parse_session_description codecs.descriptions sig ≡ ok answer)
          × Arrives
              (send_answer codecs.signals codecs.frames ok codecs.descriptions ca b.id answer t₁ t₂)
              h
              a
              b
              cb
              sig
              t₃
              t₄
    unfolding send_answer session_to_signal parse_session_description
    answer_way h a b ca cb answer t₁ t₂ t₃ t₄ v there connected l =
        let (doc, made, parsed) = i.descriptions answer in
        (
          envelope answer.type doc t₁,
          refl,
          rw (parse_session_description, parsed) refl,
          rw made
              (carried h a b ca cb (envelope answer.type doc t₁) t₂ t₃ t₄ i v there connected l),
        )

    pub candidate_way :
        (h : Hub R) (a b : Peer) (ca cb : Client) (c : Candidate) (t₁ t₂ t₃ t₄ : ℕ)
        → IsValid h
        → CanTake h b
        → ca.transport.connected ≡ true
        → Listens cb
        → (sig : Signal R) × (msg : IceCandidateMsg R) × (sig.signal_type ≡ type_ice)
          × (codecs.messages.unmarshal sig.payload ≡ ok msg)
          × (msg.type ≡ "ice-candidate")
          × (codecs.candidates.unmarshal msg.candidate ≡ ok c)
          × Arrives
              (send_ice_candidate_json codecs.signals codecs.frames ok codecs.candidates
                codecs.messages ca b.id c t₁ t₂)
              h
              a
              b
              cb
              sig
              t₃
              t₄
    unfolding send_ice_candidate_json
    candidate_way h a b ca cb c t₁ t₂ t₃ t₄ v there connected l =
        let (doc, made, read) = i.candidates c in
        let msg : IceCandidateMsg R = record { type = "ice-candidate"; candidate = doc } in
        let (payload, written, parsed) = i.messages msg in
        (
          envelope type_ice payload t₁,
          msg,
          refl,
          parsed,
          refl,
          read,
          rw (made, written)
              (carried h a b ca cb (envelope type_ice payload t₁) t₂ t₃ t₄ i v there connected l),
        )
