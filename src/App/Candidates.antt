-- ===== src/App/Candidates.antt =====
-- What the demonstration client makes of a candidate that the other one sends.
use p_and_pp.Base.{ℕ, ◌≡◌, refl, String, true, [], ◌∷◌, ◌++◌, some}
use p_and_pp.Base.Results.{Result, ok}
use p_and_pp.Sdp.{Signal, type_ice}
use p_and_pp.Signaling.Message
use p_and_pp.Signaling.Hub.{Peer, Hub}
use p_and_pp.Signaling.Hub.Invariant.{IsValid}
use p_and_pp.Client.{Client, IceCandidateMsg, send_ice_candidate_json}
use p_and_pp.PeerView.{Wire}
use p_and_pp.PeerView.Signals.{Listens}
use p_and_pp.Ice.Candidate.{Candidate}
use p_and_pp.Ice.Gatherer.{Net}
use p_and_pp.Ice.Agent.{Agent, add_remote_candidate}
use p_and_pp.App.{App, Codecs, schedules, handle_signal, handle_remote_candidate}
use p_and_pp.App.Ways.{IsTrue, Arrives, CanTake, candidate_way}

module _ {W C R : Type 0} (net : Net W C) (w : Wire R) (codecs : Codecs R)
    (decode : R → Result (Message.Message R)) (clock : ℕ → ℕ × ℕ) where
  -- A candidate in a signal, with an agent at hand.
  handle_signal-candidate :
      (v : W) (app : App C) (from : String) (sig : Signal R) (msg : IceCandidateMsg R)
      (c : Candidate) (ag : Agent C)
      → sig.signal_type ≡ type_ice
      → codecs.messages.unmarshal sig.payload ≡ ok msg
      → msg.type ≡ "ice-candidate"
      → codecs.candidates.unmarshal msg.candidate ≡ ok c
      → app.ice_agent ≡ some ag
      → handle_signal net codecs clock v app from sig
        ≡ (v, record app { ice_agent = some (add_remote_candidate ag c) }, schedules ∷ [])
  unfolding handle_signal handle_remote_candidate
  handle_signal-candidate v app from sig msg c ag kind parsed named read here =
      simp (kind, parsed, named, read) remote
    where
      remote :
          handle_remote_candidate net codecs clock v app from c
          ≡ (v, record app { ice_agent = some (add_remote_candidate ag c) }, schedules ∷ [])
      remote = rw (here, handle_remote_candidate) refl

  -- With encodings that read back what they wrote, a valid hub where `b` is registered with room in its
  -- buffer, a connected client `ca` and a client of `b` that listens: each candidate that
  -- `SendICECandidateJSON` sends to `b` arrives with all its fields. If `b`'s application has an agent, the
  -- candidate becomes the last of the agent's remote candidates, an attempt to connect is started,
  -- nothing is sent and nothing else changes.
  pub candidate_added :
      (v : W) (h : Hub R) (a b : Peer) (ca : Client) (app : App C) (ag : Agent C) (c : Candidate)
      (t₁ t₂ t₃ t₄ : ℕ)
      → IsTrue w codecs decode
      → IsValid h
      → CanTake w codecs decode h b
      → ca.transport.connected ≡ true
      → Listens app.client
      → app.ice_agent ≡ some ag
      → (sig : Signal R) × Arrives w codecs decode
          (send_ice_candidate_json codecs.signals codecs.frames ok codecs.candidates codecs.messages
            ca b.id c t₁ t₂)
          h
          a
          b
          app.client
          sig
          t₃
          t₄
        × (handle_signal net codecs clock v app a.id (record sig { from = a.id }) ≡ (
          v,
          record app {
            ice_agent = some (record ag { remote_candidates = ag.remote_candidates ++ c ∷ [] });
          },
          schedules ∷ [],
        ))
  unfolding add_remote_candidate
  candidate_added v h a b ca app ag c t₁ t₂ t₃ t₄ i valid y joined l here =
      let (sig, msg, kind, parsed, named, read, way) =
        candidate_way w codecs decode i h a b ca app.client c t₁ t₂ t₃ t₄ valid y joined l in
      (
        sig,
        way,
        handle_signal-candidate v app a.id (record sig { from = a.id }) msg c ag kind parsed named
            read here,
      )
