-- ===== src/App/Calls.antt =====
-- Two clients and the server between them: an offer and its answer.
use p_and_pp.Base.{ℕ, ◌≡◌, ◌≢◌, ap, String, true, [], ◌∷◌, nat_eq}
use p_and_pp.Base.Results.{Result, ok}
use p_and_pp.Sdp.{SessionDescription, Signal, type_offer, new_offer, parse_session_description}
use p_and_pp.Signaling.Message
use p_and_pp.Signaling.Hub.{Peer, Hub}
use p_and_pp.Signaling.Hub.Invariant.{IsValid, after-IsValid}
use p_and_pp.Client.{Client, send_offer, send_answer}
use p_and_pp.PeerView.{Wire}
use p_and_pp.PeerView.Signals.{Listens}
use p_and_pp.Ice.Gatherer.{Net}
use p_and_pp.App.{App, Codecs, submits, demo_answer, handle_signal}
use p_and_pp.App.Ways.{IsTrue, Arrives, CanTake, CanTake-after, offer_way, answer_way}

module _ {W C R : Type 0} (net : Net W C) (w : Wire R) (codecs : Codecs R)
    (decode : R → Result (Message.Message R)) (clock : ℕ → ℕ × ℕ) where
  -- What the application does with a signal of an offer that can be read.
  handle_signal-offer :
      (v : W) (app : App C) (from : String) (sig : Signal R) (offer : SessionDescription)
      (frame : R)
      → sig.signal_type ≡ type_offer
      → parse_session_description codecs.descriptions sig ≡ ok offer
      → send_answer codecs.signals codecs.frames ok codecs.descriptions app.client from demo_answer
          (clock 0).0
          (clock 0).1
        ≡ ok frame
      → handle_signal net codecs clock v app from sig ≡ (v, app, submits (ok frame) ∷ [])
  unfolding handle_signal parse_session_description
  handle_signal-offer v app from sig offer frame kind parsed sent =
      rw (kind, parsed) (ap (λ r. (v, app, submits r ∷ [])) sent)

  -- With encodings that read back what they wrote and a valid hub where `a` and `b` are two
  -- registered peers with room in their buffers, whose clients are connected and listen: the offer that
  -- `a`'s client sends to `b` arrives as an offer from `a`; `b`'s application then submits one frame and
  -- changes nothing else; and that frame arrives at `a`'s client as the demonstration's answer, from
  -- `b`.
  pub call_answered :
      (v : W) (h : Hub R) (a b : Peer) (ca : Client) (app : App C) (text : String)
      (t₁ t₂ t₃ t₄ t₅ t₆ : ℕ)
      → IsTrue w codecs decode
      → IsValid h
      → CanTake w codecs decode h a
      → CanTake w codecs decode h b
      → a.id ≢ b.id
      → ca.transport.connected ≡ true
      → app.client.transport.connected ≡ true
      → Listens ca
      → Listens app.client
      → (asked told : Signal R) × ((there : Arrives w codecs decode
            (send_offer codecs.signals codecs.frames ok codecs.descriptions ca b.id
              (new_offer text)
              t₁
              t₂)
            h
            a
            b
            app.client
            asked
            t₃
            t₄)
          × (back : Arrives w codecs decode
              (send_answer codecs.signals codecs.frames ok codecs.descriptions app.client a.id
                demo_answer
                (clock 0).0
                (clock 0).1)
              there.hub
              b
              a
              ca
              told
              t₅
              t₆)
          × (handle_signal net codecs clock v app a.id (record asked { from = a.id })
              ≡ (v, app, submits (ok back.frame) ∷ [])))
        × (parse_session_description codecs.descriptions (record asked { from = a.id })
            ≡ ok (new_offer text))
        × (parse_session_description codecs.descriptions (record told { from = b.id })
            ≡ ok demo_answer)
  unfolding new_offer parse_session_description
  call_answered v h a b ca app text t₁ t₂ t₃ t₄ t₅ t₆ i valid x y n joined joined' l l' =
      let (asked, kind, read, there) =
        offer_way w codecs decode i h a b ca app.client (new_offer text) t₁ t₂ t₃ t₄ valid y joined
          l' in
      let valid' : IsValid there.hub =
        rw there.after_hub (after-IsValid h (nat_eq b.send) there.message valid) in
      let x' : CanTake w codecs decode there.hub a =
        rw there.after_hub (CanTake-after w codecs decode h a b there.message valid x y n) in
      let (told, kind', read', back) =
        answer_way w codecs decode i there.hub b a app.client ca demo_answer (clock 0).0 (clock 0).1
          t₅ t₆ valid' x' joined' l in
      (
        asked,
        told,
        (
          there,
          back,
          handle_signal-offer v app a.id (record asked { from = a.id }) (new_offer text) back.frame
              kind read back.submitted,
        ),
        read,
        read',
      )
