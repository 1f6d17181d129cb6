-- ===== src/Client/Parser.antt =====
-- pkg/p2p/client.go: `SignalParser`, for the handlers of an application.
use p_and_pp.Base.{ℕ, ◌≡◌, refl}
use p_and_pp.Base.Results.{Result, ok, Codec, RoundTrips}
use p_and_pp.Sdp
use p_and_pp.Sdp.{
  SessionDescription, IceCandidate, Signal, envelope, type_ice, session_to_signal,
  candidate_to_signal, parse_session_description,
}

module _ {R : Type 0} where
  unfoldable pub parse_offer : Codec R SessionDescription → Signal R → Result SessionDescription
  parse_offer codec s = parse_session_description codec s

  unfoldable pub parse_answer : Codec R SessionDescription → Signal R → Result SessionDescription
  parse_answer codec s = parse_session_description codec s

  unfoldable pub parse_ice_candidate : Codec R IceCandidate → Signal R → Result IceCandidate
  parse_ice_candidate codec s = Sdp.parse_ice_candidate codec s

  -- With an encoding that reads back what it wrote, a description becomes a signal of its type, which is
  -- parsed back to it, by the parser of offers as by that of answers.
  parse-session_to_signal :
      (codec : Codec R SessionDescription) (s : SessionDescription) (now : ℕ)
      → RoundTrips codec
      → (sig : Signal R) × (session_to_signal codec s now ≡ ok sig)
        × (sig.signal_type ≡ s.type)
        × (parse_offer codec sig ≡ ok s)
        × (parse_answer codec sig ≡ ok s)
  unfolding session_to_signal parse_offer parse_answer parse_session_description
  parse-session_to_signal codec s now h =
      let (doc, made, parsed) = h s in
      (envelope s.type doc now, rw made refl, refl, rw parsed refl, rw parsed refl)

  -- So does a candidate of the old format.
  parse-candidate_to_signal :
      (codec : Codec R IceCandidate) (c : IceCandidate) (now : ℕ)
      → RoundTrips codec
      → (sig : Signal R) × (candidate_to_signal codec c now ≡ ok sig)
        × (sig.signal_type ≡ type_ice)
        × (parse_ice_candidate codec sig ≡ ok c)
  unfolding candidate_to_signal parse_ice_candidate Sdp.parse_ice_candidate
  parse-candidate_to_signal codec c now h =
      let (doc, made, parsed) = h c in
      (envelope type_ice doc now, rw made refl, refl, rw parsed refl)
