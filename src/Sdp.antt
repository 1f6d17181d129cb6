-- ===== src/Sdp.antt =====
-- pkg/p2p/sdp/sdp.go: session descriptions and candidates, and the signals that carry them. A
-- document of encoding/json is an R; `time.Now()` is an argument.
pub mod Structured
use p_and_pp.Base.{ℕ, String, ◌==◌, Bool}
use p_and_pp.Base.Results.{Result, ok, ◌>>=◌, wrap, ℤ, pos, Codec}

-- Any text: a peer writes it.
abbrev pub SdpType : Type 0
SdpType = String

abbrev pub type_offer : SdpType
type_offer = "offer"

abbrev pub type_answer : SdpType
type_answer = "answer"

abbrev pub type_ice : SdpType
type_ice = "ice"

abbrev pub type_renegotiate : SdpType
type_renegotiate = "renegotiate"

abbrev pub type_close : SdpType
type_close = "close"

pub record SessionDescription : Type 0 where
  pub type : SdpType
  pub sdp : String
  pub version : ℤ

pub record IceCandidate : Type 0 where
  pub type : SdpType
  pub candidate : String
  pub sdp_mid : String
  pub sdp_m_line_index : ℤ
  pub username_fragment : String

pub record Signal (R : Type 0) : Type 0 where
  pub signal_type : SdpType
  pub payload : R
  pub timestamp : ℕ
  pub from : String
  pub to : String

unfoldable pub new_offer : String → SessionDescription
new_offer sdp = record { type = type_offer; sdp = sdp; version = pos 1 }

unfoldable pub new_answer : String → SessionDescription
new_answer sdp = record { type = type_answer; sdp = sdp; version = pos 1 }

unfoldable pub new_ice_candidate : String → String → ℤ → IceCandidate
new_ice_candidate candidate mid index = record {
  type = type_ice;
  candidate = candidate;
  sdp_mid = mid;
  sdp_m_line_index = index;
  username_fragment = "";
}

-- An envelope with neither sender nor target.
abbrev pub envelope : {R : Type 0} → SdpType → R → ℕ → Signal R
envelope type payload now = record {
  signal_type = type;
  payload = payload;
  timestamp = now;
  from = "";
  to = "";
}

module _ {R : Type 0} where
  unfoldable pub session_to_signal :
      Codec R SessionDescription → SessionDescription → ℕ → Result (Signal R)
  session_to_signal codec s now = do
    payload ← wrap "marshal session description" (codec.marshal s)
    ok (envelope s.type payload now)

  unfoldable pub candidate_to_signal : Codec R IceCandidate → IceCandidate → ℕ → Result (Signal R)
  candidate_to_signal codec c now = do
    payload ← wrap "marshal ice candidate" (codec.marshal c)
    ok (envelope type_ice payload now)

  unfoldable pub parse_session_description :
      Codec R SessionDescription → Signal R → Result SessionDescription
  parse_session_description codec s =
      wrap "unmarshal session description" (codec.unmarshal s.payload)

  unfoldable pub parse_ice_candidate : Codec R IceCandidate → Signal R → Result IceCandidate
  parse_ice_candidate codec s = wrap "unmarshal ice candidate" (codec.unmarshal s.payload)

unfoldable pub is_offer : SessionDescription → Bool
is_offer s = s.type == type_offer

unfoldable pub is_answer : SessionDescription → Bool
is_answer s = s.type == type_answer
