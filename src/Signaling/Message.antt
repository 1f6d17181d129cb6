-- ===== src/Signaling/Message.antt =====
-- internal/signaling/message.go. `json.RawMessage` is the parameter R; a `MessageType` is any text,
-- since a client writes it. Unix times are numbers.
use Prim.Native.String.{◌++◌ as append}
use p_and_pp.Base.{ℕ, String, List, Option}

abbrev pub MessageType : Type 0
MessageType = String

abbrev pub peer_registered : MessageType
peer_registered = "peer_registered"

abbrev pub peer_list : MessageType
peer_list = "peer_list"

abbrev pub peer_joined : MessageType
peer_joined = "peer_joined"

abbrev pub peer_left : MessageType
peer_left = "peer_left"

abbrev pub signal : MessageType
signal = "signal"

abbrev pub error : MessageType
error = "error"

pub record Message (R : Type 0) : Type 0 where
  pub type : MessageType
  pub from : String
  pub to : String
  pub payload : R
  pub timestamp : ℕ

pub record PeerInfo : Type 0 where
  pub id : String
  pub joined_at : ℕ

pub record PeerListData : Type 0 where
  pub peers : List PeerInfo

pub record SignalData : Type 0 where
  pub signal_type : String
  pub payload : String

pub record PeerRegisteredData : Type 0 where
  pub peer_id : String

pub record PeerJoinedLeftData : Type 0 where
  pub peer : PeerInfo

pub record ErrorData : Type 0 where
  pub message : String
  pub code : String

-- What the hub uses of encoding/json: one function for each type that it marshals, none for an
-- error, and the document `{}`.
pub record Marshaler (R : Type 0) : Type 0 where
  pub registered : PeerRegisteredData → Option R
  pub list : PeerListData → Option R
  pub joined_left : PeerJoinedLeftData → Option R
  pub error : ErrorData → Option R
  pub empty_object : R

-- The text of `"Target peer not found: " + msg.To`.
abbrev pub target_peer_not_found : String → String
target_peer_not_found to = append "Target peer not found: " to
