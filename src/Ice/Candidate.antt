-- ===== src/Ice/Candidate.antt =====
-- pkg/p2p/ice/gatherer.go: the types of a candidate.
use p_and_pp.Base.{ℕ}
use p_and_pp.Base.Results.{ℤ}
use p_and_pp.Base.Texts.{Text, codes}

abbrev pub CandidateType : Type 0
CandidateType = Text

abbrev pub host : CandidateType
host = codes "host"

abbrev pub server_reflexive : CandidateType
server_reflexive = codes "srflx"

abbrev pub peer_reflexive : CandidateType
peer_reflexive = codes "prflx"

abbrev pub relay : CandidateType
relay = codes "relay"

pub record Candidate : Type 0 where
  pub type : CandidateType
  pub foundation : Text
  pub component : ℤ
  pub protocol : Text
  pub priority : ℕ
  pub ip : Text
  pub port : ℤ
  pub base : Text
