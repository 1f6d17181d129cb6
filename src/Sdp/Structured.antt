-- ===== src/Sdp/Structured.antt =====
-- pkg/p2p/sdp/sdp.go: the structured form of a description, which no function of the repository reads or
-- writes. A pointer that may be nil is an option.
use p_and_pp.Base.{String, List, Option}
use p_and_pp.Base.Results.{ℤ}

pub record ConnectionInfo : Type 0 where
  pub network_type : String
  pub address_type : String
  pub address : String

pub record MediaSection : Type 0 where
  pub type : String
  pub port : ℤ
  pub protocol : String
  pub formats : List ℤ
  pub connection : Option ConnectionInfo

pub record OriginInfo : Type 0 where
  pub username : String
  pub session_id : ℤ
  pub session_version : ℤ
  pub network_type : String
  pub address_type : String
  pub address : String

pub record TimingInfo : Type 0 where
  pub start : ℤ
  pub stop : ℤ

pub record Attribute : Type 0 where
  pub key : String
  pub value : String

pub record SimplifiedSdp : Type 0 where
  pub version : ℤ
  pub origin : OriginInfo
  pub session_name : String
  pub timing : TimingInfo
  pub media_sections : List MediaSection
  pub attributes : List Attribute
