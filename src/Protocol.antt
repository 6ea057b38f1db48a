-- ===== src/Protocol.antt =====
-- crates/core/src/protocol.rs: the payloads of the protocol verbs.
use n3ur0n.Prelude.{ℕ, String, Option, List}
use n3ur0n.Capability.{CapabilityDecl}
use n3ur0n.Identity.{InstanceId}
use n3ur0n.Json.{Value}

abbrev pub protocol_version : String
protocol_version = "n3ur0n/0.3"

pub record DescribeSelfResponse : Type 0 where
  pub instance_id : InstanceId
  pub endpoint : Option String
  pub alias : Option String
  pub version : String
  pub updated_at : String
  pub lobe_ids : List String
  pub capabilities : List CapabilityDecl

pub record GetKnownPeersRequest : Type 0 where
  pub limit : ℕ
  pub capability : Option String

pub record PeerSummary : Type 0 where
  pub instance_id : InstanceId
  pub endpoint : Option String
  pub alias : Option String

pub record GetKnownPeersResponse : Type 0 where
  pub peers : List PeerSummary

pub record PingResponse : Type 0 where
  pub server_time : String

pub record InvokeRequest : Type 0 where
  pub capability : String
  pub args : Value
  pub subscription_token : Option String

pub record InvokeResponse : Type 0 where
  pub result : Value
