-- ===== src/Capability.antt =====
-- crates/core/src/capability.rs: the declaration of a capability and its access mode.
use n3ur0n.Prelude.{String, Bool, true, false, Option, List}
use n3ur0n.Json.{Value}

pub data AccessMode : Type 0 where
  free restricted private : AccessMode

-- `AccessMode::is_public`
unfoldable pub is_public : AccessMode → Bool
is_public private = false
is_public free = true
is_public restricted = true

pub record CapabilityExample : Type 0 where
  pub user_intent : String
  pub args : Value
  pub expected_output : Value

pub record NegativeExample : Type 0 where
  pub user_intent : String
  pub why_not : String

pub record CapabilityDecl : Type 0 where
  pub name : String
  pub description : String
  pub schema_in : Value
  pub schema_out : Value
  pub mode : AccessMode
  pub pricing : Option String
  pub tags : List String
  pub lobe_ids : List String
  pub examples : List CapabilityExample
  pub disambiguation : Option String
  pub negative_examples : List NegativeExample
  pub output_semantic : Option String
  pub version : String
  pub languages : List String
  pub countries : List String

-- `default_cap_version`
abbrev pub default_cap_version : String
default_cap_version = "0.0.0"
