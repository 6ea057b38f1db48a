-- ===== src/Errors.antt =====
-- crates/core/src/error.rs: the errors of the protocol core. The formatted text of a message is
-- replaced by a value of `Reason` that names it.
use n3ur0n.Prelude.{Result, ℕ, String}

-- The messages of `InvalidIdentifier`, by the check that writes them.
pub data Reason : Type 0 where
  bad_instance_id wrong_keypair : Reason
  alias_empty alias_too_long alias_poses_as_id : Reason
  alias_character : ℕ → Reason
  lobe_too_short lobe_too_long lobe_edge : Reason
  lobe_character : ℕ → Reason
  too_many_lobes lobe_declared_twice : Reason
  hash_prefix hash_digits : Reason

pub data CoreError : Type 0 where
  invalid_identifier : Reason → CoreError
  signature_invalid : CoreError
  recipient_mismatch : (expected actual : String) → CoreError
  timestamp_out_of_window replay_detected : CoreError
  canonical crypto serde : CoreError

abbrev pub CoreResult : Type 0 → Type 0
CoreResult A = Result CoreError A
