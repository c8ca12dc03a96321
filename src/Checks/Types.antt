-- ===== src/Checks/Types.antt =====
-- compiler/checks.rs: the data.
use agent_receipts.Prelude.{ℕ, String, List, Option}

pub record CheckDefinition : Type 0 where
  pub id : String
  pub version : String
  pub command : List String
  pub covered_paths : List String
  pub eligible_claim_kinds : List String
  pub environment_class : String
  pub target_claims : List String
  pub negative_control_command : Option (List String)
  pub negative_control_expected_signature : Option String

pub record CheckManifest : Type 0 where
  pub manifest_version : ℕ
  pub checks : List CheckDefinition

pub record CheckAttemptRecord : Type 0 where
  pub format_version : String
  pub id : String
  pub check_id : String
  pub check_version : String
  pub target_claims : List String
  pub covered_paths : List String
  pub subject_digest : String
  pub dependency_lock_digest : String
  pub command_digest : String
  pub definition_digest : String
  pub environment_class : String
  pub environment_digest : String
  pub outcome : String
  pub failure_signature : Option String
  pub primary_receipt_id : String
  pub negative_control_receipt_id : Option String
  pub negative_control_outcome : Option String
  pub attempted_at : String
  pub prev_record_hash : String
  pub record_hash : String

pub record ClaimBinding : Type 0 where
  pub applicability : String
  pub outcome : String
  pub check_id : Option String
