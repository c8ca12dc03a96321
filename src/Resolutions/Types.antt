-- ===== src/Resolutions/Types.antt =====
-- compiler/resolutions.rs: the record. Its hash covers every field but `record_hash`.
use agent_receipts.Prelude.{String, Option}

pub record ResolutionRecord : Type 0 where
  pub id : String
  pub target_id : String
  pub reason : String
  pub cite : Option String
  pub resolved_at : String
  pub writer : String
  pub prev_record_hash : String
  pub record_hash : String
