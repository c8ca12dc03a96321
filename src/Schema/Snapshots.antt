-- ===== src/Schema/Snapshots.antt =====
-- receipts-compiler/src/schema.rs: snapshots, and the record of a promotion.
use agent_receipts.Prelude.{String, Option, List}
use agent_receipts.Schema.Source.{SourceRef}

pub record SnapshotInput : Type 0 where
  pub id : String
  pub kind : String
  pub summary : String
  pub ref_ids : List String

pub record WorkerResult : Type 0 where
  pub id : String
  pub worker : String
  pub status : String
  pub output_ids : List String
  pub notes : String

pub record StateDelta : Type 0 where
  pub id : String
  pub kind : String
  pub target_id : String
  pub summary : String

pub record Snapshot : Type 0 where
  pub schema_version : String
  pub run_id : String
  pub pass_id : String
  pub branch_id : String
  pub created_at : String
  pub inputs : List SnapshotInput
  pub worker_results : List WorkerResult
  pub state_delta : List StateDelta
  pub artifact_refs : List SourceRef

pub record PromotionRecord : Type 0 where
  pub id : String
  pub kind : String
  pub source_ids : List String
  pub decision : String
  pub reason : String
  pub expires_after_pass : Option String
