-- ===== src/Schema/Evidence.antt =====
-- receipts-compiler/src/schema.rs: what workers and verifiers report.
use agent_receipts.Prelude.{String, Option, List}
use agent_receipts.Schema.Float.{F32, F64}
use agent_receipts.Schema.Source.{SourceRef}

pub record EvidenceRecord : Type 0 where
  pub id : String
  pub kind : String
  pub summary : String
  pub source_ids : List String
  pub source_refs : List SourceRef
  pub observed_at : String
  pub agent_id : Option String
  pub lane : Option String
  pub reported_confidence : Option F64
  pub rationale : Option String
  pub diff_ref : Option String
  pub span_before : Option String
  pub span_after : Option String
  pub claimed_agent_id : Option String
  pub claimed_lane : Option String
  pub provenance_warnings : List String

pub record VerifierFinding : Type 0 where
  pub id : String
  pub summary : String
  pub status : String
  pub verifier_score : F32
  pub source_ids : List String
  pub source_refs : List SourceRef
  pub agent_id : Option String
  pub lane : Option String
  pub closure_reason : Option String
  pub finding_kind : Option String
  pub claimed_agent_id : Option String
  pub claimed_lane : Option String
  pub provenance_warnings : List String
