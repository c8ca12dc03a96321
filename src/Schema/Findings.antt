-- ===== src/Schema/Findings.antt =====
-- receipts-compiler/src/schema.rs: what the compiler derives from the evidence.
use agent_receipts.Prelude.{ℕ, String, Bool, Option, List}
use agent_receipts.Schema.Float.{F32}
use agent_receipts.Schema.Source.{SourceRef}

pub record Hypothesis : Type 0 where
  pub id : String
  pub statement : String
  pub reported_confidence : Option F32
  pub verifier_score : Option F32
  pub source_ids : List String

pub record Contradiction : Type 0 where
  pub id : String
  pub summary : String
  pub conflicting_item_ids : List String
  pub severity : String
  pub source_ids : List String
  pub source_refs : Option (List SourceRef)

pub record RecurringFailurePattern : Type 0 where
  pub id : String
  pub summary : String
  pub count : ℕ
  pub last_seen_at : String
  pub impact : String
  pub source_ids : List String

pub record CandidateAction : Type 0 where
  pub id : String
  pub title : String
  pub rationale : String
  pub actionability_score : F32
  pub decision_dependency_ids : List String
  pub source_ids : List String
  pub category : Option String
  pub blocking : Option Bool
  pub resolved : Option Bool
  pub resolution_id : Option String
  pub suggested_argv : List String

pub record HaltSignal : Type 0 where
  pub id : String
  pub kind : String
  pub contribution : F32
  pub rationale : String
  pub source_ids : List String
