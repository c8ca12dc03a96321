-- ===== src/Schema/Packet.antt =====
-- receipts-compiler/src/schema.rs: the packet handed to the next pass.
use agent_receipts.Prelude.{String, Option, List}
use agent_receipts.Schema.Source.{SourceRef}
use agent_receipts.Schema.Evidence.{EvidenceRecord, VerifierFinding}
use agent_receipts.Schema.Trust.{CompiledFact, TrustAssessment, EvidenceCoverage, LaneDigest}
use agent_receipts.Schema.Findings.{
  Hypothesis, Contradiction, RecurringFailurePattern, CandidateAction, HaltSignal,
}
use agent_receipts.Schema.Receipts.{ReceiptEvent, CheckHistory}

pub record NextPassPacket : Type 0 where
  pub schema_version : String
  pub objective_id : String
  pub run_id : String
  pub branch_id : String
  pub pass_id : String
  pub objective : String
  pub evidence : List EvidenceRecord
  pub trusted_facts : List CompiledFact
  pub active_hypotheses : List Hypothesis
  pub contradictions : List Contradiction
  pub recurring_failure_patterns : List RecurringFailurePattern
  pub candidate_actions : List CandidateAction
  pub verifier_findings : List VerifierFinding
  pub open_questions : List String
  pub raw_drilldown_refs : List SourceRef
  pub halt_signals : List HaltSignal
  pub sources : List SourceRef
  pub lane_digests : List LaneDigest
  pub trust_assessments : List TrustAssessment
  pub receipt_events : List ReceiptEvent
  pub evidence_coverage : Option EvidenceCoverage
  pub check_histories : List CheckHistory
