-- ===== src/Packet/Build.antt =====
-- receipts-compiler/src/compiler/packets.rs: `build_next_pass_packet` stamps the schema version and
-- hands out the packet only if its sources validate.
use agent_receipts.Prelude.{◌≡◌, sym, subst, ◌↔◌, String, List, some, Result, ok, ◌>>◌, >>-eq-ok}
use agent_receipts.Schema.{
  SourceRef, EvidenceRecord, VerifierFinding, CompiledFact, Hypothesis, Contradiction,
  RecurringFailurePattern, CandidateAction, HaltSignal, LaneDigest, TrustAssessment, ReceiptEvent,
  EvidenceCoverage, CheckHistory, NextPassPacket, receipts_schema_version,
}
use agent_receipts.Packet.Validate.{PacketValidationError, validate_packet_sources}
use agent_receipts.Packet.Sourced.{IsSourced, validate_packet_sources_iff}

pub record CompilerInputBundle : Type 0 where
  pub objective_id : String
  pub run_id : String
  pub branch_id : String
  pub pass_id : String
  pub objective : String
  pub evidence : List EvidenceRecord
  pub trusted_facts : List CompiledFact
  pub active_hypotheses : List Hypothesis
  pub contradictions : List Contradiction
  pub recurring_failure_patterns : List RecurringFailurePattern
  pub candidate_actions : List CandidateAction
  pub verifier_findings : List VerifierFinding
  pub open_questions : List String
  pub raw_drilldown_refs : List SourceRef
  pub halt_signals : List HaltSignal
  pub sources : List SourceRef
  pub lane_digests : List LaneDigest
  pub trust_assessments : List TrustAssessment
  pub receipt_events : List ReceiptEvent
  pub evidence_coverage : EvidenceCoverage
  pub check_histories : List CheckHistory

-- The packet that `build_next_pass_packet` validates.
unfoldable pub packet_of : CompilerInputBundle → NextPassPacket
packet_of input = record {
  schema_version = receipts_schema_version;
  objective_id = input.objective_id;
  run_id = input.run_id;
  branch_id = input.branch_id;
  pass_id = input.pass_id;
  objective = input.objective;
  evidence = input.evidence;
  trusted_facts = input.trusted_facts;
  active_hypotheses = input.active_hypotheses;
  contradictions = input.contradictions;
  recurring_failure_patterns = input.recurring_failure_patterns;
  candidate_actions = input.candidate_actions;
  verifier_findings = input.verifier_findings;
  open_questions = input.open_questions;
  raw_drilldown_refs = input.raw_drilldown_refs;
  halt_signals = input.halt_signals;
  sources = input.sources;
  lane_digests = input.lane_digests;
  trust_assessments = input.trust_assessments;
  receipt_events = input.receipt_events;
  evidence_coverage = some input.evidence_coverage;
  check_histories = input.check_histories;
}

unfoldable pub build_next_pass_packet :
    CompilerInputBundle → Result PacketValidationError NextPassPacket
build_next_pass_packet input = do
  let packet = packet_of input
  validate_packet_sources packet
  ok packet

-- `build_next_pass_packet` hands out a packet exactly when the packet of its input is sourced, and
-- then it is that packet.
pub build_next_pass_packet_iff :
    (input : CompilerInputBundle) (p : NextPassPacket)
    → (build_next_pass_packet input ≡ ok p) ↔ (IsSourced p × (packet_of input ≡ p))
unfolding build_next_pass_packet
build_next_pass_packet_iff input p = (
  λ h.
      let parts = >>-eq-ok (validate_packet_sources (packet_of input)) (ok (packet_of input)) h in
      let same : packet_of input ≡ p = cc (parts.1) in
      (subst IsSourced same ((validate_packet_sources_iff (packet_of input)).0 parts.0), same),
  λ h.
      let valid =
        (validate_packet_sources_iff (packet_of input)).1 (subst IsSourced (sym h.1) h.0) in
      rw valid (cc (h.1)),
)
