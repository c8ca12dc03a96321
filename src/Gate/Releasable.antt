-- ===== src/Gate/Releasable.antt =====
-- compiler/gate.rs: what the strict gate asks of a run.
use mathlib.Core.List.{Memᴰ}
use agent_receipts.Prelude.{
  ◌≤◌, ◌<◌, ◌≡◌, ◌≢◌, true, false, String, ◌==◌, starts_with, any, is_empty, length,
}
use agent_receipts.Schema.{
  SourceRef, EvidenceRecord, VerifierFinding, Contradiction, CandidateAction,
}
use agent_receipts.Compile.Halt.{is_unresolved_blocking}
use agent_receipts.Gate.Run.{
  GateInputs, semantic_kind_requires_file, is_content_file, is_raw_subagent, is_session,
  lacks_identity, min_agents, agents, is_receipt_refutation,
}

-- The manifest, the pass and the two journals.
pub record JournalsAreSourced (i : GateInputs) : Type 0 where
  pub pass_agrees : i.pass_id ≡ i.packet.pass_id
  pub was_promoted : i.pass_id ≢ "pass-0001"
  pub has_evidence : 1 < length i.evidence
  pub evidence_sourced : (r : EvidenceRecord) → Memᴰ r i.evidence → is_empty r.source_ids ≡ false
  pub findings_sourced : (f : VerifierFinding) → Memᴰ f i.findings → is_empty f.source_ids ≡ false
  pub semantic_files :
      (r : EvidenceRecord)
      → Memᴰ r i.evidence
      → semantic_kind_requires_file r.kind ≡ true
      → (s : SourceRef) × Memᴰ s r.source_refs × (is_content_file s ≡ true)

-- The subagents' output was kept, compiled and attributed.
pub record SessionsAreKept (i : GateInputs) : Type 0 where
  pub raw_kept : is_empty i.raw_subagent_files ≡ false
  pub has_session : (r : EvidenceRecord) × Memᴰ r i.evidence × (is_session r ≡ true)
  pub raw_compiled :
      (s : SourceRef) × Memᴰ s i.packet.sources × (is_raw_subagent s.source_id ≡ true)
  pub identified :
      (r : EvidenceRecord) → Memᴰ r i.evidence → is_session r ≡ true → lacks_identity r ≡ false
  pub references_raw :
      (r : EvidenceRecord)
      → Memᴰ r i.evidence
      → is_session r ≡ true
      → (source_id : String) × Memᴰ source_id r.source_ids × (is_raw_subagent source_id ≡ true)

pub record IsCovered (i : GateInputs) : Type 0 where
  pub enough_agents : min_agents i.min_agent_coverage ≤ length (agents i.evidence)
  pub has_synthesis : (r : EvidenceRecord) × Memᴰ r i.evidence × (r.kind ≡ "codex-synthesis")
  pub has_raw_synthesis :
      (name : String) × Memᴰ name i.raw_file_names × (starts_with name "codex-synthesis-" ≡ true)

pub record IsApproved (i : GateInputs) : Type 0 where
  pub findings_passed : (f : VerifierFinding) → Memᴰ f i.findings → f.status ≡ "passed"
  pub unrefuted :
      (c : Contradiction) → Memᴰ c i.packet.contradictions → is_receipt_refutation c ≡ false
  pub ready : any (λ s. s.kind == "ready-to-halt") i.packet.halt_signals ≡ true
  pub nothing_blocks :
      (item : CandidateAction)
      → Memᴰ item i.packet.candidate_actions
      → is_unresolved_blocking item ≡ false

pub record IsReleasable (i : GateInputs) : Type 0 where
  pub journals : JournalsAreSourced i
  pub sessions : SessionsAreKept i
  pub coverage : IsCovered i
  pub verdicts : IsApproved i
