-- ===== src/Tests/Data.antt =====
-- A small run: one claim with its check, one passed finding, one receipt.
use agent_receipts.Prelude.{String, List, [], ◌∷◌, none, some}
use agent_receipts.Prelude.Int.{ℤ, pos}
use agent_receipts.Schema.{
  SourceRef, EvidenceRecord, VerifierFinding, Contradiction, HaltSignal, ReceiptRecord,
  NextPassPacket, receipts_schema_version, receipts_hash_alg,
}
use agent_receipts.Checks.Types.{ClaimBinding}

abbrev pub noon : String
noon = "2026-07-13T12:00:00Z"

abbrev pub file_source : String → SourceRef
file_source source_id = record {
  source_id = source_id;
  path = "src/lib.rs";
  kind = "file";
  hash = "00000000deadbeef";
  hash_alg = receipts_hash_alg;
  hash_basis = some "content";
  span = none;
  observed_at = noon;
}

abbrev pub evidence_of : String → String → List String → List SourceRef → EvidenceRecord
evidence_of id kind source_ids source_refs = record {
  id = id;
  kind = kind;
  summary = "the parser accepts empty input";
  source_ids = source_ids;
  source_refs = source_refs;
  observed_at = noon;
  agent_id = some "agent-a";
  lane = some "lane-a";
  reported_confidence = none;
  rationale = none;
  diff_ref = none;
  span_before = none;
  span_after = none;
  claimed_agent_id = none;
  claimed_lane = none;
  provenance_warnings = [];
}

abbrev pub claim : EvidenceRecord
claim =
    evidence_of "ev-1" "root-cause" ("file:src/lib.rs" ∷ []) (file_source "file:src/lib.rs" ∷ [])

abbrev pub finding_of : String → List String → VerifierFinding
finding_of status source_ids = record {
  id = "vf-1";
  summary = "the tests pass";
  status = status;
  verifier_score = 0x3f800000;
  source_ids = source_ids;
  source_refs = [];
  agent_id = none;
  lane = none;
  closure_reason = none;
  finding_kind = none;
  claimed_agent_id = none;
  claimed_lane = none;
  provenance_warnings = [];
}

abbrev pub finding : VerifierFinding
finding = finding_of "passed" ("unit-tests" ∷ [])

abbrev pub receipt_of : String → String → ℤ → ReceiptRecord
receipt_of id label exit_code = record {
  id = id;
  label = some label;
  cmd = "cargo" ∷ "test" ∷ [];
  cwd = "/repo";
  exit_code = exit_code;
  duration_ms = 1200;
  started_at = noon;
  ended_at = noon;
  stdout_hash = "";
  stderr_hash = "";
  stdout_tail = "";
  stderr_tail = "";
  tree_before = none;
  tree_after = none;
  lane = none;
  agent_id = none;
  writer = "receipts";
  prev_record_hash = "";
  record_hash = "";
}

abbrev pub green : ReceiptRecord
green = receipt_of "rcpt-0001" "unit-tests" (pos 0)

abbrev pub red : ReceiptRecord
red = receipt_of "rcpt-0002" "unit-tests" (pos 101)

abbrev pub binding : ClaimBinding
binding = record { applicability = "current"; outcome = "passed"; check_id = some "check-1" }

abbrev pub conflict : Contradiction
conflict = record {
  id = "con:auto:1";
  summary = "two summaries of one span";
  conflicting_item_ids = "ev-2" ∷ [];
  severity = "high";
  source_ids = "file:src/lib.rs" ∷ [];
  source_refs = none;
}

abbrev pub ready : HaltSignal
ready = record {
  id = "halt:ready";
  kind = "ready-to-halt";
  contribution = 0x3f800000;
  rationale = "done";
  source_ids = "raw:objective.md" ∷ [];
}

abbrev pub packet_with : List EvidenceRecord → List SourceRef → NextPassPacket
packet_with evidence sources = record {
  schema_version = receipts_schema_version;
  objective_id = "obj-1";
  run_id = "run-1";
  branch_id = "main";
  pass_id = "pass-0002";
  objective = "fix the parser";
  evidence = evidence;
  trusted_facts = [];
  active_hypotheses = [];
  contradictions = [];
  recurring_failure_patterns = [];
  candidate_actions = [];
  verifier_findings = [];
  open_questions = [];
  raw_drilldown_refs = [];
  halt_signals = ready ∷ [];
  sources = sources;
  lane_digests = [];
  trust_assessments = [];
  receipt_events = [];
  evidence_coverage = none;
  check_histories = [];
}

abbrev pub packet : NextPassPacket
packet = packet_with (claim ∷ []) (
    file_source "file:src/lib.rs"
    ∷ file_source "raw:subagents/a.md"
    ∷ file_source "raw:objective.md"
    ∷ [])
