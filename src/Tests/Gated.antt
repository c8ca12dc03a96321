-- ===== src/Tests/Gated.antt =====
-- A run that the strict gate lets through.
use agent_receipts.Prelude.{◌≡◌, refl, String, List, [], ◌∷◌, none, some, true, IsLast}
use agent_receipts.Schema.{EvidenceRecord}
use agent_receipts.Gate.Run.{GateInputs, run_gate, gate_errors}
use mathlib.Core.List.{Memᴰ}
use agent_receipts.Prelude.Int.{is_zero}
use agent_receipts.Compile.Latest.{has_label}
use agent_receipts.Compile.Contradictions.{exec_receipts, packet_contradictions}
use agent_receipts.Gate.Executed.{run_gate-exits_zero}
use agent_receipts.Tests.Data.{claim, evidence_of, finding, packet, green}

abbrev session : EvidenceRecord
session = evidence_of "ev-subagent-session-1" "subagent-session" ("raw:subagents/a.md" ∷ []) []

abbrev synthesis : EvidenceRecord
synthesis = evidence_of "ev-synthesis" "codex-synthesis" ("raw:objective.md" ∷ []) []

abbrev inputs : GateInputs
inputs = record {
  run_dir = "/runs/1";
  pass_id = "pass-0002";
  packet = packet;
  evidence = claim ∷ session ∷ synthesis ∷ [];
  findings = finding ∷ [];
  raw_subagent_files = "raw/subagents/a.md" ∷ [];
  raw_file_names = "codex-synthesis-0002.md" ∷ "objective.md" ∷ [];
  min_agent_coverage = some "1";
}

IsLast-green : IsLast (has_label "unit-tests") (exec_receipts (green ∷ [])) green
unfolding exec_receipts
IsLast-green = record { before = []; after = []; splits = refl; passes = refl; none_later = tt }

run_gate-exits_zero_example : is_zero green.exit_code ≡ true
unfolding run_gate gate_errors packet_contradictions
    agent_receipts.Compile.Temporal.version_temporal_file_sources
    agent_receipts.Compile.Temporal.collect_all agent_receipts.Compile.Temporal.temporal_ids_of
    agent_receipts.Compile.Temporal.collect_record_file_variants agent_receipts.Prelude.once
    agent_receipts.Compile.Refutations.detect_receipt_refutations
    agent_receipts.Compile.Latest.latest_receipt_per_label exec_receipts
    agent_receipts.Gate.Run.lacks_semantic_file agent_receipts.Gate.Run.is_session
    agent_receipts.Gate.Run.session_errors agent_receipts.Prelude.is_blank
    agent_receipts.Gate.Run.readiness_escape agent_receipts.Gate.Run.agents
    agent_receipts.Compile.Halt.dedupe_source_ids agent_receipts.Gate.Run.is_agent_record
    agent_receipts.Prelude.contains agent_receipts.Gate.Run.min_agents
    agent_receipts.Prelude.parse_usize
run_gate-exits_zero_example =
    run_gate-exits_zero inputs [] ([], finding ∷ []) [] (green ∷ []) finding "unit-tests" green refl
      refl refl (Memᴰ.head refl) (Memᴰ.head refl) refl IsLast-green
