-- ===== src/Tests/Packets.antt =====
-- The validated packet, the snapshot and the small policies at concrete inputs.
use agent_receipts.Prelude.{◌≡◌, refl, ◌↔◌, String, List, [], ◌∷◌, none, some, true, false, ◌≤◌}
use agent_receipts.Schema.{Snapshot}
use agent_receipts.Packet.Build.{
  CompilerInputBundle, build_next_pass_packet, packet_of, build_next_pass_packet_iff,
}
use agent_receipts.Packet.Validate.{validate_packet_sources}
use agent_receipts.Packet.Sourced.{IsSourced, validate_packet_sources_iff}
use agent_receipts.Policy.Trust.{
  TrustDecision, PacketizableItem, assess_packet_item, assess_packet_item_iff,
}
use agent_receipts.Policy.Promotion.{
  PromotionCandidate, promotion_record_from_candidate, promotion_record_from_candidate_iff,
}
use agent_receipts.Snapshots.{IsClosed, build_snapshot, build_snapshot_iff}
use mathlib.Core.List.{Memᴰ}
use mathlib.Core.List.Memᴰ
use agent_receipts.Schema.{SourceRef}
use agent_receipts.Tests.Data.{noon, claim, packet, ready, file_source}

validate_packet_sources_iff_example : IsSourced packet
unfolding validate_packet_sources agent_receipts.Prelude.for_each
    agent_receipts.Packet.Validate.validate_record_local_source_refs agent_receipts.Prelude.contains
    agent_receipts.Packet.Validate.is_direct_source_id
    agent_receipts.Packet.Validate.validate_source_ids
    agent_receipts.Packet.Validate.source_registry
validate_packet_sources_iff_example = (validate_packet_sources_iff packet).0 refl

abbrev bundle : CompilerInputBundle
bundle = record {
  objective_id = "obj-1";
  run_id = "run-1";
  branch_id = "main";
  pass_id = "pass-0002";
  objective = "fix the parser";
  evidence = claim ∷ [];
  trusted_facts = [];
  active_hypotheses = [];
  contradictions = [];
  recurring_failure_patterns = [];
  candidate_actions = [];
  verifier_findings = [];
  open_questions = [];
  raw_drilldown_refs = [];
  halt_signals = ready ∷ [];
  sources = file_source "file:src/lib.rs" ∷ file_source "raw:objective.md" ∷ [];
  lane_digests = [];
  trust_assessments = [];
  receipt_events = [];
  evidence_coverage = record {
    total_claims = 1;
    verified_claims = 1;
    verifier_backed_claims = 0;
    asserted_claims = 0;
    refuted_claims = 0;
  };
  check_histories = [];
}

build_next_pass_packet_iff_example :
    IsSourced (packet_of bundle) × (packet_of bundle ≡ packet_of bundle)
unfolding build_next_pass_packet validate_packet_sources agent_receipts.Prelude.for_each packet_of
    agent_receipts.Packet.Validate.validate_record_local_source_refs agent_receipts.Prelude.contains
    agent_receipts.Packet.Validate.is_direct_source_id
    agent_receipts.Packet.Validate.validate_source_ids
    agent_receipts.Packet.Validate.source_registry
build_next_pass_packet_iff_example = (build_next_pass_packet_iff bundle (packet_of bundle)).0 refl

abbrev log_line : PacketizableItem
log_line = record {
  kind = "log";
  contains_secret = false;
  contains_pii = false;
  needs_raw_drilldown = true;
}

assess_packet_item_iff_example :
    (((assess_packet_item log_line).decision ≡ TrustDecision.allow)
      ↔ ((false ≡ false) × (false ≡ false) × (true ≡ false)))
    × (((assess_packet_item log_line).decision ≡ TrustDecision.deny) ↔ (false ≡ true))
assess_packet_item_iff_example = assess_packet_item_iff log_line

abbrev candidate : PromotionCandidate
candidate = record {
  id = "p-1";
  kind = "fact";
  source_ids = "file:src/lib.rs" ∷ [];
  repeated_utility_count = 2;
  verifier_support = true;
  conflict_count = 0;
}

promotion_record_from_candidate_iff_example :
    (2 ≤ candidate.repeated_utility_count)
    × (candidate.verifier_support ≡ true)
    × (candidate.conflict_count ≡ 0)
unfolding promotion_record_from_candidate
promotion_record_from_candidate_iff_example =
    (promotion_record_from_candidate_iff candidate).0.0 refl

abbrev taken : Snapshot
taken = record {
  schema_version = "2.0.0";
  run_id = "run-1";
  pass_id = "pass-0002";
  branch_id = "main";
  created_at = noon;
  inputs =
      record {
        id = "input:task";
        kind = "task";
        summary = "fix";
        ref_ids = "raw:objective.md" ∷ [];
      }
      ∷ [];
  worker_results =
      record {
        id = "worker:1";
        worker = "w";
        status = "ok";
        output_ids = "raw:objective.md" ∷ [];
        notes = "";
      }
      ∷ [];
  state_delta = [];
  artifact_refs = file_source "raw:objective.md" ∷ [];
}

build_snapshot_iff_example :
    IsClosed
      (record {
        id = "input:task";
        kind = "task";
        summary = "fix";
        ref_ids = "raw:objective.md" ∷ [];
      }
        ∷ [])
      (record {
        id = "worker:1";
        worker = "w";
        status = "ok";
        output_ids = "raw:objective.md" ∷ [];
        notes = "";
      }
        ∷ [])
      (file_source "raw:objective.md" ∷ [])
unfolding build_snapshot agent_receipts.Prelude.for_each agent_receipts.Prelude.contains
build_snapshot_iff_example =
    (build_snapshot_iff "run-1" "pass-0002" "main" noon
        (record {
          id = "input:task";
          kind = "task";
          summary = "fix";
          ref_ids = "raw:objective.md" ∷ [];
        }
          ∷ [])
        (record {
          id = "worker:1";
          worker = "w";
          status = "ok";
          output_ids = "raw:objective.md" ∷ [];
          notes = "";
        }
          ∷ [])
        [] (file_source "raw:objective.md" ∷ [])).0
      (taken, refl, refl, refl, refl)

abbrev observed_twice : List SourceRef
observed_twice = file_source "raw:a" ∷ file_source "file:b" ∷ file_source "raw:a" ∷ []

abbrev one_hash : String → String × String
one_hash id = ("00000000deadbeef", "fnv1a-64")
