-- ===== src/Tests/Conflicting.antt =====
-- Two workers disagree about one file.
use mathlib.Core.List.{Memᴰ}
use agent_receipts.Prelude.{◌≡◌, refl, String, List, [], ◌∷◌, none, some, true}
use agent_receipts.Schema.{EvidenceRecord, Contradiction}
use agent_receipts.Conflicts.Detect.{is_conflict, contradiction_id, detect_auto_contradictions}
use agent_receipts.Conflicts.Disagree.{IsConflict, is_conflict_iff}
use agent_receipts.Conflicts.Found.{detect_auto_contradictions_iff}
use agent_receipts.Tests.Data.{noon, claim, file_source}

abbrev rival : EvidenceRecord
rival = record {
  id = "ev-0";
  kind = "root-cause";
  summary = "a lock is taken twice";
  source_ids = "file:src/lib.rs" ∷ [];
  source_refs = file_source "file:src/lib.rs" ∷ [];
  observed_at = noon;
  agent_id = some "agent-b";
  lane = some "lane-b";
  reported_confidence = none;
  rationale = none;
  diff_ref = none;
  span_before = none;
  span_after = none;
  claimed_agent_id = none;
  claimed_lane = none;
  provenance_warnings = [];
}

abbrev bystander : EvidenceRecord
bystander = record (rival) { id = "ev-2"; source_ids = [] }

claim-rival-IsConflict : IsConflict claim rival
unfolding is_conflict agent_receipts.Conflicts.Detect.is_harvested_prose
    agent_receipts.Conflicts.Detect.is_infrastructure_kind
    agent_receipts.Conflicts.Detect.is_non_contradicting_pair
    agent_receipts.Conflicts.Detect.direct_source_set agent_receipts.Conflicts.Detect.shared_sources
    agent_receipts.Conflicts.Detect.distinct_texts agent_receipts.Prelude.contains
    agent_receipts.Conflicts.Detect.different_attribution
    agent_receipts.Conflicts.Tokens.is_overlap_below_half agent_receipts.Conflicts.Tokens.tokens
claim-rival-IsConflict = (is_conflict_iff claim rival).0 refl

-- The two records of the conflict, with another one between them.
detect_auto_contradictions_iff_example :
    (c : Contradiction) × Memᴰ c (detect_auto_contradictions (claim ∷ bystander ∷ rival ∷ []))
    × (c.id ≡ contradiction_id claim.id rival.id)
detect_auto_contradictions_iff_example =
    (detect_auto_contradictions_iff (claim ∷ bystander ∷ rival ∷ [])).1 claim rival
      (record { front = []; middle = bystander ∷ []; back = []; is_split = refl })
      claim-rival-IsConflict
