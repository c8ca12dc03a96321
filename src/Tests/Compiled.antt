-- ===== src/Tests/Compiled.antt =====
-- What the compiler concludes of the small run.
use mathlib.Core.List.{Memᴰ}
use agent_receipts.Prelude.{
  ◌≡◌, ◌≢◌, refl, ◌↔◌, ◌⊎◌, String, List, [], ◌∷◌, none, some, ℕ, ◌+◌, ◌%◌, ◌^◌, lookup, IsLast,
  true, false, length, filter,
}
use agent_receipts.Schema.{EvidenceRecord, TrustAssessment}
use agent_receipts.Checks.Types.{ClaimBinding}
use agent_receipts.Resolutions.Types.{ResolutionRecord}
use agent_receipts.Compile.Latest.{
  has_label, latest_receipt_per_label, latest_receipt_per_label_iff,
}
use agent_receipts.Compile.Refutations.{
  refutation, IsRefuted, detect_receipt_refutations, detect_receipt_refutations_iff,
}
use agent_receipts.Compile.Facts.{
  fact_of, facts_from_evidence, facts_from_evidence_iff, IsPromotable,
}
use agent_receipts.Compile.Assess.{build_trust_assessments}
use agent_receipts.Compile.Status.{IsContested, build_trust_assessments-claim_status}
use agent_receipts.Compile.Coverage.{
  is_coverage_claim, compute_evidence_coverage, compute_evidence_coverage_balanced,
}
use agent_receipts.Compile.Settled.{IsSettled}
use agent_receipts.Compile.Worklist.{derive_worklist}
use agent_receipts.Compile.Halt.{halt_signals_from_state}
use agent_receipts.Compile.Ready.{halt_signals-is_ready_iff}
use agent_receipts.Tests.Data.{noon, claim, finding, green, red, binding, conflict}

latest_receipt_per_label_iff_example : IsLast (has_label "unit-tests") (green ∷ red ∷ []) red
unfolding latest_receipt_per_label
latest_receipt_per_label_iff_example =
    (latest_receipt_per_label_iff (green ∷ red ∷ []) "unit-tests" red).0 refl

detect_receipt_refutations_iff_example :
    IsRefuted (finding ∷ []) (green ∷ red ∷ []) (refutation finding "unit-tests" red)
unfolding detect_receipt_refutations latest_receipt_per_label
detect_receipt_refutations_iff_example =
    (detect_receipt_refutations_iff (finding ∷ []) (green ∷ red ∷ [])
        (refutation finding "unit-tests" red)).0
      (Memᴰ.head refl)

abbrev pub no_cast : ℕ → ℕ
no_cast bits = bits

abbrev pub bindings : List (String × ClaimBinding)
bindings = ("ev-1", binding) ∷ []

facts_from_evidence_iff_example :
    (item : EvidenceRecord) × Memᴰ item (claim ∷ [])
    × IsPromotable (conflict ∷ []) bindings item
    × (fact_of no_cast item "attested" ≡ fact_of no_cast claim "attested")
unfolding facts_from_evidence agent_receipts.Prelude.contains
    agent_receipts.Compile.Facts.contradicted_ids agent_receipts.Compile.Facts.is_attested
facts_from_evidence_iff_example =
    (facts_from_evidence_iff no_cast (claim ∷ []) (conflict ∷ []) bindings
        (fact_of no_cast claim "attested")).0
      (Memᴰ.head refl)

abbrev claim_assessment : TrustAssessment
claim_assessment = record {
  subject_id = "ev-1";
  integrity = "hash_verified";
  outcome = "passed";
  applicability = "current";
  claim_status = "verified";
  verifier_independent = false;
}

build_trust_assessments-claim_status_example :
    ((claim_assessment.claim_status ≡ "verified") ↔ (
      (item : EvidenceRecord) × Memᴰ item (claim ∷ [])
      × (item.id ≡ "ev-1")
      × IsPromotable (conflict ∷ []) bindings item))
    × ((claim_assessment.claim_status ≡ "refuted") ↔ IsContested (conflict ∷ []) bindings "ev-1")
    × ((claim_assessment.claim_status ≡ "verified")
        ⊎ (claim_assessment.claim_status ≡ "refuted")
        ⊎ (claim_assessment.claim_status ≡ "asserted"))
unfolding facts_from_evidence build_trust_assessments agent_receipts.Compile.Assess.assess
    agent_receipts.Compile.Assess.claim_status agent_receipts.Prelude.contains
    agent_receipts.Compile.Facts.contradicted_ids agent_receipts.Compile.Assess.fact_by_subject
    agent_receipts.Compile.Facts.is_attested agent_receipts.Compile.Assess.fact_entry
    agent_receipts.Prelude.strip_prefix fact_of
build_trust_assessments-claim_status_example =
    build_trust_assessments-claim_status no_cast (claim ∷ []) (conflict ∷ []) bindings
      claim_assessment (Memᴰ.head refl)

compute_evidence_coverage_balanced_example :
    let c = compute_evidence_coverage (claim ∷ []) (claim_assessment ∷ []) in
    (c.total_claims ≡ length (filter is_coverage_claim (claim ∷ [])) % 2 ^ 32)
    × ((c.verified_claims + c.verifier_backed_claims + c.asserted_claims + c.refuted_claims)
          % 2 ^ 32
        ≡ c.total_claims)
compute_evidence_coverage_balanced_example =
    compute_evidence_coverage_balanced (claim ∷ []) (claim_assessment ∷ [])

abbrev resolution : ResolutionRecord
resolution = record {
  id = "res-0001";
  target_id = "con:auto:1";
  reason = "the first summary is right";
  cite = none;
  resolved_at = noon;
  writer = "receipts";
  prev_record_hash = "";
  record_hash = "";
}

halt_signals-is_ready_iff_example :
    IsSettled (claim ∷ []) (finding ∷ []) (conflict ∷ []) (resolution ∷ [])
unfolding halt_signals_from_state derive_worklist agent_receipts.Compile.Halt.has_passed
    agent_receipts.Compile.Worklist.is_blocker agent_receipts.Compile.Worklist.is_open_finding
    agent_receipts.Prelude.contains agent_receipts.Compile.Worklist.resolved_by
    agent_receipts.Compile.Worklist.work_order agent_receipts.Compile.Worklist.adjudicate_item
    agent_receipts.Compile.Worklist.verify_claim_item
    agent_receipts.Compile.Halt.is_unresolved_blocking
halt_signals-is_ready_iff_example =
    (halt_signals-is_ready_iff (claim ∷ []) (finding ∷ []) (conflict ∷ []) [] (resolution ∷ [])
        noon).0
      refl
