-- ===== src/Tests/Claimed.antt =====
-- One check with a passing attempt: the claim is current, and its fact is trusted.
use mathlib.Core.List.{Memᴰ}
use agent_receipts.Prelude.{
  ◌≡◌, refl, ◌↔◌, Bool, true, String, List, [], ◌∷◌, Option, none, some, Result, ok, map, texts_eq,
}
use agent_receipts.Prelude.Int.{pos}
use agent_receipts.Schema.{ReceiptRecord}
use agent_receipts.Checks.Types.{CheckDefinition, CheckManifest, CheckAttemptRecord}
use agent_receipts.Checks.Current.{BindingSnapshot, claim_binding, verdict, is_eligible, bind_claim}
use agent_receipts.Checks.Applicable.{Backs, claim_binding-current_iff}
use agent_receipts.Checks.Backed.{
  IsReceipted, HasControl, verify_attempt_receipts, verify_attempt_receipts_iff,
}
use agent_receipts.Compile.Facts.{fact_of, facts_from_evidence}
use agent_receipts.Compile.Claims.{bind_claims, IsExecuted, facts_from_evidence-IsExecuted}
use agent_receipts.Checks.Manifest.{validate_manifest}
use agent_receipts.Checks.Valid.{IsWellFormed, AreDistinct, validate_manifest_iff}
use agent_receipts.Tests.Data.{noon, claim, binding, receipt_of, conflict}
use agent_receipts.Tests.Compiled.{no_cast, bindings}

abbrev check : CheckDefinition
check = record {
  id = "check-1";
  version = "1";
  command = "cargo" ∷ "test" ∷ [];
  covered_paths = "src/lib.rs" ∷ [];
  eligible_claim_kinds = "root-cause" ∷ [];
  environment_class = "local";
  target_claims = "ev-1" ∷ [];
  negative_control_command = none;
  negative_control_expected_signature = none;
}

abbrev checks : CheckManifest
checks = record { manifest_version = 1; checks = check ∷ [] }

abbrev attempt : CheckAttemptRecord
attempt = record {
  format_version = "1";
  id = "check-attempt-0001";
  check_id = "check-1";
  check_version = "1";
  target_claims = "ev-1" ∷ [];
  covered_paths = "src/lib.rs" ∷ [];
  subject_digest = "s";
  dependency_lock_digest = "l";
  command_digest = "digest";
  definition_digest = "d";
  environment_class = "local";
  environment_digest = "e";
  outcome = "passed";
  failure_signature = none;
  primary_receipt_id = "rcpt-0003";
  negative_control_receipt_id = none;
  negative_control_outcome = none;
  attempted_at = noon;
  prev_record_hash = "";
  record_hash = "";
}

abbrev work_tree : CheckDefinition → Option BindingSnapshot
work_tree c = some (record {
  covered_paths = c.covered_paths;
  subject_digest = "s";
  dependency_lock_digest = "l";
  command_digest = "digest";
  definition_digest = "d";
  environment_digest = "e";
})

abbrev declared : Option (Result String (Option CheckManifest))
declared = some (ok (some checks))

abbrev digest : List String → String
digest command = "digest"

abbrev run_receipt : ReceiptRecord
run_receipt = receipt_of "rcpt-0003" "check:check-1" (pos 0)

claim_binding-current_iff_example : (binding.applicability ≡ "current") ↔ (
    (m : CheckManifest) × (declared ≡ some (ok (some m)))
    × Backs work_tree (attempt ∷ []) m "ev-1" "root-cause" binding)
unfolding claim_binding bind_claim is_eligible agent_receipts.Prelude.contains verdict texts_eq
claim_binding-current_iff_example =
    claim_binding-current_iff work_tree (attempt ∷ []) declared "ev-1" "root-cause" binding refl

verify_attempt_receipts_iff_example :
    IsReceipted digest (run_receipt ∷ []) attempt
    × HasControl digest (run_receipt ∷ []) attempt none none
unfolding verify_attempt_receipts agent_receipts.Prelude.for_each
    agent_receipts.Checks.Backed.verify_primary agent_receipts.Checks.Backed.verify_control
verify_attempt_receipts_iff_example =
    (verify_attempt_receipts_iff digest (run_receipt ∷ []) (attempt ∷ [])).0 refl attempt
      (Memᴰ.head refl)

facts_from_evidence-IsExecuted_example :
    IsExecuted work_tree declared
      (attempt ∷ [])
      digest
      (run_receipt ∷ [])
      no_cast
      (claim ∷ [])
      (fact_of no_cast claim "attested")
unfolding verify_attempt_receipts bind_claims facts_from_evidence agent_receipts.Prelude.for_each
    agent_receipts.Checks.Backed.verify_primary agent_receipts.Checks.Backed.verify_control
    claim_binding bind_claim is_eligible agent_receipts.Prelude.contains verdict texts_eq
    agent_receipts.Compile.Facts.contradicted_ids agent_receipts.Compile.Facts.is_attested
facts_from_evidence-IsExecuted_example =
    facts_from_evidence-IsExecuted work_tree declared (attempt ∷ []) digest (run_receipt ∷ [])
      no_cast (claim ∷ []) (conflict ∷ []) bindings (fact_of no_cast claim "attested") refl refl
      (Memᴰ.head refl)

validate_manifest_iff_example :
    (checks.manifest_version ≡ 1)
    × ((c : CheckDefinition) → Memᴰ c checks.checks → IsWellFormed c)
    × AreDistinct (map (λ c. c.id) checks.checks)
unfolding validate_manifest agent_receipts.Checks.Manifest.is_check_id
    agent_receipts.Prelude.contains agent_receipts.Checks.Manifest.has_empty_field
    agent_receipts.Prelude.for_each agent_receipts.Checks.Manifest.escapes
    agent_receipts.Checks.Manifest.is_complete_control
validate_manifest_iff_example = (validate_manifest_iff checks).0 refl
