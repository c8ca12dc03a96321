-- ===== src/Tests/Counted.antt =====
-- Attempts of checks and their histories, the lock, recurring failures and the public counts.
use mathlib.Core.List.{Memᴰ}
use agent_receipts.Prelude.{
  ℕ, suc, ◌≤◌, ◌<◌, ◌≡◌, ◌↔◌, refl, arith, String, List, [], ◌∷◌, ◌++◌, Bool, true, leb, Option,
  none, some, Result, ok, err, length,
}
use agent_receipts.Prelude.Int.{pos}
use agent_receipts.Schema.{
  VerifierFinding, RecurringFailurePattern, CheckHistory, TrustAssessment, ReceiptEvent,
  NextPassPacket,
}
use agent_receipts.Journal.Hash.{as_bytes}
use agent_receipts.Checks.Types.{CheckAttemptRecord}
use agent_receipts.Checks.Attempts.{AttemptJournalError, append_attempt}
use agent_receipts.Checks.History.{build_check_histories, history_of}
use agent_receipts.Checks.Bounded.{IsHistory, build_check_histories-IsHistory, history_of_attempt}
use agent_receipts.Public.Counts.{build_public_projection}
use agent_receipts.Public.Conserved.{IsConserved, build_public_projection-IsConserved}
use agent_receipts.Public.Signals.{
  detect_recurring_failure_patterns, detect_recurring_failure_patterns_iff,
}
use agent_receipts.Tests.Data.{packet}
use agent_receipts.Tests.Keys.{toy}
use agent_receipts.Tests.Codec.{put_nat, get_nat}
use agent_receipts.Tests.Records.{attempt_record}

abbrev attempt : String → String → CheckAttemptRecord
attempt check_id outcome = record {
  format_version = "1";
  id = "";
  check_id = check_id;
  check_version = "1";
  target_claims = "ev-1" ∷ [];
  covered_paths = "src" ∷ [];
  subject_digest = "s";
  dependency_lock_digest = "d";
  command_digest = "c";
  definition_digest = "f";
  environment_class = "local";
  environment_digest = "e";
  outcome = outcome;
  failure_signature = none;
  primary_receipt_id = "rcpt-0001";
  negative_control_receipt_id = none;
  negative_control_outcome = none;
  attempted_at = "t";
  prev_record_hash = "";
  record_hash = "";
}

abbrev attempt_vec : CheckAttemptRecord → Option (List ℕ)
attempt_vec a = some (as_bytes a.id)

abbrev attempt_line : CheckAttemptRecord → Option String
attempt_line a = some (put_nat 0 (attempt_record.put a ""))

abbrev attempt_of_line : String → Option CheckAttemptRecord
attempt_of_line line = get_nat line (λ n rest. attempt_record.get rest (λ a more. some a))

abbrev written : Result AttemptJournalError (CheckAttemptRecord × List String)
written =
    append_attempt attempt_vec attempt_line attempt_of_line toy.blake3 [] (attempt "unit" "passed")

abbrev done_or :
    Result AttemptJournalError (CheckAttemptRecord × List String) → CheckAttemptRecord × List String
done_or (ok done) = done
done_or (err _) = (attempt "" "", [])

abbrev failed_then_passed : List CheckAttemptRecord
failed_then_passed =
    attempt "unit" "failed" ∷ attempt "lint" "passed" ∷ attempt "unit" "passed" ∷ []

-- A rate that is not computed here.
abbrev rate : ℕ → ℕ → ℕ
rate failed all = failed

history_of_attempt_example :
    (history : CheckHistory) × Memᴰ history (build_check_histories rate failed_then_passed)
    × (history.check_id ≡ "unit")
history_of_attempt_example =
    history_of_attempt rate failed_then_passed (attempt "unit" "failed") (Memᴰ.head refl)

abbrev unit_history : CheckHistory
unit_history =
    history_of rate "unit" (attempt "unit" "failed" ∷ attempt "unit" "passed" ∷ [])
      (attempt "unit" "failed") (attempt "unit" "passed")

build_check_histories-IsHistory_example : IsHistory failed_then_passed unit_history
unfolding build_check_histories agent_receipts.Prelude.once agent_receipts.Prelude.contains
build_check_histories-IsHistory_example =
    build_check_histories-IsHistory rate failed_then_passed unit_history (omega arith)
      (Memᴰ.tail (Memᴰ.head refl))

abbrev finding : String → String → VerifierFinding
finding id status = record {
  id = id;
  summary = "Build failed";
  status = status;
  verifier_score = 0;
  source_ids = "src-1" ∷ [];
  source_refs = [];
  agent_id = none;
  lane = none;
  closure_reason = none;
  finding_kind = none;
  claimed_agent_id = none;
  claimed_lane = none;
  provenance_warnings = [];
}

abbrev findings : List VerifierFinding
findings = finding "v1" "failed" ∷ finding "v2" "warning" ∷ []

detect_recurring_failure_patterns_iff_example :
    (recurring : RecurringFailurePattern) × Memᴰ recurring
      (detect_recurring_failure_patterns findings "now")
    × (recurring.summary ≡ "Build failed")
detect_recurring_failure_patterns_iff_example =
    (detect_recurring_failure_patterns_iff findings "now").1 "Build failed" (omega arith)

abbrev assessment : String → TrustAssessment
assessment status = record {
  subject_id = "ev-1";
  integrity = "signed";
  outcome = "passed";
  applicability = "current";
  claim_status = status;
  verifier_independent = true;
}

abbrev event : ReceiptEvent
event = record {
  receipt_id = "rcpt-0001";
  label = none;
  integrity = "signed";
  outcome = "passed";
  exit_code = pos 0;
  attempts_for_label = 1;
}

abbrev counted_packet : NextPassPacket
counted_packet =
    let p = packet in
    record (p) {
      trust_assessments = assessment "verified" ∷ assessment "odd" ∷ [];
      receipt_events = event ∷ [];
      check_histories = unit_history ∷ [];
    }

build_public_projection-IsConserved_example :
    IsConserved counted_packet (build_public_projection counted_packet [])
build_public_projection-IsConserved_example =
    build_public_projection-IsConserved counted_packet [] (omega arith) (omega arith) (omega arith)
