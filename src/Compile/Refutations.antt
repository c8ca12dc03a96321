-- ===== src/Compile/Refutations.antt =====
-- compiler/run_dir.rs, `detect_receipt_refutations`: a passed finding that cites a label whose last
-- receipt failed is contradicted by execution.
use mathlib.Core.List.{Memᴰ}
use agent_receipts.Prelude.{
  ◌≡◌, ◌↔◌, false, String, List, [], ◌∷◌, Option, none, some, eq_iff, ◌==◌, filter, inl, inr, arith,
  Option-cases, filter_map, flat_map, mem-filter, mem-filter_map, mem-flat_map, format, join,
  lookup, IsLast, if◌then◌else◌,
}
use agent_receipts.Prelude.Int.{is_zero, decimal_i64}
use agent_receipts.Schema.{ReceiptRecord, VerifierFinding, Contradiction}
use agent_receipts.Compile.Latest.{
  has_label, latest_receipt_per_label, latest_receipt_per_label_iff,
}

-- The contradiction that a failed receipt raises against a finding.
unfoldable pub refutation : VerifierFinding → String → ReceiptRecord → Contradiction
refutation finding source_id receipt = record {
  id = format ("con:receipt:" ∷ finding.id ∷ ":" ∷ receipt.id ∷ []);
  summary = format (
      "Verifier finding "
      ∷ finding.id
      ∷ " claims \""
      ∷ source_id
      ∷ "\" passed, but receipt "
      ∷ receipt.id
      ∷ " ran `"
      ∷ join " " receipt.cmd
      ∷ "` and it exited "
      ∷ decimal_i64 receipt.exit_code
      ∷ " - the claim is refuted by execution"
      ∷ []);
  conflicting_item_ids = finding.id ∷ [];
  severity = "high";
  source_ids = format ("receipt:" ∷ receipt.id ∷ []) ∷ format ("verifier:" ∷ finding.id ∷ []) ∷ [];
  source_refs = none;
}

-- The body of the inner loop, for one cited source.
refute_source : List (String × ReceiptRecord) → VerifierFinding → String → Option Contradiction
refute_source latest finding source_id = elim (lookup source_id latest) [
  | none ↦ none
  | some receipt ↦
      if is_zero receipt.exit_code then none else some (refutation finding source_id receipt)
]

unfoldable pub detect_receipt_refutations :
    List VerifierFinding → List ReceiptRecord → List Contradiction
unfolding refute_source
detect_receipt_refutations findings receipts =
    let latest = latest_receipt_per_label receipts in
    flat_map (λ finding. filter_map (refute_source latest finding) finding.source_ids)
      (filter (λ finding. finding.status == "passed") findings)

-- A passed finding cites a label, and the last receipt of that label failed.
pub record IsRefuted (findings : List VerifierFinding) (receipts : List ReceiptRecord)
    (c : Contradiction) : Type 0 where
  pub finding : VerifierFinding
  pub label : String
  pub receipt : ReceiptRecord
  pub is_finding : Memᴰ finding findings
  pub passed : finding.status ≡ "passed"
  pub cited : Memᴰ label finding.source_ids
  pub is_last : IsLast (has_label label) receipts receipt
  pub failed : is_zero receipt.exit_code ≡ false
  pub raised : c ≡ refutation finding label receipt

refute_source_iff :
    (receipts : List ReceiptRecord) (f : VerifierFinding) (label : String) (c : Contradiction)
    → (refute_source (latest_receipt_per_label receipts) f label ≡ some c) ↔ (
        (r : ReceiptRecord) × IsLast (has_label label) receipts r
        × (is_zero r.exit_code ≡ false)
        × (c ≡ refutation f label r))
unfolding refute_source
refute_source_iff receipts f label c = (found, raised)
  where
    latest : List (String × ReceiptRecord)
    latest = latest_receipt_per_label receipts

    found :
        refute_source latest f label ≡ some c
        → (r : ReceiptRecord) × IsLast (has_label label) receipts r
          × (is_zero r.exit_code ≡ false)
          × (c ≡ refutation f label r)
    found h = elim (Option-cases (lookup label latest)) [
      | inl e ↦ absurd (ground arith)
      | inr k ↦
          let failed : is_zero k.0.exit_code ≡ false = ground arith in
          (k.0, (latest_receipt_per_label_iff receipts label k.0).0 k.1, failed, ground arith)
    ]

    raised :
        (r : ReceiptRecord) × IsLast (has_label label) receipts r
          × (is_zero r.exit_code ≡ false)
          × (c ≡ refutation f label r)
        → refute_source latest f label ≡ some c
    raised h = let held = (latest_receipt_per_label_iff receipts label h.0).1 h.1 in ground arith

-- Soundness and completeness: the refutations are those of the passed findings that cite a label
-- whose last receipt has a non-zero exit code, and no others.
pub detect_receipt_refutations_iff :
    (findings : List VerifierFinding) (receipts : List ReceiptRecord) (c : Contradiction)
    → Memᴰ c (detect_receipt_refutations findings receipts) ↔ IsRefuted findings receipts c
unfolding detect_receipt_refutations
detect_receipt_refutations_iff findings receipts c = (
  λ m.
      let a = (mem-flat_map _).0 m in
      let b = (mem-filter_map _).0 a.2 in
      let kept = (mem-filter _).0 a.1 in
      let r = (refute_source_iff receipts a.0 b.0 c).0 b.2 in
      record {
        finding = a.0;
        label = b.0;
        receipt = r.0;
        is_finding = kept.0;
        passed = (eq_iff a.0.status "passed").0 kept.1;
        cited = b.1;
        is_last = r.1;
        failed = r.2;
        raised = r.3;
      },
  λ w. (mem-flat_map _).1 (
    w.finding,
    (mem-filter _).1 (w.is_finding, (eq_iff w.finding.status "passed").1 w.passed),
    (mem-filter_map _).1 (
      w.label,
      w.cited,
      (refute_source_iff receipts w.finding w.label c).1 (w.receipt, w.is_last, w.failed, w.raised),
    ),
  ),
)
