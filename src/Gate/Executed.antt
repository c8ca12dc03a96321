-- ===== src/Gate/Executed.antt =====
-- compiler/gate.rs with compiler/run_dir.rs: what a green gate says of the receipts.
use mathlib.Core.List.{Memᴰ}
use mathlib.Core.List.Memᴰ
use Prim.Native.String.{◌++◌ as append}
use agent_receipts.Prelude.{
  ◌≡◌, refl, sym, ◌∙◌, false, starts_with, ok, subst, inl, inr, true, String, List,
  starts_with-append, mem-sort_by, Bool-cases, IsLast,
}
use agent_receipts.Prelude.Int.{is_zero}
use agent_receipts.Schema.{EvidenceRecord, ReceiptRecord, VerifierFinding, Contradiction}
use agent_receipts.Compile.Latest.{has_label}
use agent_receipts.Compile.Refutations.{
  refutation, detect_receipt_refutations, detect_receipt_refutations_iff,
}
use agent_receipts.Compile.Contradictions.{exec_receipts, by_id, packet_contradictions}
use agent_receipts.Compile.Temporal.{version_temporal_file_sources}
use agent_receipts.Compile.Versioned.{version_temporal-kept}
use agent_receipts.Gate.Run.{GateInputs, is_receipt_refutation, run_gate}
use agent_receipts.Gate.Release.{run_gate-ok_iff}

refutation-is_receipt_refutation :
    (f : VerifierFinding) (label : String) (r : ReceiptRecord)
    → is_receipt_refutation (refutation f label r) ≡ true
unfolding refutation
refutation-is_receipt_refutation f label r =
    starts_with-append "con:receipt:" (append f.id (append ":" r.id))

-- The refutations of the run are among the contradictions of the packet.
mem-packet_contradictions :
    (detected : List Contradiction) (findings : List VerifierFinding)
    (receipts : List ReceiptRecord) (c : Contradiction)
    → Memᴰ c (detect_receipt_refutations findings (exec_receipts receipts))
    → Memᴰ c (packet_contradictions detected findings receipts)
unfolding packet_contradictions
mem-packet_contradictions detected findings receipts c m =
    (mem-sort_by by_id _).1 (Memᴰ.append_right detected m)

-- A green gate over a compiled packet: whenever a finding cites a label that is not a file's id, the
-- label's last execution receipt exited with 0. The packet is compiled when its contradictions are
-- those of the run, whose findings were versioned before.
pub run_gate-exits_zero :
    (i : GateInputs) (evidence : List EvidenceRecord)
    (versioned : List EvidenceRecord × List VerifierFinding) (detected : List Contradiction)
    (receipts : List ReceiptRecord) (f : VerifierFinding) (label : String) (r : ReceiptRecord)
    → version_temporal_file_sources evidence i.findings ≡ ok versioned
    → i.packet.contradictions ≡ packet_contradictions detected versioned.1 receipts
    → (run_gate i).ok ≡ true
    → Memᴰ f i.findings
    → Memᴰ label f.source_ids
    → starts_with label "file:" ≡ false
    → IsLast (has_label label) (exec_receipts receipts) r
    → is_zero r.exit_code ≡ true
run_gate-exits_zero i evidence versioned detected receipts f label r read compiled green m cited
      other last =
    elim (Bool-cases (is_zero r.exit_code)) [
      | inl e ↦ e
      | inr e ↦
          let release = ((run_gate-ok_iff i).0 green).verdicts in
          let g = version_temporal-kept evidence i.findings versioned f label read m cited other in
          let c = refutation g.0 label r in
          let raised =
            (detect_receipt_refutations_iff versioned.1 (exec_receipts receipts) c).1 (record {
              finding = g.0;
              label = label;
              receipt = r;
              is_finding = g.1;
              passed = g.2 ∙ release.findings_passed f m;
              cited = g.3;
              is_last = last;
              failed = e;
              raised = refl;
            }) in
          let held =
            subst (Memᴰ c) (sym compiled)
              (mem-packet_contradictions detected versioned.1 receipts c raised) in
          absurd (cc (release.unrefuted c held, refutation-is_receipt_refutation g.0 label r))
    ]
