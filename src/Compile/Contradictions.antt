-- ===== src/Compile/Contradictions.antt =====
-- compiler/run_dir.rs, `compile_run_dir`: the receipts that count for claims, and the contradictions
-- of the packet.
use agent_receipts.Prelude.{Bool, not, String, List, ◌++◌, filter, is_some_eq, sort_by, text_le}
use agent_receipts.Schema.{ReceiptRecord, VerifierFinding, Contradiction}
use agent_receipts.Compile.Refutations.{detect_receipt_refutations}

abbrev pub work_label : String
work_label = "work:tree"

-- The second half of the partition.
unfoldable pub exec_receipts : List ReceiptRecord → List ReceiptRecord
exec_receipts receipts = filter (λ receipt. not (is_some_eq receipt.label work_label)) receipts

abbrev pub by_id : Contradiction → Contradiction → Bool
by_id a b = text_le a.id b.id

-- `detected` is what `detect_auto_contradictions` finds in the evidence.
unfoldable pub packet_contradictions :
    List Contradiction → List VerifierFinding → List ReceiptRecord → List Contradiction
packet_contradictions detected verifier_findings receipts =
    sort_by by_id
      (detected ++ detect_receipt_refutations verifier_findings (exec_receipts receipts))
