-- ===== src/Receipts/Grown.antt =====
-- compiler/receipts.rs: loading a journal after an append.
use agent_receipts.Prelude.{◌≡◌, String, List, Option, ok}
use agent_receipts.Envelope.Types.{ExecutorKey}
use agent_receipts.Envelope.Keys.{Crypto}
use agent_receipts.Envelope.Receipt.{Build}
use agent_receipts.Receipts.Types.{VerifiedReceiptJournal, ReceiptJournalLine}
use agent_receipts.Receipts.Artifacts.{Files}
use agent_receipts.Receipts.Verify.{
  Serde, Progress, start, expected_run_id_of, load_journal_lines, verify_lines,
}
use agent_receipts.Receipts.Append.{Store}

-- What loading a store went through.
module _ (crypto : Crypto) (serde : Serde) (build : Build) (key : ExecutorKey) (files : Files)
    (manifest_run_id : Option String) where
  record IsLoaded (store : Store) (existing : VerifiedReceiptJournal) : Type 0 where
    lines : List ReceiptJournalLine
    lines_are : load_journal_lines crypto serde store.journal ≡ ok lines
    expected : String
    expected_is : expected_run_id_of manifest_run_id lines ≡ ok expected
    last : Progress
    last_is : verify_lines crypto serde files expected start lines ≡ ok last
    existing_is : record { records = last.records; verification = last.verification } ≡ existing
