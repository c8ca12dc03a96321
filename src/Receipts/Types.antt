-- ===== src/Receipts/Types.antt =====
-- compiler/receipts.rs: the lines of the journal, what verifying it returns, and the errors.
use agent_receipts.Prelude.{ℕ, String, List, Option}
use agent_receipts.Schema.{ReceiptRecord}
use agent_receipts.Envelope.Types.{SignedEngineIdentity, SignedReceiptEnvelope, EnvelopeError}

pub record ReceiptVerification : Type 0 where
  pub integrity : String
  pub hash_alg : String
  pub principal_id : Option String
  pub engine : Option SignedEngineIdentity

-- `verification` is a map by the record's id.
pub record VerifiedReceiptJournal : Type 0 where
  pub records : List ReceiptRecord
  pub verification : List (String × ReceiptVerification)

pub data ReceiptJournalLine : Type 0 where
  legacy : ReceiptRecord → ReceiptJournalLine
  signed : SignedReceiptEnvelope → ReceiptJournalLine

-- Why a journal is refused; the number is that of the line or of the entry.
pub data JournalError : Type 0 where
  invalid_json invalid_envelope invalid_record : ℕ → JournalError
  no_run_id lock_timeout unprintable_envelope : JournalError
  downgrade run_mismatch signed_chain_broken payload_mismatch : ℕ → JournalError
  content_mismatch link_mismatch : ℕ → String → JournalError
  refused : EnvelopeError → JournalError
  invalid_digest missing_artifact irregular_artifact artifact_mismatch :
      String → String → JournalError
  artifact_collision : String → JournalError
  missing_trust : String → JournalError
