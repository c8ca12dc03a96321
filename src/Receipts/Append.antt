-- ===== src/Receipts/Append.antt =====
-- compiler/receipts.rs: `append_receipt`, on the files that it reads and writes.
use agent_receipts.Prelude.{
  ℕ, suc, String, List, [], ◌∷◌, ◌++◌, Bool, Option, none, some, unwrap_or, if◌then◌else◌,
  get_last?, length, lookup, Result, ok, err, ◌>>=◌, ok_or,
}
use agent_receipts.Schema.{ReceiptRecord}
use agent_receipts.Journal.Lock.{acquire}
use agent_receipts.Envelope.Types.{DigestRef, ExecutorKey, EnvelopeError, SignedReceiptEnvelope}
use agent_receipts.Envelope.Keys.{Crypto}
use agent_receipts.Envelope.Receipt.{Build, sign_receipt_envelope}
use agent_receipts.Envelope.Head.{write_receipt_head}
use agent_receipts.Receipts.Types.{
  ReceiptVerification, VerifiedReceiptJournal, JournalError, lock_timeout, unprintable_envelope,
  missing_trust,
}
use agent_receipts.Receipts.Artifacts.{Files}
use agent_receipts.Receipts.Verify.{
  Serde, passed_on, receipt_id, genesis_ref, run_id, load_verified_receipt_journal,
}

-- The two files that an append changes: receipts.jsonl, as its lines, and signed-head.json.
pub record Store : Type 0 where
  pub journal : Option (List String)
  pub head : Option String

-- The digest of the last record, under the hash that its verification names.
abbrev pub ref_of :
    List (String × ReceiptVerification) → Option ReceiptRecord → Result JournalError DigestRef
ref_of verification none = ok genesis_ref
ref_of verification (some last) =
    ok_or (lookup last.id verification) (missing_trust last.id) >>= λ trust.
    ok (record { hash_alg = trust.hash_alg; digest = last.record_hash })

abbrev pub previous_of : VerifiedReceiptJournal → Result JournalError DigestRef
previous_of existing = ref_of existing.verification (get_last? existing.records)

-- The receipt as it is signed: numbered, linked, and without a hash.
abbrev pub numbered : ReceiptRecord → ℕ → DigestRef → ReceiptRecord
numbered r sequence previous = record (r) {
  id = receipt_id sequence;
  prev_record_hash = previous.digest;
  record_hash = "";
}

module _ (crypto : Crypto) (serde : Serde) (build : Build)
    (loaded : Result EnvelopeError ExecutorKey) (files : Files)
    (manifest_run_id : Option String) where
  abbrev pub load_store : Store → Result JournalError VerifiedReceiptJournal
  load_store store =
      load_verified_receipt_journal crypto serde files manifest_run_id store.head store.journal

  -- Up to the signature: nothing is written yet.
  unfoldable pub prepare_envelope :
      Store → ReceiptRecord → Result JournalError SignedReceiptEnvelope
  prepare_envelope store r = load_store store >>= λ existing. previous_of existing >>= λ previous.
      run_id manifest_run_id >>= λ run. passed_on (
        sign_receipt_envelope crypto serde.envelope_to_vec build loaded run
          (suc (length existing.records)) previous
          (numbered r (suc (length existing.records)) previous))

  -- The head is written after the line, so a head that fails leaves the line behind.
  unfoldable pub finish_head :
      SignedReceiptEnvelope
      → ReceiptRecord
      → List String
      → Store
      → Result EnvelopeError (Option String)
      → Result JournalError ReceiptRecord × Store
  finish_head envelope r lines store (err e) =
      (passed_on (err e), record { journal = some lines; head = store.head })
  finish_head envelope r lines store (ok head) = (
    ok (record (r) {
      id = envelope.payload.id;
      prev_record_hash = envelope.payload.prev_record_hash;
      record_hash = envelope.record_hash;
    }),
    record { journal = some lines; head = head },
  )

  -- The line is written at the end of the file, which is created if there is none.
  unfoldable pub write_line :
      SignedReceiptEnvelope
      → ReceiptRecord
      → Store
      → Option String
      → Result JournalError ReceiptRecord × Store
  unfolding finish_head
  write_line envelope r store none = (
    err unprintable_envelope,
    record { journal = some (unwrap_or store.journal []); head = store.head },
  )
  write_line envelope r store (some line) =
      finish_head envelope r (unwrap_or store.journal [] ++ line ∷ []) store
        (write_receipt_head crypto serde.head_to_string serde.head_of_slice loaded envelope)

  unfoldable pub append_prepared :
      ReceiptRecord
      → Store
      → Result JournalError SignedReceiptEnvelope
      → Result JournalError ReceiptRecord × Store
  unfolding write_line
  append_prepared r store (err e) = (err e, store)
  append_prepared r store (ok envelope) =
      write_line envelope r store (serde.envelope_to_string envelope)

  -- What is returned, and what the files hold then. The lock is released on every path behind it.
  unfoldable pub append_receipt :
      (ℕ → Bool) → Store → ReceiptRecord → Result JournalError ReceiptRecord × Store
  unfolding append_prepared
  append_receipt create_new store r =
      if acquire create_new
      then append_prepared r store (prepare_envelope store r)
      else (err lock_timeout, store)
