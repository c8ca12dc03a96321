-- ===== src/Receipts/Verify.antt =====
-- compiler/receipts.rs: loading the journal, and the loop that verifies it.
use agent_receipts.Prelude.{
  ℕ, suc, ◌+◌, String, List, [], ◌∷◌, ◌++◌, Bool, true, false, not, ◌&&◌, Option, none, some, ◌==◌,
  nat_eq, if◌then◌else◌, format, decimal4, is_blank, any, map, unwrap_or, Result, ok, err, ◌>>=◌,
  ◌>>◌, ensure, ok_or, insert,
}
use agent_receipts.Schema.{ReceiptRecord}
use agent_receipts.Journal.Hash.{as_bytes, fnv1a_hash, genesis}
use agent_receipts.Envelope.Types.{
  DigestRef, SignedReceiptEnvelope, SignedReceiptHead, EnvelopeError, digest_ref_eq,
}
use agent_receipts.Envelope.Keys.{Crypto}
use agent_receipts.Envelope.Receipt.{verify_receipt_envelope}
use agent_receipts.Envelope.Head.{verify_receipt_head}
use agent_receipts.Receipts.Types.{
  ReceiptVerification, VerifiedReceiptJournal, ReceiptJournalLine, legacy, signed, JournalError,
  invalid_json, invalid_envelope, invalid_record, no_run_id, downgrade, run_mismatch,
  signed_chain_broken, payload_mismatch, content_mismatch, link_mismatch, refused,
}
use agent_receipts.Receipts.Artifacts.{Files, verify_signed_artifacts}

-- An error of crypto.rs, passed on by `?`.
unfoldable pub passed_on {ℓ} : {A : Type ℓ} → Result EnvelopeError A → Result JournalError A
passed_on (err e) = err (refused e)
passed_on (ok a) = ok a

-- serde_json on what the journal holds. A line is parsed as a value, then read as one of the two.
pub record Serde : Type 1 where
  pub Value : Type 0
  pub of_line : String → Option Value
  pub has_format_version : Value → Bool
  pub to_envelope : Value → Option SignedReceiptEnvelope
  pub to_record : Value → Option ReceiptRecord
  pub record_to_string : ReceiptRecord → Option String
  pub envelope_to_string : SignedReceiptEnvelope → Option String
  pub envelope_to_vec : SignedReceiptEnvelope → Option (List ℕ)
  pub head_to_string : SignedReceiptHead → Option String
  pub head_of_slice : String → Option SignedReceiptHead

abbrev pub receipt_id : ℕ → String
receipt_id sequence = format ("rcpt-" ∷ decimal4 sequence ∷ [])

abbrev pub genesis_ref : DigestRef
genesis_ref = record { hash_alg = "genesis"; digest = genesis }

abbrev pub materialize_signed_record : SignedReceiptEnvelope → ReceiptRecord
materialize_signed_record envelope =
    let payload = envelope.payload in record (payload) { record_hash = envelope.record_hash }

abbrev pub is_signed : ReceiptJournalLine → Bool
is_signed (legacy _) = false
is_signed (signed _) = true

-- The variables of the loop. `index` counts the lines read.
pub record Progress : Type 0 where
  pub index : ℕ
  pub previous : DigestRef
  pub signed_started : Bool
  pub records : List ReceiptRecord
  pub verification : List (String × ReceiptVerification)
  pub last_signed_envelope : Option SignedReceiptEnvelope

abbrev pub start : Progress
start = record {
  index = 0;
  previous = genesis_ref;
  signed_started = false;
  records = [];
  verification = [];
  last_signed_envelope = none;
}

abbrev pub legacy_ref : ReceiptRecord → DigestRef
legacy_ref r = record { hash_alg = "fnv1a-64"; digest = r.record_hash }

abbrev pub signed_ref : SignedReceiptEnvelope → DigestRef
signed_ref envelope = record { hash_alg = "blake3-256"; digest = envelope.record_hash }

abbrev pub legacy_verification : ReceiptVerification
legacy_verification = record {
  integrity = "legacy_weak";
  hash_alg = "fnv1a-64";
  principal_id = none;
  engine = none;
}

abbrev pub signed_verification : SignedReceiptEnvelope → ReceiptVerification
signed_verification envelope = record {
  integrity = "signed";
  hash_alg = "blake3-256";
  principal_id = some envelope.executor.principal_id;
  engine = some envelope.engine;
}

-- What the loop's body does to the variables when it refuses nothing.
abbrev pub after_legacy : Progress → ReceiptRecord → Progress
after_legacy p r = record {
  index = suc p.index;
  previous = legacy_ref r;
  signed_started = p.signed_started;
  records = p.records ++ r ∷ [];
  verification = insert r.id legacy_verification p.verification;
  last_signed_envelope = p.last_signed_envelope;
}

abbrev pub after_signed : Progress → SignedReceiptEnvelope → Progress
after_signed p envelope = record {
  index = suc p.index;
  previous = signed_ref envelope;
  signed_started = true;
  records = p.records ++ materialize_signed_record envelope ∷ [];
  verification = insert envelope.payload.id (signed_verification envelope) p.verification;
  last_signed_envelope = some envelope;
}

-- `manifest_run_id` is the `run_id` text of manifest.json, if there is one.
abbrev pub run_id : Option String → Result JournalError String
run_id none = err no_run_id
run_id (some text) = if text == "" then err no_run_id else ok text

-- The run id is only read when a line is signed; without one nothing is compared with it.
abbrev pub expected_run_id_of : Option String → List ReceiptJournalLine → Result JournalError String
expected_run_id_of manifest_run_id lines =
    let read = run_id manifest_run_id in if any is_signed lines then read else ok ""

module _ (crypto : Crypto) (serde : Serde) where
  unfoldable pub receipt_content_hash : ReceiptRecord → String
  receipt_content_hash r =
      fnv1a_hash
        (as_bytes (unwrap_or (serde.record_to_string (record (r) { record_hash = "" })) ""))

  unfoldable pub read_line : ℕ → String → Result JournalError ReceiptJournalLine
  read_line index line = ok_or (serde.of_line line) (invalid_json (index + 1)) >>= λ value.
      if serde.has_format_version value
      then (ok_or (serde.to_envelope value) (invalid_envelope (index + 1)) >>= λ envelope.
          ok (signed envelope))
      else (ok_or (serde.to_record value) (invalid_record (index + 1)) >>= λ r. ok (legacy r))

  unfoldable pub load_lines : ℕ → List String → Result JournalError (List ReceiptJournalLine)
  unfolding read_line
  load_lines index [] = ok []
  load_lines index (line ∷ lines) =
      let rest = load_lines (suc index) lines in
      if is_blank line
      then rest
      else read_line index line >>= λ first. rest >>= λ others. ok (first ∷ others)

  -- `none` is a journal that does not exist.
  unfoldable pub load_journal_lines :
      Option (List String) → Result JournalError (List ReceiptJournalLine)
  unfolding load_lines
  load_journal_lines none = ok []
  load_journal_lines (some lines) = load_lines 0 lines

  unfoldable pub load_receipts : Option (List String) → Result JournalError (List ReceiptRecord)
  load_receipts journal = load_journal_lines journal >>= λ lines. ok (map record_of lines)
    where
      record_of : ReceiptJournalLine → ReceiptRecord
      record_of (legacy r) = r
      record_of (signed envelope) = materialize_signed_record envelope

  -- The tests of one entry, by its number and what it must name as the previous one.
  unfoldable pub check_legacy :
      ℕ → Bool → DigestRef → ReceiptRecord → Result JournalError (Unit {0})
  check_legacy sequence signed_started previous r =
      ensure (not signed_started) (downgrade sequence)
      >> (ensure (r.record_hash == receipt_content_hash r) (content_mismatch sequence r.id)
          >> ensure (r.prev_record_hash == previous.digest) (link_mismatch sequence r.id))

  unfoldable pub check_signed :
      Files → String → ℕ → DigestRef → SignedReceiptEnvelope → Result JournalError (Unit {0})
  check_signed files expected_run_id sequence previous envelope =
      passed_on (verify_receipt_envelope crypto serde.envelope_to_vec envelope)
      >> (ensure (envelope.run_id == expected_run_id) (run_mismatch sequence)
          >> (ensure (nat_eq envelope.sequence sequence && digest_ref_eq envelope.previous previous)
                (signed_chain_broken sequence)
              >> (ensure
                    (envelope.payload.id == receipt_id sequence
                      && envelope.payload.prev_record_hash == previous.digest)
                    (payload_mismatch sequence)
                  >> verify_signed_artifacts crypto files (materialize_signed_record envelope))))

  -- One line of the journal, and the variables after it.
  unfoldable pub verify_line :
      Files → String → Progress → ReceiptJournalLine → Result JournalError Progress
  verify_line files expected_run_id p (legacy r) =
      check_legacy (suc p.index) p.signed_started p.previous r >> ok (after_legacy p r)
  verify_line files expected_run_id p (signed envelope) =
      check_signed files expected_run_id (suc p.index) p.previous envelope
      >> ok (after_signed p envelope)

  unfoldable pub verify_lines :
      Files → String → Progress → List ReceiptJournalLine → Result JournalError Progress
  verify_lines files expected_run_id p [] = ok p
  verify_lines files expected_run_id p (line ∷ lines) =
      verify_line files expected_run_id p line >>= λ q. verify_lines files expected_run_id q lines

  unfoldable pub load_verified_receipt_journal :
      Files
      → Option String
      → Option String
      → Option (List String)
      → Result JournalError VerifiedReceiptJournal
  load_verified_receipt_journal files manifest_run_id head journal =
      load_journal_lines journal >>= λ lines.
      expected_run_id_of manifest_run_id lines >>= λ expected_run_id.
      verify_lines files expected_run_id start lines >>= λ p.
      passed_on (
        verify_receipt_head crypto serde.head_to_string serde.head_of_slice head
          p.last_signed_envelope)
      >> ok (record { records = p.records; verification = p.verification })
