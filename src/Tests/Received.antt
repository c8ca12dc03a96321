-- ===== src/Tests/Received.antt =====
-- The journal of execution receipts, at a toy key: artifacts are stored, and a receipt is appended.
use agent_receipts.Prelude.{
  ℕ, ◌≡◌, ◌≢◌, ◌↔◌, refl, sym, ap, String, List, [], ◌∷◌, Bool, true, false, Option, none, some,
  nat_eq, if◌then◌else◌, leb, Result, ok, err, ◌∙◌,
}
use agent_receipts.Schema.{ReceiptRecord}
use agent_receipts.Envelope.Types.{SignedReceiptEnvelope}
use agent_receipts.Receipts.Types.{
  ReceiptVerification, ReceiptJournalLine, legacy, signed, JournalError,
}
use agent_receipts.Receipts.Artifacts.{
  Files, Entry, symlink, artifact_path, store_artifact, verify_signed_artifacts,
}
use agent_receipts.Receipts.Stored.{verify-store_artifact}
use agent_receipts.Receipts.Verify.{Serde, load_verified_receipt_journal, run_id}
use agent_receipts.Receipts.Loaded.{IsJournal, load_verified_receipt_journal_iff}
use agent_receipts.Receipts.Append.{Store, append_receipt}
use agent_receipts.Tests.Codec.{put_nat, get_nat}
use agent_receipts.Tests.Records.{receipt_record, envelope}
use agent_receipts.Tests.Keys.{toy, toy-IsCrypto, key, build}
use agent_receipts.Tests.Signed.{payload, envelope_json, head_json, head_of_json}

-- A line is a tag, and then a record or an envelope.
abbrev line_of_record : ReceiptRecord → Option String
line_of_record r = some (put_nat 0 (receipt_record.put r ""))

abbrev line_of_envelope : SignedReceiptEnvelope → Option String
line_of_envelope e = some (put_nat 1 (envelope.put e ""))

read_value : ℕ → String → Option ReceiptJournalLine
read_value n rest =
    if nat_eq n 0
    then receipt_record.get rest (λ r u. some (legacy r))
    else envelope.get rest (λ e u. some (signed e))

value_of_line : String → Option ReceiptJournalLine
value_of_line line = get_nat line read_value

abbrev has_version : ReceiptJournalLine → Bool
has_version (legacy r) = false
has_version (signed e) = true

abbrev envelope_of : ReceiptJournalLine → Option SignedReceiptEnvelope
envelope_of (legacy r) = none
envelope_of (signed e) = some e

abbrev record_of : ReceiptJournalLine → Option ReceiptRecord
record_of (legacy r) = some r
record_of (signed e) = none

toy_serde : Serde
unfolding value_of_line read_value
toy_serde = record {
  Value = ReceiptJournalLine;
  of_line = value_of_line;
  has_format_version = has_version;
  to_envelope = envelope_of;
  to_record = record_of;
  record_to_string = line_of_record;
  envelope_to_string = line_of_envelope;
  envelope_to_vec = envelope_json;
  head_to_string = head_json;
  head_of_slice = head_of_json;
}

-- No files, and then the two outputs of a command.
abbrev empty : Files
empty path = none

abbrev files_or : Result JournalError (String × String × Files) → Files
files_or (ok stored) = stored.2
files_or (err _) = empty

abbrev hash_or : Result JournalError (String × String × Files) → String
hash_or (ok stored) = stored.0
hash_or (err _) = ""

abbrev path_or : Result JournalError (String × String × Files) → String
path_or (ok stored) = stored.1
path_or (err _) = ""

abbrev stdout : List ℕ
stdout = 111 ∷ 107 ∷ []

abbrev first_files : Files
first_files = files_or (store_artifact toy empty stdout)

abbrev second_files : Files
second_files = files_or (store_artifact toy first_files [])

-- The receipt, with the hashes of its outputs.
abbrev receipt : ReceiptRecord
receipt =
    let p = payload in
    record (p) {
      stdout_hash = hash_or (store_artifact toy empty stdout);
      stderr_hash = hash_or (store_artifact toy first_files []);
    }

absent : first_files (artifact_path (toy.blake3 [])) ≡ none
unfolding store_artifact toy agent_receipts.Envelope.Hex.hex_encode
    agent_receipts.Journal.Hash.hex_digit
absent = refl

not_a_link : first_files (artifact_path (toy.blake3 [])) ≢ some (symlink false)
not_a_link h = let k : Path (Option Entry) none (some (symlink false)) = sym absent ∙ h in cc k

verify-store_artifact_example : verify_signed_artifacts toy second_files receipt ≡ ok tt
unfolding store_artifact toy agent_receipts.Envelope.Hex.hex_encode
    agent_receipts.Journal.Hash.hex_digit
verify-store_artifact_example =
    verify-store_artifact toy toy-IsCrypto empty first_files second_files stdout []
      (hash_or (store_artifact toy empty stdout)) (path_or (store_artifact toy empty stdout))
      (hash_or (store_artifact toy first_files [])) (path_or (store_artifact toy first_files []))
      payload (λ h. cc h) not_a_link refl refl

abbrev new_store : Store
new_store = record { journal = none; head = none }

abbrev free : ℕ → Bool
free n = true

abbrev receipt_or : Result JournalError ReceiptRecord → ReceiptRecord
receipt_or (ok r) = r
receipt_or (err _) = payload

abbrev appended : Result JournalError ReceiptRecord × Store
appended =
    append_receipt toy toy_serde build (ok key) second_files (some "run-1") free new_store receipt

load_verified_receipt_journal_iff_example :
    ((verification : List (String × ReceiptVerification)) × (load_verified_receipt_journal toy
          toy_serde second_files
          (some "run-1")
          appended.1.head
          appended.1.journal
        ≡ ok (record { records = receipt_or appended.0 ∷ []; verification = verification })))
    ↔ IsJournal toy toy_serde second_files
        (some "run-1")
        appended.1.head
        appended.1.journal
        (receipt_or appended.0 ∷ [])
load_verified_receipt_journal_iff_example =
    load_verified_receipt_journal_iff toy toy_serde second_files (some "run-1") appended.1.head
      appended.1.journal (receipt_or appended.0 ∷ [])
