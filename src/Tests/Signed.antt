-- ===== src/Tests/Signed.antt =====
-- Keys, signatures, envelopes and heads, at a toy key.
use Prim.Native.String.{◌++◌ as append}
use agent_receipts.Prelude.{
  ℕ, ◌≡◌, ◌↔◌, refl, sym, subst, arith, String, List, [], ◌∷◌, ◌++◌, Bool, true, Option, none, some,
  decimal, Result, ok, err,
}
use agent_receipts.Prelude.Int.{pos}
use agent_receipts.Schema.{ReceiptRecord}
use agent_receipts.Journal.Hash.{as_bytes, hex_digit}
use agent_receipts.Envelope.Types.{
  EnvelopeError, DigestRef, ExecutorIdentity, SignedReceiptEnvelope, SignedReceiptHead,
  ExecutorKeyFile,
}
use agent_receipts.Envelope.Hex.{hex_encode, hex_decode, decode_pairs, hex_decode-hex_encode}
use agent_receipts.Envelope.Keys.{load_or_create_key, sign_detached, verify_detached}
use agent_receipts.Envelope.Detached.{verify_detached-sign_detached, load_or_create_key-again}
use agent_receipts.Envelope.Receipt.{
  sign_receipt_envelope, verify_receipt_envelope, unsigned_draft, engine_of,
}
use agent_receipts.Envelope.Verified.{IsSigned, verify_receipt_envelope_iff}
use agent_receipts.Envelope.Signing.{IsSignable, verify-sign_receipt_envelope_iff}
use agent_receipts.Envelope.Head.{
  write_receipt_head, verify_receipt_head, verify_receipt_head_iff, IsHeadFor,
  verify-write_receipt_head,
}
use agent_receipts.Tests.Records.{head, key_file}
use agent_receipts.Tests.Keys.{
  checksum, first_is, padded, zeros, toy, toy-IsCrypto, key, key-IsKey, secret, secret-IsBytes,
  secret_file, build,
}

hex_decode-hex_encode_example : hex_decode (hex_encode (0 ∷ 10 ∷ 255 ∷ [])) ≡ ok (0 ∷ 10 ∷ 255 ∷ [])
hex_decode-hex_encode_example =
    hex_decode-hex_encode (0 ∷ 10 ∷ 255 ∷ []) (omega arith, (omega arith, (omega arith, tt)))

-- A receipt as it is signed, and as the journal returns it.
abbrev pub payload : ReceiptRecord
payload = record {
  id = "rcpt-0001";
  label = some "check:unit";
  cmd = "cargo" ∷ "test" ∷ [];
  cwd = ".";
  exit_code = pos 0;
  duration_ms = 5;
  started_at = "t0";
  ended_at = "t1";
  stdout_hash = "";
  stderr_hash = "";
  stdout_tail = "ok";
  stderr_tail = "";
  tree_before = none;
  tree_after = none;
  lane = some "orchestrator";
  agent_id = none;
  writer = "receipts";
  prev_record_hash = "GENESIS";
  record_hash = "";
}

abbrev pub genesis_digest : DigestRef
genesis_digest = record { hash_alg = "genesis"; digest = "GENESIS" }

abbrev pub envelope_json : SignedReceiptEnvelope → Option (List ℕ)
envelope_json e = some (as_bytes e.run_id ++ e.sequence ∷ as_bytes e.payload.id)

abbrev envelope_or : Result EnvelopeError SignedReceiptEnvelope → SignedReceiptEnvelope
envelope_or (ok e) = e
envelope_or (err _) = unsigned_draft key (engine_of toy build []) "" 0 genesis_digest payload

abbrev signed_example : SignedReceiptEnvelope
signed_example =
    envelope_or
      (sign_receipt_envelope toy envelope_json build (ok key) "run-1" 1 genesis_digest payload)

verify-sign_receipt_envelope_iff_example :
    (verify_receipt_envelope toy envelope_json signed_example ≡ ok tt) ↔ IsSignable build "run-1"
unfolding sign_receipt_envelope as_bytes toy hex_encode hex_digit hex_decode decode_pairs decimal
    checksum first_is padded zeros
verify-sign_receipt_envelope_iff_example =
    verify-sign_receipt_envelope_iff toy toy-IsCrypto envelope_json key build "run-1" 1
      genesis_digest payload signed_example key-IsKey refl

verify_receipt_envelope_iff_example :
    (verify_receipt_envelope toy envelope_json signed_example ≡ ok tt)
    ↔ IsSigned toy envelope_json signed_example
verify_receipt_envelope_iff_example = verify_receipt_envelope_iff toy envelope_json signed_example

-- The head of the example, as it is written and as it reads back.
abbrev pub head_json : SignedReceiptHead → Option String
head_json h = some (head.put h "")

abbrev pub head_of_json : String → Option SignedReceiptHead
head_of_json text = head.get text (λ h rest. some h)

pub head_reads_back :
    (h : SignedReceiptHead) (text : String)
    → head_json h ≡ some text
    → head_of_json (append text "\n") ≡ some h
head_reads_back h text e =
    subst (λ z. head_of_json (append z "\n") ≡ some h) (cc_some e)
      (subst (λ z. head_of_json z ≡ some h) (sym (head.behind h "" "\n")) (head.law h _ _))
  where
    cc_some : some (head.put h "") ≡ some text → head.put h "" ≡ text
    cc_some k = cc k

abbrev stored_head : Option String
stored_head = stored_or (write_receipt_head toy head_json head_of_json (ok key) signed_example)
  where
    stored_or : Result EnvelopeError (Option String) → Option String
    stored_or (ok text) = text
    stored_or (err _) = none

verify-write_receipt_head_example :
    verify_receipt_head toy head_json head_of_json stored_head (some signed_example) ≡ ok tt
unfolding sign_receipt_envelope as_bytes hex_decode toy hex_encode hex_digit write_receipt_head
verify-write_receipt_head_example =
    verify-write_receipt_head toy head_json head_of_json key signed_example stored_head toy-IsCrypto
      key-IsKey refl head_reads_back refl

verify_receipt_head_iff_example :
    IsHeadFor toy head_json head_of_json stored_head (some signed_example)
verify_receipt_head_iff_example =
    (verify_receipt_head_iff toy head_json head_of_json stored_head (some signed_example)).0
      verify-write_receipt_head_example

verify_detached-sign_detached_example :
    (executor : ExecutorIdentity) × (signature : String) × (sign_detached toy
        (ok key)
        (as_bytes "export")
        (1 ∷ 2 ∷ [])
      ≡ ok (executor, signature))
    × (verify_detached toy (as_bytes "export") (1 ∷ 2 ∷ []) executor signature ≡ ok tt)
verify_detached-sign_detached_example =
    verify_detached-sign_detached toy toy-IsCrypto key (as_bytes "export") (1 ∷ 2 ∷ []) key-IsKey

-- The key file: printed, and read with the line end behind it.
abbrev key_json : ExecutorKeyFile → Option String
key_json file = some (key_file.put file "")

abbrev key_of_json : String → Option ExecutorKeyFile
key_of_json text = key_file.get text (λ file rest. some file)

abbrev create : String → Bool × Option String
create text = (true, some text)

load_or_create_key-again_example :
    (load_or_create_key toy key_json key_of_json create none secret ≡ ok key)
    × (load_or_create_key toy key_json key_of_json create
          (some (key_file.put secret_file ""))
          (1 ∷ [])
        ≡ load_or_create_key toy key_json key_of_json create none secret)
load_or_create_key-again_example =
    load_or_create_key-again toy key_json key_of_json create secret (key_file.put secret_file "")
      (1 ∷ []) secret-IsBytes refl (key_file.put secret_file "") refl
      (key_file.law secret_file "" _)
