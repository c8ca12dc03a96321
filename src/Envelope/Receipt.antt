-- ===== src/Envelope/Receipt.antt =====
-- compiler/crypto.rs: signed receipt envelopes, as they are signed and as they are verified.
use agent_receipts.Prelude.{
  ℕ, String, List, [], ◌∷◌, ◌++◌, Bool, not, ◌&&◌, ◌||◌, Option, ◌==◌, nat_eq, ltb, leb, length,
  all, Result, ok, ◌>>=◌, ◌>>◌, ensure, ok_or,
}
use agent_receipts.Schema.{ReceiptRecord}
use agent_receipts.Journal.Hash.{as_bytes}
use agent_receipts.Envelope.Types.{
  DigestRef, ExecutorIdentity, SignedEngineIdentity, SignedReceiptEnvelope, ExecutorKey,
  EnvelopeError, short_public_key, not_a_key, fingerprint_mismatch, short_signature, bad_signature,
  unresolved_build, payload_has_hash, short_hash, unprintable, unreadable_binary,
  incoherent_metadata, hash_mismatch,
}
use agent_receipts.Envelope.Hex.{hex_encode, lower_hex}
use agent_receipts.Envelope.Keys.{
  Crypto, decode_array, principal_of, identity_of, public_key_fingerprint,
}

abbrev pub signature_format_version : String
signature_format_version = "2"

abbrev pub engine_protocol_version : String
engine_protocol_version = "1"

-- The constants end in a zero byte.
abbrev pub receipt_hash_domain : List ℕ
receipt_hash_domain = as_bytes "agent-receipts:v2:execution-receipt" ++ 0 ∷ []

abbrev pub receipt_signature_domain : List ℕ
receipt_signature_domain = as_bytes "agent-receipts:v2:ed25519-signature" ++ 0 ∷ []

-- What the build and the system say of the running program: `env!`, `std::env::consts`, and the
-- bytes of the executable, when it can be read.
pub record Build : Type 0 where
  pub build_commit : String
  pub dependency_lock_digest : String
  pub cargo_pkg_version : String
  pub executable : Option (List ℕ)
  pub os : String
  pub arch : String

-- `text.len()` in bytes.
abbrev pub len : String → ℕ
len text = length (as_bytes text)

-- `byte.is_ascii_hexdigit()`
abbrev pub is_ascii_hexdigit : ℕ → Bool
is_ascii_hexdigit byte =
    (leb 48 byte && leb byte 57) || (leb 97 byte && leb byte 102) || (leb 65 byte && leb byte 70)

-- `!cfg!(test)` holds of what is modelled.
abbrev pub is_unresolved : Build → Bool
is_unresolved build =
    not (nat_eq (len build.build_commit) 40)
    || not (all is_ascii_hexdigit (as_bytes build.build_commit))
    || not (nat_eq (len build.dependency_lock_digest) 64)
    || not (all is_ascii_hexdigit (as_bytes build.dependency_lock_digest))

-- The tests of one field: empty, or longer than its bound.
abbrev pub out_of_bounds : String → ℕ → Bool
out_of_bounds text bound = nat_eq (len text) 0 || ltb bound (len text)

-- The long condition of `verify_receipt_envelope`.
unfoldable pub is_incoherent : SignedReceiptEnvelope → Bool
is_incoherent envelope =
    not (envelope.format_version == signature_format_version)
    || not (envelope.record_kind == "execution_receipt")
    || not (envelope.hash_alg == "blake3-256")
    || not (envelope.signature_alg == "ed25519")
    || not (envelope.engine.protocol_version == engine_protocol_version)
    || not (envelope.engine.binary_digest.hash_alg == "blake3-256")
    || not (envelope.engine.dependency_lock_digest.hash_alg == "sha256")
    || not (envelope.payload.record_hash == "")
    || not (lower_hex envelope.record_hash 64)
    || not (lower_hex envelope.signature 128)
    || not (lower_hex envelope.executor.public_key 64)
    || not (lower_hex envelope.executor.key_fingerprint 64)
    || not (lower_hex envelope.engine.build_commit 40)
    || not (lower_hex envelope.engine.binary_digest.digest 64)
    || not (lower_hex envelope.engine.dependency_lock_digest.digest 64)
    || out_of_bounds envelope.run_id 200
    || out_of_bounds envelope.engine.engine_version 64
    || out_of_bounds envelope.engine.os 32
    || out_of_bounds envelope.engine.arch 32

abbrev pub unsigned_envelope : SignedReceiptEnvelope → SignedReceiptEnvelope
unsigned_envelope envelope = record (envelope) { record_hash = ""; signature = "" }

-- The envelope as `sign_receipt_envelope` first builds it, and the two fields that it then sets.
abbrev pub unsigned_draft :
    ExecutorKey
    → SignedEngineIdentity
    → String
    → ℕ
    → DigestRef
    → ReceiptRecord
    → SignedReceiptEnvelope
unsigned_draft key engine run_id sequence previous payload = record {
  format_version = signature_format_version;
  record_kind = "execution_receipt";
  run_id = run_id;
  sequence = sequence;
  previous = previous;
  payload = payload;
  executor = identity_of key.file;
  engine = engine;
  hash_alg = "blake3-256";
  signature_alg = "ed25519";
  record_hash = "";
  signature = "";
}

abbrev pub signed_draft : SignedReceiptEnvelope → String → String → SignedReceiptEnvelope
signed_draft envelope record_hash signature = record (envelope) {
  record_hash = record_hash;
  signature = signature;
}

abbrev pub signature_message : String → Result EnvelopeError (List ℕ)
signature_message record_hash =
    decode_array 32 short_hash record_hash >>= λ digest. ok (receipt_signature_domain ++ digest)

-- `current_engine_identity`, of the executable's bytes.
abbrev pub engine_of : Crypto → Build → List ℕ → SignedEngineIdentity
engine_of crypto build executable = record {
  protocol_version = engine_protocol_version;
  engine_version = build.cargo_pkg_version;
  build_commit = build.build_commit;
  binary_digest = record { hash_alg = "blake3-256"; digest = crypto.blake3 executable };
  dependency_lock_digest = record { hash_alg = "sha256"; digest = build.dependency_lock_digest };
  os = build.os;
  arch = build.arch;
}

abbrev pub current_engine_identity : Crypto → Build → Result EnvelopeError SignedEngineIdentity
current_engine_identity crypto build = ok_or build.executable unreadable_binary >>= λ executable.
    ok (engine_of crypto build executable)

-- `to_json` is `serde_json::to_vec` of an envelope.
module _ (crypto : Crypto) (to_json : SignedReceiptEnvelope → Option (List ℕ)) where
  abbrev pub canonical_unsigned_envelope : SignedReceiptEnvelope → Result EnvelopeError (List ℕ)
  canonical_unsigned_envelope envelope = ok_or (to_json (unsigned_envelope envelope)) unprintable

  abbrev pub envelope_hash : SignedReceiptEnvelope → Result EnvelopeError String
  envelope_hash envelope = canonical_unsigned_envelope envelope >>= λ canonical.
      ok (crypto.blake3 (receipt_hash_domain ++ canonical))

  unfoldable pub sign_receipt_envelope :
      Build
      → Result EnvelopeError ExecutorKey
      → String
      → ℕ
      → DigestRef
      → ReceiptRecord
      → Result EnvelopeError SignedReceiptEnvelope
  sign_receipt_envelope build loaded run_id sequence previous payload =
      ensure (not (is_unresolved build)) unresolved_build
      >> ensure (payload.record_hash == "") payload_has_hash
      >> loaded
      >>= λ key. current_engine_identity crypto build >>= λ engine.
          let envelope = unsigned_draft key engine run_id sequence previous payload in
          envelope_hash envelope >>= λ record_hash. signature_message record_hash >>= λ message.
          ok (signed_draft envelope record_hash (hex_encode (crypto.sign key.signing message)))

  -- The test of the executor's identity against its public key.
  abbrev pub verify_executor : ExecutorIdentity → List ℕ → Result EnvelopeError (Unit {0})
  verify_executor executor public_bytes =
      ensure (crypto.is_key public_bytes) not_a_key
      >> ensure
          (executor.key_fingerprint == public_key_fingerprint crypto public_bytes
            && executor.principal_id == principal_of (public_key_fingerprint crypto public_bytes))
          fingerprint_mismatch

  -- The tests of the hash and of the signature over it.
  abbrev pub verify_signature : SignedReceiptEnvelope → List ℕ → Result EnvelopeError (Unit {0})
  verify_signature envelope public_bytes = envelope_hash envelope >>= λ actual_hash.
      ensure (envelope.record_hash == actual_hash) (hash_mismatch envelope.record_hash actual_hash)
      >> decode_array 64 short_signature envelope.signature
      >>= λ signature_bytes. signature_message envelope.record_hash >>= λ message.
          ensure (crypto.verify public_bytes message signature_bytes) bad_signature

  unfoldable pub verify_receipt_envelope : SignedReceiptEnvelope → Result EnvelopeError (Unit {0})
  verify_receipt_envelope envelope =
      ensure (not (is_incoherent envelope)) incoherent_metadata
      >> decode_array 32 short_public_key envelope.executor.public_key
      >>= λ public_bytes.
          verify_executor envelope.executor public_bytes >> verify_signature envelope public_bytes
