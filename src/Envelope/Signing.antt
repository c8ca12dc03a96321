-- ===== src/Envelope/Signing.antt =====
-- compiler/crypto.rs: what an executor signs verifies.
use agent_receipts.Prelude.{
  ℕ, ◌*◌, ◌≤◌, ◌<◌, ◌≡◌, refl, ap, subst, ◌↔◌, String, List, ◌++◌, true, Option, some, ok,
}
use agent_receipts.Schema.{ReceiptRecord}
use agent_receipts.Envelope.Types.{
  DigestRef, SignedReceiptEnvelope, ExecutorKey, short_public_key, short_signature, short_hash,
}
use agent_receipts.Envelope.Hex.{hex_encode, lower_hex, lower_hex-hex_encode}
use agent_receipts.Envelope.Keys.{Crypto, IsBytes, IsCrypto, decode_array, principal_of}
use agent_receipts.Envelope.Detached.{IsKey, decode_array-hex_encode}
use agent_receipts.Envelope.Receipt.{
  Build, len, signed_draft, receipt_signature_domain, sign_receipt_envelope,
  verify_receipt_envelope,
}
use agent_receipts.Envelope.Verified.{IsCoherent, IsSigned, verify_receipt_envelope_iff}
use agent_receipts.Envelope.Drafts.{
  draft, record_hash_of, signature_of, sign_receipt_envelope-eq-ok,
}

-- A run id and a build that a verifier takes: lower-case digests, and texts within their bounds.
pub record IsSignable (build : Build) (run_id : String) : Type 0 where
  pub commit_lower : lower_hex build.build_commit 40 ≡ true
  pub lock_lower : lower_hex build.dependency_lock_digest 64 ≡ true
  pub run_id_within : (0 < len run_id) × (len run_id ≤ 200)
  pub version_within : (0 < len build.cargo_pkg_version) × (len build.cargo_pkg_version ≤ 64)
  pub os_within : (0 < len build.os) × (len build.os ≤ 32)
  pub arch_within : (0 < len build.arch) × (len build.arch ≤ 32)

bytes_hex : (n : ℕ) (bytes : List ℕ) → IsBytes n bytes → lower_hex (hex_encode bytes) (n * 2) ≡ true
bytes_hex n bytes h =
    subst (λ k. lower_hex (hex_encode bytes) (k * 2) ≡ true) h.has_length
      (lower_hex-hex_encode bytes h.are_bytes)

module _ (crypto : Crypto) (laws : IsCrypto crypto) where
  pub hash_hex : (message : List ℕ) → lower_hex (crypto.blake3 message) 64 ≡ true
  hash_hex message = let d = laws.hash_bytes message in rw (d.2) (bytes_hex 32 d.0 d.1)

  module _ (to_json : SignedReceiptEnvelope → Option (List ℕ)) (key : ExecutorKey)
      (is_key : IsKey crypto key) where
    -- A signed draft has the signature that its fields and its key call for.
    draft-IsSigned :
        (build : Build) (executable : List ℕ) (run_id : String) (sequence : ℕ)
        (previous : DigestRef) (payload : ReceiptRecord) (content digest : List ℕ)
        → payload.record_hash ≡ ""
        → to_json (draft crypto key build executable run_id sequence previous payload)
          ≡ some content
        → decode_array 32 short_hash (record_hash_of crypto content) ≡ ok digest
        → IsSignable build run_id
        → IsSigned crypto to_json (
            signed_draft
              (draft crypto key build executable run_id sequence previous payload)
              (record_hash_of crypto content)
              (signature_of crypto key digest))
    draft-IsSigned build executable run_id sequence previous payload content digest blank printed
          decoded signable =
        let public = laws.key_bytes key.signing in
        let signed = laws.signature_bytes key.signing (receipt_signature_domain ++ digest) in
        record {
          coherent = record {
            version = refl;
            kind = refl;
            hashed_by = refl;
            signed_by = refl;
            protocol = refl;
            binary_by = refl;
            lock_by = refl;
            payload_blank = blank;
            record_hash_hex = hash_hex _;
            signature_hex = bytes_hex 64 _ signed;
            public_key_hex = rw (is_key.public_is) (bytes_hex 32 _ public);
            fingerprint_hex = rw (is_key.fingerprint_is) (hash_hex _);
            commit_hex = signable.commit_lower;
            binary_hex = hash_hex _;
            lock_hex = signable.lock_lower;
            run_id_bounds = signable.run_id_within;
            version_bounds = signable.version_within;
            os_bounds = signable.os_within;
            arch_bounds = signable.arch_within;
          };
          public_bytes = crypto.verifying_key key.signing;
          public_is = rw (is_key.public_is) (decode_array-hex_encode 32 short_public_key _ public);
          is_a_key = laws.key_is_key key.signing;
          fingerprint_is = is_key.fingerprint_is;
          principal_is = ap principal_of is_key.fingerprint_is;
          content = content;
          content_is = printed;
          hash_is = refl;
          signature_bytes = crypto.sign key.signing (receipt_signature_domain ++ digest);
          signature_is = decode_array-hex_encode 64 short_signature _ signed;
          digest = digest;
          digest_is = decoded;
          verified = laws.verifies key.signing (receipt_signature_domain ++ digest);
        }

    signed_iff :
        (build : Build) (executable : List ℕ) (run_id : String) (sequence : ℕ)
        (previous : DigestRef) (payload : ReceiptRecord) (content digest : List ℕ)
        → payload.record_hash ≡ ""
        → to_json (draft crypto key build executable run_id sequence previous payload)
          ≡ some content
        → decode_array 32 short_hash (record_hash_of crypto content) ≡ ok digest
        → (verify_receipt_envelope crypto to_json (
              signed_draft
                (draft crypto key build executable run_id sequence previous payload)
                (record_hash_of crypto content)
                (signature_of crypto key digest))
            ≡ ok tt)
          ↔ IsSignable build run_id
    signed_iff build executable run_id sequence previous payload content digest blank printed
          decoded =
        (
          λ h. signable_lem ((verify_receipt_envelope_iff crypto to_json _).0 h).coherent,
          λ s. (verify_receipt_envelope_iff crypto to_json _).1 (
              draft-IsSigned build executable run_id sequence previous payload content digest blank
                printed decoded s),
        )
      where
        signable_lem :
            IsCoherent (
              signed_draft
                (draft crypto key build executable run_id sequence previous payload)
                (record_hash_of crypto content)
                (signature_of crypto key digest))
            → IsSignable build run_id
        signable_lem c = record {
          commit_lower = c.commit_hex;
          lock_lower = c.lock_hex;
          run_id_within = c.run_id_bounds;
          version_within = c.version_bounds;
          os_within = c.os_bounds;
          arch_within = c.arch_bounds;
        }

  -- What a key that loads signs verifies, exactly when the run id and the build are ones that a
  -- verifier takes: lower-case digests, and texts that are not empty and not too long. Ed25519 and
  -- BLAKE3 keep their promises.
  pub verify-sign_receipt_envelope_iff :
      (to_json : SignedReceiptEnvelope → Option (List ℕ)) (key : ExecutorKey) (build : Build)
      (run_id : String) (sequence : ℕ) (previous : DigestRef) (payload : ReceiptRecord)
      (envelope : SignedReceiptEnvelope)
      → IsKey crypto key
      → sign_receipt_envelope crypto to_json build (ok key) run_id sequence previous payload
        ≡ ok envelope
      → (verify_receipt_envelope crypto to_json envelope ≡ ok tt) ↔ IsSignable build run_id
  verify-sign_receipt_envelope_iff to_json key build run_id sequence previous payload envelope
        is_key h =
      let made =
        sign_receipt_envelope-eq-ok crypto to_json key build run_id sequence previous payload
          envelope h in
      subst (λ z. (verify_receipt_envelope crypto to_json z ≡ ok tt) ↔ IsSignable build run_id)
        made.6
        (signed_iff to_json key is_key build made.0 run_id sequence previous payload made.1 made.2
          made.3 made.4 made.5)
