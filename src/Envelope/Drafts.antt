-- ===== src/Envelope/Drafts.antt =====
-- compiler/crypto.rs: what signing an envelope makes of it.
use agent_receipts.Prelude.{
  ℕ, ◌≡◌, ap, ◌∙◌, String, List, ◌++◌, not, ◌==◌, Option, some, eq_iff, ok, ◌>>◌, >>=-eq-ok,
  >>-eq-ok, ensure, ensure-eq-ok, of_ok, ok_or, ok_or-eq-ok,
}
use agent_receipts.Schema.{ReceiptRecord}
use agent_receipts.Envelope.Types.{
  DigestRef, SignedEngineIdentity, SignedReceiptEnvelope, ExecutorKey, short_hash, unresolved_build,
  payload_has_hash, unreadable_binary,
}
use agent_receipts.Envelope.Hex.{hex_encode}
use agent_receipts.Envelope.Keys.{Crypto, decode_array, identity_of}
use agent_receipts.Envelope.Receipt.{
  Build, engine_of, is_unresolved, unsigned_envelope, unsigned_draft, signed_draft,
  signature_message, current_engine_identity, canonical_unsigned_envelope, envelope_hash,
  receipt_hash_domain, receipt_signature_domain, sign_receipt_envelope,
}

-- The envelope before it is hashed, its hash, and its signature.
abbrev pub draft :
    Crypto
    → ExecutorKey
    → Build
    → List ℕ
    → String
    → ℕ
    → DigestRef
    → ReceiptRecord
    → SignedReceiptEnvelope
draft crypto key build executable = unsigned_draft key (engine_of crypto build executable)

abbrev pub record_hash_of : Crypto → List ℕ → String
record_hash_of crypto content = crypto.blake3 (receipt_hash_domain ++ content)

abbrev pub signature_of : Crypto → ExecutorKey → List ℕ → String
signature_of crypto key digest =
    hex_encode (crypto.sign key.signing (receipt_signature_domain ++ digest))

-- What a signed envelope was made of.
module _ (crypto : Crypto) (to_json : SignedReceiptEnvelope → Option (List ℕ)) where
  pub sign_receipt_envelope-eq-ok :
      (key : ExecutorKey) (build : Build) (run_id : String) (sequence : ℕ) (previous : DigestRef)
      (payload : ReceiptRecord) (envelope : SignedReceiptEnvelope)
      → sign_receipt_envelope crypto to_json build (ok key) run_id sequence previous payload
        ≡ ok envelope
      → (executable content digest : List ℕ) × (payload.record_hash ≡ "")
        × (to_json (draft crypto key build executable run_id sequence previous payload)
            ≡ some content)
        × (decode_array 32 short_hash (record_hash_of crypto content) ≡ ok digest)
        × (signed_draft
              (draft crypto key build executable run_id sequence previous payload)
              (record_hash_of crypto content)
              (signature_of crypto key digest)
            ≡ envelope)
  unfolding sign_receipt_envelope
  sign_receipt_envelope-eq-ok key build run_id sequence previous payload envelope h =
      let a =
        >>=-eq-ok
          (ensure (not (is_unresolved build)) _
            >> ensure (payload.record_hash == "") payload_has_hash
            >> ok key)
          _ h in
      let b =
        >>-eq-ok
          (ensure (not (is_unresolved build)) unresolved_build
            >> ensure (payload.record_hash == "") payload_has_hash)
          (ok key) a.1 in
      let c = >>-eq-ok (ensure (not (is_unresolved build)) unresolved_build) _ b.0 in
      let engine = >>=-eq-ok (current_engine_identity crypto build) _ a.2 in
      let executable = >>=-eq-ok (ok_or build.executable unreadable_binary) _ engine.1 in
      let hash =
        >>=-eq-ok
          (envelope_hash crypto to_json
            (unsigned_draft a.0 engine.0 run_id sequence previous payload))
          _ engine.2 in
      let content =
        >>=-eq-ok
          (canonical_unsigned_envelope crypto to_json
            (unsigned_draft a.0 engine.0 run_id sequence previous payload))
          _ hash.1 in
      let message = >>=-eq-ok (signature_message hash.0) _ hash.2 in
      let digest = >>=-eq-ok (decode_array 32 short_hash hash.0) _ message.1 in
      (
        executable.0,
        content.0,
        digest.0,
        (eq_iff _ _).0 (ensure-eq-ok _ _ c.1),
        printed_lem key a.0 engine.0 executable.0 content.0 (of_ok b.1) (of_ok executable.2)
            (ok_or-eq-ok _ _ content.1),
        rw (of_ok content.2) digest.1,
        made_lem key a.0 engine.0 executable.0 content.0 hash.0 digest.0 message.0 (of_ok b.1)
              (of_ok executable.2) (of_ok content.2) (of_ok digest.2)
            ∙ of_ok message.2,
      )
    where
      made_lem :
          (k l : ExecutorKey) (engine : SignedEngineIdentity) (executable content : List ℕ)
          (hash : String) (digest message : List ℕ)
          → k ≡ l
          → engine_of crypto build executable ≡ engine
          → record_hash_of crypto content ≡ hash
          → receipt_signature_domain ++ digest ≡ message
          → signed_draft
              (draft crypto k build executable run_id sequence previous payload)
              (record_hash_of crypto content)
              (signature_of crypto k digest)
            ≡ signed_draft
                (unsigned_draft l engine run_id sequence previous payload)
                hash
                (hex_encode (crypto.sign l.signing message))
      made_lem k l engine executable content hash digest message p q r t = λ i.
          signed_draft (unsigned_draft (p i) (q i) run_id sequence previous payload) (r i)
            (hex_encode (crypto.sign (p i).signing (t i)))

      printed_lem :
          (k l : ExecutorKey) (engine : SignedEngineIdentity) (executable content : List ℕ)
          → k ≡ l
          → engine_of crypto build executable ≡ engine
          → to_json (unsigned_envelope (unsigned_draft l engine run_id sequence previous payload))
            ≡ some content
          → to_json (draft crypto k build executable run_id sequence previous payload)
            ≡ some content
      printed_lem k l engine executable content p q h =
          (λ i. to_json (unsigned_draft (p i) (q i) run_id sequence previous payload)) ∙ h

  -- The fields that the caller chose.
  pub sign_receipt_envelope-fields :
      (key : ExecutorKey) (build : Build) (run_id : String) (sequence : ℕ) (previous : DigestRef)
      (payload : ReceiptRecord) (envelope : SignedReceiptEnvelope)
      → sign_receipt_envelope crypto to_json build (ok key) run_id sequence previous payload
        ≡ ok envelope
      → (run_id ≡ envelope.run_id)
        × (sequence ≡ envelope.sequence)
        × (previous ≡ envelope.previous)
        × (payload ≡ envelope.payload)
        × (identity_of key.file ≡ envelope.executor)
  sign_receipt_envelope-fields key build run_id sequence previous payload envelope h =
      let e =
        (sign_receipt_envelope-eq-ok key build run_id sequence previous payload envelope h).6 in
      (
        ap (λ z. z.run_id) e,
        ap (λ z. z.sequence) e,
        ap (λ z. z.previous) e,
        ap (λ z. z.payload) e,
        ap (λ z. z.executor) e,
      )
