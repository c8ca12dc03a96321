-- ===== src/Envelope/Verified.antt =====
-- compiler/crypto.rs: which receipt envelopes verify.
use agent_receipts.Prelude.{
  ℕ, ◌≤◌, ◌<◌, ◌≡◌, refl, sym, subst, ◌∙◌, ◌↔◌, String, List, Bool, true, false, not, ◌||◌, Option,
  some, ◌==◌, ◌++◌, eq_iff, and_iff, not_iff, arith, ok, ◌>>◌, >>=-eq-ok, >>-eq-ok, ensure,
  ensure-eq-ok, ok_or-eq-ok,
}
use agent_receipts.Envelope.Types.{
  SignedReceiptEnvelope, ExecutorIdentity, short_public_key, short_signature, short_hash, not_a_key,
  hash_mismatch,
}
use agent_receipts.Envelope.Hex.{lower_hex}
use agent_receipts.Envelope.Keys.{Crypto, decode_array, principal_of, public_key_fingerprint}
use agent_receipts.Envelope.Receipt.{
  len, is_incoherent, out_of_bounds, signature_format_version, engine_protocol_version,
  canonical_unsigned_envelope, envelope_hash, signature_message, unsigned_envelope,
  receipt_hash_domain, receipt_signature_domain, verify_executor, verify_signature,
  verify_receipt_envelope,
}

-- What the fields of an envelope must say, whoever signed it.
pub record IsCoherent (envelope : SignedReceiptEnvelope) : Type 0 where
  pub version : envelope.format_version ≡ signature_format_version
  pub kind : envelope.record_kind ≡ "execution_receipt"
  pub hashed_by : envelope.hash_alg ≡ "blake3-256"
  pub signed_by : envelope.signature_alg ≡ "ed25519"
  pub protocol : envelope.engine.protocol_version ≡ engine_protocol_version
  pub binary_by : envelope.engine.binary_digest.hash_alg ≡ "blake3-256"
  pub lock_by : envelope.engine.dependency_lock_digest.hash_alg ≡ "sha256"
  pub payload_blank : envelope.payload.record_hash ≡ ""
  pub record_hash_hex : lower_hex envelope.record_hash 64 ≡ true
  pub signature_hex : lower_hex envelope.signature 128 ≡ true
  pub public_key_hex : lower_hex envelope.executor.public_key 64 ≡ true
  pub fingerprint_hex : lower_hex envelope.executor.key_fingerprint 64 ≡ true
  pub commit_hex : lower_hex envelope.engine.build_commit 40 ≡ true
  pub binary_hex : lower_hex envelope.engine.binary_digest.digest 64 ≡ true
  pub lock_hex : lower_hex envelope.engine.dependency_lock_digest.digest 64 ≡ true
  pub run_id_bounds : (0 < len envelope.run_id) × (len envelope.run_id ≤ 200)
  pub version_bounds :
      (0 < len envelope.engine.engine_version) × (len envelope.engine.engine_version ≤ 64)
  pub os_bounds : (0 < len envelope.engine.os) × (len envelope.engine.os ≤ 32)
  pub arch_bounds : (0 < len envelope.engine.arch) × (len envelope.engine.arch ≤ 32)

-- One step down a chain of `||` that is false.
or_false_iff : (a b : Bool) → ((a || b) ≡ false) ↔ ((a ≡ false) × (b ≡ false))
or_false_iff a b = ground arith

differ_iff : (s t : String) → (not (s == t) ≡ false) ↔ (s ≡ t)
differ_iff s t = (λ h. (eq_iff s t).0 (ground arith), λ e. rw ((eq_iff s t).1 e) refl)

negation_iff : (b : Bool) → (not b ≡ false) ↔ (b ≡ true)
negation_iff b = ground arith

bounds_iff :
    (text : String) (bound : ℕ)
    → (out_of_bounds text bound ≡ false) ↔ ((0 < len text) × (len text ≤ bound))
bounds_iff text bound = ground arith

pub is_incoherent_iff : (e : SignedReceiptEnvelope) → (is_incoherent e ≡ false) ↔ IsCoherent e
unfolding is_incoherent
is_incoherent_iff e = (
  λ h.
      let p18 = (or_false_iff _ _).0 h in
      let p17 = (or_false_iff _ _).0 p18.0 in
      let p16 = (or_false_iff _ _).0 p17.0 in
      let p15 = (or_false_iff _ _).0 p16.0 in
      let p14 = (or_false_iff _ _).0 p15.0 in
      let p13 = (or_false_iff _ _).0 p14.0 in
      let p12 = (or_false_iff _ _).0 p13.0 in
      let p11 = (or_false_iff _ _).0 p12.0 in
      let p10 = (or_false_iff _ _).0 p11.0 in
      let p9 = (or_false_iff _ _).0 p10.0 in
      let p8 = (or_false_iff _ _).0 p9.0 in
      let p7 = (or_false_iff _ _).0 p8.0 in
      let p6 = (or_false_iff _ _).0 p7.0 in
      let p5 = (or_false_iff _ _).0 p6.0 in
      let p4 = (or_false_iff _ _).0 p5.0 in
      let p3 = (or_false_iff _ _).0 p4.0 in
      let p2 = (or_false_iff _ _).0 p3.0 in
      let p1 = (or_false_iff _ _).0 p2.0 in
      record {
        version = (differ_iff _ _).0 p1.0;
        kind = (differ_iff _ _).0 p1.1;
        hashed_by = (differ_iff _ _).0 p2.1;
        signed_by = (differ_iff _ _).0 p3.1;
        protocol = (differ_iff _ _).0 p4.1;
        binary_by = (differ_iff _ _).0 p5.1;
        lock_by = (differ_iff _ _).0 p6.1;
        payload_blank = (differ_iff _ _).0 p7.1;
        record_hash_hex = (negation_iff _).0 p8.1;
        signature_hex = (negation_iff _).0 p9.1;
        public_key_hex = (negation_iff _).0 p10.1;
        fingerprint_hex = (negation_iff _).0 p11.1;
        commit_hex = (negation_iff _).0 p12.1;
        binary_hex = (negation_iff _).0 p13.1;
        lock_hex = (negation_iff _).0 p14.1;
        run_id_bounds = (bounds_iff _ _).0 p15.1;
        version_bounds = (bounds_iff _ _).0 p16.1;
        os_bounds = (bounds_iff _ _).0 p17.1;
        arch_bounds = (bounds_iff _ _).0 p18.1;
      },
  λ r.
      rw
        (
          (differ_iff _ _).1 r.version,
          (differ_iff _ _).1 r.kind,
          (differ_iff _ _).1 r.hashed_by,
          (differ_iff _ _).1 r.signed_by,
          (differ_iff _ _).1 r.protocol,
          (differ_iff _ _).1 r.binary_by,
          (differ_iff _ _).1 r.lock_by,
          (differ_iff _ _).1 r.payload_blank,
          r.record_hash_hex,
          r.signature_hex,
          r.public_key_hex,
          r.fingerprint_hex,
          r.commit_hex,
          r.binary_hex,
          r.lock_hex,
          (bounds_iff _ _).1 r.run_id_bounds,
          (bounds_iff _ _).1 r.version_bounds,
          (bounds_iff _ _).1 r.os_bounds,
          (bounds_iff _ _).1 r.arch_bounds,
        )
        refl,
)

module _ (crypto : Crypto) (to_json : SignedReceiptEnvelope → Option (List ℕ)) where
  -- An envelope whose executor is its public key's, whose record hash is that of its other fields,
  -- and whose signature over that hash is the key's.
  pub record IsSigned (envelope : SignedReceiptEnvelope) : Type 0 where
    pub coherent : IsCoherent envelope
    pub public_bytes : List ℕ
    pub public_is : decode_array 32 short_public_key envelope.executor.public_key ≡ ok public_bytes
    pub is_a_key : crypto.is_key public_bytes ≡ true
    pub fingerprint_is :
        envelope.executor.key_fingerprint ≡ public_key_fingerprint crypto public_bytes
    pub principal_is :
        envelope.executor.principal_id ≡ principal_of (public_key_fingerprint crypto public_bytes)
    pub content : List ℕ
    pub content_is : to_json (unsigned_envelope envelope) ≡ some content
    pub hash_is : envelope.record_hash ≡ crypto.blake3 (receipt_hash_domain ++ content)
    pub signature_bytes : List ℕ
    pub signature_is : decode_array 64 short_signature envelope.signature ≡ ok signature_bytes
    pub digest : List ℕ
    pub digest_is : decode_array 32 short_hash envelope.record_hash ≡ ok digest
    pub verified :
        crypto.verify public_bytes (receipt_signature_domain ++ digest) signature_bytes ≡ true

  verify_executor_iff :
      (executor : ExecutorIdentity) (public_bytes : List ℕ)
      → (verify_executor crypto to_json executor public_bytes ≡ ok tt) ↔ (
          (crypto.is_key public_bytes ≡ true)
          × (executor.key_fingerprint ≡ public_key_fingerprint crypto public_bytes)
          × (executor.principal_id ≡ principal_of (public_key_fingerprint crypto public_bytes)))
  verify_executor_iff executor public_bytes = (
    λ h.
        let p = >>-eq-ok (ensure (crypto.is_key public_bytes) not_a_key) _ h in
        let tests = (and_iff _ _).0 (ensure-eq-ok _ _ p.1) in
        (ensure-eq-ok _ _ p.0, (eq_iff _ _).0 tests.0, (eq_iff _ _).0 tests.1),
    λ r. rw (r.0, (eq_iff _ _).1 r.1, (eq_iff _ _).1 r.2) refl,
  )

  -- An envelope verifies exactly when its fields are coherent, its executor is that of its public
  -- key, its record hash is that of its other fields, and its signature over that hash is the key's.
  pub verify_receipt_envelope_iff :
      (envelope : SignedReceiptEnvelope)
      → (verify_receipt_envelope crypto to_json envelope ≡ ok tt) ↔ IsSigned envelope
  unfolding verify_receipt_envelope
  verify_receipt_envelope_iff envelope = (
    λ h.
        let a =
          >>=-eq-ok
            (ensure (not (is_incoherent envelope)) _
              >> decode_array 32 short_public_key envelope.executor.public_key)
            _ h in
        let b = >>-eq-ok _ _ a.1 in
        let c =
          >>-eq-ok (verify_executor crypto to_json envelope.executor a.0)
            (verify_signature crypto to_json envelope a.0) a.2 in
        let executor = (verify_executor_iff envelope.executor a.0).0 c.0 in
        let d = >>=-eq-ok (envelope_hash crypto to_json envelope) _ c.1 in
        let content = >>=-eq-ok (canonical_unsigned_envelope crypto to_json envelope) _ d.1 in
        let f =
          >>=-eq-ok
            (ensure (envelope.record_hash == d.0) (hash_mismatch envelope.record_hash d.0)
              >> decode_array 64 short_signature envelope.signature)
            _ d.2 in
        let g = >>-eq-ok _ _ f.1 in
        let m = >>=-eq-ok (signature_message envelope.record_hash) _ f.2 in
        let digest = >>=-eq-ok (decode_array 32 short_hash envelope.record_hash) _ m.1 in
        record {
          coherent = (is_incoherent_iff envelope).0 ((not_iff _).0 (ensure-eq-ok _ _ b.0));
          public_bytes = a.0;
          public_is = b.1;
          is_a_key = executor.0;
          fingerprint_is = executor.1;
          principal_is = executor.2;
          content = content.0;
          content_is = ok_or-eq-ok _ _ content.1;
          hash_is = (eq_iff _ _).0 (ensure-eq-ok _ _ g.0) ∙ sym (cc (content.2));
          signature_bytes = f.0;
          signature_is = g.1;
          digest = digest.0;
          digest_is = digest.1;
          verified =
              subst (λ z. crypto.verify a.0 z f.0 ≡ true) (sym (cc (digest.2)))
                (ensure-eq-ok _ _ m.2);
        },
    λ r.
        rw
          (
            (is_incoherent_iff envelope).1 r.coherent,
            r.public_is,
            (verify_executor_iff envelope.executor r.public_bytes).1
                (r.is_a_key, r.fingerprint_is, r.principal_is),
            r.content_is,
            (eq_iff _ _).1 r.hash_is,
            r.signature_is,
            r.digest_is,
            r.verified,
          )
          refl,
  )
