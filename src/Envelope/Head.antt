-- ===== src/Envelope/Head.antt =====
-- compiler/crypto.rs: the signed head, which pins the last envelope of the receipt journal.
use Prim.Native.String.{◌++◌ as append}
use agent_receipts.Prelude.{
  ℕ, ◌≡◌, refl, sym, ap, subst, ◌∙◌, ◌↔◌, String, List, [], ◌∷◌, ◌++◌, Bool, true, ◌&&◌, Option,
  none, some, ◌==◌, nat_eq, arith, eq_iff, eq_refl, and_iff, Result, ok, err, ◌>>=◌, ◌>>◌,
  >>=-eq-ok, >>-eq-ok, ensure, ensure-eq-ok, of_ok, ok_or, ok_or-eq-ok,
}
use agent_receipts.Journal.Hash.{as_bytes}
use agent_receipts.Envelope.Types.{
  ExecutorIdentity, SignedReceiptEnvelope, SignedReceiptHead, ExecutorKey, EnvelopeError,
  executor_eq, short_public_key, not_a_key, short_signature, bad_signature, unprintable,
  key_changed, head_without_record, missing_head, invalid_head, head_mismatch,
}
use agent_receipts.Envelope.Hex.{hex_encode}
use agent_receipts.Envelope.Keys.{Crypto, IsCrypto, decode_array, identity_of}
use agent_receipts.Envelope.Detached.{IsKey, decode_array-hex_encode}
use agent_receipts.Envelope.Receipt.{signature_format_version}

-- The constant ends in a zero byte.
abbrev pub receipt_head_signature_domain : List ℕ
receipt_head_signature_domain = as_bytes "agent-receipts:v2:journal-head" ++ 0 ∷ []

abbrev pub unsigned_head : SignedReceiptHead → SignedReceiptHead
unsigned_head head = record (head) { signature = "" }

-- The head of an envelope, before it is signed.
abbrev pub head_of : SignedReceiptEnvelope → SignedReceiptHead
head_of envelope = record {
  format_version = signature_format_version;
  record_kind = "execution_receipt_head";
  run_id = envelope.run_id;
  sequence = envelope.sequence;
  last = record { hash_alg = envelope.hash_alg; digest = envelope.record_hash };
  executor = envelope.executor;
  signature_alg = "ed25519";
  signature = "";
}

-- The fields that `verify_receipt_head` compares with the terminal record.
unfoldable pub matches_envelope : SignedReceiptHead → SignedReceiptEnvelope → Bool
matches_envelope head envelope =
    head.format_version == signature_format_version
    && head.record_kind == "execution_receipt_head"
    && head.run_id == envelope.run_id
    && nat_eq head.sequence envelope.sequence
    && head.last.hash_alg == envelope.hash_alg
    && head.last.digest == envelope.record_hash
    && executor_eq head.executor envelope.executor
    && head.signature_alg == "ed25519"

-- The head of an envelope, with a signature.
abbrev pub signed_head : SignedReceiptEnvelope → String → SignedReceiptHead
signed_head envelope signature = record (head_of envelope) { signature = signature }

nat_eq_iff : (m n : ℕ) → (nat_eq m n ≡ true) ↔ (m ≡ n)
nat_eq_iff m n = ground arith

executor_eq_iff : (a b : ExecutorIdentity) → (executor_eq a b ≡ true) ↔ (a ≡ b)
executor_eq_iff a b = (
  λ h.
      let p = (and_iff (a.principal_id == b.principal_id && a.public_key == b.public_key) _).0 h in
      let q = (and_iff (a.principal_id == b.principal_id) _).0 p.0 in
      λ i. record {
        principal_id = (eq_iff a.principal_id b.principal_id).0 q.0 i;
        public_key = (eq_iff a.public_key b.public_key).0 q.1 i;
        key_fingerprint = (eq_iff a.key_fingerprint b.key_fingerprint).0 p.1 i;
      },
  λ e. rw (e, eq_refl b.principal_id, eq_refl b.public_key, eq_refl b.key_fingerprint) refl,
)

-- The tested fields are the envelope's, so only the signature is left open.
matches_envelope_iff :
    (head : SignedReceiptHead) (envelope : SignedReceiptEnvelope)
    → (matches_envelope head envelope ≡ true) ↔ (head ≡ signed_head envelope head.signature)
unfolding matches_envelope
matches_envelope_iff head envelope = (
  λ h.
      let p = (and_iff _ _).0 h in
      let q = (and_iff _ _).0 p.0 in
      let r = (and_iff _ _).0 q.0 in
      let s = (and_iff _ _).0 r.0 in
      let t = (and_iff _ _).0 s.0 in
      let u = (and_iff _ _).0 t.0 in
      let v = (and_iff _ _).0 u.0 in
      λ i. record {
        format_version = (eq_iff head.format_version signature_format_version).0 v.0 i;
        record_kind = (eq_iff head.record_kind "execution_receipt_head").0 v.1 i;
        run_id = (eq_iff head.run_id envelope.run_id).0 u.1 i;
        sequence = (nat_eq_iff head.sequence envelope.sequence).0 t.1 i;
        last = record {
          hash_alg = (eq_iff head.last.hash_alg envelope.hash_alg).0 s.1 i;
          digest = (eq_iff head.last.digest envelope.record_hash).0 r.1 i;
        };
        executor = (executor_eq_iff head.executor envelope.executor).0 q.1 i;
        signature_alg = (eq_iff head.signature_alg "ed25519").0 p.1 i;
        signature = head.signature;
      },
  λ e. subst (λ z. matches_envelope z envelope ≡ true) (sym e) (signed_matches head.signature),
)
  where
    signed_matches :
        (signature : String) → matches_envelope (signed_head envelope signature) envelope ≡ true
    signed_matches signature =
        rw
          (
            eq_refl envelope.run_id,
            (nat_eq_iff envelope.sequence _).1 refl,
            eq_refl envelope.hash_alg,
            eq_refl envelope.record_hash,
            (executor_eq_iff envelope.executor _).1 refl,
          )
          refl

-- `to_json` and `of_json` are serde_json's; the bytes of `to_vec` are those of the text.
-- `signed-head.json` holds `stored`, if it exists.
module _ (crypto : Crypto) (to_json : SignedReceiptHead → Option String)
    (of_json : String → Option SignedReceiptHead) where
  abbrev pub head_signature_message : SignedReceiptHead → Result EnvelopeError (List ℕ)
  head_signature_message head = ok_or (to_json (unsigned_head head)) unprintable >>= λ canonical.
      ok (receipt_head_signature_domain ++ as_bytes canonical)

  -- What `signed-head.json` holds afterwards.
  unfoldable pub write_receipt_head :
      Result EnvelopeError ExecutorKey
      → SignedReceiptEnvelope
      → Result EnvelopeError (Option String)
  write_receipt_head loaded envelope = loaded >>= λ key.
      ensure (key.file.key_fingerprint == envelope.executor.key_fingerprint) key_changed
      >> head_signature_message (head_of envelope)
      >>= λ message.
          ok_or (to_json (signed_head envelope (hex_encode (crypto.sign key.signing message))))
            unprintable
          >>= λ text. ok (some (append text "\n"))

  abbrev pub verify_head_signature : SignedReceiptHead → Result EnvelopeError (Unit {0})
  verify_head_signature head =
      decode_array 32 short_public_key head.executor.public_key >>= λ public_bytes.
      ensure (crypto.is_key public_bytes) not_a_key
      >> decode_array 64 short_signature head.signature
      >>= λ signature_bytes. head_signature_message head >>= λ message.
          ensure (crypto.verify public_bytes message signature_bytes) bad_signature

  head_signature_lem :
      (head : SignedReceiptHead) (public_bytes signature_bytes message : List ℕ)
      → decode_array 32 short_public_key head.executor.public_key ≡ ok public_bytes
      → crypto.is_key public_bytes ≡ true
      → decode_array 64 short_signature head.signature ≡ ok signature_bytes
      → head_signature_message head ≡ ok message
      → crypto.verify public_bytes message signature_bytes ≡ true
      → verify_head_signature head ≡ ok tt
  head_signature_lem head public_bytes signature_bytes message p q r s t = rw (p, q, r, s, t) refl

  unfoldable pub verify_receipt_head :
      Option String → Option SignedReceiptEnvelope → Result EnvelopeError (Unit {0})
  verify_receipt_head none none = ok tt
  verify_receipt_head (some text) none = err head_without_record
  verify_receipt_head none (some envelope) = err missing_head
  verify_receipt_head (some text) (some envelope) = ok_or (of_json text) invalid_head >>= λ head.
      ensure (matches_envelope head envelope) head_mismatch >> verify_head_signature head

  -- What a stored head is that passes for a terminal record: the record's own head, signed with the
  -- key of its executor.
  pub record IsPinned (text : String) (envelope : SignedReceiptEnvelope) : Type 0 where
    pub signature : String
    pub canonical : String
    pub public_bytes : List ℕ
    pub signature_bytes : List ℕ
    pub parsed : of_json text ≡ some (signed_head envelope signature)
    pub printed : to_json (head_of envelope) ≡ some canonical
    pub key_read : decode_array 32 short_public_key envelope.executor.public_key ≡ ok public_bytes
    pub key_valid : crypto.is_key public_bytes ≡ true
    pub signature_read : decode_array 64 short_signature signature ≡ ok signature_bytes
    pub signed :
        crypto.verify public_bytes
          (receipt_head_signature_domain ++ as_bytes canonical)
          signature_bytes
        ≡ true

  -- What the stored head may be, by the terminal record of the journal.
  abbrev pub IsHeadFor : Option String → Option SignedReceiptEnvelope → Type 0
  IsHeadFor none none = Unit
  IsHeadFor (some text) none = ⊥
  IsHeadFor none (some envelope) = ⊥
  IsHeadFor (some text) (some envelope) = IsPinned text envelope

  pinned_lem :
      (text : String) (envelope : SignedReceiptEnvelope)
      → verify_receipt_head (some text) (some envelope) ≡ ok tt
      → IsPinned text envelope
  unfolding verify_receipt_head
  pinned_lem text envelope h =
      let p = >>=-eq-ok (ok_or (of_json text) invalid_head) _ h in
      let m = >>-eq-ok (ensure (matches_envelope p.0 envelope) head_mismatch) _ p.2 in
      let e = (matches_envelope_iff p.0 envelope).0 (ensure-eq-ok _ _ m.0) in
      let k : verify_head_signature (signed_head envelope p.0.signature) ≡ ok tt =
        subst (λ z. verify_head_signature z ≡ ok tt) e m.1 in
      let a = >>=-eq-ok (decode_array 32 short_public_key envelope.executor.public_key) _ k in
      let b =
        >>=-eq-ok
          (ensure (crypto.is_key a.0) not_a_key >> decode_array 64 short_signature p.0.signature) _
          a.2 in
      let c = >>-eq-ok (ensure (crypto.is_key a.0) not_a_key) _ b.1 in
      let d = >>=-eq-ok (head_signature_message (signed_head envelope p.0.signature)) _ b.2 in
      let t = >>=-eq-ok (ok_or (to_json (head_of envelope)) unprintable) _ d.1 in
      record {
        signature = p.0.signature;
        canonical = t.0;
        public_bytes = a.0;
        signature_bytes = b.0;
        parsed = ok_or-eq-ok _ _ p.1 ∙ ap some e;
        printed = ok_or-eq-ok _ _ t.1;
        key_read = a.1;
        key_valid = ensure-eq-ok _ _ c.0;
        signature_read = c.1;
        signed =
            subst (λ z. crypto.verify a.0 z b.0 ≡ true) (sym (of_ok t.2)) (ensure-eq-ok _ _ d.2);
      }

  -- Verification of the head succeeds exactly when there is neither a head nor a signed record, or
  -- the stored head is the terminal record's (its run, sequence, hash and executor) with a signature
  -- that verifies under the executor's key over the printed head.
  pub verify_receipt_head_iff :
      (stored : Option String) (terminal : Option SignedReceiptEnvelope)
      → (verify_receipt_head stored terminal ≡ ok tt) ↔ IsHeadFor stored terminal
  unfolding verify_receipt_head
  verify_receipt_head_iff none none = (λ h. tt, λ h. refl)
  verify_receipt_head_iff (some text) none = (λ h. absurd (cc h), λ h. elim h [ ])
  verify_receipt_head_iff none (some envelope) = (λ h. absurd (cc h), λ h. elim h [ ])
  verify_receipt_head_iff (some text) (some envelope) = (
    pinned_lem text envelope,
    λ w.
        rw (w.parsed, (matches_envelope_iff (signed_head envelope w.signature) envelope).1 refl)
          (head_signature_lem (signed_head envelope w.signature) w.public_bytes w.signature_bytes
            (receipt_head_signature_domain ++ as_bytes w.canonical) w.key_read w.key_valid
            w.signature_read (rw (w.printed) refl) w.signed),
  )

  -- The head that an executor writes for an envelope of its own passes for that envelope, once the
  -- printed head reads back.
  pub verify-write_receipt_head :
      (key : ExecutorKey) (envelope : SignedReceiptEnvelope) (stored : Option String)
      → IsCrypto crypto
      → IsKey crypto key
      → envelope.executor ≡ identity_of key.file
      → ((head : SignedReceiptHead) (text : String)
          → to_json head ≡ some text
          → of_json (append text "\n") ≡ some head)
      → write_receipt_head (ok key) envelope ≡ ok stored
      → verify_receipt_head stored (some envelope) ≡ ok tt
  unfolding verify_receipt_head write_receipt_head matches_envelope
  verify-write_receipt_head key envelope stored laws is_key own reads_back h =
      let a =
        >>=-eq-ok
          (ensure (key.file.key_fingerprint == envelope.executor.key_fingerprint) key_changed
            >> head_signature_message (head_of envelope))
          _ h in
      let b =
        >>-eq-ok
          (ensure (key.file.key_fingerprint == envelope.executor.key_fingerprint) key_changed) _
          a.1 in
      let c =
        >>=-eq-ok
          (ok_or (to_json (signed_head envelope (hex_encode (crypto.sign key.signing a.0))))
            unprintable)
          _ a.2 in
      subst (λ z. verify_receipt_head z (some envelope) ≡ ok tt) (of_ok c.2)
        (rw
          (
            reads_back _ c.0 (ok_or-eq-ok _ _ c.1),
            (matches_envelope_iff (signed_head envelope (hex_encode (crypto.sign key.signing a.0)))
                  envelope).1
                refl,
          )
          (signature_lem a.0 b.1))
    where
      signature_lem :
          (message : List ℕ)
          → head_signature_message (head_of envelope) ≡ ok message
          → verify_head_signature
              (signed_head envelope (hex_encode (crypto.sign key.signing message)))
            ≡ ok tt
      signature_lem message m =
          head_signature_lem (signed_head envelope (hex_encode (crypto.sign key.signing message))) _
            _ message
            (rw (ap (λ z. z.public_key) own, is_key.public_is)
              (decode_array-hex_encode 32 short_public_key _ (laws.key_bytes key.signing)))
            (laws.key_is_key key.signing)
            (decode_array-hex_encode 64 short_signature _
              (laws.signature_bytes key.signing message))
            m (laws.verifies key.signing message)
