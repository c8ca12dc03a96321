-- ===== src/Receipts/Growth.antt =====
-- compiler/receipts.rs: appending a receipt, and loading the journal again.
use agent_receipts.Prelude.{
  ℕ, suc, ◌≡◌, refl, sym, ap, subst, ◌⊎◌, inl, inr, String, [], ◌∷◌, ◌++◌, Bool, Option, none, some,
  unwrap_or, length, Bool-cases, Result, ok, err, >>=-eq-ok, of_ok,
}
use agent_receipts.Schema.{ReceiptRecord}
use agent_receipts.Journal.Lock.{acquire}
use agent_receipts.Envelope.Types.{DigestRef, ExecutorKey, SignedReceiptEnvelope, EnvelopeError}
use agent_receipts.Envelope.Keys.{Crypto, IsCrypto}
use agent_receipts.Envelope.Detached.{IsKey}
use agent_receipts.Envelope.Receipt.{Build, sign_receipt_envelope}
use agent_receipts.Envelope.Drafts.{sign_receipt_envelope-fields}
use agent_receipts.Envelope.Signing.{IsSignable, verify-sign_receipt_envelope_iff}
use agent_receipts.Envelope.Head.{write_receipt_head}
use agent_receipts.Receipts.Types.{VerifiedReceiptJournal, JournalError, lock_timeout}
use agent_receipts.Receipts.Artifacts.{Files, verify_signed_artifacts}
use agent_receipts.Receipts.Stored.{HasArtifact, verify_signed_artifacts_iff}
use agent_receipts.Receipts.Verify.{Serde, passed_on, run_id}
use agent_receipts.Receipts.Verified.{IsEntry, passed_on_iff}
use agent_receipts.Envelope.Verified.{verify_receipt_envelope_iff}
use agent_receipts.Receipts.Append.{
  Store, previous_of, numbered, load_store, prepare_envelope, finish_head, write_line,
  append_prepared, append_receipt,
}

Result-cases : {E A : Type 0} (m : Result E A) → ((e : E) × (m ≡ err e)) ⊎ ((a : A) × (m ≡ ok a))
Result-cases (err e) = inl (e, refl)
Result-cases (ok a) = inr (a, refl)

module _ (crypto : Crypto) (serde : Serde) (build : Build) (key : ExecutorKey) (files : Files)
    (manifest_run_id : Option String) where
  -- What an append that succeeds has done.
  pub record IsAppend (store : Store) (r done : ReceiptRecord) (after : Store) : Type 0 where
    pub envelope : SignedReceiptEnvelope
    pub prepared :
        prepare_envelope crypto serde build (ok key) files manifest_run_id store r ≡ ok envelope
    pub line : String
    pub printed : serde.envelope_to_string envelope ≡ some line
    pub head : Option String
    pub headed :
        write_receipt_head crypto serde.head_to_string serde.head_of_slice (ok key) envelope
        ≡ ok head
    pub done_is :
        record (r) {
          id = envelope.payload.id;
          prev_record_hash = envelope.payload.prev_record_hash;
          record_hash = envelope.record_hash;
        }
        ≡ done
    pub after_is :
        record { journal = some (unwrap_or store.journal [] ++ line ∷ []); head = head } ≡ after

  finish_lem :
      (store : Store) (r done : ReceiptRecord) (after : Store) (envelope : SignedReceiptEnvelope)
      (line : String)
      → prepare_envelope crypto serde build (ok key) files manifest_run_id store r ≡ ok envelope
      → serde.envelope_to_string envelope ≡ some line
      → (headed : Result EnvelopeError (Option String))
      → write_receipt_head crypto serde.head_to_string serde.head_of_slice (ok key) envelope
        ≡ headed
      → finish_head crypto serde build
          (ok key)
          files
          manifest_run_id
          envelope
          r
          (unwrap_or store.journal [] ++ line ∷ [])
          store
          headed
        ≡ (ok done, after)
      → IsAppend store r done after
  unfolding finish_head
  finish_lem store r done after envelope line p q (err e) w h = absurd (no_done (ap (λ z. z.0) h))
    where
      no_done : {A : Type 0} {a : A} → passed_on (err e) ≡ ok a → ⊥
      no_done k = unfold passed_on in cc
  finish_lem store r done after envelope line p q (ok head) w h = record {
    envelope = envelope;
    prepared = p;
    line = line;
    printed = q;
    head = head;
    headed = w;
    done_is = of_ok (ap (λ z. z.0) h);
    after_is = ap (λ z. z.1) h;
  }

  write_lem :
      (store : Store) (r done : ReceiptRecord) (after : Store) (envelope : SignedReceiptEnvelope)
      → prepare_envelope crypto serde build (ok key) files manifest_run_id store r ≡ ok envelope
      → (line : Option String) → serde.envelope_to_string envelope ≡ line
      → write_line crypto serde build (ok key) files manifest_run_id envelope r store line
        ≡ (ok done, after)
      → IsAppend store r done after
  unfolding write_line
  write_lem store r done after envelope p none q h = absurd (cc (ap (λ z. z.0) h))
  write_lem store r done after envelope p (some line) q h =
      finish_lem store r done after envelope line p q _ refl h

  pub append_lem :
      (create_new : ℕ → Bool) (store : Store) (r done : ReceiptRecord) (after : Store)
      → append_receipt crypto serde build (ok key) files manifest_run_id create_new store r
        ≡ (ok done, after)
      → IsAppend store r done after
  unfolding append_receipt append_prepared
  append_lem create_new store r done after h = elim (Bool-cases (acquire create_new)) [
    | inr e ↦
        let k : Path (Result JournalError ReceiptRecord × Store) (err lock_timeout, store)
            (ok done, after) =
          rw e at h in
        absurd (cc (ap (λ z. z.0) k))
    | inl e ↦
        elim (Result-cases
          (prepare_envelope crypto serde build (ok key) files manifest_run_id store r)) [
            | inl f ↦
                let k : Path (Result JournalError ReceiptRecord × Store) (err f.0, store)
                    (ok done, after) =
                  rw (e, f.1) at h in
                absurd (cc (ap (λ z. z.0) k))
            | inr f ↦ write_lem store r done after f.0 f.1 _ refl (rw (e, f.1) at h)
          ]
  ]

  -- What the envelope was signed for.
  pub record IsPrepared (store : Store) (r : ReceiptRecord) (envelope : SignedReceiptEnvelope)
      : Type 0 where
    pub existing : VerifiedReceiptJournal
    pub loads : load_store crypto serde build (ok key) files manifest_run_id store ≡ ok existing
    pub previous : DigestRef
    pub previous_is : previous_of existing ≡ ok previous
    pub run : String
    pub run_is : run_id manifest_run_id ≡ ok run
    pub signs :
        sign_receipt_envelope crypto serde.envelope_to_vec build
          (ok key)
          run
          (suc (length existing.records))
          previous
          (numbered r (suc (length existing.records)) previous)
        ≡ ok envelope

  pub prepared_lem :
      (store : Store) (r : ReceiptRecord) (envelope : SignedReceiptEnvelope)
      → prepare_envelope crypto serde build (ok key) files manifest_run_id store r ≡ ok envelope
      → IsPrepared store r envelope
  unfolding prepare_envelope
  prepared_lem store r envelope h =
      let a = >>=-eq-ok (load_store crypto serde build (ok key) files manifest_run_id store) _ h in
      let b = >>=-eq-ok (previous_of a.0) _ a.2 in
      let c = >>=-eq-ok (run_id manifest_run_id) _ b.2 in
      record {
        existing = a.0;
        loads = a.1;
        previous = b.0;
        previous_is = b.1;
        run = c.0;
        run_is = c.1;
        signs = (passed_on_iff _ envelope).0 c.2;
      }

  -- An envelope signed for a receipt is the next entry after what it was signed for.
  pub entry_lem :
      (laws : IsCrypto crypto) (is_key : IsKey crypto key) (store : Store) (r : ReceiptRecord)
      (envelope : SignedReceiptEnvelope) (p : IsPrepared store r envelope)
      → IsSignable build p.run
      → verify_signed_artifacts crypto files r ≡ ok tt
      → IsEntry crypto serde files p.run (suc (length p.existing.records)) p.previous envelope
  entry_lem laws is_key store r envelope p signable artifacts =
      let fields =
        sign_receipt_envelope-fields crypto serde.envelope_to_vec key build _ _ _ _ envelope
          p.signs in
      record {
        signature = (verify_receipt_envelope_iff crypto serde.envelope_to_vec envelope).0 (
            (verify-sign_receipt_envelope_iff crypto laws serde.envelope_to_vec key build _ _ _ _
                envelope is_key p.signs).1
              signable);
        run_is = sym fields.0;
        sequence_is = sym fields.1;
        previous_is = sym fields.2;
        id_is = sym (ap (λ z. z.id) fields.3);
        link_is = sym (ap (λ z. z.prev_record_hash) fields.3);
        artifacts = (verify_signed_artifacts_iff crypto files _).1 (
            subst
              (λ z. HasArtifact crypto files z.stdout_hash × HasArtifact crypto files z.stderr_hash)
              fields.3 ((verify_signed_artifacts_iff crypto files r).0 artifacts));
      }
