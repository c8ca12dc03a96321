-- ===== src/Receipts/Verified.antt =====
-- compiler/receipts.rs: which journals verify.

use agent_receipts.Prelude.{
  ℕ, suc, ◌≡◌, refl, ap, ◌↔◌, String, List, [], ◌∷◌, ◌++◌, Bool, true, false, ◌==◌, nat_eq, eq_iff,
  eq_refl, and_iff, not_iff, arith, map, Result, ok, err, ◌>>◌, >>=-eq-ok, >>-eq-ok, >>-ok_iff,
  ensure_iff, ensure-eq-ok, of_ok,
}
use agent_receipts.Schema.{ReceiptRecord}
use agent_receipts.Journal.Chain.{IsLinked}
use agent_receipts.Envelope.Types.{DigestRef, SignedReceiptEnvelope, EnvelopeError, digest_ref_eq}
use agent_receipts.Envelope.Keys.{Crypto}
use agent_receipts.Envelope.Verified.{IsSigned, verify_receipt_envelope_iff}
use agent_receipts.Receipts.Types.{ReceiptJournalLine, legacy, signed}
use agent_receipts.Receipts.Artifacts.{Files, verify_signed_artifacts}
use agent_receipts.Receipts.Verify.{
  Serde, Progress, passed_on, receipt_id, signed_ref, after_legacy, after_signed,
  materialize_signed_record, receipt_content_hash, check_legacy, check_signed, verify_line,
  verify_lines,
}

digest_ref_eq_iff : (a b : DigestRef) → (digest_ref_eq a b ≡ true) ↔ (a ≡ b)
digest_ref_eq_iff a b = (
  λ h.
      let p = (and_iff (a.hash_alg == b.hash_alg) (a.digest == b.digest)).0 h in
      λ i. record {
        hash_alg = (eq_iff a.hash_alg b.hash_alg).0 p.0 i;
        digest = (eq_iff a.digest b.digest).0 p.1 i;
      },
  λ e. rw (e, eq_refl b.hash_alg, eq_refl b.digest) refl,
)

nat_eq_iff : (m n : ℕ) → (nat_eq m n ≡ true) ↔ (m ≡ n)
nat_eq_iff m n = ground arith

pub passed_on_iff :
    {A : Type 0} (m : Result EnvelopeError A) (a : A) → (passed_on m ≡ ok a) ↔ (m ≡ ok a)
unfolding passed_on
passed_on_iff (err e) a = (λ h. cc, λ h. cc)
passed_on_iff (ok b) a = (λ h. ap ok (of_ok h), λ h. ap ok (of_ok h))

-- The variables after legacy records, and after signed envelopes.
abbrev pub after_legacies : Progress → List ReceiptRecord → Progress
after_legacies p [] = p
after_legacies p (r ∷ rs) = after_legacies (after_legacy p r) rs

abbrev pub after_signeds : Progress → List SignedReceiptEnvelope → Progress
after_signeds p [] = p
after_signeds p (e ∷ es) = after_signeds (after_signed p e) es

module _ (crypto : Crypto) (serde : Serde) (files : Files) (expected_run_id : String) where
  -- A signed entry: a signed envelope of this run, at its place in the chain, for the receipt of that
  -- number, with its two artifacts.
  pub record IsEntry (sequence : ℕ) (previous : DigestRef) (envelope : SignedReceiptEnvelope)
      : Type 0 where
    pub signature : IsSigned crypto serde.envelope_to_vec envelope
    pub run_is : envelope.run_id ≡ expected_run_id
    pub sequence_is : envelope.sequence ≡ sequence
    pub previous_is : envelope.previous ≡ previous
    pub id_is : envelope.payload.id ≡ receipt_id sequence
    pub link_is : envelope.payload.prev_record_hash ≡ previous.digest
    pub artifacts :
        verify_signed_artifacts crypto files (materialize_signed_record envelope) ≡ ok tt

  abbrev pub IsSignedChain : ℕ → DigestRef → List SignedReceiptEnvelope → Type 0
  IsSignedChain sequence previous [] = Unit
  IsSignedChain sequence previous (envelope ∷ envelopes) =
      IsEntry sequence previous envelope
      × IsSignedChain (suc sequence) (signed_ref envelope) envelopes

  -- The chain of the legacy records, which come first.
  abbrev pub IsLegacyChain : String → List ReceiptRecord → Type 0
  IsLegacyChain =
      IsLinked (λ r. r.id) (receipt_content_hash crypto serde) (λ r. r.prev_record_hash)
        (λ r. r.record_hash)

  pub check_signed_iff :
      (sequence : ℕ) (previous : DigestRef) (envelope : SignedReceiptEnvelope)
      → (check_signed crypto serde files expected_run_id sequence previous envelope ≡ ok tt)
        ↔ IsEntry sequence previous envelope
  unfolding check_signed
  check_signed_iff sequence previous envelope = (
    λ h.
        let a = (>>-ok_iff _ _).0 h in
        let b = (>>-ok_iff _ _).0 a.1 in
        let c = (>>-ok_iff _ _).0 b.1 in
        let d = (>>-ok_iff _ _).0 c.1 in
        let place = (and_iff _ _).0 (ensure-eq-ok _ _ c.0) in
        let payload = (and_iff _ _).0 (ensure-eq-ok _ _ d.0) in
        record {
          signature =
              (verify_receipt_envelope_iff crypto serde.envelope_to_vec envelope).0
                ((passed_on_iff _ tt).0 a.0);
          run_is = (eq_iff _ _).0 (ensure-eq-ok _ _ b.0);
          sequence_is = (nat_eq_iff _ _).0 place.0;
          previous_is = (digest_ref_eq_iff _ _).0 place.1;
          id_is = (eq_iff _ _).0 payload.0;
          link_is = (eq_iff _ _).0 payload.1;
          artifacts = d.1;
        },
    λ r. (>>-ok_iff _ _).1 (
      (passed_on_iff _ tt).1
          ((verify_receipt_envelope_iff crypto serde.envelope_to_vec envelope).1 r.signature),
      (>>-ok_iff _ _).1 (
        (ensure_iff _ _).1 ((eq_iff _ _).1 r.run_is),
        (>>-ok_iff _ _).1 (
          (ensure_iff _ _).1 (
              (and_iff _ _).1
                ((nat_eq_iff _ _).1 r.sequence_is, (digest_ref_eq_iff _ _).1 r.previous_is)),
          (>>-ok_iff _ _).1 (
            (ensure_iff _ _).1 ((and_iff _ _).1 ((eq_iff _ _).1 r.id_is, (eq_iff _ _).1 r.link_is)),
            r.artifacts,
          ),
        ),
      ),
    ),
  )

  check_legacy_iff :
      (sequence : ℕ) (signed_started : Bool) (previous : DigestRef) (r : ReceiptRecord)
      → (check_legacy crypto serde sequence signed_started previous r ≡ ok tt) ↔ (
          (signed_started ≡ false)
          × (r.record_hash ≡ receipt_content_hash crypto serde r)
          × (r.prev_record_hash ≡ previous.digest))
  unfolding check_legacy
  check_legacy_iff sequence signed_started previous r = (
    λ h.
        let a = (>>-ok_iff _ _).0 h in
        let b = (>>-ok_iff _ _).0 a.1 in
        (
          (not_iff _).0 (ensure-eq-ok _ _ a.0),
          (eq_iff _ _).0 (ensure-eq-ok _ _ b.0),
          (eq_iff _ _).0 (ensure-eq-ok _ _ b.1),
        ),
    λ h. rw ((not_iff signed_started).1 h.0, (eq_iff _ _).1 h.1, (eq_iff _ _).1 h.2) refl,
  )

  -- From a signed entry on, all lines are signed.
  verify_signed_lines :
      (p q : Progress) (lines : List ReceiptJournalLine)
      → p.signed_started ≡ true
      → verify_lines crypto serde files expected_run_id p lines ≡ ok q
      → (es : List SignedReceiptEnvelope) × (lines ≡ map signed es)
        × IsSignedChain (suc p.index) p.previous es
        × (after_signeds p es ≡ q)
  unfolding verify_lines verify_line
  verify_signed_lines p q [] s h = ([], refl, tt, of_ok h)
  verify_signed_lines p q (legacy r ∷ lines) s h =
      let a =
        >>=-eq-ok
          (check_legacy crypto serde (suc p.index) p.signed_started p.previous r
            >> ok (after_legacy p r))
          _ h in
      let b =
        >>-eq-ok (check_legacy crypto serde (suc p.index) p.signed_started p.previous r) _ a.1 in
      let c = (check_legacy_iff _ _ _ _).0 b.0 in absurd (cc (s, c.0))
  verify_signed_lines p q (signed e ∷ lines) s h =
      let a =
        >>=-eq-ok
          (check_signed crypto serde files expected_run_id (suc p.index) p.previous e
            >> ok (after_signed p e))
          _ h in
      let b =
        >>-eq-ok (check_signed crypto serde files expected_run_id (suc p.index) p.previous e) _
          a.1 in
      let rest = verify_signed_lines (after_signed p e) q lines refl (rw (of_ok b.1) a.2) in
      (e ∷ rest.0, ap (λ z. signed e ∷ z) rest.1, ((check_signed_iff _ _ _).0 b.0, rest.2), rest.3)

  -- A journal is legacy records, then signed envelopes.
  pub verify_lines_parts :
      (p q : Progress) (lines : List ReceiptJournalLine)
      → p.signed_started ≡ false
      → verify_lines crypto serde files expected_run_id p lines ≡ ok q
      → (rs : List ReceiptRecord) × (es : List SignedReceiptEnvelope) × (lines
          ≡ map legacy rs ++ map signed es)
        × IsLegacyChain p.previous.digest rs
        × IsSignedChain (suc (after_legacies p rs).index) (after_legacies p rs).previous es
        × (after_signeds (after_legacies p rs) es ≡ q)
  unfolding verify_lines verify_line
  verify_lines_parts p q [] s h = ([], [], refl, tt, tt, of_ok h)
  verify_lines_parts p q (legacy r ∷ lines) s h =
      let a =
        >>=-eq-ok
          (check_legacy crypto serde (suc p.index) p.signed_started p.previous r
            >> ok (after_legacy p r))
          _ h in
      let b =
        >>-eq-ok (check_legacy crypto serde (suc p.index) p.signed_started p.previous r) _ a.1 in
      let c = (check_legacy_iff _ _ _ _).0 b.0 in
      let rest = verify_lines_parts (after_legacy p r) q lines s (rw (of_ok b.1) a.2) in
      (r ∷ rest.0, rest.1, ap (λ z. legacy r ∷ z) rest.2, (c.1, c.2, rest.3), rest.4, rest.5)
  verify_lines_parts p q (signed e ∷ lines) s h =
      let a =
        >>=-eq-ok
          (check_signed crypto serde files expected_run_id (suc p.index) p.previous e
            >> ok (after_signed p e))
          _ h in
      let b =
        >>-eq-ok (check_signed crypto serde files expected_run_id (suc p.index) p.previous e) _
          a.1 in
      let rest = verify_signed_lines (after_signed p e) q lines refl (rw (of_ok b.1) a.2) in
      (
        [],
        e ∷ rest.0,
        ap (λ z. signed e ∷ z) rest.1,
        tt,
        ((check_signed_iff _ _ _).0 b.0, rest.2),
        rest.3,
      )

  -- And such a journal passes.
  pub verify_map_signed :
      (p : Progress) (es : List SignedReceiptEnvelope)
      → IsSignedChain (suc p.index) p.previous es
      → verify_lines crypto serde files expected_run_id p (map signed es) ≡ ok (after_signeds p es)
  unfolding verify_lines verify_line
  verify_map_signed p [] h = refl
  verify_map_signed p (e ∷ es) h =
      rw ((check_signed_iff _ _ e).1 h.0) (verify_map_signed (after_signed p e) es h.1)

  pub verify_map_legacy :
      (p : Progress) (rs : List ReceiptRecord) (lines : List ReceiptJournalLine)
      → p.signed_started ≡ false
      → IsLegacyChain p.previous.digest rs
      → verify_lines crypto serde files expected_run_id p (map legacy rs ++ lines)
        ≡ verify_lines crypto serde files expected_run_id (after_legacies p rs) lines
  unfolding verify_lines verify_line
  verify_map_legacy p [] lines s h = refl
  verify_map_legacy p (r ∷ rs) lines s h =
      rw ((check_legacy_iff (suc p.index) p.signed_started p.previous r).1 (s, h.0, h.1))
        (verify_map_legacy (after_legacy p r) rs lines s h.2)
