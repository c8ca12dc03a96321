-- ===== src/Receipts/Loaded.antt =====
-- compiler/receipts.rs: what `load_verified_receipt_journal` takes, and what it returns.
use agent_receipts.Prelude.{
  suc, ◌+◌, ◌≡◌, refl, sym, ap, subst, ◌∙◌, ◌↔◌, String, List, [], ◌∷◌, ◌++◌, append-nil, Option,
  none, some, arith, map, length, get_last?, ok, >>=-eq-ok, >>-eq-ok, of_ok,
}
use mathlib.Core.List.{append_assoc}
use agent_receipts.Schema.{ReceiptRecord}
use agent_receipts.Journal.Hash.{genesis}
use agent_receipts.Envelope.Types.{DigestRef, SignedReceiptEnvelope}
use agent_receipts.Envelope.Keys.{Crypto}
use agent_receipts.Envelope.Head.{verify_receipt_head}
use agent_receipts.Receipts.Types.{ReceiptVerification, ReceiptJournalLine, legacy, signed}
use agent_receipts.Receipts.Artifacts.{Files}
use agent_receipts.Receipts.Verify.{
  Serde, Progress, start, passed_on, genesis_ref, legacy_ref, after_legacy, after_signed,
  materialize_signed_record, load_journal_lines, expected_run_id_of, verify_lines,
  load_verified_receipt_journal,
}
use agent_receipts.Receipts.Verified.{
  IsSignedChain, IsLegacyChain, after_legacies, after_signeds, passed_on_iff, verify_lines_parts,
  verify_map_legacy, verify_map_signed,
}

-- What the entry after the legacy records must name.
abbrev pub last_ref : DigestRef → List ReceiptRecord → DigestRef
last_ref previous [] = previous
last_ref previous (r ∷ rs) = last_ref (legacy_ref r) rs

index-after_legacies :
    (p : Progress) (rs : List ReceiptRecord) → (after_legacies p rs).index ≡ p.index + length rs
index-after_legacies p [] = omega arith
index-after_legacies p (r ∷ rs) = omega (arith, index-after_legacies (after_legacy p r) rs)

previous-after_legacies :
    (p : Progress) (rs : List ReceiptRecord)
    → (after_legacies p rs).previous ≡ last_ref p.previous rs
previous-after_legacies p [] = refl
previous-after_legacies p (r ∷ rs) = previous-after_legacies (after_legacy p r) rs

records-after_legacies :
    (p : Progress) (rs : List ReceiptRecord) → (after_legacies p rs).records ≡ p.records ++ rs
records-after_legacies p [] = sym (append-nil p.records)
records-after_legacies p (r ∷ rs) =
    records-after_legacies (after_legacy p r) rs ∙ append_assoc p.records (r ∷ []) rs

records-after_signeds :
    (p : Progress) (es : List SignedReceiptEnvelope)
    → (after_signeds p es).records ≡ p.records ++ map materialize_signed_record es
records-after_signeds p [] = sym (append-nil p.records)
records-after_signeds p (e ∷ es) =
    records-after_signeds (after_signed p e) es
    ∙ append_assoc p.records (materialize_signed_record e ∷ []) _

last-after_legacies :
    (p : Progress) (rs : List ReceiptRecord)
    → (after_legacies p rs).last_signed_envelope ≡ p.last_signed_envelope
last-after_legacies p [] = refl
last-after_legacies p (r ∷ rs) = last-after_legacies (after_legacy p r) rs

last_of : Option SignedReceiptEnvelope → List SignedReceiptEnvelope → Option SignedReceiptEnvelope
last_of o [] = o
last_of o (e ∷ es) = last_of (some e) es

last-after_signeds :
    (p : Progress) (es : List SignedReceiptEnvelope)
    → (after_signeds p es).last_signed_envelope ≡ last_of p.last_signed_envelope es
unfolding last_of
last-after_signeds p [] = refl
last-after_signeds p (e ∷ es) = last-after_signeds (after_signed p e) es

last_of-get_last? : (es : List SignedReceiptEnvelope) → last_of none es ≡ get_last? es
unfolding last_of
last_of-get_last? [] = refl
last_of-get_last? (e ∷ []) = refl
last_of-get_last? (e ∷ f ∷ es) = last_of-get_last? (f ∷ es)

-- The progress after a whole journal.
end_of : List ReceiptRecord → List SignedReceiptEnvelope → Progress
end_of rs es = after_signeds (after_legacies start rs) es

records-end_of :
    (rs : List ReceiptRecord) (es : List SignedReceiptEnvelope)
    → (end_of rs es).records ≡ rs ++ map materialize_signed_record es
unfolding end_of
records-end_of rs es =
    records-after_signeds (after_legacies start rs) es
    ∙ ap (λ z. z ++ map materialize_signed_record es) (records-after_legacies start rs)

last-end_of :
    (rs : List ReceiptRecord) (es : List SignedReceiptEnvelope)
    → (end_of rs es).last_signed_envelope ≡ get_last? es
unfolding end_of
last-end_of rs es =
    last-after_signeds (after_legacies start rs) es
    ∙ ap (λ z. last_of z es) (last-after_legacies start rs)
    ∙ last_of-get_last? es

module _ (crypto : Crypto) (serde : Serde) (files : Files) (manifest_run_id : Option String)
    (head : Option String) (journal : Option (List String)) where
  -- A journal that is legacy records, each holding the hash of its content and naming the one before,
  -- and then signed envelopes, each at its place in the chain; the head pins the last of these.
  pub record IsJournal (records : List ReceiptRecord) : Type 0 where
    pub lines : List ReceiptJournalLine
    pub read : load_journal_lines crypto serde journal ≡ ok lines
    pub run : String
    pub run_is : expected_run_id_of manifest_run_id lines ≡ ok run
    pub legacies : List ReceiptRecord
    pub signeds : List SignedReceiptEnvelope
    pub lines_are : lines ≡ map legacy legacies ++ map signed signeds
    pub legacy_chain : IsLegacyChain crypto serde files run genesis legacies
    pub signed_chain :
        IsSignedChain crypto serde files run
          (suc (length legacies))
          (last_ref genesis_ref legacies)
          signeds
    pub pinned :
        verify_receipt_head crypto serde.head_to_string serde.head_of_slice head (get_last? signeds)
        ≡ ok tt
    pub records_are : records ≡ legacies ++ map materialize_signed_record signeds

  -- A journal verifies with some records exactly when it is such a journal of them.
  pub load_verified_receipt_journal_iff :
      (records : List ReceiptRecord)
      → ((verification : List (String × ReceiptVerification)) × (load_verified_receipt_journal
              crypto serde files manifest_run_id head journal
            ≡ ok (record { records = records; verification = verification })))
        ↔ IsJournal records
  unfolding load_verified_receipt_journal
  load_verified_receipt_journal_iff records = (
    λ h.
        let a = >>=-eq-ok (load_journal_lines crypto serde journal) _ h.1 in
        let b = >>=-eq-ok (expected_run_id_of manifest_run_id a.0) _ a.2 in
        let c = >>=-eq-ok (verify_lines crypto serde files b.0 start a.0) _ b.2 in
        let d =
          >>-eq-ok
            (passed_on (
              verify_receipt_head crypto serde.head_to_string serde.head_of_slice head
                c.0.last_signed_envelope))
            _ c.2 in
        let parts = verify_lines_parts crypto serde files b.0 start c.0 a.0 refl c.1 in
        journal_lem a.0 a.1 b.0 b.1 parts.0 parts.1 parts.2 parts.3 parts.4
          (rw (end_lem parts.0 parts.1 c.0 parts.5) d.0)
          (rw (end_lem parts.0 parts.1 c.0 parts.5) (ap (λ z. z.records) (of_ok d.1))),
    λ r. (
      (end_of r.legacies r.signeds).verification,
      rw (r.read, r.run_is, verified_lem r, (passed_on_iff _ tt).1 (pinned_lem r))
          (ap
            (λ z.
              ok
                (record { records = z; verification = (end_of r.legacies r.signeds).verification }))
            (records-end_of r.legacies r.signeds ∙ sym r.records_are)),
    ),
  )
    where
      place-start :
          (run : String) (rs : List ReceiptRecord) (es : List SignedReceiptEnvelope)
          → IsSignedChain crypto serde files run
              (suc (after_legacies start rs).index)
              (after_legacies start rs).previous
              es
            ≡ IsSignedChain crypto serde files run (suc (length rs)) (last_ref genesis_ref rs) es
      place-start run rs es =
          let index : (after_legacies start rs).index ≡ length rs =
            index-after_legacies start rs ∙ omega arith in
          λ i.
            IsSignedChain crypto serde files run (suc (index i))
              (previous-after_legacies start rs i) es

      end_lem :
          (rs : List ReceiptRecord) (es : List SignedReceiptEnvelope) (p : Progress)
          → after_signeds (after_legacies start rs) es ≡ p
          → end_of rs es ≡ p
      end_lem rs es p h = unfold end_of in h

      verified_lem :
          (r : IsJournal records)
          → verify_lines crypto serde files r.run start r.lines ≡ ok (end_of r.legacies r.signeds)
      verified_lem r =
          unfold end_of in
          rw (r.lines_are) (
            verify_map_legacy crypto serde files r.run start r.legacies (map signed r.signeds) refl
              r.legacy_chain
            ∙ verify_map_signed crypto serde files r.run (after_legacies start r.legacies) r.signeds
                (subst (λ z. z) (sym (place-start r.run r.legacies r.signeds)) r.signed_chain))

      pinned_lem :
          (r : IsJournal records)
          → verify_receipt_head crypto serde.head_to_string serde.head_of_slice head
              (end_of r.legacies r.signeds).last_signed_envelope
            ≡ ok tt
      pinned_lem r = rw (last-end_of r.legacies r.signeds) r.pinned

      journal_lem :
          (lines : List ReceiptJournalLine)
          → load_journal_lines crypto serde journal ≡ ok lines
          → (run : String) → expected_run_id_of manifest_run_id lines ≡ ok run
          → (rs : List ReceiptRecord) (es : List SignedReceiptEnvelope)
          → lines ≡ map legacy rs ++ map signed es
          → IsLegacyChain crypto serde files run genesis rs
          → IsSignedChain crypto serde files run
              (suc (after_legacies start rs).index)
              (after_legacies start rs).previous
              es
          → passed_on (
              verify_receipt_head crypto serde.head_to_string serde.head_of_slice head
                (end_of rs es).last_signed_envelope)
            ≡ ok tt
          → (end_of rs es).records ≡ records
          → IsJournal records
      journal_lem lines l run m rs es t legacy_chain signed_chain p q = record {
        lines = lines;
        read = l;
        run = run;
        run_is = m;
        legacies = rs;
        signeds = es;
        lines_are = t;
        legacy_chain = legacy_chain;
        signed_chain = subst (λ z. z) (place-start run rs es) signed_chain;
        pinned = (passed_on_iff _ tt).0 (
            subst
              (λ z.
                passed_on
                  (verify_receipt_head crypto serde.head_to_string serde.head_of_slice head z)
                ≡ ok tt)
              (last-end_of rs es) p);
        records_are = sym q ∙ records-end_of rs es;
      }
