-- ===== src/Receipts/Appended.antt =====
-- compiler/receipts.rs: a journal with an appended receipt verifies.
use Prim.Native.String.{◌++◌ as append}
use agent_receipts.Prelude.{
  ℕ, suc, ◌≡◌, refl, ap, subst, inl, inr, String, List, [], ◌∷◌, ◌++◌, true, false, Option, none,
  some, arith, any, unwrap_or, length, length-append, get_last?-append, eq_refl, is_blank,
  Bool-cases, ok, ◌>>=◌, ◌>>◌, >>=-eq-ok, of_ok,
}
use agent_receipts.Schema.{ReceiptRecord}
use agent_receipts.Envelope.Types.{SignedReceiptEnvelope, SignedReceiptHead}
use agent_receipts.Envelope.Keys.{Crypto}
use agent_receipts.Receipts.Types.{ReceiptJournalLine, legacy, signed}
use agent_receipts.Receipts.Artifacts.{Files}
use agent_receipts.Receipts.Verify.{
  Serde, Progress, start, after_legacy, after_signed, materialize_signed_record, is_signed,
  read_line, load_lines, load_journal_lines, check_legacy, verify_line, verify_lines,
}
use agent_receipts.Receipts.Verified.{after_legacies, after_signeds, verify_lines_parts}
use agent_receipts.Receipts.Append.{previous_of}

-- What the journal relies on of serde_json: a printed envelope is one line that reads back as a
-- signed envelope, and a printed head reads back.
pub record IsSerde (serde : Serde) : Type 0 where
  pub is_a_line :
      (e : SignedReceiptEnvelope) (line : String)
      → serde.envelope_to_string e ≡ some line
      → is_blank line ≡ false
  pub reads_back :
      (e : SignedReceiptEnvelope) (line : String)
      → serde.envelope_to_string e ≡ some line
      → (value : serde.Value) × (serde.of_line line ≡ some value)
        × (serde.has_format_version value ≡ true)
        × (serde.to_envelope value ≡ some e)
  pub head_reads_back :
      (head : SignedReceiptHead) (text : String)
      → serde.head_to_string head ≡ some text
      → serde.head_of_slice (append text "\n") ≡ some head

-- The loop's variables agree: the count of the entries, and what the next one must name.
pub record IsProgress (p : Progress) : Type 0 where
  pub counted : p.index ≡ length p.records
  pub named :
      previous_of (record { records = p.records; verification = p.verification }) ≡ ok p.previous

after_legacy-IsProgress :
    (p : Progress) (r : ReceiptRecord) → IsProgress p → IsProgress (after_legacy p r)
after_legacy-IsProgress p r h = record {
  counted = omega (arith, length-append p.records (r ∷ []), h.counted);
  named = rw (get_last?-append p.records r, eq_refl r.id) refl;
}

after_signed-IsProgress :
    (p : Progress) (e : SignedReceiptEnvelope) → IsProgress p → IsProgress (after_signed p e)
after_signed-IsProgress p e h = record {
  counted = omega (arith, length-append p.records (materialize_signed_record e ∷ []), h.counted);
  named = rw (get_last?-append p.records (materialize_signed_record e), eq_refl e.payload.id) refl;
}

after_legacies-IsProgress :
    (p : Progress) (rs : List ReceiptRecord) → IsProgress p → IsProgress (after_legacies p rs)
after_legacies-IsProgress p [] h = h
after_legacies-IsProgress p (r ∷ rs) h =
    after_legacies-IsProgress (after_legacy p r) rs (after_legacy-IsProgress p r h)

after_signeds-IsProgress :
    (p : Progress) (es : List SignedReceiptEnvelope)
    → IsProgress p
    → IsProgress (after_signeds p es)
after_signeds-IsProgress p [] h = h
after_signeds-IsProgress p (e ∷ es) h =
    after_signeds-IsProgress (after_signed p e) es (after_signed-IsProgress p e h)

start-IsProgress : IsProgress start
start-IsProgress = record { counted = refl; named = refl }

module _ (crypto : Crypto) (serde : Serde) where
  load_lines-append :
      (index : ℕ) (lines : List String) (entries : List ReceiptJournalLine) (line : String)
      (e : SignedReceiptEnvelope)
      → IsSerde serde
      → load_lines crypto serde index lines ≡ ok entries
      → serde.envelope_to_string e ≡ some line
      → load_lines crypto serde index (lines ++ line ∷ []) ≡ ok (entries ++ signed e ∷ [])
  unfolding load_lines read_line
  load_lines-append index [] entries line e laws h p =
      let back = laws.reads_back e line p in
      rw (laws.is_a_line e line p, back.1, back.2, back.3)
        (ap (λ z. ok (z ++ signed e ∷ [])) (of_ok h))
  load_lines-append index (first ∷ lines) entries line e laws h p =
      elim (Bool-cases (is_blank first)) [
        | inl b ↦ rw b (load_lines-append (suc index) lines entries line e laws (rw b at h) p)
        | inr b ↦
            let q = >>=-eq-ok (read_line crypto serde index first) _ (rw b at h) in
            let r = >>=-eq-ok (load_lines crypto serde (suc index) lines) _ q.2 in
            rw (b, q.1, load_lines-append (suc index) lines r.0 line e laws r.1 p)
              (ap (λ z. ok (z ++ signed e ∷ [])) (of_ok r.2))
      ]

  pub load_journal_lines-append :
      (journal : Option (List String)) (entries : List ReceiptJournalLine) (line : String)
      (e : SignedReceiptEnvelope)
      → IsSerde serde
      → load_journal_lines crypto serde journal ≡ ok entries
      → serde.envelope_to_string e ≡ some line
      → load_journal_lines crypto serde (some (unwrap_or journal [] ++ line ∷ []))
        ≡ ok (entries ++ signed e ∷ [])
  unfolding load_journal_lines
  load_journal_lines-append none entries line e laws h p =
      load_lines-append 0 [] entries line e laws (unfold load_lines in h) p
  load_journal_lines-append (some lines) entries line e laws h p =
      load_lines-append 0 lines entries line e laws h p

  module _ (files : Files) where
    pub verify_lines-append :
        (run : String) (p q r : Progress) (lines : List ReceiptJournalLine)
        (line : ReceiptJournalLine)
        → verify_lines crypto serde files run p lines ≡ ok q
        → verify_line crypto serde files run q line ≡ ok r
        → verify_lines crypto serde files run p (lines ++ line ∷ []) ≡ ok r
    unfolding verify_lines
    verify_lines-append run p q r [] line h k = rw (of_ok h, k) refl
    verify_lines-append run p q r (first ∷ lines) line h k =
        let a = >>=-eq-ok (verify_line crypto serde files run p first) _ h in
        rw (a.1) (verify_lines-append run a.0 q r lines line a.2 k)

    -- Without a signed line the run id is of no account.
    pub verify_lines-unsigned :
        (run other : String) (p : Progress) (lines : List ReceiptJournalLine)
        → any is_signed lines ≡ false
        → verify_lines crypto serde files run p lines
          ≡ verify_lines crypto serde files other p lines
    unfolding verify_lines verify_line
    verify_lines-unsigned run other p [] h = refl
    verify_lines-unsigned run other p (legacy r ∷ lines) h = λ i.
        (check_legacy crypto serde (suc p.index) p.signed_started p.previous r
          >> ok (after_legacy p r))
        >>= λ q. verify_lines-unsigned run other q lines h i
    verify_lines-unsigned run other p (signed e ∷ lines) h = absurd (cc)

    pub verify_lines-IsProgress :
        (run : String) (q : Progress) (lines : List ReceiptJournalLine)
        → verify_lines crypto serde files run start lines ≡ ok q
        → IsProgress q
    verify_lines-IsProgress run q lines h =
        let parts = verify_lines_parts crypto serde files run start q lines refl h in
        subst IsProgress parts.5 (
          after_signeds-IsProgress _ parts.1
            (after_legacies-IsProgress start parts.0 start-IsProgress))
