-- ===== src/Compile/Claims.antt =====
-- compiler/run_dir.rs, `compile_run_dir`: the claim bindings, and what stands behind a trusted fact.
use mathlib.Core.List.{Memᴰ}
use mathlib.Core.List.Memᴰ
use agent_receipts.Prelude.{
  ◌≡◌, refl, sym, ap, subst, ◌∙◌, true, String, List, [], ◌∷◌, Option, some, Result, ok, ◌>>=◌,
  >>=-eq-ok, lookup, collect, lookup-collect, mem_of_last, inl, inr, mem_of_last_value,
}
use agent_receipts.Prelude.Int.{is_zero}
use agent_receipts.Schema.{F32, F64, EvidenceRecord, Contradiction, CompiledFact, ReceiptRecord}
use agent_receipts.Checks.Types.{CheckDefinition, CheckManifest, CheckAttemptRecord, ClaimBinding}
use agent_receipts.Checks.Current.{BindingSnapshot, claim_binding}
use agent_receipts.Checks.Applicable.{Backs, claim_binding-current_iff}
use agent_receipts.Checks.Backed.{IsReceipted, verify_attempt_receipts, verify_attempt_receipts_iff}
use agent_receipts.Compile.Facts.{fact_of, facts_from_evidence, facts_from_evidence_iff}

module _ {E : Type 0} (compute_binding : CheckDefinition → Option BindingSnapshot)
    (manifest : Option (Result E (Option CheckManifest))) (attempts : List CheckAttemptRecord) where
  -- `map(..).collect::<Result<_, _>>()`: the first failure is the result.
  bind_records : List EvidenceRecord → Result E (List (String × ClaimBinding))
  bind_records [] = ok []
  bind_records (record_ ∷ records) =
      let rest = bind_records records in
      claim_binding compute_binding manifest record_.id record_.kind attempts >>= λ b.
      rest >>= λ bs. ok ((record_.id, b) ∷ bs)

  unfoldable pub bind_claims : List EvidenceRecord → Result E (List (String × ClaimBinding))
  unfolding bind_records
  bind_claims worker_evidence = bind_records worker_evidence >>= λ bs. ok (collect bs)

  -- Each entry is the binding of a record.
  mem-bind_records :
      (records : List EvidenceRecord) (bs : List (String × ClaimBinding)) (id : String)
      (b : ClaimBinding)
      → bind_records records ≡ ok bs
      → Memᴰ (id, b) bs
      → (r : EvidenceRecord) × Memᴰ r records
        × (r.id ≡ id)
        × (claim_binding compute_binding manifest r.id r.kind attempts ≡ ok b)
  unfolding bind_records
  mem-bind_records [] bs id b h m =
      let e : Path (List (String × ClaimBinding)) [] bs = cc h in
      elim (subst (Memᴰ (id, b)) (sym e) m) [ ]
  mem-bind_records (r ∷ records) bs id b h m =
      let p = >>=-eq-ok (claim_binding compute_binding manifest r.id r.kind attempts) _ h in
      let q = >>=-eq-ok (bind_records records) _ p.2 in
      let e : Path (List (String × ClaimBinding)) bs ((r.id, p.0) ∷ q.0) = cc (q.2) in
      elim (Memᴰ.cases_cons (subst (Memᴰ (id, b)) e m)) [
        | inl k ↦ (
          r,
          Memᴰ.head refl,
          sym (ap (λ (z : String × ClaimBinding). z.0) k),
          p.1 ∙ ap ok (sym (ap (λ (z : String × ClaimBinding). z.1) k)),
        )
        | inr n ↦ let t = mem-bind_records records q.0 id b q.1 n in (t.0, Memᴰ.tail t.1, t.2, t.3)
      ]

  -- What the map holds under an id is the binding of a record with that id.
  bind_claims-lookup :
      (records : List EvidenceRecord) (bindings : List (String × ClaimBinding)) (id : String)
      (b : ClaimBinding)
      → bind_claims records ≡ ok bindings
      → lookup id bindings ≡ some b
      → (r : EvidenceRecord) × Memᴰ r records
        × (r.id ≡ id)
        × (claim_binding compute_binding manifest r.id r.kind attempts ≡ ok b)
  unfolding bind_claims
  bind_claims-lookup records bindings id b h l =
      let p = >>=-eq-ok (bind_records records) _ h in
      let e : collect p.0 ≡ bindings = cc (p.2) in
      let found = sym (lookup-collect id p.0) ∙ ap (lookup id) e ∙ l in
      mem-bind_records records p.0 id b p.1 (mem_of_last_value id p.0 found)

  -- What stands behind a trusted fact: a record that was promoted to it; a record of that id whose
  -- claim a declared check covers; the check's last attempt, which passed on the present work tree;
  -- and a receipt of the check's command that exited with 0.
  pub record IsExecuted (command_digest_of : List String → String) (receipts : List ReceiptRecord)
      (as_f32 : F64 → F32) (evidence : List EvidenceRecord) (fact : CompiledFact) : Type 0 where
    pub item : EvidenceRecord
    pub is_evidence : Memᴰ item evidence
    pub promoted : fact_of as_f32 item "attested" ≡ fact
    pub claim : EvidenceRecord
    pub is_claim : Memᴰ claim evidence
    pub same_id : claim.id ≡ item.id
    pub checks : CheckManifest
    pub is_manifest : manifest ≡ some (ok (some checks))
    pub binding : ClaimBinding
    pub backing : Backs compute_binding attempts checks claim.id claim.kind binding
    pub attempt_passed : backing.attempt.outcome ≡ "passed"
    pub receipted : IsReceipted command_digest_of receipts backing.attempt
    pub exited_zero : is_zero receipted.primary.exit_code ≡ true

  -- No trusted fact without execution: once the attempts were checked against the receipts and the
  -- claims were bound, every trusted fact has a passing, current check and a receipt that exited with 0.
  pub facts_from_evidence-IsExecuted :
      (command_digest_of : List String → String) (receipts : List ReceiptRecord)
      (as_f32 : F64 → F32) (evidence : List EvidenceRecord) (contradictions : List Contradiction)
      (bindings : List (String × ClaimBinding)) (fact : CompiledFact)
      → verify_attempt_receipts command_digest_of receipts attempts ≡ ok tt
      → bind_claims evidence ≡ ok bindings
      → Memᴰ fact (facts_from_evidence as_f32 evidence contradictions bindings)
      → IsExecuted command_digest_of receipts as_f32 evidence fact
  facts_from_evidence-IsExecuted command_digest_of receipts as_f32 evidence contradictions bindings
        fact v h m =
      let p = (facts_from_evidence_iff as_f32 evidence contradictions bindings fact).0 m in
      let r = bind_claims-lookup evidence bindings p.0.id p.2.binding h p.2.bound in
      let c =
        (claim_binding-current_iff compute_binding attempts manifest r.0.id r.0.kind p.2.binding
            r.3).0
          p.2.current in
      let passed = sym c.2.same_outcome ∙ p.2.passed in
      let receipt =
        ((verify_attempt_receipts_iff command_digest_of receipts attempts).0 v c.2.attempt
          (mem_of_last c.2.is_current.is_last)).0 in
      record {
        item = p.0;
        is_evidence = p.1;
        promoted = p.3;
        claim = r.0;
        is_claim = r.1;
        same_id = r.2;
        checks = c.0;
        is_manifest = c.1;
        binding = p.2.binding;
        backing = c.2;
        attempt_passed = passed;
        receipted = receipt;
        exited_zero = receipt.exited_zero passed;
      }
