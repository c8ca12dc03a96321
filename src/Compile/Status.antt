-- ===== src/Compile/Status.antt =====
-- When a claim of the compiled packet is verified, refuted or merely asserted.
use mathlib.Core.List.{Memᴰ}
use agent_receipts.Prelude.{
  ◌≡◌, refl, sym, subst, ◌∙◌, ◌↔◌, ◌⊎◌, inl, inr, Bool, true, false, String, List, Option, some,
  arith, eq_iff, lookup, lookup-collect, mem_of_last_value, last_value_of_mem, filter_map,
  mem-filter_map, mem-map, strip_prefix, strip_prefix-append, ◌&&◌, contains, contains_iff,
  Bool-cases, Option-cases,
}
use agent_receipts.Schema.{F32, F64, EvidenceRecord, CompiledFact, Contradiction, TrustAssessment}
use agent_receipts.Checks.Types.{ClaimBinding}
use agent_receipts.Compile.Facts.{
  contradicted_ids, mem-contradicted_ids, contradicted_iff, fact_of, facts_from_evidence,
  facts_from_evidence_iff, IsPromotable,
}
use agent_receipts.Compile.Assess.{
  fact_entry, fact_by_subject, is_check_failed, status_of_fact, claim_status, assess,
  build_trust_assessments,
}

-- A contradiction names the claim, or its current check failed.
abbrev pub IsContested : List Contradiction → List (String × ClaimBinding) → String → Type 0
IsContested contradictions claim_bindings id =
    ((c : Contradiction) × Memᴰ c contradictions × Memᴰ id c.conflicting_item_ids)
    ⊎ ((b : ClaimBinding) × (lookup id claim_bindings ≡ some b)
        × (b.applicability ≡ "current")
        × (b.outcome ≡ "failed"))

-- `fact:` in front of a record's id is taken off again.
strip_fact :
    (as_f32 : F64 → F32) (item : EvidenceRecord) (tier : String)
    → strip_prefix "fact:" (fact_of as_f32 item tier).id ≡ some item.id
unfolding fact_of
strip_fact as_f32 item tier = strip_prefix-append "fact:" item.id

not_true : (b : Bool) → ¬ (b ≡ true) → b ≡ false
not_true true h = absurd (h refl)
not_true false h = refl

and_false : (b : Bool) → (b && false) ≡ false
and_false b = ground arith

verified_tier :
    (fact : CompiledFact)
    → fact.attestation ≡ some "attested"
    → status_of_fact (some fact) ≡ "verified"
unfolding status_of_fact
verified_tier fact h = rw h

tier-ne-refuted : (fact : Option CompiledFact) → ¬ (status_of_fact fact ≡ "refuted")
unfolding status_of_fact
tier-ne-refuted fact h = ground (
  arith,
  eq_iff "asserted" "refuted",
  eq_iff "verified" "refuted",
  eq_iff "verifier_backed" "refuted",
)

check_failed_iff :
    (bindings : List (String × ClaimBinding)) (id : String)
    → (is_check_failed (lookup id bindings) ≡ true) ↔ (
        (b : ClaimBinding) × (lookup id bindings ≡ some b)
        × (b.applicability ≡ "current")
        × (b.outcome ≡ "failed"))
unfolding is_check_failed
check_failed_iff bindings id = (
  λ h. elim (Option-cases (lookup id bindings)) [
    | inl e ↦ absurd (ground arith)
    | inr k ↦ (
      k.0,
      k.1,
      ground (arith, eq_iff k.0.applicability "current"),
      ground (arith, eq_iff k.0.outcome "failed"),
    )
  ],
  λ h.
      let held = h.1 in
      ground (arith, eq_iff (h.0).applicability "current", eq_iff (h.0).outcome "failed"),
)

tier_of_fact :
    (as_f32 : F64 → F32) (item : EvidenceRecord) (tier : String)
    → (fact_of as_f32 item tier).attestation ≡ some tier
unfolding fact_of
tier_of_fact as_f32 item tier = refl

module _ (as_f32 : F64 → F32) (evidence : List EvidenceRecord) (contradictions : List Contradiction)
    (claim_bindings : List (String × ClaimBinding)) where
  promoted : List CompiledFact
  promoted = facts_from_evidence as_f32 evidence contradictions claim_bindings

  entries : List (String × CompiledFact)
  entries = filter_map fact_entry promoted

  -- The fact that is filed under an id is the promotion of a record with that id.
  filed_fact :
      (id : String) (fact : CompiledFact)
      → lookup id (fact_by_subject promoted) ≡ some fact
      → (item : EvidenceRecord) × Memᴰ item evidence
        × IsPromotable contradictions claim_bindings item
        × (item.id ≡ id)
        × (fact.attestation ≡ some "attested")
  unfolding fact_by_subject promoted entries fact_entry
  filed_fact id fact h =
      let held = mem_of_last_value id entries (sym (lookup-collect id entries) ∙ h) in
      let a = (mem-filter_map fact_entry).0 held in
      let b = (facts_from_evidence_iff as_f32 evidence contradictions claim_bindings a.0).0 a.1 in
      let stripped : strip_prefix "fact:" a.0.id ≡ some b.0.id =
        subst (λ (f : CompiledFact). strip_prefix "fact:" f.id ≡ some b.0.id) b.3
          (strip_fact as_f32 b.0 "attested") in
      let same : (b.0.id ≡ id) × (a.0 ≡ fact) = ground (arith, stripped, a.2) in
      (
        b.0,
        b.1,
        b.2,
        same.0,
        subst (λ (f : CompiledFact). f.attestation ≡ some "attested") (b.3 ∙ same.1)
            (tier_of_fact as_f32 b.0 "attested"),
      )

  filed_of_promotable :
      (item : EvidenceRecord)
      → Memᴰ item evidence
      → IsPromotable contradictions claim_bindings item
      → (fact : CompiledFact) × (lookup item.id (fact_by_subject promoted) ≡ some fact)
  unfolding fact_by_subject promoted entries fact_entry
  filed_of_promotable item m p =
      let fact = fact_of as_f32 item "attested" in
      let kept =
        (facts_from_evidence_iff as_f32 evidence contradictions claim_bindings fact).1
          (item, m, p, refl) in
      let r = last_value_of_mem item.id fact entries (
        (mem-filter_map fact_entry).1
          (fact, kept, rw (strip_fact as_f32 item "attested", fact_entry))) in
      (r.0, lookup-collect item.id entries ∙ r.1)

  -- The tests that `claim_status` makes, at a promotable record.
  uncontested :
      (item : EvidenceRecord)
      → IsPromotable contradictions claim_bindings item
      → (contains (contradicted_ids contradictions) item.id ≡ false)
        × (is_check_failed (lookup item.id claim_bindings) ≡ false)
  unfolding is_check_failed
  uncontested item p = (
    not_true _ (λ e.
        (contradicted_iff contradictions item.id).1 p.uncontradicted
          ((contains_iff _ item.id).0 e)),
    rw (p.bound) (rw (p.passed) (and_false _)),
  )

  verified_of_promotable :
      (item : EvidenceRecord)
      → Memᴰ item evidence
      → IsPromotable contradictions claim_bindings item
      → claim_status promoted contradictions claim_bindings item.id ≡ "verified"
  unfolding claim_status
  verified_of_promotable item m p =
      let clear = uncontested item p in
      let f = filed_of_promotable item m p in
      let tier = (filed_fact item.id f.0 f.1).4 in
      rw (clear.0) (rw (clear.1) (rw (f.1) (verified_tier f.0 tier)))

  -- A claim is verified exactly when a record of its id is promotable.
  verified_iff :
      (id : String)
      → (claim_status promoted contradictions claim_bindings id ≡ "verified") ↔ (
          (item : EvidenceRecord) × Memᴰ item evidence
          × (item.id ≡ id)
          × IsPromotable contradictions claim_bindings item)
  unfolding claim_status
  verified_iff id = (
    λ h. elim (Option-cases (lookup id (fact_by_subject promoted))) [
      | inl e ↦ absurd (ground (arith, eq_iff "refuted" "verified", eq_iff "asserted" "verified"))
      | inr k ↦ let r = filed_fact id k.0 k.1 in (r.0, r.1, r.3, r.2)
    ],
    λ r.
        subst (λ i. claim_status promoted contradictions claim_bindings i ≡ "verified") r.2
          (verified_of_promotable r.0 r.1 r.3),
  )

  refuted_iff :
      (id : String)
      → (claim_status promoted contradictions claim_bindings id ≡ "refuted")
        ↔ IsContested contradictions claim_bindings id
  unfolding claim_status
  refuted_iff id = (
    λ h. elim (Bool-cases (contains (contradicted_ids contradictions) id)) [
      | inl e ↦ inl ((mem-contradicted_ids contradictions id).0 ((contains_iff _ id).0 e))
      | inr e ↦ elim (Bool-cases (is_check_failed (lookup id claim_bindings))) [
        | inl f ↦ inr ((check_failed_iff claim_bindings id).0 f)
        | inr f ↦ absurd (tier-ne-refuted (lookup id (fact_by_subject promoted)) (rw (e, f) at h))
      ]
    ],
    λ h. elim h [
      | inl c ↦ rw ((contains_iff _ id).1 ((mem-contradicted_ids contradictions id).1 c))
      | inr b ↦ let f = (check_failed_iff claim_bindings id).1 b in ground arith
    ],
  )

  -- There is no fourth answer: `verifier_backed` is never given.
  status_cases :
      (id : String)
      → (claim_status promoted contradictions claim_bindings id ≡ "verified")
        ⊎ (claim_status promoted contradictions claim_bindings id ≡ "refuted")
        ⊎ (claim_status promoted contradictions claim_bindings id ≡ "asserted")
  unfolding claim_status
  status_cases id = elim (Bool-cases (contains (contradicted_ids contradictions) id)) [
    | inl e ↦ inr (inl (rw e))
    | inr e ↦ elim (Bool-cases (is_check_failed (lookup id claim_bindings))) [
      | inl f ↦ inr (inl (rw (e, f)))
      | inr f ↦ elim (Option-cases (lookup id (fact_by_subject promoted))) [
        | inl n ↦ inr (inr (rw (e, f, n) (unfold status_of_fact in refl)))
        | inr k ↦ inl (rw (e, f, k.1) (verified_tier k.0 (filed_fact id k.0 k.1).4))
      ]
    ]
  ]

-- What an assessment of the compiled packet says of its claim. It is verified exactly when a record
-- with the claim's id is promotable; it is refuted exactly when a contradiction names the claim or
-- its current check failed; and it is verified, refuted or asserted.
pub build_trust_assessments-claim_status :
    (as_f32 : F64 → F32) (evidence : List EvidenceRecord) (contradictions : List Contradiction)
    (claim_bindings : List (String × ClaimBinding)) (a : TrustAssessment)
    → Memᴰ a (
        build_trust_assessments
          (facts_from_evidence as_f32 evidence contradictions claim_bindings)
          contradictions
          claim_bindings
          evidence)
    → ((a.claim_status ≡ "verified") ↔ (
        (item : EvidenceRecord) × Memᴰ item evidence
        × (item.id ≡ a.subject_id)
        × IsPromotable contradictions claim_bindings item))
      × ((a.claim_status ≡ "refuted") ↔ IsContested contradictions claim_bindings a.subject_id)
      × ((a.claim_status ≡ "verified")
          ⊎ (a.claim_status ≡ "refuted")
          ⊎ (a.claim_status ≡ "asserted"))
unfolding build_trust_assessments assess promoted
build_trust_assessments-claim_status as_f32 evidence contradictions claim_bindings a m =
    let r = (mem-map _).0 m in
    subst Says r.2 (
      verified_iff as_f32 evidence contradictions claim_bindings r.0.id,
      refuted_iff as_f32 evidence contradictions claim_bindings r.0.id,
      status_cases as_f32 evidence contradictions claim_bindings r.0.id,
    )
  where
    Says : TrustAssessment → Type 0
    Says b =
        ((b.claim_status ≡ "verified") ↔ (
          (item : EvidenceRecord) × Memᴰ item evidence
          × (item.id ≡ b.subject_id)
          × IsPromotable contradictions claim_bindings item))
        × ((b.claim_status ≡ "refuted") ↔ IsContested contradictions claim_bindings b.subject_id)
        × ((b.claim_status ≡ "verified")
            ⊎ (b.claim_status ≡ "refuted")
            ⊎ (b.claim_status ≡ "asserted"))
