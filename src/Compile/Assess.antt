-- ===== src/Compile/Assess.antt =====
-- compiler/run_dir.rs, `build_trust_assessments`: the typed trust of each claim.
use agent_receipts.Prelude.{
  Bool, false, ◌&&◌, String, List, map, Option, none, some, ◌==◌, filter_map, lookup, collect,
  contains, is_empty, strip_prefix, if◌then◌else◌,
}
use agent_receipts.Schema.{EvidenceRecord, CompiledFact, Contradiction, TrustAssessment}
use agent_receipts.Checks.Types.{ClaimBinding}
use agent_receipts.Compile.Facts.{contradicted_ids}

-- A fact under the id of its record, if its own id has the form `fact:<id>`.
unfoldable pub fact_entry : CompiledFact → Option (String × CompiledFact)
fact_entry fact = elim (strip_prefix "fact:" fact.id) [ none ↦ none | some id ↦ some (id, fact) ]

-- `fact_by_subject`: the facts under the ids of their records.
unfoldable pub fact_by_subject : List CompiledFact → List (String × CompiledFact)
fact_by_subject facts = collect (filter_map fact_entry facts)

-- A check is current, and its last run failed.
unfoldable pub is_check_failed : Option ClaimBinding → Bool
is_check_failed none = false
is_check_failed (some value) = value.applicability == "current" && value.outcome == "failed"

unfoldable pub status_of_fact : Option CompiledFact → String
status_of_fact none = "asserted"
status_of_fact (some fact) = elim fact.attestation [
  | none ↦ "asserted"
  | some tier ↦
      if tier == "attested"
      then "verified"
      else if tier == "verifier"
      then "verifier_backed"
      else "asserted"
]

module _ (facts : List CompiledFact) (contradictions : List Contradiction)
    (claim_bindings : List (String × ClaimBinding)) where
  unfoldable pub claim_status : String → String
  unfolding is_check_failed status_of_fact
  claim_status id =
      if contains (contradicted_ids contradictions) id
      then "refuted"
      else if is_check_failed (lookup id claim_bindings)
      then "refuted"
      else status_of_fact (lookup id (fact_by_subject facts))

  -- The assessment of one record.
  unfoldable pub assess : EvidenceRecord → TrustAssessment
  assess record_ = record {
    subject_id = record_.id;
    integrity = if is_empty record_.provenance_warnings then "hash_verified" else "invalid";
    outcome = elim (lookup record_.id claim_bindings) [
      | none ↦ "unknown"
      | some value ↦ value.outcome
    ];
    applicability = elim (lookup record_.id claim_bindings) [
      | none ↦ "unbound"
      | some value ↦ value.applicability
    ];
    claim_status = claim_status record_.id;
    verifier_independent = false;
  }

  unfoldable pub build_trust_assessments : List EvidenceRecord → List TrustAssessment
  build_trust_assessments evidence = map assess evidence
