-- ===== src/Packet/Validate.antt =====
-- receipts-compiler/src/compiler/evidence.rs: `validate_packet_sources` and its parts.
--
-- A `HashSet` of texts is the list that it is collected from. The source visits the ids of one
-- record in the set's unspecified order; the model visits them in list order, so where several ids
-- of one record are at fault the error may name another of them.
use agent_receipts.Prelude.{
  String, Bool, not, ◌&&◌, ◌||◌, List, ◌++◌, map, Result, ◌>>◌, ensure, for_each, contains,
  starts_with, is_empty,
}
use agent_receipts.Schema.{
  SourceRef, EvidenceRecord, VerifierFinding, CompiledFact, Hypothesis, Contradiction,
  RecurringFailurePattern, CandidateAction, HaltSignal, NextPassPacket,
}

-- The messages of `PacketValidationError`, each with the kind and the id of the item at fault.
pub data PacketValidationError : Type 0 where
  no_source_id : String → String → PacketValidationError
  unknown_source_id : String → String → String → PacketValidationError
  ref_not_listed : String → String → String → PacketValidationError
  direct_without_ref : String → String → String → PacketValidationError

abbrev pub Checked : Type 0
Checked = Result PacketValidationError (Unit {0})

unfoldable pub is_direct_source_id : String → Bool
is_direct_source_id source_id =
    starts_with source_id "file:"
    || starts_with source_id "command:"
    || starts_with source_id "test:"
    || starts_with source_id "log:"

abbrev pub source_ids_of : List SourceRef → List String
source_ids_of = map (λ s. s.source_id)

unfoldable pub source_registry : List SourceRef → List SourceRef → List String
source_registry sources raw_drilldown_refs = source_ids_of (sources ++ raw_drilldown_refs)

unfoldable pub validate_source_ids : String → String → List String → List String → Checked
validate_source_ids kind item_id source_ids registry =
    ensure (not (is_empty source_ids)) (no_source_id kind item_id)
    >> for_each (λ a. ensure (contains registry a) (unknown_source_id kind item_id a)) source_ids

unfoldable pub validate_record_local_source_refs :
    String → String → List String → List SourceRef → Checked
validate_record_local_source_refs kind item_id source_ids source_refs =
    for_each
      (λ s. ensure (contains source_ids s.source_id) (ref_not_listed kind item_id s.source_id))
      source_refs
    >> for_each
        (λ a.
          ensure (not (is_direct_source_id a && not (contains (source_ids_of source_refs) a)))
            (direct_without_ref kind item_id a))
        source_ids

validate_evidence_records : List EvidenceRecord → List String → Checked
validate_evidence_records items registry =
    for_each
      (λ item.
        validate_record_local_source_refs "evidence" item.id item.source_ids item.source_refs
        >> validate_source_ids "evidence" item.id item.source_ids registry)
      items

validate_fact_records : List CompiledFact → List String → Checked
validate_fact_records items registry =
    for_each (λ item. validate_source_ids "compiled_fact" item.id item.source_ids registry) items

validate_hypotheses : List Hypothesis → List String → Checked
validate_hypotheses items registry =
    for_each (λ item. validate_source_ids "hypothesis" item.id item.source_ids registry) items

validate_contradictions : List Contradiction → List String → Checked
validate_contradictions items registry =
    for_each (λ item. validate_source_ids "contradiction" item.id item.source_ids registry) items

validate_failure_patterns : List RecurringFailurePattern → List String → Checked
validate_failure_patterns items registry =
    for_each
      (λ item. validate_source_ids "recurring_failure_pattern" item.id item.source_ids registry)
      items

validate_actions : List CandidateAction → List String → Checked
validate_actions items registry =
    for_each (λ item. validate_source_ids "candidate_action" item.id item.source_ids registry) items

validate_verifier_findings : List VerifierFinding → List String → Checked
validate_verifier_findings items registry =
    for_each
      (λ item.
        validate_record_local_source_refs "verifier_finding" item.id item.source_ids
          item.source_refs
        >> validate_source_ids "verifier_finding" item.id item.source_ids registry)
      items

validate_halt_signals : List HaltSignal → List String → Checked
validate_halt_signals items registry =
    for_each (λ item. validate_source_ids "halt_signal" item.id item.source_ids registry) items

unfoldable pub validate_packet_sources : NextPassPacket → Checked
unfolding validate_evidence_records validate_fact_records validate_hypotheses
    validate_contradictions validate_failure_patterns validate_actions validate_verifier_findings
    validate_halt_signals
validate_packet_sources packet =
    let registry = source_registry packet.sources packet.raw_drilldown_refs in
    validate_evidence_records packet.evidence registry
    >> (validate_fact_records packet.trusted_facts registry
        >> (validate_hypotheses packet.active_hypotheses registry
            >> (validate_contradictions packet.contradictions registry
                >> (validate_failure_patterns packet.recurring_failure_patterns registry
                    >> (validate_actions packet.candidate_actions registry
                        >> (validate_verifier_findings packet.verifier_findings registry
                            >> validate_halt_signals packet.halt_signals registry))))))
