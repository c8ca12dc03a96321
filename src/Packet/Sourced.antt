-- ===== src/Packet/Sourced.antt =====
-- What a validated packet is: every record cites registered sources.
use mathlib.Core.List.{Memᴰ}
use agent_receipts.Prelude.{
  ◌≡◌, refl, ◌≢◌, ◌↔◌, Bool, true, false, not, ◌&&◌, String, List, [], ◌∷◌, ◌++◌, ok, ◌>>◌,
  for_each, for_each-ok_iff, for_each-ensure_iff, >>-ok_iff, contains, contains_iff, mem-map,
}
use agent_receipts.Schema.{
  SourceRef, EvidenceRecord, VerifierFinding, CompiledFact, Hypothesis, Contradiction,
  RecurringFailurePattern, CandidateAction, HaltSignal, NextPassPacket,
}
use agent_receipts.Packet.Validate.{
  is_direct_source_id, source_ids_of, source_registry, validate_source_ids,
  validate_record_local_source_refs, validate_packet_sources, unknown_source_id, ref_not_listed,
  direct_without_ref,
}

-- Some listed source reference has this id.
abbrev pub IsNamed : List SourceRef → String → Type 0
IsNamed refs a = (s : SourceRef) × Memᴰ s refs × (s.source_id ≡ a)

-- A record cites at least one source, and only registered ones.
abbrev pub CitesKnown : List SourceRef → List String → Type 0
CitesKnown registered ids = (ids ≢ []) × ((a : String) → Memᴰ a ids → IsNamed registered a)

-- `CitesKnown` for the registry of a packet: its sources and its raw drill-down references.
abbrev pub Cites : NextPassPacket → List String → Type 0
Cites p = CitesKnown (p.sources ++ p.raw_drilldown_refs)

-- A record lists the id of each reference that it carries, and carries a reference for each direct
-- id that it lists.
abbrev pub IsAnchored : List String → List SourceRef → Type 0
IsAnchored ids refs =
    ((s : SourceRef) → Memᴰ s refs → Memᴰ s.source_id ids)
    × ((a : String) → Memᴰ a ids → is_direct_source_id a ≡ true → IsNamed refs a)

mem-registry :
    (refs : List SourceRef) (a : String) → (contains (source_ids_of refs) a ≡ true) ↔ IsNamed refs a
mem-registry refs a = (
  λ h. (mem-map (λ s. s.source_id)).0 ((contains_iff (source_ids_of refs) a).0 h),
  λ n. (contains_iff (source_ids_of refs) a).1 ((mem-map (λ s. s.source_id)).1 n),
)

validate_source_ids_iff :
    (kind item_id : String) (ids : List String) (registered : List SourceRef)
    → (validate_source_ids kind item_id ids (source_ids_of registered) ≡ ok tt)
      ↔ CitesKnown registered ids
unfolding validate_source_ids
validate_source_ids_iff kind item_id [] registered = (λ h. absurd (cc), λ h. absurd (h.0 refl))
validate_source_ids_iff kind item_id (i ∷ ids) registered = (
  λ h. (
    λ e. cc,
    λ a m. (mem-registry registered a).0 (
        (for_each-ensure_iff (contains (source_ids_of registered)) (unknown_source_id kind item_id)
            (i ∷ ids)).0
          h a m),
  ),
  λ h.
      (for_each-ensure_iff (contains (source_ids_of registered)) (unknown_source_id kind item_id)
          (i ∷ ids)).1
        (λ a m. (mem-registry registered a).1 (h.1 a m)),
)

direct_test : (d c : Bool) → (not (d && not c) ≡ true) ↔ (d ≡ true → c ≡ true)
direct_test true true = (λ h k. refl, λ h. refl)
direct_test true false = (λ h k. cc, λ h. cc (h refl))
direct_test false c = (λ h k. cc, λ h. refl)

validate_record_local_source_refs_iff :
    (kind item_id : String) (ids : List String) (refs : List SourceRef)
    → (validate_record_local_source_refs kind item_id ids refs ≡ ok tt) ↔ IsAnchored ids refs
unfolding validate_record_local_source_refs
validate_record_local_source_refs_iff kind item_id ids refs =
    let listed =
      for_each-ensure_iff (λ (r : SourceRef). contains ids r.source_id)
        (λ r. ref_not_listed kind item_id r.source_id) in
    let anchored =
      for_each-ensure_iff
        (λ (a : String). not (is_direct_source_id a && not (contains (source_ids_of refs) a)))
        (direct_without_ref kind item_id) in
    (
      λ h.
          let parts = (>>-ok_iff _ _).0 h in
          (
            λ r m. (contains_iff ids r.source_id).0 ((listed refs).0 parts.0 r m),
            λ a m d.
                (mem-registry refs a).0
                  ((direct_test (is_direct_source_id a) _).0 ((anchored ids).0 parts.1 a m) d),
          ),
      λ h. (>>-ok_iff _ _).1 (
        (listed refs).1 (λ r m. (contains_iff ids r.source_id).1 (h.0 r m)),
        (anchored ids).1 (λ a m.
            (direct_test (is_direct_source_id a) _).1 (λ d. (mem-registry refs a).1 (h.1 a m d))),
      ),
    )

-- Every record of a packet cites registered sources, and the records that carry references of their
-- own are anchored by them. Hypotheses, facts and the rest carry ids alone.
pub record IsSourced (p : NextPassPacket) : Type 0 where
  pub evidence :
      (r : EvidenceRecord)
      → Memᴰ r p.evidence
      → IsAnchored r.source_ids r.source_refs × Cites p r.source_ids
  pub trusted_facts : (r : CompiledFact) → Memᴰ r p.trusted_facts → Cites p r.source_ids
  pub active_hypotheses : (r : Hypothesis) → Memᴰ r p.active_hypotheses → Cites p r.source_ids
  pub contradictions : (r : Contradiction) → Memᴰ r p.contradictions → Cites p r.source_ids
  pub recurring_failure_patterns :
      (r : RecurringFailurePattern) → Memᴰ r p.recurring_failure_patterns → Cites p r.source_ids
  pub candidate_actions : (r : CandidateAction) → Memᴰ r p.candidate_actions → Cites p r.source_ids
  pub verifier_findings :
      (r : VerifierFinding)
      → Memᴰ r p.verifier_findings
      → IsAnchored r.source_ids r.source_refs × Cites p r.source_ids
  pub halt_signals : (r : HaltSignal) → Memᴰ r p.halt_signals → Cites p r.source_ids

-- The two shapes of loop body, for a kind of record `R`.
module _ {R : Type 0} (kind : String) (id : R → String) (ids : R → List String)
    (registered : List SourceRef) where
  plain_loop_iff :
      (xs : List R)
      → (for_each (λ r. validate_source_ids kind (id r) (ids r) (source_ids_of registered)) xs
          ≡ ok tt)
        ↔ ((r : R) → Memᴰ r xs → CitesKnown registered (ids r))
  plain_loop_iff xs = (
    λ h r m.
        (validate_source_ids_iff kind (id r) (ids r) registered).0 ((for_each-ok_iff _ xs).0 h r m),
    λ h.
        (for_each-ok_iff _ xs).1
          (λ r m. (validate_source_ids_iff kind (id r) (ids r) registered).1 (h r m)),
  )

  with_refs_loop_iff :
      (refs : R → List SourceRef) (xs : List R)
      → (for_each
            (λ r.
              validate_record_local_source_refs kind (id r) (ids r) (refs r)
              >> validate_source_ids kind (id r) (ids r) (source_ids_of registered))
            xs
          ≡ ok tt)
        ↔ ((r : R) → Memᴰ r xs → IsAnchored (ids r) (refs r) × CitesKnown registered (ids r))
  with_refs_loop_iff refs xs = (
    λ h r m.
        let parts = (>>-ok_iff _ _).0 ((for_each-ok_iff _ xs).0 h r m) in
        (
          (validate_record_local_source_refs_iff kind (id r) (ids r) (refs r)).0 parts.0,
          (validate_source_ids_iff kind (id r) (ids r) registered).0 parts.1,
        ),
    λ h. (for_each-ok_iff _ xs).1 (λ r m. (>>-ok_iff _ _).1 (
      (validate_record_local_source_refs_iff kind (id r) (ids r) (refs r)).1 (h r m).0,
      (validate_source_ids_iff kind (id r) (ids r) registered).1 (h r m).1,
    )),
  )

-- `validate_packet_sources` accepts a packet exactly when the packet is sourced.
pub validate_packet_sources_iff :
    (p : NextPassPacket) → (validate_packet_sources p ≡ ok tt) ↔ IsSourced p
unfolding validate_packet_sources source_registry
validate_packet_sources_iff p =
    let registered = p.sources ++ p.raw_drilldown_refs in
    let evidence_loop =
      with_refs_loop_iff {R = EvidenceRecord} "evidence" (λ r. r.id) (λ r. r.source_ids) registered
        (λ r. r.source_refs) p.evidence in
    let fact_loop =
      plain_loop_iff {R = CompiledFact} "compiled_fact" (λ r. r.id) (λ r. r.source_ids) registered
        p.trusted_facts in
    let hypothesis_loop =
      plain_loop_iff {R = Hypothesis} "hypothesis" (λ r. r.id) (λ r. r.source_ids) registered
        p.active_hypotheses in
    let contradiction_loop =
      plain_loop_iff {R = Contradiction} "contradiction" (λ r. r.id) (λ r. r.source_ids) registered
        p.contradictions in
    let pattern_loop =
      plain_loop_iff {R = RecurringFailurePattern} "recurring_failure_pattern" (λ r. r.id)
        (λ r. r.source_ids) registered p.recurring_failure_patterns in
    let action_loop =
      plain_loop_iff {R = CandidateAction} "candidate_action" (λ r. r.id) (λ r. r.source_ids)
        registered p.candidate_actions in
    let halt_loop =
      plain_loop_iff {R = HaltSignal} "halt_signal" (λ r. r.id) (λ r. r.source_ids) registered
        p.halt_signals in
    let finding_loop =
      with_refs_loop_iff {R = VerifierFinding} "verifier_finding" (λ r. r.id) (λ r. r.source_ids)
        registered (λ r. r.source_refs) p.verifier_findings in
    (
      λ h.
          let a = (>>-ok_iff _ _).0 h in
          let b = (>>-ok_iff _ _).0 a.1 in
          let c = (>>-ok_iff _ _).0 b.1 in
          let d = (>>-ok_iff _ _).0 c.1 in
          let e = (>>-ok_iff _ _).0 d.1 in
          let f = (>>-ok_iff _ _).0 e.1 in
          let g = (>>-ok_iff _ _).0 f.1 in
          record {
            evidence = evidence_loop.0 a.0;
            trusted_facts = fact_loop.0 b.0;
            active_hypotheses = hypothesis_loop.0 c.0;
            contradictions = contradiction_loop.0 d.0;
            recurring_failure_patterns = pattern_loop.0 e.0;
            candidate_actions = action_loop.0 f.0;
            verifier_findings = finding_loop.0 g.0;
            halt_signals = halt_loop.0 g.1;
          },
      λ h. (>>-ok_iff _ _).1 (
        evidence_loop.1 h.evidence,
        (>>-ok_iff _ _).1 (
          fact_loop.1 h.trusted_facts,
          (>>-ok_iff _ _).1 (
            hypothesis_loop.1 h.active_hypotheses,
            (>>-ok_iff _ _).1 (
              contradiction_loop.1 h.contradictions,
              (>>-ok_iff _ _).1 (
                pattern_loop.1 h.recurring_failure_patterns,
                (>>-ok_iff _ _).1 (
                  action_loop.1 h.candidate_actions,
                  (>>-ok_iff _ _).1
                      (finding_loop.1 h.verifier_findings, halt_loop.1 h.halt_signals),
                ),
              ),
            ),
          ),
        ),
      ),
    )
