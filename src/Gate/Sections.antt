-- ===== src/Gate/Sections.antt =====
-- compiler/gate.rs: when each section of errors is empty.
use mathlib.Core.List.{Memᴰ}
use agent_receipts.Prelude.{
  ℕ, ◌≤◌, ◌<◌, ◌≡◌, refl, ◌∙◌, ◌↔◌, Bool, true, false, not, ◌&&◌, ◌||◌, String, List, map, arith,
  ap, inl, inr, [], ◌∷◌, Bool-cases, mem-map, mem-filter, eq_iff, ◌==◌, starts_with, any, filter,
  is_empty, length, leb, ltb,
}
use agent_receipts.Schema.{SourceRef, EvidenceRecord, VerifierFinding}
use agent_receipts.Compile.Halt.{is_unresolved_blocking}
use agent_receipts.Gate.Run.{
  GateInputs, semantic_kind_requires_file, is_content_file, lacks_semantic_file, is_raw_subagent,
  is_session, lacks_identity, session_errors, min_agents, agents, readiness_escape,
  is_receipt_refutation, journal_errors, session_section_errors, coverage_errors, verdict_errors,
}
use agent_receipts.Gate.Conditions.{
  ↔-trans, IsClear, append_iff, error_if_iff, error_unless_iff, differ_iff, any_iff, find_error_iff,
  errors_of_iff, error_for_all_iff, flat_map_iff,
}
use agent_receipts.Gate.Releasable.{JournalsAreSourced, SessionsAreKept, IsApproved}

-- The semantic record has a file.
semantic_iff :
    (r : EvidenceRecord)
    → (lacks_semantic_file r ≡ false) ↔ (
        semantic_kind_requires_file r.kind ≡ true
        → (s : SourceRef) × Memᴰ s r.source_refs × (is_content_file s ≡ true))
unfolding lacks_semantic_file
semantic_iff r = ↔-trans (need _ _) (λ h e. exists.0 (h e), λ h e. exists.1 (h e))
  where
    need : (a b : Bool) → ((a && not b) ≡ false) ↔ (a ≡ true → b ≡ true)
    need true true = (λ h e. refl, λ h. refl)
    need true false = (λ h. absurd (cc), λ h. absurd (cc (h refl)))
    need false b = (λ h e. absurd (cc), λ h. refl)

    exists :
        (any is_content_file r.source_refs ≡ true)
        ↔ ((s : SourceRef) × Memᴰ s r.source_refs × (is_content_file s ≡ true))
    exists = any_iff is_content_file r.source_refs

kept_iff :
    {A : Type 0} (p : A → Bool) (xs : List A) → (is_empty (filter p xs) ≡ false) ↔ (any p xs ≡ true)
kept_iff p [] = (λ h. absurd (cc), λ h. absurd (cc))
kept_iff p (x ∷ xs) = elim (Bool-cases (p x)) [
  | inl e ↦ rw e (λ h. refl, λ h. refl)
  | inr e ↦ rw e (kept_iff p xs)
]

few_iff : (n : ℕ) → (leb n 1 ≡ false) ↔ (1 < n)
few_iff n = ground arith

-- The first section of errors is empty.
module _ (i : GateInputs) where
  pub journals_iff : IsClear (journal_errors i) ↔ JournalsAreSourced i
  unfolding journal_errors
  journals_iff =
      ↔-trans
        (append_iff _ _ (↔-trans (error_unless_iff _ _) (eq_iff i.pass_id i.packet.pass_id)) (
          append_iff _ _ (↔-trans (error_if_iff _ _) (differ_iff i.pass_id "pass-0001")) (
            append_iff _ _ (↔-trans (error_if_iff _ _) (few_iff (length i.evidence))) (
              append_iff _ _ (find_error_iff _ _ i.evidence) (
                append_iff _ _ (find_error_iff _ _ i.findings)
                  (error_for_all_iff lacks_semantic_file _ i.evidence))))))
        (
          λ p. record {
            pass_agrees = p.0;
            was_promoted = p.1.0;
            has_evidence = p.1.1.0;
            evidence_sourced = p.1.1.1.0;
            findings_sourced = p.1.1.1.1.0;
            semantic_files = λ r m. (semantic_iff r).0 (p.1.1.1.1.1 r m);
          },
          λ p. (
            p.pass_agrees,
            (
              p.was_promoted,
              (
                p.has_evidence,
                (
                  p.evidence_sourced,
                  (p.findings_sourced, λ r m. (semantic_iff r).1 (p.semantic_files r m)),
                ),
              ),
            ),
          ),
        )

  session_iff :
      (r : EvidenceRecord)
      → IsClear (session_errors r) ↔ (
          (lacks_identity r ≡ false)
          × ((source_id : String) × Memᴰ source_id r.source_ids
              × (is_raw_subagent source_id ≡ true)))
  unfolding session_errors
  session_iff r =
      append_iff _ _ (error_if_iff _ _)
        (↔-trans (error_unless_iff _ _) (any_iff is_raw_subagent r.source_ids))

  -- Raw output is compiled when there is some.
  compiled_iff :
      (a b : Bool) → ((a ≡ false) × ((not a && not b) ≡ false)) ↔ ((a ≡ false) × (b ≡ true))
  compiled_iff a b = ground arith

  raw_source_iff :
      (any is_raw_subagent (map (λ s. s.source_id) i.packet.sources) ≡ true)
      ↔ ((s : SourceRef) × Memᴰ s i.packet.sources × (is_raw_subagent s.source_id ≡ true))
  raw_source_iff = (
    λ h.
        let r = (any_iff is_raw_subagent (map (λ s. s.source_id) i.packet.sources)).0 h in
        let k = (mem-map (λ (s : SourceRef). s.source_id)).0 r.1 in
        (k.0, k.1, ap is_raw_subagent k.2 ∙ r.2),
    λ r.
        (any_iff is_raw_subagent (map (λ s. s.source_id) i.packet.sources)).1
          (r.0.source_id, (mem-map (λ (s : SourceRef). s.source_id)).1 (r.0, r.1, refl), r.2),
  )

  -- The second section of errors is empty.
  pub sessions_iff : IsClear (session_section_errors i) ↔ SessionsAreKept i
  unfolding session_section_errors
  sessions_iff =
      ↔-trans
        (append_iff _ _ (error_if_iff _ _) (
          append_iff _ _ (↔-trans (error_if_iff _ _) (has_session_iff)) (
            append_iff _ _ (error_if_iff _ _)
              (flat_map_iff session_errors (filter is_session i.evidence)))))
        (
          λ p.
              let c = (compiled_iff _ _).0 (p.0, p.1.1.0) in
              record {
                raw_kept = p.0;
                has_session = p.1.0;
                raw_compiled = raw_source_iff.0 c.1;
                identified =
                    λ r m e. ((session_iff r).0 (p.1.1.1 r ((mem-filter is_session).1 (m, e)))).0;
                references_raw =
                    λ r m e. ((session_iff r).0 (p.1.1.1 r ((mem-filter is_session).1 (m, e)))).1;
              },
          λ p. (
            p.raw_kept,
            (
              p.has_session,
              (
                ((compiled_iff _ _).1 (p.raw_kept, raw_source_iff.1 p.raw_compiled)).1,
                λ r m.
                    let k = (mem-filter is_session).0 m in
                    (session_iff r).1 (p.identified r k.0 k.1, p.references_raw r k.0 k.1),
              ),
            ),
          ),
        )
    where
      has_session_iff :
          (is_empty (filter is_session i.evidence) ≡ false)
          ↔ ((r : EvidenceRecord) × Memᴰ r i.evidence × (is_session r ≡ true))
      has_session_iff = ↔-trans (kept_iff is_session i.evidence) (any_iff is_session i.evidence)

  pub coverage_iff : IsClear (coverage_errors i) ↔ (
      (readiness_escape i.packet i.findings ≡ false
        → min_agents i.min_agent_coverage ≤ length (agents i.evidence))
      × ((any (λ r. r.kind == "codex-synthesis") i.evidence ≡ true)
          × (any (λ name. starts_with name "codex-synthesis-") i.raw_file_names ≡ true)))
  unfolding coverage_errors
  coverage_iff =
      append_iff _ _ (↔-trans (error_if_iff _ _) (floor_iff _ _ _))
        (↔-trans (error_if_iff _ _) (neither_iff _ _))
    where
      floor_iff : (e : Bool) (n m : ℕ) → ((not e && ltb n m) ≡ false) ↔ (e ≡ false → m ≤ n)
      floor_iff true n m = (λ h e. absurd (cc), λ h. refl)
      floor_iff false n m = (λ h e. ground arith, λ h. let k = h refl in ground arith)

      neither_iff : (a b : Bool) → ((not a || not b) ≡ false) ↔ ((a ≡ true) × (b ≡ true))
      neither_iff a b = ground arith

  -- The last section of errors is empty.
  pub verdicts_iff : IsClear (verdict_errors i) ↔ IsApproved i
  unfolding verdict_errors
  verdicts_iff =
      ↔-trans
        (append_iff _ _ (error_for_all_iff (λ f. not (f.status == "passed")) _ i.findings) (
          append_iff _ _ (errors_of_iff is_receipt_refutation _ i.packet.contradictions) (
            append_iff _ _ (error_unless_iff _ _)
              (errors_of_iff is_unresolved_blocking _ i.packet.candidate_actions))))
        (
          λ p. record {
            findings_passed = λ f m. (passed_iff f).0 (p.0 f m);
            unrefuted = p.1.0;
            ready = p.1.1.0;
            nothing_blocks = p.1.1.1;
          },
          λ p. (
            λ f m. (passed_iff f).1 (p.findings_passed f m),
            (p.unrefuted, (p.ready, p.nothing_blocks)),
          ),
        )
    where
      passed_iff :
          (f : VerifierFinding) → (not (f.status == "passed") ≡ false) ↔ (f.status ≡ "passed")
      passed_iff f = ↔-trans (ground arith) (eq_iff f.status "passed")
