-- ===== src/Compile/Ready.antt =====
-- When a compiled run is ready to halt.
use mathlib.Core.List.{Memᴰ}
use agent_receipts.Prelude.{
  ◌≡◌, refl, sym, ◌∙◌, ◌↔◌, Bool, true, false, not, ◌&&◌, String, List, [], ◌∷◌, ◌++◌, map, eq_iff,
  ◌==◌, any, filter, mem-filter, mem-sort_by, is_empty, is_empty-filter_iff, and_iff, nat_eq-length,
  if◌then◌else◌,
}
use agent_receipts.Schema.{
  EvidenceRecord, VerifierFinding, Contradiction, CompiledFact, CandidateAction, HaltSignal,
}
use agent_receipts.Resolutions.Types.{ResolutionRecord}
use agent_receipts.Compile.Worklist.{
  resolved_by, work_order, adjudicate_item, unblock_item, resolve_finding_item, verify_claim_item,
  re_task_item, is_blocker, is_open_finding, needs_verification, needs_re_task, pushed_items,
  derive_worklist,
}
use agent_receipts.Compile.Halt.{is_unresolved_blocking, has_passed, halt_signals_from_state}
use agent_receipts.Compile.Settled.{
  is_blocking_contradiction, IsSettled, blocked_test, Closed, Closed-append, Closed-map,
  double_negation, open-adjudicate_item, open-unblock_item, open-verify_claim_item,
  open-re_task_item,
}

module _ (evidence : List EvidenceRecord) (findings : List VerifierFinding)
    (contradictions : List Contradiction) (facts : List CompiledFact)
    (resolutions : List ResolutionRecord) where
  resolved : List (String × ResolutionRecord)
  resolved = resolved_by resolutions

  -- The five groups of pushed items.
  adjudications : List CandidateAction
  adjudications = map (adjudicate_item resolved) contradictions

  unblocks : List CandidateAction
  unblocks = map (unblock_item resolved) (filter is_blocker evidence)

  finding_items : List CandidateAction
  finding_items = map (resolve_finding_item resolved) (filter is_open_finding findings)

  claim_items : List CandidateAction
  claim_items =
      map (verify_claim_item resolved)
        (filter (needs_verification (map (λ fact. fact.id) facts) resolved) evidence)

  re_tasks : List CandidateAction
  re_tasks = map (re_task_item resolved) (filter (needs_re_task evidence) evidence)

  worklist_iff :
      Closed (derive_worklist evidence findings contradictions facts resolutions)
      ↔ Closed (adjudications ++ (unblocks ++ (finding_items ++ (claim_items ++ re_tasks))))
  unfolding derive_worklist adjudications unblocks finding_items claim_items re_tasks resolved
  worklist_iff = (
    λ h x m. h x (
        (mem-sort_by work_order
            (pushed_items evidence findings contradictions facts (resolved_by resolutions))).1
          m),
    λ h x m. h x (
        (mem-sort_by work_order
            (pushed_items evidence findings contradictions facts (resolved_by resolutions))).0
          m),
  )

  Closed-IsSettled :
      Closed (derive_worklist evidence findings contradictions facts resolutions)
      → ((f : VerifierFinding) → Memᴰ f findings → f.status ≡ "passed")
      → IsSettled evidence findings contradictions resolutions
  unfolding adjudications unblocks resolved is_blocker
  Closed-IsSettled h passed =
      let a = (Closed-append adjudications _).0 (worklist_iff.0 h) in
      let b = (Closed-append unblocks _).0 a.1 in
      let open_blocker = (Closed-map (unblock_item resolved) (filter is_blocker evidence)).0 b.0 in
      let open_adjudication = (Closed-map (adjudicate_item resolved) contradictions).0 a.0 in
      record {
        findings_passed = passed;
        blockers_resolved = λ r m e.
            (blocked_test resolutions true r.id).0
              (sym (open-unblock_item resolved r)
                ∙ open_blocker r ((mem-filter is_blocker).1 (m, (eq_iff r.kind "blocker").1 e)))
              refl;
        contradictions_resolved = λ c m e.
            (blocked_test resolutions (is_blocking_contradiction c) c.id).0
              (sym (open-adjudicate_item resolved c) ∙ open_adjudication c m) e;
      }

  no_open_finding :
      ((f : VerifierFinding) → Memᴰ f findings → f.status ≡ "passed") → Closed finding_items
  unfolding finding_items is_open_finding
  no_open_finding passed =
      (Closed-map (resolve_finding_item resolved) (filter is_open_finding findings)).1 (λ f n.
        let k = (mem-filter is_open_finding).0 n in
        let p = (eq_iff f.status "passed").1 (passed f k.0) in absurd (cc (k.1, p)))

  IsSettled-Closed :
      IsSettled evidence findings contradictions resolutions
      → Closed (derive_worklist evidence findings contradictions facts resolutions)
  unfolding adjudications unblocks claim_items re_tasks resolved is_blocker
  IsSettled-Closed s =
      let adjudicated = (Closed-map (adjudicate_item resolved) contradictions).1 (λ c n.
        open-adjudicate_item resolved c
        ∙ (blocked_test resolutions (is_blocking_contradiction c) c.id).1
            (s.contradictions_resolved c n)) in
      let unblocked = (Closed-map (unblock_item resolved) (filter is_blocker evidence)).1 (λ r n.
        let k = (mem-filter is_blocker).0 n in
        open-unblock_item resolved r
        ∙ (blocked_test resolutions true r.id).1
            (λ e. s.blockers_resolved r k.0 ((eq_iff r.kind "blocker").0 k.1))) in
      let claims =
        (Closed-map (verify_claim_item resolved)
            (filter (needs_verification (map (λ fact. fact.id) facts) resolved) evidence)).1
          (λ r n. open-verify_claim_item resolved r) in
      let advisories =
        (Closed-map (re_task_item resolved) (filter (needs_re_task evidence) evidence)).1
          (λ r n. open-re_task_item resolved r) in
      worklist_iff.1 (
        (Closed-append adjudications _).1 (
          adjudicated,
          (Closed-append unblocks _).1 (
            unblocked,
            (Closed-append finding_items _).1 (
              no_open_finding s.findings_passed,
              (Closed-append claim_items re_tasks).1 (claims, advisories),
            ),
          ),
        ))

  passed_iff :
      (is_empty (filter (λ f. not (has_passed f)) findings) ≡ true)
      ↔ ((f : VerifierFinding) → Memᴰ f findings → f.status ≡ "passed")
  unfolding has_passed
  passed_iff = (
    λ h f m.
        (eq_iff f.status "passed").0
          (double_negation _ ((is_empty-filter_iff (λ f. not (has_passed f)) findings).0 h f m)),
    λ h.
        (is_empty-filter_iff (λ f. not (has_passed f)) findings).1
          (λ f m. let e = (eq_iff f.status "passed").1 (h f m) in rw e),
  )

-- The signals hold `ready-to-halt`.
abbrev pub is_ready : List HaltSignal → Bool
is_ready signals = any (λ s. s.kind == "ready-to-halt") signals

ready_if :
    (b : Bool) (s t : HaltSignal)
    → s.kind ≡ "ready-to-halt"
    → t.kind ≡ "continue"
    → is_ready (if b then s ∷ [] else t ∷ []) ≡ b
ready_if true s t p q = rw p
ready_if false s t p q = rw q

halt_test :
    (findings : List VerifierFinding) (worklist : List CandidateAction) (created_at : String)
    → is_ready (halt_signals_from_state findings worklist created_at) ≡ (
        is_empty (filter (λ f. not (has_passed f)) findings)
        && is_empty (filter is_unresolved_blocking worklist))
unfolding halt_signals_from_state
halt_test findings worklist created_at =
    rw (nat_eq-length (filter is_unresolved_blocking worklist)) (
      ready_if
        (is_empty (filter (λ f. not (has_passed f)) findings)
          && is_empty (filter is_unresolved_blocking worklist))
        _ _ refl refl)

-- The run is ready to halt exactly when every finding passed and every blocker record and every
-- blocking contradiction has a resolution, whatever the facts and the time of creation.
pub halt_signals-is_ready_iff :
    (evidence : List EvidenceRecord) (findings : List VerifierFinding)
    (contradictions : List Contradiction) (facts : List CompiledFact)
    (resolutions : List ResolutionRecord) (created_at : String)
    → (is_ready (
          halt_signals_from_state findings
            (derive_worklist evidence findings contradictions facts resolutions)
            created_at)
        ≡ true)
      ↔ IsSettled evidence findings contradictions resolutions
halt_signals-is_ready_iff evidence findings contradictions facts resolutions created_at =
    let worklist = derive_worklist evidence findings contradictions facts resolutions in
    let test = halt_test findings worklist created_at in
    let passed = passed_iff evidence findings contradictions facts resolutions in
    let closed = is_empty-filter_iff is_unresolved_blocking worklist in
    (
      λ h.
          let parts = (and_iff _ _).0 (sym test ∙ h) in
          Closed-IsSettled evidence findings contradictions facts resolutions (closed.0 parts.1)
            (passed.0 parts.0),
      λ s.
          test
          ∙ (and_iff _ _).1 (
            passed.1 s.findings_passed,
            closed.1 (IsSettled-Closed evidence findings contradictions facts resolutions s),
          ),
    )
