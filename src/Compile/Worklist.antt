-- ===== src/Compile/Worklist.antt =====
-- compiler/run_dir.rs, `derive_worklist`: what is left to do, and what blocks.
use mathlib.Core.Option
use agent_receipts.Prelude.{
  Bool, true, false, not, ◌&&◌, ◌||◌, String, List, [], ◌∷◌, ◌++◌, map, none, some, ◌==◌,
  starts_with, any, filter, find, lookup, collect, contains, format, is_some, is_some_eq, text_le,
  unwrap_or, is_some_true, sort_by, if◌then◌else◌,
}
use agent_receipts.Schema.{
  EvidenceRecord, VerifierFinding, Contradiction, CompiledFact, CandidateAction,
}
use agent_receipts.Resolutions.Types.{ResolutionRecord}
use agent_receipts.Compile.Coverage.{load_bearing_claim_kinds}

-- `resolved_by`: the last resolution of each target.
unfoldable pub resolved_by : List ResolutionRecord → List (String × ResolutionRecord)
resolved_by resolutions = collect (map (λ r. (r.target_id, r)) resolutions)

-- The closure `push`: one item of the worklist.
module _ (resolved : List (String × ResolutionRecord)) where
  unfoldable pub work_item :
      String
      → String
      → Bool
      → String
      → String
      → String
      → List String
      → List String
      → CandidateAction
  work_item id category blocking target title rationale source_ids suggested_argv = record {
    id = id;
    title = title;
    rationale = rationale;
    actionability_score = if blocking then 0x3f666666 else 0x3f000000;
    decision_dependency_ids = target ∷ [];
    source_ids = source_ids;
    category = some category;
    blocking = some blocking;
    resolved = some (is_some (lookup target resolved));
    resolution_id = Option.map (λ (r : ResolutionRecord). r.id) (lookup target resolved);
    suggested_argv = suggested_argv;
  }

  unfoldable pub adjudicate_item : Contradiction → CandidateAction
  unfolding work_item
  adjudicate_item contradiction =
      work_item (format ("wl:adjudicate:" ∷ contradiction.id ∷ [])) "adjudicate"
        (starts_with contradiction.id "con:receipt:" || contradiction.severity == "high")
        contradiction.id (format ("Adjudicate contradiction " ∷ contradiction.id ∷ []))
        contradiction.summary contradiction.source_ids []

  unfoldable pub unblock_item : EvidenceRecord → CandidateAction
  unfolding work_item
  unblock_item record_ =
      work_item (format ("wl:unblock:" ∷ record_.id ∷ [])) "unblock" true record_.id
        (format ("Unblock lane " ∷ unwrap_or record_.lane "(unknown)" ∷ [])) record_.summary
        record_.source_ids []

  unfoldable pub resolve_finding_item : VerifierFinding → CandidateAction
  unfolding work_item
  resolve_finding_item finding =
      work_item (format ("wl:resolve-finding:" ∷ finding.id ∷ [])) "resolve-finding" true finding.id
        (format ("Resolve non-passing finding " ∷ finding.id ∷ [])) finding.summary
        finding.source_ids []

  unfoldable pub verify_claim_item : EvidenceRecord → CandidateAction
  unfolding work_item
  verify_claim_item record_ =
      let cited_label =
        find (λ id. starts_with id "command:" || starts_with id "test:") record_.source_ids in
      let suggested : List String = elim cited_label [
        | none ↦ []
        | some label ↦
            "receipts" ∷ "run" ∷ "--run-dir" ∷ "<run-dir>" ∷ "--label" ∷ label ∷ "--" ∷ []
      ] in
      work_item (format ("wl:verify-claim:" ∷ record_.id ∷ [])) "verify-claim" false record_.id
        (format ("Verify load-bearing claim " ∷ record_.id ∷ [])) record_.summary record_.source_ids
        suggested

  unfoldable pub re_task_item : EvidenceRecord → CandidateAction
  unfolding work_item
  re_task_item record_ =
      work_item (format ("wl:re-task:" ∷ record_.id ∷ [])) "re-task-or-accept" false record_.id
        (format ("Re-task or accept unstructured lane " ∷ unwrap_or record_.lane "(unknown)" ∷ []))
        record_.summary record_.source_ids []

unfoldable pub is_blocker : EvidenceRecord → Bool
is_blocker record_ = record_.kind == "blocker"

-- A finding that did not pass, unless it is the synthesis.
unfoldable pub is_open_finding : VerifierFinding → Bool
is_open_finding finding =
    not (finding.status == "passed") && not (is_some_eq finding.finding_kind "synthesis")

-- A load-bearing claim that is neither a fact nor resolved.
unfoldable pub needs_verification :
    List String → List (String × ResolutionRecord) → EvidenceRecord → Bool
needs_verification fact_ids resolved record_ =
    contains load_bearing_claim_kinds record_.kind
    && not (contains fact_ids (format ("fact:" ∷ record_.id ∷ [])))
    && not (is_some (lookup record_.id resolved))

-- `lane_has_structured`: the lane also delivered records that are structured.
lane_has_structured : List EvidenceRecord → EvidenceRecord → Bool
lane_has_structured evidence record_ = elim record_.lane [
  | none ↦ false
  | some lane ↦
      any
        (λ other.
          is_some_eq other.lane lane
          && not (other.kind == "unstructured")
          && not (other.kind == "objective")
          && not (other.kind == "subagent-session"))
        evidence
]

unfoldable pub needs_re_task : List EvidenceRecord → EvidenceRecord → Bool
unfolding lane_has_structured
needs_re_task evidence record_ =
    record_.kind == "unstructured" && not (lane_has_structured evidence record_)

-- The order of `sort_by`: blocking items first, then by id.
unfoldable pub work_order : CandidateAction → CandidateAction → Bool
work_order a b = elim a.blocking [
  | some true ↦ if is_some_true b.blocking then text_le a.id b.id else true
  | some false ↦ elim b.blocking [
    | some true ↦ false
    | some false ↦ text_le a.id b.id
    | none ↦ true
  ]
  | none ↦ if is_some b.blocking then false else text_le a.id b.id
]

-- The items in the order in which they are pushed.
unfoldable pub pushed_items :
    List EvidenceRecord
    → List VerifierFinding
    → List Contradiction
    → List CompiledFact
    → List (String × ResolutionRecord)
    → List CandidateAction
unfolding needs_verification needs_re_task
pushed_items evidence findings contradictions trusted_facts resolved =
    map (adjudicate_item resolved) contradictions
    ++ (map (unblock_item resolved) (filter is_blocker evidence)
        ++ (map (resolve_finding_item resolved) (filter is_open_finding findings)
            ++ (map (verify_claim_item resolved) (
                  filter (needs_verification (map (λ fact. fact.id) trusted_facts) resolved)
                    evidence)
                ++ map (re_task_item resolved) (filter (needs_re_task evidence) evidence))))

unfoldable pub derive_worklist :
    List EvidenceRecord
    → List VerifierFinding
    → List Contradiction
    → List CompiledFact
    → List ResolutionRecord
    → List CandidateAction
unfolding pushed_items
derive_worklist evidence findings contradictions trusted_facts resolutions =
    sort_by work_order
      (pushed_items evidence findings contradictions trusted_facts (resolved_by resolutions))
