-- ===== src/Compile/Halt.antt =====
-- compiler/run_dir.rs, `halt_signals_from_state`, with `dedupe_source_ids`: may the run stop?
use agent_receipts.Prelude.{
  Bool, not, ◌&&◌, String, List, [], ◌∷◌, ◌++◌, ◌==◌, filter, flat_map, contains, format, decimal,
  is_empty, is_some_true, length, nat_eq, if◌then◌else◌,
}
use agent_receipts.Schema.{VerifierFinding, CandidateAction, HaltSignal}

-- `set.insert(id)` answers whether the id is new; only new ids are kept.
dedupe_from : List String → List String → List String
dedupe_from seen [] = []
dedupe_from seen (id ∷ ids) =
    let fresh = id ∷ dedupe_from (id ∷ seen) ids in
    let rest = dedupe_from seen ids in if contains seen id then rest else fresh

unfoldable pub dedupe_source_ids : List String → List String
unfolding dedupe_from
dedupe_source_ids source_ids = dedupe_from [] source_ids

-- `item.blocking == Some(true) && item.resolved != Some(true)`
unfoldable pub is_unresolved_blocking : CandidateAction → Bool
is_unresolved_blocking item = is_some_true item.blocking && not (is_some_true item.resolved)

unfoldable pub has_passed : VerifierFinding → Bool
has_passed finding = finding.status == "passed"

with_fallback : List String → List String
with_fallback ids = if is_empty ids then "raw:objective.md" ∷ [] else ids

unfoldable pub halt_signals_from_state :
    List VerifierFinding → List CandidateAction → String → List HaltSignal
unfolding with_fallback
halt_signals_from_state findings worklist created_at =
    let failed = filter (λ finding. not (has_passed finding)) findings in
    let unresolved = filter is_unresolved_blocking worklist in
    if is_empty failed && nat_eq (length unresolved) 0
    then record {
      id = format ("halt:" ∷ created_at ∷ ":ready" ∷ []);
      kind = "ready-to-halt";
      contribution = 0x3f800000;
      rationale = "All verifier findings passing; no unresolved blocking worklist items.";
      source_ids =
          with_fallback (dedupe_source_ids (flat_map (λ finding. finding.source_ids) findings));
    }
      ∷ []
    else record {
      id = format ("halt:" ∷ created_at ∷ ":continue" ∷ []);
      kind = "continue";
      contribution = 0x3f800000;
      rationale = format (
          decimal (length failed)
          ∷ " non-passing finding(s), "
          ∷ decimal (length unresolved)
          ∷ " unresolved blocking worklist item(s)."
          ∷ []);
      source_ids = with_fallback (
          dedupe_source_ids (
            flat_map (λ finding. finding.source_ids) failed
            ++ flat_map (λ item. item.source_ids) unresolved));
    }
      ∷ []
