-- ===== src/Conflicts/Detect.antt =====
-- compiler/contradictions.rs, `detect_auto_contradictions`.
use agent_receipts.Prelude.{
  Bool, false, not, ◌&&◌, ◌||◌, String, List, [], ◌∷◌, ◌++◌, map, Option, none, some, ◌==◌,
  starts_with, filter, filter_map, contains, format, join, is_empty, is_some_eq, sort_by, text_le,
  if◌then◌else◌,
}
use agent_receipts.Schema.{SourceRef, EvidenceRecord, Contradiction}
use agent_receipts.Conflicts.Tokens.{tokens, is_overlap_below_half}

abbrev is_pair : String → String → String → String → Bool
is_pair left right a b = left == a && right == b

unfoldable pub is_non_contradicting_pair : String → String → Bool
is_non_contradicting_pair a b =
    let left = if text_le a b then a else b in
    let right = if text_le a b then b else a in
    is_pair left right "observation" "proposal"
    || is_pair left right "observation" "root-cause"
    || is_pair left right "gap" "proposal"
    || is_pair left right "missing-check" "proposal"
    || is_pair left right "root-cause" "symptom"
    || is_pair left right "failure-mode" "proposal"
    || is_pair left right "proposal" "risk"

unfoldable pub is_infrastructure_kind : String → Bool
is_infrastructure_kind kind = kind == "subagent-session" || kind == "blocker" || kind == "objective"

abbrev high_severity_kinds : List String
high_severity_kinds = "code-change" ∷ "root-cause" ∷ "test-change" ∷ []

abbrev low_severity_kinds : List String
low_severity_kinds = "observation" ∷ "measurement" ∷ "symptom" ∷ []

unfoldable pub severity_for_pair : String → String → String
severity_for_pair left_kind right_kind =
    if contains high_severity_kinds left_kind && contains high_severity_kinds right_kind
    then "high"
    else if contains low_severity_kinds left_kind && contains low_severity_kinds right_kind
    then "low"
    else "medium"

-- The prefixes of `DIRECT_PREFIXES`.
unfoldable pub is_direct : String → Bool
is_direct source_id =
    starts_with source_id "file:"
    || starts_with source_id "command:"
    || starts_with source_id "test:"

unfoldable pub direct_source_set : EvidenceRecord → List String
unfolding is_direct
direct_source_set record_ = filter is_direct record_.source_ids

-- Two values that are both given and differ.
abbrev pub both_differ : Option String → Option String → Bool
both_differ (some left) (some right) = not (left == right)
both_differ none right = false
both_differ (some left) none = false

unfoldable pub different_attribution : EvidenceRecord → EvidenceRecord → Bool
different_attribution a b = both_differ a.agent_id b.agent_id || both_differ a.lane b.lane

abbrev pub first_of : String → String → String
first_of left right = if text_le left right then left else right

abbrev pub second_of : String → String → String
second_of left right = if text_le left right then right else left

unfoldable pub contradiction_id : String → String → String
contradiction_id left right =
    format ("con:auto:" ∷ first_of left right ∷ ":" ∷ second_of left right ∷ [])

-- A `BTreeSet` of texts, in its order: sorted, without repetitions.
unfoldable pub distinct_texts : List String → List String
distinct_texts [] = []
distinct_texts (id ∷ rest) =
    let others = distinct_texts rest in if contains rest id then others else id ∷ others

unfoldable pub shared_sources : EvidenceRecord → EvidenceRecord → List String
shared_sources left right =
    sort_by text_le
      (distinct_texts (filter (contains (direct_source_set right)) (direct_source_set left)))

unfoldable pub is_harvested_prose : EvidenceRecord → Bool
is_harvested_prose record_ = is_some_eq record_.rationale "harvested-from-prose"

-- The tests of the loop's body, up to the duplicates.
unfoldable pub is_conflict : EvidenceRecord → EvidenceRecord → Bool
is_conflict left right =
    not (left.summary == right.summary)
    && not (is_harvested_prose left || is_harvested_prose right)
    && not (is_infrastructure_kind left.kind || is_infrastructure_kind right.kind)
    && not (is_non_contradicting_pair left.kind right.kind)
    && not (is_empty (direct_source_set left))
    && not (is_empty (direct_source_set right))
    && not (is_empty (shared_sources left right))
    && different_attribution left right
    && (not (left.kind == right.kind)
        || is_overlap_below_half (tokens left.summary) (tokens right.summary))

-- The references to shared sources, the first of each id.
collect_refs : List String → List String → List SourceRef → List SourceRef
collect_refs shared seen [] = []
collect_refs shared seen (candidate ∷ candidates) =
    let skipped = collect_refs shared seen candidates in
    let kept = candidate ∷ collect_refs shared (candidate.source_id ∷ seen) candidates in
    if not (contains shared candidate.source_id)
    then skipped
    else if contains seen candidate.source_id
    then skipped
    else kept

unfoldable pub contradiction_of : EvidenceRecord → EvidenceRecord → Contradiction
unfolding collect_refs
contradiction_of left right =
    let shared = shared_sources left right in
    let first_id = first_of left.id right.id in
    let second_id = second_of left.id right.id in
    let refs =
      sort_by (λ a b. text_le a.source_id b.source_id)
        (collect_refs shared [] (left.source_refs ++ right.source_refs)) in
    record {
      id = contradiction_id left.id right.id;
      summary = format (
          "Evidence "
          ∷ first_id
          ∷ " and "
          ∷ second_id
          ∷ " disagree on the same direct span ("
          ∷ join ", " shared
          ∷ "): \""
          ∷ left.summary
          ∷ "\" vs \""
          ∷ right.summary
          ∷ "\""
          ∷ []);
      conflicting_item_ids = first_id ∷ second_id ∷ [];
      severity = severity_for_pair left.kind right.kind;
      source_ids = shared;
      source_refs = if is_empty refs then none else some refs;
    }

-- The two nested loops over the indices: each pair, the earlier record first.
abbrev pub pairs : List EvidenceRecord → List (EvidenceRecord × EvidenceRecord)
pairs [] = []
pairs (left ∷ rest) = map (λ right. (left, right)) rest ++ pairs rest

-- `emitted.insert(id)`: only the first contradiction of an id is kept.
unfoldable pub emit : List String → List Contradiction → List Contradiction
emit emitted [] = []
emit emitted (c ∷ cs) =
    let skipped = emit emitted cs in
    let kept = c ∷ emit (c.id ∷ emitted) cs in if contains emitted c.id then skipped else kept

-- The contradictions of the conflicting pairs, in the order of the loops.
unfoldable pub conflicts : List EvidenceRecord → List Contradiction
conflicts evidence =
    filter_map
      (λ pair. if is_conflict pair.0 pair.1 then some (contradiction_of pair.0 pair.1) else none)
      (pairs evidence)

unfoldable pub detect_auto_contradictions : List EvidenceRecord → List Contradiction
detect_auto_contradictions evidence =
    sort_by (λ a b. text_le a.id b.id) (emit [] (conflicts evidence))
