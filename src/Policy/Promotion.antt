-- ===== src/Policy/Promotion.antt =====
-- receipts-compiler/src/compiler/promotion.rs: what earns promotion into the next pass.
use agent_receipts.Prelude.{
  ℕ, ◌≡◌, ◌≤◌, ◌↔◌, Bool, true, not, ◌&&◌, String, List, [], ◌∷◌, none, arith, eq_iff, format,
  decimal, leb, ltb, nat_eq, if◌then◌else◌,
}
use agent_receipts.Schema.{PromotionRecord}

-- The two counts are `u32`: the code compares and prints them.
pub record PromotionCandidate : Type 0 where
  pub id : String
  pub kind : String
  pub source_ids : List String
  pub repeated_utility_count : ℕ
  pub verifier_support : Bool
  pub conflict_count : ℕ

unfoldable pub promotion_record_from_candidate : PromotionCandidate → PromotionRecord
promotion_record_from_candidate candidate =
    let should_promote =
      leb 2 candidate.repeated_utility_count
      && candidate.verifier_support
      && nat_eq candidate.conflict_count 0 in
    let decision : String = if should_promote then "allow" else "review" in
    let reason =
      if should_promote
      then format (
          "Repeated utility observed "
          ∷ decimal candidate.repeated_utility_count
          ∷ " times with verifier support and no conflicts."
          ∷ [])
      else if ltb 0 candidate.conflict_count
      then format (
          "Conflicting evidence still exists ("
          ∷ decimal candidate.conflict_count
          ∷ " conflicts); keep this candidate under review."
          ∷ [])
      else if not candidate.verifier_support
      then format (
          "Verifier support is still missing after "
          ∷ decimal candidate.repeated_utility_count
          ∷ " repeated observations; keep this candidate under review."
          ∷ [])
      else format (
          "Needs more repeated utility before promotion (observed "
          ∷ decimal candidate.repeated_utility_count
          ∷ " times)."
          ∷ []) in
    record {
      id = candidate.id;
      kind = candidate.kind;
      source_ids = candidate.source_ids;
      decision = decision;
      reason = reason;
      expires_after_pass = none;
    }

-- A candidate is allowed exactly when it was useful twice or more, a verifier supports it and no
-- conflict stands against it; its sources are passed on unchanged.
pub promotion_record_from_candidate_iff :
    (candidate : PromotionCandidate)
    → (((promotion_record_from_candidate candidate).decision ≡ "allow") ↔ (
        (2 ≤ candidate.repeated_utility_count)
        × (candidate.verifier_support ≡ true)
        × (candidate.conflict_count ≡ 0)))
      × ((promotion_record_from_candidate candidate).source_ids ≡ candidate.source_ids)
unfolding promotion_record_from_candidate
promotion_record_from_candidate_iff candidate = ground (arith, eq_iff "allow" "review")
