-- ===== src/Compile/Coverage.antt =====
-- compiler/run_dir.rs, `compute_evidence_coverage`: how many claims are verified, backed, refuted
-- and asserted. The counters are `u32` and wrap.
use agent_receipts.Prelude.{
  ℕ, ◌+◌, ◌%◌, ◌^◌, ◌<◌, ◌≡◌, refl, Bool, false, not, ◌&&◌, String, List, [], ◌∷◌, Option, none,
  some, arith, ◌==◌, filter, length, lookup, collect, contains, map, if◌then◌else◌,
}
use agent_receipts.Schema.{EvidenceRecord, EvidenceCoverage, TrustAssessment}
use agent_receipts.Compile.Facts.{non_fact_kinds}

abbrev pub load_bearing_claim_kinds : List String
load_bearing_claim_kinds = "code-change" ∷ "test-change" ∷ "root-cause" ∷ []

-- `rationale.as_deref() == Some("harvested-from-prose")`
abbrev pub is_harvested : EvidenceRecord → Bool
is_harvested record_ = elim record_.rationale [
  | none ↦ false
  | some why ↦ why == "harvested-from-prose"
]

unfoldable pub is_coverage_claim : EvidenceRecord → Bool
is_coverage_claim record_ =
    not (contains non_fact_kinds record_.kind)
    && not (is_harvested record_ && not (contains load_bearing_claim_kinds record_.kind))

-- `x += 1` on a `u32`
abbrev pub increment : ℕ → ℕ
increment n = (n + 1) % 2 ^ 32

abbrev no_coverage : EvidenceCoverage
no_coverage = record {
  total_claims = 0;
  verified_claims = 0;
  verifier_backed_claims = 0;
  asserted_claims = 0;
  refuted_claims = 0;
}

-- The `match` on the claim's status, after the total is counted.
count_claim : Option String → EvidenceCoverage → EvidenceCoverage
count_claim status before =
    let coverage = record before { total_claims = increment before.total_claims } in
    elim status [
      | none ↦ record coverage { asserted_claims = increment coverage.asserted_claims }
      | some s ↦
          if s == "verified"
          then record coverage { verified_claims = increment coverage.verified_claims }
          else if s == "verifier_backed"
          then record coverage {
            verifier_backed_claims = increment coverage.verifier_backed_claims;
          }
          else if s == "refuted"
          then record coverage { refuted_claims = increment coverage.refuted_claims }
          else record coverage { asserted_claims = increment coverage.asserted_claims }
    ]

-- `by_subject.get(id).map(|assessment| assessment.claim_status)`
status_in : List (String × TrustAssessment) → String → Option String
status_in by_subject id = elim (lookup id by_subject) [ none ↦ none | some a ↦ some a.claim_status ]

count_claims :
    List (String × TrustAssessment) → EvidenceCoverage → List EvidenceRecord → EvidenceCoverage
count_claims by_subject coverage [] = coverage
count_claims by_subject coverage (r ∷ rs) =
    count_claims by_subject (count_claim (status_in by_subject r.id) coverage) rs

unfoldable pub compute_evidence_coverage :
    List EvidenceRecord → List TrustAssessment → EvidenceCoverage
unfolding count_claim status_in count_claims
compute_evidence_coverage evidence assessments =
    count_claims (collect (map (λ a. (a.subject_id, a)) assessments)) no_coverage
      (filter is_coverage_claim evidence)

-- The four classes add up to the total, modulo the wrap of `u32`.
abbrev Balances : EvidenceCoverage → Type 0
Balances c =
    (c.verified_claims + c.verifier_backed_claims + c.asserted_claims + c.refuted_claims) % 2 ^ 32
    ≡ c.total_claims

count_claim-Balances :
    (status : Option String) (c : EvidenceCoverage) → Balances c → Balances (count_claim status c)
unfolding count_claim
count_claim-Balances status c h = ground arith

count_claims-Balances :
    (m : List (String × TrustAssessment)) (c : EvidenceCoverage) (rs : List EvidenceRecord)
    → Balances c
    → Balances (count_claims m c rs)
unfolding count_claims
count_claims-Balances m c [] h = h
count_claims-Balances m c (r ∷ rs) h =
    count_claims-Balances m (count_claim (status_in m r.id) c) rs
      (count_claim-Balances (status_in m r.id) c h)

total-count_claim :
    (status : Option String) (c : EvidenceCoverage)
    → (count_claim status c).total_claims ≡ increment c.total_claims
unfolding count_claim
total-count_claim status c = ground arith

total-count_claims :
    (m : List (String × TrustAssessment)) (c : EvidenceCoverage) (rs : List EvidenceRecord)
    → c.total_claims < 2 ^ 32
    → (count_claims m c rs).total_claims ≡ (c.total_claims + length rs) % 2 ^ 32
unfolding count_claims
total-count_claims m c [] h = omega arith
total-count_claims m c (r ∷ rs) h = omega (
  arith,
  total-count_claim (status_in m r.id) c,
  total-count_claims m (count_claim (status_in m r.id) c) rs
      (omega (arith, total-count_claim (status_in m r.id) c)),
)

-- Conservation: the total is the number of coverage claims, and each of them is counted in one of
-- the four classes (all modulo 2^32, the range of the counters).
pub compute_evidence_coverage_balanced :
    (evidence : List EvidenceRecord) (assessments : List TrustAssessment)
    → let c = compute_evidence_coverage evidence assessments in
      (c.total_claims ≡ length (filter is_coverage_claim evidence) % 2 ^ 32)
      × ((c.verified_claims + c.verifier_backed_claims + c.asserted_claims + c.refuted_claims)
            % 2 ^ 32
          ≡ c.total_claims)
unfolding compute_evidence_coverage
compute_evidence_coverage_balanced evidence assessments =
    let m = collect (map (λ (a : TrustAssessment). (a.subject_id, a)) assessments) in
    let claims = filter is_coverage_claim evidence in
    (
      omega (arith, total-count_claims m no_coverage claims (omega arith)),
      count_claims-Balances m no_coverage claims refl,
    )
