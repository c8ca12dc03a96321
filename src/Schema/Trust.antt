-- ===== src/Schema/Trust.antt =====
-- receipts-compiler/src/schema.rs: what the compiler concludes about a claim.
use agent_receipts.Prelude.{ℕ, String, Bool, Option, List}
use agent_receipts.Schema.Float.{F32}

pub record CompiledFact : Type 0 where
  pub id : String
  pub statement : String
  pub reported_confidence : Option F32
  pub objective_relevance : F32
  pub novelty_gain : F32
  pub needs_raw_drilldown : Bool
  pub source_ids : List String
  pub attestation : Option String

pub record TrustAssessment : Type 0 where
  pub subject_id : String
  pub integrity : String
  pub outcome : String
  pub applicability : String
  pub claim_status : String
  pub verifier_independent : Bool

pub record EvidenceCoverage : Type 0 where
  pub total_claims : ℕ
  pub verified_claims : ℕ
  pub verifier_backed_claims : ℕ
  pub asserted_claims : ℕ
  pub refuted_claims : ℕ

pub record LaneDigest : Type 0 where
  pub lane : String
  pub agent_id : Option String
  pub records : ℕ
  pub attested : ℕ
  pub verifier : ℕ
  pub asserted : ℕ
  pub warnings : ℕ
  pub contradictions : ℕ
  pub read_recommendation : String
  pub drill_down : List String
