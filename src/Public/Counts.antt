-- ===== src/Public/Counts.antt =====
-- compiler/privacy.rs: the tables of counts, and the public projection built of them.
use mathlib.Core.Option
use agent_receipts.Prelude.{
  ℕ, ◌+◌, ◌%◌, ◌^◌, String, List, [], ◌∷◌, Bool, true, false, ◌&&◌, ◌==◌, any, filter, filter_map,
  map, sort_by, insert_sorted, text_le, if◌then◌else◌, length, ltb, leb, unwrap_or,
}
use agent_receipts.Schema.{
  NextPassPacket, TrustAssessment, ReceiptEvent, CheckHistory, EvidenceCoverage, F64,
}
use agent_receipts.Envelope.Types.{SignedEngineIdentity}
use agent_receipts.Receipts.Types.{ReceiptVerification}

pub record PublicEngineIdentity : Type 0 where
  pub protocol_version : String
  pub engine_version : String
  pub build_commit : String
  pub binary_digest : String
  pub dependency_lock_digest : String
  pub os : String
  pub arch : String

-- A `BTreeMap<String, u32>`.
abbrev pub Counts : Type 0
Counts = List (String × ℕ)

pub record PublicClaimSummary : Type 0 where
  pub total : ℕ
  pub by_status : Counts
  pub by_applicability : Counts
  pub independently_verified : ℕ

pub record PublicReceiptSummary : Type 0 where
  pub total : ℕ
  pub by_integrity : Counts
  pub by_outcome : Counts
  pub attempts_total : ℕ

pub record PublicCheckSummary : Type 0 where
  pub checks : ℕ
  pub attempts : ℕ
  pub first_pass_successes : ℕ
  pub eventually_green : ℕ
  pub flaky_checks : ℕ
  pub transitions : ℕ

pub record PublicProjection : Type 0 where
  pub projection_version : String
  pub schema_version : String
  pub engines : List PublicEngineIdentity
  pub executor_principals : List String
  pub evidence_coverage : EvidenceCoverage
  pub claims : PublicClaimSummary
  pub receipts : PublicReceiptSummary
  pub checks : PublicCheckSummary

-- A `u32`.
abbrev pub to_u32 : ℕ → ℕ
to_u32 n = n % 2 ^ 32

abbrev pub initialized_counts : List String → Counts
initialized_counts keys = map (λ key. (key, 0)) (sort_by text_le keys)

abbrev pub contains_key : Counts → String → Bool
contains_key counts value = any (λ entry. entry.0 == value) counts

-- `*counts.entry(key).or_default() += 1`. A new key goes to the end, whatever its place is in the
-- order of the keys.
unfoldable pub increment : String → Counts → Counts
increment key [] = (key, 1) ∷ []
increment key (entry ∷ counts) =
    let rest = increment key counts in
    if entry.0 == key then (entry.0, to_u32 (entry.1 + 1)) ∷ counts else entry ∷ rest

unfoldable pub increment_known : Counts → String → Counts
increment_known counts value =
    increment (if contains_key counts value then value else "unknown") counts

-- The loop over the values of one table.
unfoldable pub count_all : Counts → List String → Counts
count_all counts [] = counts
count_all counts (value ∷ values) = count_all (increment_known counts value) values

-- `iter().sum::<u32>()`, and `+=` in a loop.
abbrev pub sum_u32 : List ℕ → ℕ
sum_u32 [] = 0
sum_u32 (n ∷ ns) = to_u32 (n + sum_u32 ns)

abbrev pub claim_statuses : List String
claim_statuses = "verified" ∷ "verifier_backed" ∷ "asserted" ∷ "refuted" ∷ "unknown" ∷ []

abbrev pub applicabilities : List String
applicabilities = "current" ∷ "stale" ∷ "environment_mismatch" ∷ "unbound" ∷ "unknown" ∷ []

abbrev pub integrities : List String
integrities = "signed" ∷ "hash_verified" ∷ "legacy_weak" ∷ "invalid" ∷ "unknown" ∷ []

abbrev pub outcomes : List String
outcomes = "passed" ∷ "failed" ∷ "expected_failure" ∷ "unknown" ∷ []

abbrev pub claims_of : List TrustAssessment → PublicClaimSummary
claims_of assessments = record {
  total = to_u32 (length assessments);
  by_status = count_all (initialized_counts claim_statuses) (map (λ a. a.claim_status) assessments);
  by_applicability =
      count_all (initialized_counts applicabilities) (map (λ a. a.applicability) assessments);
  independently_verified =
      to_u32
        (length (filter (λ a. a.verifier_independent && a.claim_status == "verified") assessments));
}

abbrev pub receipts_of : List ReceiptEvent → PublicReceiptSummary
receipts_of events = record {
  total = to_u32 (length events);
  by_integrity = count_all (initialized_counts integrities) (map (λ e. e.integrity) events);
  by_outcome = count_all (initialized_counts outcomes) (map (λ e. e.outcome) events);
  attempts_total = sum_u32 (map (λ e. e.attempts_for_label) events);
}

-- `value > 0.0` on the bits of an `f64`: neither zero, nor negative, nor a NaN.
abbrev pub is_positive : F64 → Bool
is_positive bits = ltb 0 bits && leb bits 0x7ff0000000000000

abbrev pub checks_of : List CheckHistory → PublicCheckSummary
checks_of histories = record {
  checks = to_u32 (length histories);
  attempts = sum_u32 (map (λ h. h.attempts) histories);
  first_pass_successes = to_u32 (length (filter (λ h. h.first_result == "passed") histories));
  eventually_green = to_u32 (length (filter (λ h. h.latest_result == "passed") histories));
  flaky_checks = to_u32 (length (filter (λ h. is_positive h.flake_rate) histories));
  transitions = sum_u32 (map (λ h. to_u32 (length h.transitions)) histories);
}

abbrev pub public_engine : SignedEngineIdentity → PublicEngineIdentity
public_engine engine = record {
  protocol_version = engine.protocol_version;
  engine_version = engine.engine_version;
  build_commit = engine.build_commit;
  binary_digest = engine.binary_digest.digest;
  dependency_lock_digest = engine.dependency_lock_digest.digest;
  os = engine.os;
  arch = engine.arch;
}

abbrev pub default_coverage : EvidenceCoverage
default_coverage = record {
  total_claims = 0;
  verified_claims = 0;
  verifier_backed_claims = 0;
  asserted_claims = 0;
  refuted_claims = 0;
}

-- The order that is derived for the identities: field by field.
abbrev pub fields_of : PublicEngineIdentity → List String
fields_of e =
    e.protocol_version ∷ e.engine_version ∷ e.build_commit ∷ e.binary_digest
    ∷ e.dependency_lock_digest ∷ e.os ∷ e.arch ∷ []

unfoldable pub fields_le : List String → List String → Bool
fields_le [] ts = true
fields_le (s ∷ ss) [] = false
fields_le (s ∷ ss) (t ∷ ts) = let rest = fields_le ss ts in if s == t then rest else text_le s t

-- A `BTreeSet`, as the list of its members in their order.
unfoldable pub btree_set : {A : Type 0} → (A → A → Bool) → List A → List A
btree_set le [] = []
btree_set le (x ∷ xs) =
    let rest = btree_set le xs in
    if any (λ y. le x y && le y x) rest then rest else insert_sorted le x rest

-- `verifications` are the values of the journal's map, and `packet` is the one that was just compiled.
unfoldable pub build_public_projection :
    NextPassPacket → List ReceiptVerification → PublicProjection
build_public_projection packet verifications = record {
  projection_version = "1.0.0";
  schema_version = packet.schema_version;
  engines =
      btree_set (λ a b. fields_le (fields_of a) (fields_of b))
        (filter_map (λ v. Option.map public_engine v.engine) verifications);
  executor_principals = btree_set text_le (filter_map (λ v. v.principal_id) verifications);
  evidence_coverage = unwrap_or packet.evidence_coverage default_coverage;
  claims = claims_of packet.trust_assessments;
  receipts = receipts_of packet.receipt_events;
  checks = checks_of packet.check_histories;
}
