-- ===== src/Checks/Fresh.antt =====
-- compiler/checks.rs, `claim_binding`: the tests that one turn of the loop makes.
use mathlib.Core.List.{Memᴰ}
use agent_receipts.Prelude.{
  ◌≡◌, refl, ◌↔◌, ◌⊎◌, inl, inr, true, false, ◌&&◌, String, List, [], ◌∷◌, arith, eq_iff, filter,
  mem-filter, contains, contains_iff, texts_eq_iff, is_empty, and_iff,
}
use agent_receipts.Checks.Types.{CheckDefinition, CheckAttemptRecord}
use agent_receipts.Checks.Current.{
  BindingSnapshot, is_eligible, has_environment, is_fresh, Verdict, no_attempt, stale,
  environment_mismatch, current,
}

-- The attempt ran this version of the check, on this work tree, in this environment.
pub record IsFresh (check : CheckDefinition) (snapshot : BindingSnapshot)
    (attempt : CheckAttemptRecord) : Type 0 where
  pub same_class : attempt.environment_class ≡ check.environment_class
  pub same_environment : attempt.environment_digest ≡ snapshot.environment_digest
  pub same_version : attempt.check_version ≡ check.version
  pub same_claims : attempt.target_claims ≡ check.target_claims
  pub same_paths : attempt.covered_paths ≡ snapshot.covered_paths
  pub same_subject : attempt.subject_digest ≡ snapshot.subject_digest
  pub same_locks : attempt.dependency_lock_digest ≡ snapshot.dependency_lock_digest
  pub same_command : attempt.command_digest ≡ snapshot.command_digest
  pub same_definition : attempt.definition_digest ≡ snapshot.definition_digest

pub current_tests_iff :
    (check : CheckDefinition) (snapshot : BindingSnapshot) (attempt : CheckAttemptRecord)
    → ((has_environment check snapshot attempt && is_fresh check snapshot attempt) ≡ true)
      ↔ IsFresh check snapshot attempt
unfolding has_environment is_fresh
current_tests_iff check snapshot attempt = (
  λ h. record {
    same_class = (eq_iff _ _).0 (ground arith);
    same_environment = (eq_iff _ _).0 (ground arith);
    same_version = (eq_iff _ _).0 (ground arith);
    same_claims = (texts_eq_iff _ _).0 (ground arith);
    same_paths = (texts_eq_iff _ _).0 (ground arith);
    same_subject = (eq_iff _ _).0 (ground arith);
    same_locks = (eq_iff _ _).0 (ground arith);
    same_command = (eq_iff _ _).0 (ground arith);
    same_definition = (eq_iff _ _).0 (ground arith);
  },
  λ f.
      let a = (eq_iff _ _).1 f.same_class in
      let b = (eq_iff _ _).1 f.same_environment in
      let c = (eq_iff _ _).1 f.same_version in
      let d = (texts_eq_iff _ _).1 f.same_claims in
      let e = (texts_eq_iff _ _).1 f.same_paths in
      let g = (eq_iff _ _).1 f.same_subject in
      let k = (eq_iff _ _).1 f.same_locks in
      let l = (eq_iff _ _).1 f.same_command in
      let m = (eq_iff _ _).1 f.same_definition in rw (a, b, c, d, e, g, k, l, m) refl,
)

pub Verdict-cases :
    (v : Verdict)
    → (v ≡ no_attempt)
      ⊎ (v ≡ stale)
      ⊎ (v ≡ environment_mismatch)
      ⊎ ((a : CheckAttemptRecord) × (v ≡ current a))
Verdict-cases no_attempt = inl refl
Verdict-cases stale = inr (inl refl)
Verdict-cases environment_mismatch = inr (inr (inl refl))
Verdict-cases (current a) = inr (inr (inr (a, refl)))

pub eligible_iff :
    (claim_id claim_kind : String) (check : CheckDefinition) (checks : List CheckDefinition)
    → Memᴰ check (filter (is_eligible claim_id claim_kind) checks) ↔ (
        Memᴰ check checks
        × Memᴰ claim_id check.target_claims
        × Memᴰ claim_kind check.eligible_claim_kinds)
unfolding is_eligible
eligible_iff claim_id claim_kind check checks = (
  λ m.
      let k = (mem-filter (is_eligible claim_id claim_kind)).0 m in
      let tests =
        (and_iff (contains check.target_claims claim_id)
            (contains check.eligible_claim_kinds claim_kind)).0
          k.1 in
      (k.0, (contains_iff _ _).0 tests.0, (contains_iff _ _).0 tests.1),
  λ h. (mem-filter (is_eligible claim_id claim_kind)).1 (
    h.0,
    (and_iff _ _).1 (
      (contains_iff check.target_claims claim_id).1 h.1,
      (contains_iff check.eligible_claim_kinds claim_kind).1 h.2,
    ),
  ),
)

pub List-cases : {A : Type 0} (xs : List A) → (xs ≡ []) ⊎ (is_empty xs ≡ false)
List-cases [] = inl refl
List-cases (x ∷ xs) = inr refl
