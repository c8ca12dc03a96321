-- ===== src/Checks/Current.antt =====
-- compiler/checks.rs, `claim_binding`: is there a check whose last attempt still applies to a claim?

use agent_receipts.Prelude.{
  Bool, true, false, not, ◌&&◌, String, List, [], ◌∷◌, Option, none, some, ◌==◌, filter, reverse,
  contains, texts_eq, find_last, is_empty, if◌then◌else◌, Result, ok, err,
}
use agent_receipts.Checks.Types.{CheckDefinition, CheckManifest, CheckAttemptRecord, ClaimBinding}

-- What `compute_binding` finds in the work tree for a check.
pub record BindingSnapshot : Type 0 where
  pub covered_paths : List String
  pub subject_digest : String
  pub dependency_lock_digest : String
  pub command_digest : String
  pub definition_digest : String
  pub environment_digest : String

abbrev pub unbound : ClaimBinding
unbound = record { applicability = "unbound"; outcome = "unknown"; check_id = none }

unfoldable pub is_eligible : String → String → CheckDefinition → Bool
is_eligible claim_id claim_kind check =
    contains check.target_claims claim_id && contains check.eligible_claim_kinds claim_kind

unfoldable pub has_environment : CheckDefinition → BindingSnapshot → CheckAttemptRecord → Bool
has_environment check snapshot attempt =
    attempt.environment_class == check.environment_class
    && attempt.environment_digest == snapshot.environment_digest

-- The attempt ran on what the work tree holds now.
unfoldable pub is_fresh : CheckDefinition → BindingSnapshot → CheckAttemptRecord → Bool
is_fresh check snapshot attempt =
    attempt.check_version == check.version
    && texts_eq attempt.target_claims check.target_claims
    && texts_eq attempt.covered_paths snapshot.covered_paths
    && attempt.subject_digest == snapshot.subject_digest
    && attempt.dependency_lock_digest == snapshot.dependency_lock_digest
    && attempt.command_digest == snapshot.command_digest
    && attempt.definition_digest == snapshot.definition_digest

-- How one turn of the loop ends.
pub data Verdict : Type 0 where
  no_attempt stale environment_mismatch : Verdict
  current : CheckAttemptRecord → Verdict

-- `compute_binding` reads the work tree; it is `none` where it fails.
module _ (compute_binding : CheckDefinition → Option BindingSnapshot)
    (attempts : List CheckAttemptRecord) where
  unfoldable pub verdict : CheckDefinition → Verdict
  unfolding has_environment is_fresh
  verdict check = elim (find_last (λ attempt. attempt.check_id == check.id) attempts) [
    | none ↦ no_attempt
    | some attempt ↦ elim (compute_binding check) [
      | none ↦ stale
      | some snapshot ↦
          if not (has_environment check snapshot attempt)
          then environment_mismatch
          else if not (is_fresh check snapshot attempt)
          then stale
          else current attempt
    ]
  ]

  -- The loop, with the two flags of the source.
  unfoldable pub bind_from : Bool → Bool → List CheckDefinition → ClaimBinding
  bind_from saw_stale saw_mismatch [] = record {
    applicability =
        if saw_mismatch then "environment_mismatch" else if saw_stale then "stale" else "unbound";
    outcome = "unknown";
    check_id = none;
  }
  bind_from saw_stale saw_mismatch (check ∷ checks) = elim (verdict check) [
    | no_attempt ↦ bind_from saw_stale saw_mismatch checks
    | stale ↦ bind_from true saw_mismatch checks
    | environment_mismatch ↦ bind_from saw_stale true checks
    | current attempt ↦ record {
      applicability = "current";
      outcome = attempt.outcome;
      check_id = some check.id;
    }
  ]

  unfoldable pub bind_claim : CheckManifest → String → String → ClaimBinding
  unfolding bind_from
  bind_claim manifest claim_id claim_kind =
      let eligible = filter (is_eligible claim_id claim_kind) manifest.checks in
      if is_empty eligible then unbound else bind_from false false (reverse eligible)

-- `manifest` is `none` without a repository root, and else what `load_manifest` returns.
unfoldable pub claim_binding :
    {E : Type 0}
    → (CheckDefinition → Option BindingSnapshot)
    → Option (Result E (Option CheckManifest))
    → String
    → String
    → List CheckAttemptRecord
    → Result E ClaimBinding
claim_binding compute_binding manifest claim_id claim_kind attempts = elim manifest [
  | none ↦ ok unbound
  | some (err e) ↦ err e
  | some (ok none) ↦ ok unbound
  | some (ok (some m)) ↦ ok (bind_claim compute_binding attempts m claim_id claim_kind)
]
