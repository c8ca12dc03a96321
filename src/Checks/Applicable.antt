-- ===== src/Checks/Applicable.antt =====
-- compiler/checks.rs, `claim_binding`: when a claim's check is current.
use mathlib.Core.List.{Memᴰ}
use mathlib.Core.List.Memᴰ
use agent_receipts.Prelude.{
  ◌≡◌, refl, sym, ap, subst, ◌∙◌, ◌↔◌, inl, inr, Bool, true, false, ◌&&◌, String, List, [], ◌∷◌,
  Option, none, some, ◌==◌, arith, eq_iff, filter, reverse, mem-reverse, find_last, find_last_iff,
  IsLast, and_iff, Option-cases, Result, ok, err,
}
use agent_receipts.Checks.Types.{CheckDefinition, CheckManifest, CheckAttemptRecord, ClaimBinding}
use agent_receipts.Checks.Current.{
  BindingSnapshot, is_eligible, has_environment, is_fresh, current, verdict, bind_from, bind_claim,
  unbound, claim_binding,
}
use agent_receipts.Checks.Fresh.{
  IsFresh, current_tests_iff, Verdict-cases, eligible_iff, List-cases,
}

module _ (compute_binding : CheckDefinition → Option BindingSnapshot)
    (attempts : List CheckAttemptRecord) where
  abbrev is_attempt_of : CheckDefinition → CheckAttemptRecord → Bool
  is_attempt_of check attempt = attempt.check_id == check.id

  -- The check's last attempt is fresh.
  pub record IsCurrent (check : CheckDefinition) (attempt : CheckAttemptRecord) : Type 0 where
    pub is_last : IsLast (λ a. a.check_id == check.id) attempts attempt
    pub snapshot : BindingSnapshot
    pub computed : compute_binding check ≡ some snapshot
    pub fresh : IsFresh check snapshot attempt

  verdict_iff :
      (check : CheckDefinition) (attempt : CheckAttemptRecord)
      → (verdict compute_binding attempts check ≡ current attempt) ↔ IsCurrent check attempt
  unfolding verdict
  verdict_iff check attempt = (found, held)
    where
      found : verdict compute_binding attempts check ≡ current attempt → IsCurrent check attempt
      found h = elim (Option-cases (find_last (is_attempt_of check) attempts)) [
        | inl n ↦ absurd (ground (arith, n))
        | inr a ↦ elim (Option-cases (compute_binding check)) [
          | inl n ↦ absurd (ground (arith, a.1, n))
          | inr b ↦
              let tests : (has_environment check b.0 a.0 && is_fresh check b.0 a.0) ≡ true =
                ground (arith, a.1, b.1) in
              let same : a.0 ≡ attempt = ground (arith, a.1, b.1, tests) in
              subst (IsCurrent check) same (record {
                is_last = (find_last_iff (is_attempt_of check) attempts a.0).0 a.1;
                snapshot = b.0;
                computed = b.1;
                fresh = (current_tests_iff check b.0 a.0).0 tests;
              })
        ]
      ]

      held : IsCurrent check attempt → verdict compute_binding attempts check ≡ current attempt
      held c =
          let tests =
            (and_iff (has_environment check c.snapshot attempt)
                (is_fresh check c.snapshot attempt)).0
              ((current_tests_iff check c.snapshot attempt).1 c.fresh) in
          let last = (find_last_iff (is_attempt_of check) attempts attempt).1 c.is_last in
          rw (last, c.computed, tests.0, tests.1, verdict) refl

  -- The binding is that of the last attempt of a current check of the list.
  abbrev EndsAt : List CheckDefinition → ClaimBinding → Type 0
  EndsAt checks b =
      (check : CheckDefinition) × (attempt : CheckAttemptRecord) × Memᴰ check checks
      × (verdict compute_binding attempts check ≡ current attempt)
      × (b.outcome ≡ attempt.outcome)
      × (b.check_id ≡ some check.id)

  later :
      (c : CheckDefinition) (cs : List CheckDefinition) (b : ClaimBinding)
      → EndsAt cs b
      → EndsAt (c ∷ cs) b
  later c cs b r = (r.0, r.1, Memᴰ.tail r.2, r.3, r.4, r.5)

  EndsAt-bind_from :
      (s m : Bool) (checks : List CheckDefinition)
      → (bind_from compute_binding attempts s m checks).applicability ≡ "current"
      → EndsAt checks (bind_from compute_binding attempts s m checks)
  unfolding bind_from
  EndsAt-bind_from s m [] h = absurd (
      ground (
        arith,
        eq_iff "environment_mismatch" "current",
        eq_iff "stale" "current",
        eq_iff "unbound" "current",
      ))
  EndsAt-bind_from s m (c ∷ cs) h = elim (Verdict-cases (verdict compute_binding attempts c)) [
    | inl e ↦
        rw (e, bind_from)
          (later c cs (bind_from compute_binding attempts s m cs)
            (EndsAt-bind_from s m cs (rw (e, bind_from) at h)))
    | inr (inl e) ↦
        rw (e, bind_from)
          (later c cs (bind_from compute_binding attempts true m cs)
            (EndsAt-bind_from true m cs (rw (e, bind_from) at h)))
    | inr (inr (inl e)) ↦
        rw (e, bind_from)
          (later c cs (bind_from compute_binding attempts s true cs)
            (EndsAt-bind_from s true cs (rw (e, bind_from) at h)))
    | inr (inr (inr e)) ↦ rw (e.1, bind_from) (c, e.0, Memᴰ.head refl, e.1, refl, refl)
  ]

  -- A current check ends the loop, unless another did before.
  bind_from-current :
      (s m : Bool) {check : CheckDefinition} (checks : List CheckDefinition)
      (attempt : CheckAttemptRecord)
      → Memᴰ check checks
      → verdict compute_binding attempts check ≡ current attempt
      → (bind_from compute_binding attempts s m checks).applicability ≡ "current"
  unfolding bind_from
  bind_from-current s m [] attempt k v = elim k [ ]
  bind_from-current s m {check} (c ∷ cs) attempt k v =
      elim (Verdict-cases (verdict compute_binding attempts c)) [
        | inl e ↦ rw (e, bind_from) (bind_from-current s m cs attempt (behind (λ z. cc (z, e))) v)
        | inr (inl e) ↦
            rw (e, bind_from) (bind_from-current true m cs attempt (behind (λ z. cc (z, e))) v)
        | inr (inr (inl e)) ↦
            rw (e, bind_from) (bind_from-current s true cs attempt (behind (λ z. cc (z, e))) v)
        | inr (inr (inr e)) ↦ rw (e.1, bind_from) refl
      ]
    where
      behind : ¬ (verdict compute_binding attempts c ≡ current attempt) → Memᴰ check cs
      behind n = elim (Memᴰ.cases_cons k) [
        | inl q ↦ absurd (n (sym (ap (verdict compute_binding attempts) q) ∙ v))
        | inr t ↦ t
      ]

  -- A declared check for the claim and its kind, with its last attempt, which is fresh.
  pub record Backs (manifest : CheckManifest) (claim_id claim_kind : String) (b : ClaimBinding)
      : Type 0 where
    pub check : CheckDefinition
    pub attempt : CheckAttemptRecord
    pub declared : Memᴰ check manifest.checks
    pub targets : Memᴰ claim_id check.target_claims
    pub covers_kind : Memᴰ claim_kind check.eligible_claim_kinds
    pub is_current : IsCurrent check attempt
    pub same_outcome : b.outcome ≡ attempt.outcome
    pub same_check : b.check_id ≡ some check.id

  no_check :
      {E : Type 0} {manifest : Option (Result E (Option CheckManifest))}
      {claim_id claim_kind : String} (b : ClaimBinding)
      → unbound ≡ b
      → ((m : CheckManifest) → ¬ (manifest ≡ some (ok (some m))))
      → (b.applicability ≡ "current")
        ↔ ((m : CheckManifest) × (manifest ≡ some (ok (some m))) × Backs m claim_id claim_kind b)
  no_check b e n = (
    λ h.
        absurd (
          ground (arith, eq_iff "unbound" "current", ap (λ (z : ClaimBinding). z.applicability) e)),
    λ r. absurd (n r.0 r.1),
  )

  -- The loop over the eligible checks.
  backing_loop_iff :
      (manifest : CheckManifest) (claim_id claim_kind : String)
      → let b =
          bind_from compute_binding attempts false false
            (reverse (filter (is_eligible claim_id claim_kind) manifest.checks)) in
        (b.applicability ≡ "current") ↔ Backs manifest claim_id claim_kind b
  backing_loop_iff manifest claim_id claim_kind = (
    λ h.
        let r =
          EndsAt-bind_from false false
            (reverse (filter (is_eligible claim_id claim_kind) manifest.checks)) h in
        let k =
          (eligible_iff claim_id claim_kind r.0 manifest.checks).0
            ((mem-reverse (filter (is_eligible claim_id claim_kind) manifest.checks)).0 r.2) in
        record {
          check = r.0;
          attempt = r.1;
          declared = k.0;
          targets = k.1;
          covers_kind = k.2;
          is_current = (verdict_iff r.0 r.1).0 r.3;
          same_outcome = r.4;
          same_check = r.5;
        },
    λ b.
        bind_from-current false false
          (reverse (filter (is_eligible claim_id claim_kind) manifest.checks)) b.attempt
          ((mem-reverse (filter (is_eligible claim_id claim_kind) manifest.checks)).1 (
            (eligible_iff claim_id claim_kind b.check manifest.checks).1
              (b.declared, b.targets, b.covers_kind)))
          ((verdict_iff b.check b.attempt).1 b.is_current),
  )

  bind_claim_iff :
      (manifest : CheckManifest) (claim_id claim_kind : String)
      → ((bind_claim compute_binding attempts manifest claim_id claim_kind).applicability
          ≡ "current")
        ↔ Backs manifest claim_id claim_kind
            (bind_claim compute_binding attempts manifest claim_id claim_kind)
  unfolding bind_claim
  bind_claim_iff manifest claim_id claim_kind =
      elim (List-cases (filter (is_eligible claim_id claim_kind) manifest.checks)) [
        | inl e ↦
            rw (e, bind_claim)
              (
                λ h. absurd (ground (arith, eq_iff "unbound" "current")),
                λ b.
                    elim (subst (Memᴰ b.check) e (
                      (eligible_iff claim_id claim_kind b.check manifest.checks).1
                        (b.declared, b.targets, b.covers_kind))) [ ],
              )
        | inr k ↦ rw (k, bind_claim) (backing_loop_iff manifest claim_id claim_kind)
      ]

  -- A claim's binding is current exactly when the repository has a manifest that declares a check
  -- for the claim and its kind, and the check's last attempt is fresh: it ran this version of the
  -- check, on these files, in this environment. The binding then tells the outcome of such an attempt.
  pub claim_binding-current_iff :
      {E : Type 0} (manifest : Option (Result E (Option CheckManifest)))
      (claim_id claim_kind : String) (b : ClaimBinding)
      → claim_binding compute_binding manifest claim_id claim_kind attempts ≡ ok b
      → (b.applicability ≡ "current")
        ↔ ((m : CheckManifest) × (manifest ≡ some (ok (some m))) × Backs m claim_id claim_kind b)
  unfolding claim_binding
  claim_binding-current_iff none claim_id claim_kind b h = no_check b (cc h) (λ m e. cc e)
  claim_binding-current_iff (some (err x)) claim_id claim_kind b h = absurd (cc)
  claim_binding-current_iff (some (ok none)) claim_id claim_kind b h =
      no_check b (cc h) (λ m e. cc e)
  claim_binding-current_iff {E} (some (ok (some n))) claim_id claim_kind b h =
      let same : bind_claim compute_binding attempts n claim_id claim_kind ≡ b = cc h in
      subst
        (λ z. (z.applicability ≡ "current") ↔ (
          (m : CheckManifest) × (Path (Option (Result E (Option CheckManifest)))
            (some (ok (some n))) (some (ok (some m))))
          × Backs m claim_id claim_kind z))
        same
        (
          λ c. (n, refl, (bind_claim_iff n claim_id claim_kind).0 c),
          λ r.
              let e : r.0 ≡ n = cc (r.1) in
              (bind_claim_iff n claim_id claim_kind).1 (
                subst
                  (λ m.
                    Backs m claim_id claim_kind
                      (bind_claim compute_binding attempts n claim_id claim_kind))
                  e r.2),
        )
