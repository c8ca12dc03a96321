-- ===== src/Compile/Settled.antt =====
-- What it takes for a run to be settled, and when an item of the worklist is open.
use mathlib.Core.List.{Memᴰ}
use mathlib.Core.List.Memᴰ
use agent_receipts.Prelude.{
  ◌≡◌, refl, sym, ap, ◌∙◌, ◌↔◌, inl, inr, Bool, true, false, not, ◌&&◌, ◌||◌, String, List, ◌++◌,
  map, mem-map, arith, ◌==◌, starts_with, is_some, lookup, lookup-collect, mem_of_last_value,
  last_value_of_mem, Bool-cases, Option-cases,
}
use agent_receipts.Schema.{EvidenceRecord, VerifierFinding, Contradiction, CandidateAction}
use agent_receipts.Resolutions.Types.{ResolutionRecord}
use agent_receipts.Compile.Worklist.{
  resolved_by, work_item, adjudicate_item, unblock_item, verify_claim_item, re_task_item,
}
use agent_receipts.Compile.Halt.{is_unresolved_blocking}

-- Some resolution adjudicates the target.
abbrev pub IsResolved : List ResolutionRecord → String → Type 0
IsResolved resolutions target = (r : ResolutionRecord) × Memᴰ r resolutions × (r.target_id ≡ target)

-- A receipt refutes the finding, or the contradiction is of high severity.
abbrev pub is_blocking_contradiction : Contradiction → Bool
is_blocking_contradiction c = starts_with c.id "con:receipt:" || c.severity == "high"

-- Every finding passed, and every blocker and every blocking contradiction is resolved.
pub record IsSettled (evidence : List EvidenceRecord) (findings : List VerifierFinding)
    (contradictions : List Contradiction) (resolutions : List ResolutionRecord) : Type 0 where
  pub findings_passed : (f : VerifierFinding) → Memᴰ f findings → f.status ≡ "passed"
  pub blockers_resolved :
      (r : EvidenceRecord) → Memᴰ r evidence → r.kind ≡ "blocker" → IsResolved resolutions r.id
  pub contradictions_resolved :
      (c : Contradiction)
      → Memᴰ c contradictions
      → is_blocking_contradiction c ≡ true
      → IsResolved resolutions c.id

resolved_by_iff :
    (resolutions : List ResolutionRecord) (target : String)
    → (is_some (lookup target (resolved_by resolutions)) ≡ true) ↔ IsResolved resolutions target
unfolding resolved_by
resolved_by_iff resolutions target = (found, held)
  where
    entry : ResolutionRecord → String × ResolutionRecord
    entry r = (r.target_id, r)

    found : is_some (lookup target (resolved_by resolutions)) ≡ true → IsResolved resolutions target
    found h = elim (Option-cases (lookup target (resolved_by resolutions))) [
      | inl e ↦ absurd (ground arith)
      | inr k ↦
          let a = (mem-map entry).0 (
            mem_of_last_value target (map entry resolutions)
              (sym (lookup-collect target (map entry resolutions)) ∙ k.1)) in
          (a.0, a.1, ap (λ (e : String × ResolutionRecord). e.0) a.2)
    ]

    held : IsResolved resolutions target → is_some (lookup target (resolved_by resolutions)) ≡ true
    held r =
        let a =
          last_value_of_mem target r.0 (map entry resolutions)
            ((mem-map entry).1 (r.0, r.1, λ i. (r.2 i, r.0))) in
        rw (lookup-collect target (map entry resolutions)) (rw (a.1))

-- An item is open exactly when it blocks and its target is unresolved.
open_work_item :
    (resolved : List (String × ResolutionRecord)) (id category : String) (blocking : Bool)
    (target title rationale : String) (source_ids argv : List String)
    → is_unresolved_blocking
        (work_item resolved id category blocking target title rationale source_ids argv)
      ≡ (blocking && not (is_some (lookup target resolved)))
unfolding is_unresolved_blocking work_item
open_work_item resolved id category blocking target title rationale source_ids argv = ground arith

abbrev pub Closed : List CandidateAction → Type 0
Closed items = (x : CandidateAction) → Memᴰ x items → is_unresolved_blocking x ≡ false

pub Closed-append : (xs ys : List CandidateAction) → Closed (xs ++ ys) ↔ (Closed xs × Closed ys)
Closed-append xs ys = (
  λ h. (λ x m. h x (Memᴰ.append_left ys m), λ x m. h x (Memᴰ.append_right xs m)),
  λ h x m. elim (Memᴰ.append_cases xs m) [ inl n ↦ h.0 x n | inr n ↦ h.1 x n ],
)

pub Closed-map :
    {A : Type 0} (f : A → CandidateAction) (xs : List A)
    → Closed (map f xs) ↔ ((a : A) → Memᴰ a xs → is_unresolved_blocking (f a) ≡ false)
Closed-map f xs = (
  λ h a m. h (f a) ((mem-map f).1 (a, m, refl)),
  λ h x m. let r = (mem-map f).0 m in sym (ap is_unresolved_blocking r.2) ∙ h r.0 r.1,
)

-- `blocking && !resolved` is false exactly when what blocks is resolved.
pub blocked_test :
    (resolutions : List ResolutionRecord) (b : Bool) (target : String)
    → ((b && not (is_some (lookup target (resolved_by resolutions)))) ≡ false)
      ↔ (b ≡ true → IsResolved resolutions target)
blocked_test resolutions b target = (
  λ h e. (resolved_by_iff resolutions target).0 (ground arith),
  λ h. elim (Bool-cases b) [
    | inl e ↦ let r = (resolved_by_iff resolutions target).1 (h e) in ground arith
    | inr e ↦ rw e
  ],
)

pub double_negation : (b : Bool) → not b ≡ false → b ≡ true
double_negation b h = ground arith

-- The test at each kind of item.
module _ (resolved : List (String × ResolutionRecord)) where
  pub open-adjudicate_item :
      (c : Contradiction)
      → is_unresolved_blocking (adjudicate_item resolved c)
        ≡ (is_blocking_contradiction c && not (is_some (lookup c.id resolved)))
  unfolding adjudicate_item
  open-adjudicate_item c = open_work_item resolved _ _ (is_blocking_contradiction c) c.id _ _ _ _

  pub open-unblock_item :
      (r : EvidenceRecord)
      → is_unresolved_blocking (unblock_item resolved r)
        ≡ (true && not (is_some (lookup r.id resolved)))
  unfolding unblock_item
  open-unblock_item r = open_work_item resolved _ _ true r.id _ _ _ _

  pub open-verify_claim_item :
      (r : EvidenceRecord) → is_unresolved_blocking (verify_claim_item resolved r) ≡ false
  unfolding verify_claim_item
  open-verify_claim_item r = open_work_item resolved _ _ false r.id _ _ _ _

  pub open-re_task_item :
      (r : EvidenceRecord) → is_unresolved_blocking (re_task_item resolved r) ≡ false
  unfolding re_task_item
  open-re_task_item r = open_work_item resolved _ _ false r.id _ _ _ _
