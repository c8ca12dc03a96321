-- ===== src/Compile/Facts.antt =====
-- compiler/run_dir.rs, `facts_from_evidence`: what is promoted from the evidence to a trusted fact.
use mathlib.Core.List.{Memᴰ}
use mathlib.Core.Option
use agent_receipts.Prelude.{
  ◌≡◌, ◌↔◌, Bool, true, false, not, ◌&&◌, String, List, [], ◌∷◌, none, some, eq_iff, ◌==◌, filter,
  filter_map, flat_map, mem-filter, mem-filter_map, format, lookup, contains, is_empty,
  if◌then◌else◌, inl, inr, arith, refl, Option-cases, Bool-cases, mem-flat_map, contains_iff,
}
use agent_receipts.Schema.{F32, F64, EvidenceRecord, CompiledFact, Contradiction}
use agent_receipts.Checks.Types.{ClaimBinding}

abbrev pub non_fact_kinds : List String
non_fact_kinds =
    "objective" ∷ "subagent-session" ∷ "codex-synthesis" ∷ "unstructured" ∷ "blocker" ∷ []

-- The ids that some contradiction names: `contradicted` and `refuted` in the source.
unfoldable pub contradicted_ids : List Contradiction → List String
contradicted_ids contradictions = flat_map (λ c. c.conflicting_item_ids) contradictions

-- A check's latest applicable run passed: `attested` in the source.
unfoldable pub is_attested : List (String × ClaimBinding) → String → Bool
is_attested claim_bindings id = elim (lookup id claim_bindings) [
  | none ↦ false
  | some binding ↦ binding.applicability == "current" && binding.outcome == "passed"
]

-- 0.8 and 0.3 as `f32`.
abbrev objective_relevance_of_fact : F32
objective_relevance_of_fact = 0x3f4ccccd

abbrev novelty_gain_of_fact : F32
novelty_gain_of_fact = 0x3e99999a

-- `as_f32` is the cast `f64 as f32`.
module _ (as_f32 : F64 → F32) where
  unfoldable pub fact_of : EvidenceRecord → String → CompiledFact
  fact_of item attestation = record {
    id = format ("fact:" ∷ item.id ∷ []);
    statement = item.summary;
    reported_confidence = Option.map as_f32 item.reported_confidence;
    objective_relevance = objective_relevance_of_fact;
    novelty_gain = novelty_gain_of_fact;
    needs_raw_drilldown = false;
    source_ids = item.source_ids;
    attestation = some attestation;
  }

  -- The three filters, and the promotion of what passes them. `verifier_backed` is `false` in the
  -- source.
  unfoldable pub facts_from_evidence :
      List EvidenceRecord → List Contradiction → List (String × ClaimBinding) → List CompiledFact
  facts_from_evidence evidence contradictions claim_bindings =
      let contradicted = contradicted_ids contradictions in
      let verifier_backed = false in
      filter_map
        (λ item.
          if is_attested claim_bindings item.id
          then some (fact_of item "attested")
          else if verifier_backed
          then some (fact_of item "verifier")
          else none)
        (filter (λ item. not (contains contradicted item.id))
          (filter (λ item. is_empty item.provenance_warnings)
            (filter (λ item. not (contains non_fact_kinds item.kind)) evidence)))

-- Why a record may be promoted: a claim kind, clean provenance, no contradiction, and a check that
-- is current and passed.
pub record IsPromotable (contradictions : List Contradiction)
    (claim_bindings : List (String × ClaimBinding)) (item : EvidenceRecord) : Type 0 where
  pub claim_kind : ¬ (Memᴰ item.kind non_fact_kinds)
  pub no_warnings : item.provenance_warnings ≡ []
  pub uncontradicted :
      (c : Contradiction) → Memᴰ c contradictions → ¬ (Memᴰ item.id c.conflicting_item_ids)
  pub binding : ClaimBinding
  pub bound : lookup item.id claim_bindings ≡ some binding
  pub current : binding.applicability ≡ "current"
  pub passed : binding.outcome ≡ "passed"

not-contains_iff : (xs : List String) (a : String) → (not (contains xs a) ≡ true) ↔ (¬ (Memᴰ a xs))
not-contains_iff xs a = (
  λ h m. cc (h, (contains_iff xs a).1 m),
  λ h. elim (Bool-cases (contains xs a)) [
    | inl e ↦ absurd (h ((contains_iff xs a).0 e))
    | inr e ↦ rw e
  ],
)

pub is_attested_iff :
    (claim_bindings : List (String × ClaimBinding)) (id : String)
    → (is_attested claim_bindings id ≡ true) ↔ (
        (b : ClaimBinding) × (lookup id claim_bindings ≡ some b)
        × (b.applicability ≡ "current")
        × (b.outcome ≡ "passed"))
unfolding is_attested
is_attested_iff claim_bindings id = (
  λ h. elim (Option-cases (lookup id claim_bindings)) [
    | inl e ↦ absurd (ground arith)
    | inr k ↦ (
      k.0,
      k.1,
      ground (arith, eq_iff k.0.applicability "current"),
      ground (arith, eq_iff k.0.outcome "passed"),
    )
  ],
  λ h.
      let held = h.1 in
      ground (arith, eq_iff (h.0).applicability "current", eq_iff (h.0).outcome "passed"),
)

pub mem-contradicted_ids :
    (contradictions : List Contradiction) (id : String)
    → Memᴰ id (contradicted_ids contradictions)
      ↔ ((c : Contradiction) × Memᴰ c contradictions × Memᴰ id c.conflicting_item_ids)
unfolding contradicted_ids
mem-contradicted_ids contradictions id = mem-flat_map _

pub contradicted_iff :
    (contradictions : List Contradiction) (id : String)
    → (¬ (Memᴰ id (contradicted_ids contradictions)))
      ↔ ((c : Contradiction) → Memᴰ c contradictions → ¬ (Memᴰ id c.conflicting_item_ids))
unfolding contradicted_ids
contradicted_iff contradictions id = (
  λ h c m n. h ((mem-flat_map _).1 (c, m, n)),
  λ h m. let r = (mem-flat_map _).0 m in h r.0 r.1 r.2,
)

is_empty_iff {ℓ} : {A : Type ℓ} (xs : List A) → (is_empty xs ≡ true) ↔ (xs ≡ [])
is_empty_iff [] = (λ h. refl, λ h. refl)
is_empty_iff (x ∷ xs) = (λ h. cc, λ h. cc)

-- Soundness and completeness of the promotion: the trusted facts are those of the promotable
-- records, attested by their check, and no others.
pub facts_from_evidence_iff :
    (as_f32 : F64 → F32) (evidence : List EvidenceRecord) (contradictions : List Contradiction)
    (claim_bindings : List (String × ClaimBinding)) (fact : CompiledFact)
    → Memᴰ fact (facts_from_evidence as_f32 evidence contradictions claim_bindings) ↔ (
        (item : EvidenceRecord) × Memᴰ item evidence
        × IsPromotable contradictions claim_bindings item
        × (fact_of as_f32 item "attested" ≡ fact))
unfolding facts_from_evidence
facts_from_evidence_iff as_f32 evidence contradictions claim_bindings fact = (
  λ m.
      let a = (mem-filter_map _).0 m in
      let b = (mem-filter _).0 a.1 in
      let c = (mem-filter _).0 b.0 in
      let d = (mem-filter _).0 c.0 in
      let promoted : (is_attested claim_bindings a.0.id ≡ true)
          × (fact_of as_f32 a.0 "attested" ≡ fact) =
        ground arith in
      let e = (is_attested_iff claim_bindings a.0.id).0 promoted.0 in
      (
        a.0,
        d.0,
        record {
          claim_kind = (not-contains_iff non_fact_kinds a.0.kind).0 d.1;
          no_warnings = (is_empty_iff _).0 c.1;
          uncontradicted =
              (contradicted_iff contradictions a.0.id).0 ((not-contains_iff _ a.0.id).0 b.1);
          binding = e.0;
          bound = e.1;
          current = e.2;
          passed = e.3;
        },
        promoted.1,
      ),
  λ r.
      let p = r.2 in
      let item = r.0 in
      (mem-filter_map _).1 (
        item,
        (mem-filter _).1 (
          (mem-filter _).1 (
            (mem-filter _).1 (r.1, (not-contains_iff non_fact_kinds item.kind).1 p.claim_kind),
            (is_empty_iff item.provenance_warnings).1 p.no_warnings,
          ),
          (not-contains_iff _ item.id).1
              ((contradicted_iff contradictions item.id).1 p.uncontradicted),
        ),
        rw ((is_attested_iff claim_bindings item.id).1 (p.binding, p.bound, p.current, p.passed))
            (cc (r.3)),
      ),
)
