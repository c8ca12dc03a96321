-- ===== src/Compile/Versioned.antt =====
-- compiler/run_dir.rs, `version_temporal_file_sources`: only ids of files change.
use mathlib.Core.List.{Memᴰ}
use mathlib.Core.List.Memᴰ
use agent_receipts.Prelude.{
  ◌≡◌, refl, sym, ap, subst, ◌∙◌, ◌==◌, inl, inr, true, false, String, List, [], ◌∷◌, ◌++◌, and_iff,
  starts_with, lookup, insert, filter, map, contains, contains_iff, once_iff, mem-filter, mem-map,
  lookup-collect, mem_of_last_value, unwrap_or, is_empty, Bool-cases, Option-cases, Result, ok,
  >>=-eq-ok, >>-eq-ok, of_ok,
}
use agent_receipts.Schema.{SourceRef, EvidenceRecord, VerifierFinding}
use agent_receipts.Compile.Temporal.{
  VariantError, Variant, variant_of, is_file_source, collect_variants, collect_record_file_variants,
  collect_all, temporal_ids_of, versioned_id, is_temporal, replacements, version_ids,
  version_evidence, version_finding, variants_in, version_temporal_file_sources,
}

-- Every variant is one of a file.
abbrev AreFiles : List Variant → Type 0
AreFiles variants = (v : Variant) → Memᴰ v variants → starts_with v.0 "file:" ≡ true

AreFiles-append : (xs ys : List Variant) → AreFiles xs → AreFiles ys → AreFiles (xs ++ ys)
AreFiles-append xs ys h k = λ v m. elim (Memᴰ.append_cases xs m) [ inl n ↦ h v n | inr n ↦ k v n ]

collect_variants-AreFiles :
    (label record_id : String) (local : List (String × Variant)) (sources : List SourceRef)
    (variants : List Variant)
    → collect_variants label record_id local sources ≡ ok variants
    → AreFiles variants
unfolding collect_variants
collect_variants-AreFiles label record_id local [] variants h =
    subst AreFiles (of_ok h) (λ v m. elim m [ ])
collect_variants-AreFiles label record_id local (x ∷ xs) variants h =
    elim (Bool-cases (is_file_source x)) [
      | inl e ↦
          let p = >>=-eq-ok _ _ (rw e at h) in
          let q = >>-eq-ok _ _ p.1 in
          let rest =
            collect_variants-AreFiles label record_id (insert x.source_id (variant_of x) local) xs
              p.0 q.1 in
          subst AreFiles (of_ok p.2) (λ v m. elim (Memᴰ.cases_cons m) [
            | inl s ↦ ap (λ (z : Variant). starts_with z.0 "file:") s ∙ ((and_iff _ _).0 e).1
            | inr n ↦ rest v n
          ])
      | inr e ↦ collect_variants-AreFiles label record_id local xs variants (rw e at h)
    ]

collect_all-AreFiles :
    {A : Type 0} (f : A → Result VariantError (List Variant)) (xs : List A)
    (variants : List Variant)
    → ((x : A) (vs : List Variant) → f x ≡ ok vs → AreFiles vs)
    → collect_all f xs ≡ ok variants
    → AreFiles variants
unfolding collect_all
collect_all-AreFiles f [] variants each h = subst AreFiles (of_ok h) (λ v m. elim m [ ])
collect_all-AreFiles f (x ∷ xs) variants each h =
    let p = >>=-eq-ok (f x) _ h in
    let q = >>=-eq-ok (collect_all f xs) _ p.2 in
    subst AreFiles (of_ok q.2)
      (AreFiles-append p.0 q.0 (each x p.0 p.1) (collect_all-AreFiles f xs q.0 each q.1))

variants_in-AreFiles :
    (evidence : List EvidenceRecord) (findings : List VerifierFinding) (variants : List Variant)
    → variants_in evidence findings ≡ ok variants
    → AreFiles variants
unfolding collect_record_file_variants
variants_in-AreFiles evidence findings variants h =
    let p = >>=-eq-ok (collect_all _ evidence) _ h in
    let q = >>=-eq-ok (collect_all _ findings) _ p.2 in
    subst AreFiles (of_ok q.2) (
      AreFiles-append p.0 q.0
        (collect_all-AreFiles _ evidence p.0
          (λ r vs e. collect_variants-AreFiles "evidence" r.id [] r.source_refs vs e) p.1)
        (collect_all-AreFiles _ findings q.0
          (λ f vs e. collect_variants-AreFiles "verifier_finding" f.id [] f.source_refs vs e) q.1))

temporal_ids-file :
    (variants : List Variant) (id : String)
    → AreFiles variants
    → Memᴰ id (temporal_ids_of variants)
    → starts_with id "file:" ≡ true
unfolding temporal_ids_of
temporal_ids-file variants id files m =
    let k = (once_iff [] _ id).0 ((mem-filter _).0 m).0 in
    let v = (mem-map (λ (variant : Variant). variant.0)).0 k.0 in
    sym (ap (λ z. starts_with z "file:") v.2) ∙ files v.0 v.1

abbrev pairs_of : List String → List SourceRef → List (String × String)
pairs_of temporal_ids refs =
    map (λ source. (source.source_id, versioned_id source)) (filter (is_temporal temporal_ids) refs)

-- An id that is not a file's is not replaced.
mem-version_ids :
    (temporal_ids : List String) (refs : List SourceRef) (ids : List String) (id : String)
    → ((t : String) → Memᴰ t temporal_ids → starts_with t "file:" ≡ true)
    → starts_with id "file:" ≡ false
    → Memᴰ id ids
    → Memᴰ id (version_ids temporal_ids refs ids)
unfolding version_ids replacements
mem-version_ids temporal_ids refs ids id files other m =
    (mem-map (λ z. unwrap_or (lookup z (replacements temporal_ids refs)) z)).1 (id, m, same)
  where
    same : unwrap_or (lookup id (replacements temporal_ids refs)) id ≡ id
    same = elim (Option-cases (lookup id (replacements temporal_ids refs))) [
      | inl e ↦ rw e refl
      | inr r ↦
          let k =
            mem_of_last_value id (pairs_of temporal_ids refs)
              (sym (lookup-collect id (pairs_of temporal_ids refs)) ∙ r.1) in
          let s = (mem-map (λ source. (source.source_id, versioned_id source))).0 k in
          let t =
            (and_iff (s.0.kind == "file") (contains temporal_ids s.0.source_id)).0
              ((mem-filter (is_temporal temporal_ids) {xs = refs}).0 s.1).1 in
          let file = files s.0.source_id ((contains_iff temporal_ids s.0.source_id).0 t.1) in
          absurd (cc (other, file, ap (λ (p : String × String). p.0) s.2))
    ]

-- A finding of the run is found again among the versioned ones, with its status and with every id
-- it cites that is not a file's.
pub version_temporal-kept :
    (evidence : List EvidenceRecord) (findings : List VerifierFinding)
    (versioned : List EvidenceRecord × List VerifierFinding) (f : VerifierFinding) (id : String)
    → version_temporal_file_sources evidence findings ≡ ok versioned
    → Memᴰ f findings
    → Memᴰ id f.source_ids
    → starts_with id "file:" ≡ false
    → (g : VerifierFinding) × Memᴰ g versioned.1 × (g.status ≡ f.status) × Memᴰ id g.source_ids
unfolding version_temporal_file_sources version_finding
version_temporal-kept evidence findings versioned f id h m cited other =
    let p = >>=-eq-ok (variants_in evidence findings) _ h in
    let files : (t : String) → Memᴰ t (temporal_ids_of p.0) → starts_with t "file:" ≡ true =
      λ t n. temporal_ids-file p.0 t (variants_in-AreFiles evidence findings p.0 p.1) n in
    elim (Bool-cases (is_empty (temporal_ids_of p.0))) [
      | inl e ↦
          let same : (evidence, findings) ≡ versioned = of_ok (rw e at p.2) in
          (
            f,
            subst (λ (z : List EvidenceRecord × List VerifierFinding). Memᴰ f z.1) same m,
            refl,
            cited,
          )
      | inr e ↦
          let same : (
            map (version_evidence (temporal_ids_of p.0)) evidence,
            map (version_finding (temporal_ids_of p.0)) findings,
          )
              ≡ versioned =
            of_ok (rw e at p.2) in
          (
            version_finding (temporal_ids_of p.0) f,
            subst
                (λ (z : List EvidenceRecord × List VerifierFinding).
                  Memᴰ (version_finding (temporal_ids_of p.0) f) z.1)
                same ((mem-map (version_finding (temporal_ids_of p.0))).1 (f, m, refl)),
            refl,
            mem-version_ids (temporal_ids_of p.0) f.source_refs f.source_ids id files other cited,
          )
    ]
