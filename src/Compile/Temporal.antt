-- ===== src/Compile/Temporal.antt =====
-- compiler/run_dir.rs, `version_temporal_file_sources`: a file that was observed with several hashes
-- gets the hash into its source id.
use agent_receipts.Prelude.{
  Bool, not, ◌&&◌, String, List, [], ◌∷◌, ◌++◌, none, some, ◌==◌, starts_with, any, filter, map,
  once, collect, insert, lookup, unwrap_or, format, is_empty, contains, if◌then◌else◌, Result, ok,
  ◌>>=◌, ◌>>◌, ensure,
}
use agent_receipts.Schema.{SourceRef, EvidenceRecord, VerifierFinding}

-- The kind of the record, its id, and the id of the file.
pub data VariantError : Type 0 where
  declared_twice : String → String → String → VariantError

-- An id of a file with the algorithm and the hash of its content.
abbrev pub Variant : Type 0
Variant = String × String × String

abbrev pub variant_of : SourceRef → Variant
variant_of source = (source.source_id, source.hash_alg, source.hash)

abbrev pub same_variant : Variant → Variant → Bool
same_variant a b = a.1 == b.1 && a.2 == b.2

abbrev pub is_file_source : SourceRef → Bool
is_file_source source = source.kind == "file" && starts_with source.source_id "file:"

-- The loop over the file sources of a record, with the variants of the record so far.
unfoldable pub collect_variants :
    String → String → List (String × Variant) → List SourceRef → Result VariantError (List Variant)
collect_variants label record_id local [] = ok []
collect_variants label record_id local (source ∷ sources) =
    let rest =
      collect_variants label record_id (insert source.source_id (variant_of source) local)
        sources in
    let skipped = collect_variants label record_id local sources in
    let checked : Result VariantError (Unit {0}) = elim (lookup source.source_id local) [
      | none ↦ ok tt
      | some prior ↦
          ensure (same_variant prior (variant_of source))
            (declared_twice label record_id source.source_id)
    ] in
    if is_file_source source
    then (checked >> rest >>= λ variants. ok (variant_of source ∷ variants))
    else skipped

unfoldable pub collect_record_file_variants :
    String → String → List SourceRef → Result VariantError (List Variant)
unfolding collect_variants
collect_record_file_variants label record_id refs = collect_variants label record_id [] refs

-- The two loops that collect: one result for each record, in order.
unfoldable pub collect_all :
    {A : Type 0}
    → (A → Result VariantError (List Variant))
    → List A
    → Result VariantError (List Variant)
collect_all f [] = ok []
collect_all f (x ∷ xs) =
    let rest = collect_all f xs in f x >>= λ variants. rest >>= λ others. ok (variants ++ others)

-- The ids with two variants that differ.
unfoldable pub temporal_ids_of : List Variant → List String
temporal_ids_of variants =
    filter
      (λ id.
        any (λ a. a.0 == id && any (λ b. b.0 == id && not (same_variant a b)) variants) variants)
      (once [] (map (λ variant. variant.0) variants))

abbrev pub versioned_id : SourceRef → String
versioned_id source = format (source.source_id ∷ "@" ∷ source.hash_alg ∷ ":" ∷ source.hash ∷ [])

module _ (temporal_ids : List String) where
  abbrev pub is_temporal : SourceRef → Bool
  is_temporal source = source.kind == "file" && contains temporal_ids source.source_id

  -- `replacements`
  unfoldable pub replacements : List SourceRef → List (String × String)
  replacements refs =
      collect (map (λ source. (source.source_id, versioned_id source)) (filter is_temporal refs))

  unfoldable pub version_refs : List SourceRef → List SourceRef
  version_refs refs =
      map
        (λ source.
          if is_temporal source
          then record (source) { source_id = versioned_id source }
          else source)
        refs

  unfoldable pub version_ids : List SourceRef → List String → List String
  unfolding replacements
  version_ids refs ids = map (λ id. unwrap_or (lookup id (replacements refs)) id) ids

  unfoldable pub version_evidence : EvidenceRecord → EvidenceRecord
  version_evidence r = record (r) {
    source_ids = version_ids r.source_refs r.source_ids;
    source_refs = version_refs r.source_refs;
  }

  unfoldable pub version_finding : VerifierFinding → VerifierFinding
  version_finding finding = record (finding) {
    source_ids = version_ids finding.source_refs finding.source_ids;
    source_refs = version_refs finding.source_refs;
  }

abbrev pub variants_in :
    List EvidenceRecord → List VerifierFinding → Result VariantError (List Variant)
variants_in evidence findings =
    collect_all (λ r. collect_record_file_variants "evidence" r.id r.source_refs) evidence
    >>= λ first.
        collect_all (λ f. collect_record_file_variants "verifier_finding" f.id f.source_refs)
          findings
        >>= λ second. ok (first ++ second)

-- The evidence and the findings afterwards.
unfoldable pub version_temporal_file_sources :
    List EvidenceRecord
    → List VerifierFinding
    → Result VariantError (List EvidenceRecord × List VerifierFinding)
version_temporal_file_sources evidence findings = variants_in evidence findings >>= λ variants.
    let temporal_ids = temporal_ids_of variants in
    ok (
      if is_empty temporal_ids then (evidence, findings) else (
        map (version_evidence temporal_ids) evidence,
        map (version_finding temporal_ids) findings,
      ))
