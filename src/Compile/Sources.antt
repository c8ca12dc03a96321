-- ===== src/Compile/Sources.antt =====
-- compiler/run_dir.rs, `dedupe_sources_strict`: one source per id, and one hash.

use agent_receipts.Prelude.{
  Bool, ◌&&◌, String, List, [], ◌∷◌, none, some, ◌==◌, sort_by, text_le, Result, ok, ◌>>◌, ensure,
  insert, lookup, if◌then◌else◌,
}
use agent_receipts.Schema.{SourceRef}

-- The id, and the two hashes with their algorithms.
pub data SourceConflict : Type 0 where
  divergent_hash : String → String → String → String → String → SourceConflict

abbrev pub same_content : SourceRef → SourceRef → Bool
same_content prior source = prior.hash == source.hash && prior.hash_alg == source.hash_alg

unfoldable pub check_sources :
    List (String × SourceRef) → List SourceRef → Result SourceConflict (Unit {0})
check_sources seen [] = ok tt
check_sources seen (source ∷ sources) = elim (lookup source.source_id seen) [
  | some prior ↦
      ensure (same_content prior source)
        (divergent_hash source.source_id prior.hash prior.hash_alg source.hash source.hash_alg)
      >> check_sources seen sources
  | none ↦ check_sources (insert source.source_id source seen) sources
]

-- `dedup_by`: an item that equals the last one that was kept is dropped.
unfoldable pub dedup_after : SourceRef → List SourceRef → List SourceRef
dedup_after prior [] = []
dedup_after prior (source ∷ sources) =
    let dropped = dedup_after prior sources in
    let kept = source ∷ dedup_after source sources in
    if source.source_id == prior.source_id then dropped else kept

unfoldable pub dedup_sources : List SourceRef → List SourceRef
dedup_sources [] = []
dedup_sources (source ∷ sources) = source ∷ dedup_after source sources

-- The sources that are left in the vector.
unfoldable pub dedupe_sources_strict : List SourceRef → Result SourceConflict (List SourceRef)
unfolding check_sources dedup_sources dedup_after
dedupe_sources_strict sources =
    let sorted = sort_by (λ left right. text_le left.source_id right.source_id) sources in
    check_sources [] sorted >> ok (dedup_sources sorted)
