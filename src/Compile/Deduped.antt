-- ===== src/Compile/Deduped.antt =====
-- compiler/run_dir.rs: what `dedupe_sources_strict` keeps, and when it fails.
use mathlib.Core.List.{Memᴰ}
use mathlib.Core.List.Memᴰ
use agent_receipts.Prelude.{◌≡◌, String, List, none, some, ◌==◌, find, lookup}
use agent_receipts.Schema.{SourceRef}
use agent_receipts.Compile.Firsts.{HaveOneEach}

-- Two sources agree on their content.
abbrev pub HaveOneHash : SourceRef → SourceRef → Type 0
HaveOneHash a b = (a.hash ≡ b.hash) × (a.hash_alg ≡ b.hash_alg)

-- A hash for each id that all the sources have, those that were seen first.
abbrev IsConsistent : List (String × SourceRef) → List SourceRef → Type 0
IsConsistent seen sources =
    (hash_of : String → String × String) × ((id : String) (p : SourceRef)
      → lookup id seen ≡ some p
      → hash_of id ≡ (p.hash, p.hash_alg))
    × ((s : SourceRef) → Memᴰ s sources → hash_of s.source_id ≡ (s.hash, s.hash_alg))

hash_in : List (String × SourceRef) → String → String × String
hash_in seen id = elim (lookup id seen) [ none ↦ ("", "") | some p ↦ (p.hash, p.hash_alg) ]

-- Some assignment of a hash and an algorithm to ids fits every source.
abbrev pub HaveHashes : List SourceRef → Type 0
HaveHashes sources =
    (hash_of : String → String × String) × ((s : SourceRef)
      → Memᴰ s sources
      → hash_of s.source_id ≡ (s.hash, s.hash_alg))

-- The kept sources are among the sources, each of another id, and stand for each of them: with its
-- id and its hash. The one that is kept of an id is the first of the sources with it.
pub record IsDeduped (sources kept : List SourceRef) : Type 0 where
  pub among : (s : SourceRef) → Memᴰ s kept → Memᴰ s sources
  pub distinct : HaveOneEach kept
  pub first_wins :
      (id : String) → find (λ s. s.source_id == id) kept ≡ find (λ s. s.source_id == id) sources
  pub stands_for :
      (s : SourceRef)
      → Memᴰ s sources
      → (k : SourceRef) × Memᴰ k kept × (k.source_id ≡ s.source_id) × HaveOneHash k s
