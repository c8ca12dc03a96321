-- ===== src/Snapshots.antt =====
-- receipts-compiler/src/compiler/snapshot.rs, with the registry of artifacts.rs: a snapshot names
-- only artifacts that it carries.
use mathlib.Core.List.{Memᴰ}
use agent_receipts.Prelude.{
  ◌≡◌, ◌↔◌, String, List, map, mem-map, Result, ok, ◌>>◌, ensure, for_each, for_each-ok_iff,
  for_each-ensure_iff, >>-eq-ok, >>-ok_iff, refl, contains, contains_iff,
}
use agent_receipts.Schema.{
  SourceRef, SnapshotInput, WorkerResult, StateDelta, Snapshot, receipts_schema_version,
}

-- The messages of `SnapshotValidationError`.
pub data SnapshotValidationError : Type 0 where
  unknown_input_artifact : String → String → SnapshotValidationError
  unknown_output_artifact : String → String → SnapshotValidationError

-- `artifact_registry`: the ids of the artifacts.
unfoldable pub artifact_registry : List SourceRef → List String
artifact_registry artifacts = map (λ a. a.source_id) artifacts

validate_snapshot_refs :
    List SnapshotInput → List WorkerResult → List String → Result SnapshotValidationError (Unit {0})
validate_snapshot_refs inputs worker_results registry =
    for_each
      (λ input.
        for_each
          (λ ref_id. ensure (contains registry ref_id) (unknown_input_artifact input.id ref_id))
          input.ref_ids)
      inputs
    >> for_each
        (λ result.
          for_each
            (λ output_id.
              ensure (contains registry output_id) (unknown_output_artifact result.id output_id))
            result.output_ids)
        worker_results

module _ (run_id pass_id branch_id created_at : String) where
  unfoldable pub build_snapshot :
      List SnapshotInput
      → List WorkerResult
      → List StateDelta
      → List SourceRef
      → Result SnapshotValidationError Snapshot
  unfolding validate_snapshot_refs artifact_registry
  build_snapshot inputs worker_results state_delta artifact_refs = do
    validate_snapshot_refs inputs worker_results (artifact_registry artifact_refs)
    ok (record {
      schema_version = receipts_schema_version;
      run_id = run_id;
      pass_id = pass_id;
      branch_id = branch_id;
      created_at = created_at;
      inputs = inputs;
      worker_results = worker_results;
      state_delta = state_delta;
      artifact_refs = artifact_refs;
    })

-- Every id that an input or a worker result names is the id of an artifact of the snapshot.
abbrev pub IsCarried : List SourceRef → String → Type 0
IsCarried artifacts a = (s : SourceRef) × Memᴰ s artifacts × (s.source_id ≡ a)

pub record IsClosed (inputs : List SnapshotInput) (results : List WorkerResult)
    (artifacts : List SourceRef) : Type 0 where
  pub inputs_known :
      (i : SnapshotInput) → Memᴰ i inputs → (a : String) → Memᴰ a i.ref_ids → IsCarried artifacts a
  pub results_known :
      (w : WorkerResult)
      → Memᴰ w results
      → (a : String) → Memᴰ a w.output_ids
      → IsCarried artifacts a

-- A nested loop of tests against the registry.
module _ {R : Type 0} (ids : R → List String) (e : R → String → SnapshotValidationError)
    (artifacts : List SourceRef) where
  refs_loop_iff :
      (xs : List R)
      → (for_each
            (λ r. for_each (λ a. ensure (contains (artifact_registry artifacts) a) (e r a)) (ids r))
            xs
          ≡ ok tt)
        ↔ ((r : R) → Memᴰ r xs → (a : String) → Memᴰ a (ids r) → IsCarried artifacts a)
  unfolding artifact_registry
  refs_loop_iff xs = (
    λ h r m a n. (mem-map (λ s. s.source_id)).0 (
        (contains_iff _ a).0
          ((for_each-ensure_iff _ (e r) (ids r)).0 ((for_each-ok_iff _ xs).0 h r m) a n)),
    λ h. (for_each-ok_iff _ xs).1 (λ r m.
        (for_each-ensure_iff _ (e r) (ids r)).1
          (λ a n. (contains_iff _ a).1 ((mem-map (λ s. s.source_id)).1 (h r m a n)))),
  )

validate_snapshot_refs_iff :
    (inputs : List SnapshotInput) (results : List WorkerResult) (artifacts : List SourceRef)
    → (validate_snapshot_refs inputs results (artifact_registry artifacts) ≡ ok tt)
      ↔ IsClosed inputs results artifacts
unfolding validate_snapshot_refs
validate_snapshot_refs_iff inputs results artifacts =
    let input_loop =
      refs_loop_iff {R = SnapshotInput} (λ i. i.ref_ids) (λ i. unknown_input_artifact i.id)
        artifacts inputs in
    let result_loop =
      refs_loop_iff {R = WorkerResult} (λ w. w.output_ids) (λ w. unknown_output_artifact w.id)
        artifacts results in
    (
      λ h.
          let parts = (>>-ok_iff _ _).0 h in
          record { inputs_known = input_loop.0 parts.0; results_known = result_loop.0 parts.1 },
      λ h. (>>-ok_iff _ _).1 (input_loop.1 h.inputs_known, result_loop.1 h.results_known),
    )

-- `build_snapshot` succeeds exactly on closed parts, and a snapshot that it returns keeps its parts.
pub build_snapshot_iff :
    (run_id pass_id branch_id created_at : String) (inputs : List SnapshotInput)
    (results : List WorkerResult) (deltas : List StateDelta) (artifacts : List SourceRef)
    → ((s : Snapshot) × (build_snapshot run_id pass_id branch_id created_at inputs results deltas
            artifacts
          ≡ ok s)
        × (s.inputs ≡ inputs)
        × (s.worker_results ≡ results)
        × (s.artifact_refs ≡ artifacts))
      ↔ IsClosed inputs results artifacts
unfolding build_snapshot
build_snapshot_iff run_id pass_id branch_id created_at inputs results deltas artifacts = (
  λ r.
      (validate_snapshot_refs_iff inputs results artifacts).0
        (>>-eq-ok (validate_snapshot_refs inputs results (artifact_registry artifacts)) _ r.1).0,
  λ h.
      let valid = (validate_snapshot_refs_iff inputs results artifacts).1 h in
      (stamped, rw valid, refl, refl, refl),
)
  where
    stamped : Snapshot
    stamped = record {
      schema_version = receipts_schema_version;
      run_id = run_id;
      pass_id = pass_id;
      branch_id = branch_id;
      created_at = created_at;
      inputs = inputs;
      worker_results = results;
      state_delta = deltas;
      artifact_refs = artifacts;
    }
