-- ===== src/Compile.antt =====
-- receipts-compiler/src/compiler/run_dir.rs: what `compile_run_dir` concludes from the evidence, the
-- findings, the receipts, the check attempts and the resolutions of a run.
pub mod Temporal
pub mod Versioned
pub mod Latest
pub mod Refutations
pub mod Facts
pub mod Assess
pub mod Status
pub mod Sources
pub mod Firsts
pub mod Deduped
pub mod Contradictions
pub mod Claims
pub mod Coverage
pub mod Lanes
pub mod Skipped
pub mod Worklist
pub mod Halt
pub mod Settled
pub mod Ready
