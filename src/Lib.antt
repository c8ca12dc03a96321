-- ===== src/Lib.antt =====
-- A model of the receipts compiler (receipts-compiler/), with the theorems that make it correct.
--
-- The compiler reads a run directory: evidence and findings that agents wrote, the journal of
-- execution receipts, the journal of check attempts and the journal of resolutions. It decides what
-- may be trusted, writes the packet for the next pass, and a strict gate says whether the run may be
-- released.
--
-- Which file models which part (paths below receipts-compiler/src):
--   Schema         schema.rs: the records, with the source's fields
--   Packet         compiler/evidence.rs and compiler/packets.rs: validate_packet_sources,
--                  build_next_pass_packet
--   Snapshots      compiler/snapshot.rs, and artifact_registry of compiler/artifacts.rs
--   Policy         compiler/trust.rs and compiler/promotion.rs
--   Checks         compiler/checks.rs: manifests, claim_binding, verify_attempt_receipts, the
--                  journal of attempts and build_check_histories
--   Envelope       compiler/crypto.rs: keys, signed envelopes, the signed head
--   Receipts       compiler/receipts.rs: the journal of execution receipts and its artifacts
--   Public         compiler/privacy.rs: the public projection; compiler/signals.rs: recurring failures
--   Resolutions    compiler/resolutions.rs: the hash-chained journal of adjudications
--   Conflicts      compiler/contradictions.rs: detect_auto_contradictions
--   Journal        what the journals share: fnv1a_hash of compiler/receipts.rs, the lock, the chain
--   Compile        compiler/run_dir.rs: receipt refutations, trusted facts, trust assessments,
--                  coverage, the worklist, the halt signals, the lane digests, the versioning
--                  of file sources, and the parts of compile_run_dir that compose them
--   Gate           compiler/gate.rs: run_gate, from what it reads to its report
--   Prelude        what the parts share: iterator methods, texts, results with early return, maps,
--                  a stable sort, integers
--   Tests          concrete runs
--
-- How code is modelled. A function of the source is a function here, with its guards in the order of
-- the source; `?` and `return Err` are the monad of Prelude/Fallible. A set that is only asked for
-- membership is the list it was collected from; a map is an association list in which the last
-- insertion wins. Counters of fixed width keep their wrap-around. A floating-point number is its bit
-- pattern, and the cast `as f32` is a parameter. Message texts are constructors or texts with the
-- values that the source prints. Recursion is structural; the only fuel is that of `decimal`, which
-- is the number to print and so never runs out, and the 200 tries for the lock of a journal, which
-- are the source's own. A journal file is the list of its lines, and in Resolutions also what stands
-- behind the last line end; a write that fails half-way is modelled there only. serde_json, toml,
-- BLAKE3 and Ed25519 are parameters, and so is what compute_binding finds in the work tree. Paths are
-- those of Unix.
--
-- Not modelled: reading, writing and walking the files of a run (their content is an argument),
-- the signed journal of compiler/signed_journal.rs, the statistics of compiler/calibration.rs, and
-- the parts that render text for a reader or parse a command line.
pub mod Prelude
pub mod Journal
pub mod Envelope
pub mod Receipts
pub mod Public
pub mod Schema
pub mod Packet
pub mod Policy
pub mod Snapshots
pub mod Checks
pub mod Resolutions
pub mod Compile
pub mod Conflicts
pub mod Gate
pub mod Tests
