-- ===== src/Gate/Run.antt =====
-- compiler/gate.rs, `run_gate`: what it reads, and the errors that it collects, in order.

use agent_receipts.Prelude.{
  ℕ, ◌+◌, Bool, false, not, ◌&&◌, ◌||◌, String, List, [], ◌∷◌, ◌++◌, map, Option, none, some, ◌==◌,
  starts_with, any, filter, filter_map, flat_map, find, is_blank, is_empty, is_some_eq, length, leb,
  ltb, parse_usize, unwrap_or, if◌then◌else◌,
}
use agent_receipts.Schema.{
  F32, SourceRef, EvidenceRecord, VerifierFinding, Contradiction, CandidateAction, NextPassPacket,
}
use agent_receipts.Compile.Halt.{dedupe_source_ids, is_unresolved_blocking}

-- What `run_gate` reads after it has compiled the run: the manifest's pass, the packet, the two
-- journals, the files below `raw/subagents`, the file names below `raw`, and the variable
-- `RECEIPTS_MIN_AGENT_COVERAGE`.
pub record GateInputs : Type 0 where
  pub run_dir : String
  pub pass_id : String
  pub packet : NextPassPacket
  pub evidence : List EvidenceRecord
  pub findings : List VerifierFinding
  pub raw_subagent_files : List String
  pub raw_file_names : List String
  pub min_agent_coverage : Option String

-- One constructor for each message.
pub data GateError : Type 0 where
  pass_mismatch : String → String → GateError
  first_pass only_objective_evidence : GateError
  evidence_lacks_sources finding_lacks_sources : String → GateError
  missing_semantic_files : List String → GateError
  no_raw_subagents no_sessions raw_not_compiled : GateError
  session_without_identity session_without_raw : String → GateError
  agent_coverage : ℕ → ℕ → GateError
  no_synthesis : GateError
  non_passing : List String → GateError
  refuted_by_receipt : String → GateError
  not_ready : GateError
  unresolved_blocking : String → String → String → GateError

abbrev pub error_if : Bool → GateError → List GateError
error_if b e = if b then e ∷ [] else []

unfoldable pub semantic_kind_requires_file : String → Bool
semantic_kind_requires_file kind =
    kind == "code-change" || kind == "root-cause" || kind == "test-change"

-- A file reference whose hash was computed from its bytes.
unfoldable pub is_content_file : SourceRef → Bool
is_content_file source =
    source.kind == "file"
    && is_some_eq source.hash_basis "content"
    && (source.hash_alg == "fnv1a-64" || source.hash_alg == "blake3-256")

unfoldable pub lacks_semantic_file : EvidenceRecord → Bool
unfolding semantic_kind_requires_file is_content_file
lacks_semantic_file record_ =
    semantic_kind_requires_file record_.kind && not (any is_content_file record_.source_refs)

abbrev pub is_raw_subagent : String → Bool
is_raw_subagent source_id = starts_with source_id "raw:subagents/"

unfoldable pub is_session : EvidenceRecord → Bool
is_session record_ = record_.kind == "subagent-session"

unfoldable pub lacks_identity : EvidenceRecord → Bool
lacks_identity session =
    is_blank (unwrap_or session.agent_id "") || is_blank (unwrap_or session.lane "")

unfoldable pub session_errors : EvidenceRecord → List GateError
unfolding lacks_identity
session_errors session =
    error_if (lacks_identity session) (session_without_identity session.id)
    ++ error_if (not (any is_raw_subagent session.source_ids)) (session_without_raw session.id)

unfoldable pub min_agents : Option String → ℕ
min_agents var = elim var [
  | none ↦ 3
  | some value ↦ elim (parse_usize value) [ none ↦ 3 | some n ↦ if ltb 0 n then n else 3 ]
]

-- The records that count towards agent coverage.
unfoldable pub is_agent_record : EvidenceRecord → Bool
is_agent_record record_ =
    not (record_.id == "ev-objective")
    && not (starts_with record_.id "ev-subagent-session-")
    && not (record_.kind == "unstructured" || record_.kind == "receipt" || record_.kind == "work")

-- The distinct agent ids: a `BTreeSet` is counted, so the order does not matter.
unfoldable pub agents : List EvidenceRecord → List String
agents evidence = dedupe_source_ids (
    filter (λ agent. not (is_blank agent))
      (filter_map (λ record_. record_.agent_id) (filter is_agent_record evidence)))

unfoldable pub readiness_escape : NextPassPacket → List VerifierFinding → Bool
readiness_escape packet [] = false
readiness_escape packet (finding ∷ []) =
    packet.pass_id == "pass-0001" && finding.id == "vf-codex-synthesis-pending"
readiness_escape packet (finding ∷ next ∷ rest) = false

abbrev pub is_receipt_refutation : Contradiction → Bool
is_receipt_refutation contradiction = starts_with contradiction.id "con:receipt:"

abbrev pub blocking_error : CandidateAction → GateError
blocking_error item = unresolved_blocking (unwrap_or item.category "?") item.id item.title

module _ (inputs : GateInputs) where
  open inputs use {packet, evidence, findings}

  -- The manifest, the pass and the two journals.
  unfoldable pub journal_errors : List GateError
  journal_errors =
      error_if (not (inputs.pass_id == packet.pass_id))
        (pass_mismatch inputs.pass_id packet.pass_id)
      ++ (error_if (inputs.pass_id == "pass-0001") first_pass
          ++ (error_if (leb (length evidence) 1) only_objective_evidence
              ++ (elim (find (λ r. is_empty r.source_ids) evidence) [
                | none ↦ []
                | some r ↦ evidence_lacks_sources r.id ∷ []
              ]
                  ++ (elim (find (λ f. is_empty f.source_ids) findings) [
                    | none ↦ []
                    | some f ↦ finding_lacks_sources f.id ∷ []
                  ]
                      ++ (let missing = filter lacks_semantic_file evidence in
                          error_if (not (is_empty missing))
                            (missing_semantic_files (map (λ r. r.id) missing)))))))

  -- The quarantined subagent output and its sessions.
  unfoldable pub session_section_errors : List GateError
  session_section_errors =
      let sessions = filter is_session evidence in
      error_if (is_empty inputs.raw_subagent_files) no_raw_subagents
      ++ (error_if (is_empty sessions) no_sessions
          ++ (error_if
                (not (is_empty inputs.raw_subagent_files)
                  && not (any is_raw_subagent (map (λ s. s.source_id) packet.sources)))
                raw_not_compiled
              ++ flat_map session_errors sessions))

  -- Agent coverage and the synthesis.
  unfoldable pub coverage_errors : List GateError
  coverage_errors =
      error_if
        (not (readiness_escape packet findings)
          && ltb (length (agents evidence)) (min_agents inputs.min_agent_coverage))
        (agent_coverage (length (agents evidence)) (min_agents inputs.min_agent_coverage))
      ++ error_if
          (not (any (λ r. r.kind == "codex-synthesis") evidence)
            || not (any (λ name. starts_with name "codex-synthesis-") inputs.raw_file_names))
          no_synthesis

  -- The verdicts: findings, refutations, halt signals and the worklist.
  unfoldable pub verdict_errors : List GateError
  verdict_errors =
      let failing = filter (λ f. not (f.status == "passed")) findings in
      error_if (not (is_empty failing)) (non_passing (map (λ f. f.id) failing))
      ++ (map (λ c. refuted_by_receipt c.summary)
            (filter is_receipt_refutation packet.contradictions)
          ++ (error_if (not (any (λ s. s.kind == "ready-to-halt") packet.halt_signals)) not_ready
              ++ map blocking_error (filter is_unresolved_blocking packet.candidate_actions)))

  unfoldable pub gate_errors : List GateError
  unfolding journal_errors session_section_errors coverage_errors verdict_errors
  gate_errors = journal_errors ++ (session_section_errors ++ (coverage_errors ++ verdict_errors))

pub record GateFindingStatus : Type 0 where
  pub id : String
  pub status : String
  pub verifier_score : F32

pub record StrictGateReport : Type 0 where
  pub ok : Bool
  pub run_dir : String
  pub pass_id : String
  pub packet_pass_id : String
  pub evidence_count : ℕ
  pub verifier_findings : List GateFindingStatus
  pub halt_kinds : List String
  pub candidate_actions : ℕ
  pub errors : List GateError
  pub warns_of_sources : Bool

-- `run_gate` from what it reads to its report. The one warning of the source is a flag here.
unfoldable pub run_gate : GateInputs → StrictGateReport
run_gate inputs = record {
  ok = is_empty (gate_errors inputs);
  run_dir = inputs.run_dir;
  pass_id = inputs.pass_id;
  packet_pass_id = packet.pass_id;
  evidence_count = length evidence;
  verifier_findings = map status_of findings;
  halt_kinds = map (λ s. s.kind) packet.halt_signals;
  candidate_actions = length packet.candidate_actions;
  errors = gate_errors inputs;
  warns_of_sources = ltb (length packet.sources) (length evidence + length findings);
}
  where
    open inputs use {packet, evidence, findings}

    status_of : VerifierFinding → GateFindingStatus
    status_of f = record { id = f.id; status = f.status; verifier_score = f.verifier_score }
