-- ===== src/Gate/Release.antt =====
-- compiler/gate.rs: when `run_gate` lets a run through.
use agent_receipts.Prelude.{
  ◌≡◌, refl, ◌∙◌, ◌≢◌, ◌↔◌, true, false, List, [], ◌∷◌, eq_iff, ◌==◌, starts_with,
}
use agent_receipts.Schema.{EvidenceRecord, VerifierFinding, NextPassPacket}
use agent_receipts.Gate.Run.{GateInputs, readiness_escape, coverage_errors, gate_errors, run_gate}
use agent_receipts.Gate.Conditions.{↔-trans, IsClear, append_iff, differ_iff, any_iff}
use agent_receipts.Gate.Releasable.{JournalsAreSourced, IsCovered, IsReleasable}
use agent_receipts.Gate.Sections.{journals_iff, sessions_iff, coverage_iff, verdicts_iff}

-- The escape is for the first pass only.
no_escape :
    (packet : NextPassPacket) (findings : List VerifierFinding)
    → packet.pass_id ≢ "pass-0001"
    → readiness_escape packet findings ≡ false
unfolding readiness_escape
no_escape packet [] n = refl
no_escape packet (f ∷ []) n = rw ((differ_iff packet.pass_id "pass-0001").1 n)
no_escape packet (f ∷ g ∷ rest) n = refl

coverage_section_iff :
    (i : GateInputs) → JournalsAreSourced i → IsClear (coverage_errors i) ↔ IsCovered i
coverage_section_iff i j = ↔-trans (coverage_iff i) (
  λ p.
      let r = (any_iff (λ (r : EvidenceRecord). r.kind == "codex-synthesis") i.evidence).0 p.1.0 in
      record {
        enough_agents =
            p.0 (no_escape i.packet i.findings (λ e. j.was_promoted (j.pass_agrees ∙ e)));
        has_synthesis = (r.0, r.1, (eq_iff r.0.kind "codex-synthesis").0 r.2);
        has_raw_synthesis =
            (any_iff (λ name. starts_with name "codex-synthesis-") i.raw_file_names).0 p.1.1;
      },
  λ p. (
    λ e. p.enough_agents,
    (
      (any_iff (λ (r : EvidenceRecord). r.kind == "codex-synthesis") i.evidence).1 (
        p.has_synthesis.0,
        p.has_synthesis.1,
        (eq_iff p.has_synthesis.0.kind "codex-synthesis").1 p.has_synthesis.2,
      ),
      (any_iff (λ name. starts_with name "codex-synthesis-") i.raw_file_names).1
          p.has_raw_synthesis,
    ),
  ),
)

pub run_gate-ok_iff : (i : GateInputs) → ((run_gate i).ok ≡ true) ↔ IsReleasable i
unfolding run_gate gate_errors
run_gate-ok_iff i =
    ↔-trans
      (append_iff _ _ (journals_iff i)
        (append_iff _ _ (sessions_iff i) (append_iff _ _ (λ h. h, λ h. h) (verdicts_iff i))))
      (
        λ p. record {
          journals = p.0;
          sessions = p.1.0;
          coverage = (coverage_section_iff i p.0).0 p.1.1.0;
          verdicts = p.1.1.1;
        },
        λ p. (
          p.journals,
          (p.sessions, ((coverage_section_iff i p.journals).1 p.coverage, p.verdicts)),
        ),
      )
