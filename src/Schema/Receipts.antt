-- ===== src/Schema/Receipts.antt =====
-- receipts-compiler/src/schema.rs: execution receipts and the summaries of checks.
use agent_receipts.Prelude.{ℕ, String, Option, List}
use agent_receipts.Prelude.Int.{ℤ}
use agent_receipts.Schema.Float.{F64}

pub record ReceiptRecord : Type 0 where
  pub id : String
  pub label : Option String
  pub cmd : List String
  pub cwd : String
  pub exit_code : ℤ
  pub duration_ms : ℕ
  pub started_at : String
  pub ended_at : String
  pub stdout_hash : String
  pub stderr_hash : String
  pub stdout_tail : String
  pub stderr_tail : String
  pub tree_before : Option String
  pub tree_after : Option String
  pub lane : Option String
  pub agent_id : Option String
  pub writer : String
  pub prev_record_hash : String
  pub record_hash : String

pub record ReceiptEvent : Type 0 where
  pub receipt_id : String
  pub label : Option String
  pub integrity : String
  pub outcome : String
  pub exit_code : ℤ
  pub attempts_for_label : ℕ

pub record CheckHistory : Type 0 where
  pub check_id : String
  pub target_claims : List String
  pub first_result : String
  pub latest_result : String
  pub attempts : ℕ
  pub attempts_to_green : Option ℕ
  pub failure_signatures : List String
  pub transitions : List String
  pub flake_rate : F64
