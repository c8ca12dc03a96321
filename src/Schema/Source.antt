-- ===== src/Schema/Source.antt =====
-- receipts-compiler/src/schema.rs: a reference to a source, and the version labels.
use agent_receipts.Prelude.{String, Option}

pub record SourceRef : Type 0 where
  pub source_id : String
  pub path : String
  pub kind : String
  pub hash : String
  pub hash_alg : String
  pub hash_basis : Option String
  pub span : Option String
  pub observed_at : String
