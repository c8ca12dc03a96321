-- ===== src/Schema/Float.antt =====
-- Rust's `f32` and `f64`, carried by their IEEE 754 bit patterns: the modelled code copies such
-- values and writes a few constants, and never computes with them except through parameters.
use agent_receipts.Prelude.{ℕ}

abbrev pub F32 : Type 0
F32 = ℕ

abbrev pub F64 : Type 0
F64 = ℕ
