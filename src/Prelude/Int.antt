-- ===== src/Prelude/Int.antt =====
-- Signed machine integers (`i64`), over the native numbers.
use Prim.Native.Nat.{ℕ, suc}
use Prim.Native.String.{String}
use mathlib.Core.List.{[], ◌∷◌}
use agent_receipts.Prelude.Text.{format, decimal}
use mathlib.Core.Bool.{Bool, false}
use agent_receipts.Prelude.Tests.{nat_eq}

-- `negsuc n` is -(n + 1).
pub data ℤ : Type 0 where
  pos : ℕ → ℤ
  negsuc : ℕ → ℤ

abbrev pub is_zero : ℤ → Bool
is_zero (pos n) = nat_eq n 0
is_zero (negsuc n) = false

-- `format!("{n}")`
unfoldable pub decimal_i64 : ℤ → String
decimal_i64 (pos n) = decimal n
decimal_i64 (negsuc n) = format ("-" ∷ decimal (suc n) ∷ [])
