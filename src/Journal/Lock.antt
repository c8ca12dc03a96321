-- ===== src/Journal/Lock.antt =====
-- The advisory lock of the journals: `create_new` is tried 200 times.
use agent_receipts.Prelude.{ℕ, zero, suc, Bool, false, ◌||◌}

-- `create_new` says whether a try, counted from 0, finds no lock file.
try_lock : (ℕ → Bool) → ℕ → ℕ → Bool
try_lock create_new i zero = false
try_lock create_new i (suc n) = create_new i || try_lock create_new (suc i) n

unfoldable pub acquire : (ℕ → Bool) → Bool
unfolding try_lock
acquire create_new = try_lock create_new 0 200
