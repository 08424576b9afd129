-- ===== src/AutoReturn/Hold.antt =====
-- The holding times of core/auto_return.py in src/dogdb, and what is due at a tick.
use dogdb.Prelude.{ℕ, ◌%◌, ◌≤◌, ◌<◌, String, arith}
use dogdb.Platform.{Platform, derived_number}
use dogdb.AutoReturn.{AutoReturnConfig, hold, span}

mod_lt : (a b : ℕ) → 0 < b → a % b < b
mod_lt a b h = omega arith

-- A treasure is held for at least `min_operations` and at most `max_operations`.
pub hold-bounds :
    (p : Platform) (c : AutoReturnConfig) (key : String)
    → c.min_operations ≤ c.max_operations
    → (c.min_operations ≤ hold p c key) × (hold p c key ≤ c.max_operations)
unfolding hold
hold-bounds p c key h =
    (omega arith, omega (arith, mod_lt (derived_number p key "hold:RETURN") (span c) (omega arith)))
