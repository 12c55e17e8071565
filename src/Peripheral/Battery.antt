-- ===== src/Peripheral/Battery.antt =====
-- The levels that the battery reports.
use bluetooth_le.Prelude.{ℕ, zero, suc, ◌-◌, ◌%◌, ◌≤◌, ◌≡◌, refl, arith}
use bluetooth_le.Peripheral.{get_battery_level}

-- The static variable after `n` calls, from its initialiser.
unfoldable pub level_after : ℕ → ℕ
unfolding get_battery_level
level_after zero = 100
level_after (suc n) = get_battery_level (level_after n)

-- The answer counts down from 99 to 10, is 100 after that, and begins again: after `n` calls in all, of
-- the loop or of clients that read, the level is 100 less the rest of `n` by 91. So it is between 10 and
-- 100 and never wraps around.
pub level_after-cycle :
    (n : ℕ) → (level_after n ≡ 100 - n % 91) × (10 ≤ level_after n) × (level_after n ≤ 100)
unfolding level_after get_battery_level
level_after-cycle zero = (refl, omega arith, omega arith)
level_after-cycle (suc n) =
    let (e, low, high) = level_after-cycle n in (ground arith, ground arith, ground arith)
