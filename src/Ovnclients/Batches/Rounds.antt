-- ===== src/Ovnclients/Batches/Rounds.antt =====
-- The arithmetic of `flush_count`: how many flushes there are for so many items.
use native.Mathlib.Nat.{mod-eq_of_lt, add-mod_right}
use ovn_scale_test.Prelude.{ℕ, suc, ◌+◌, ◌-◌, ◌*◌, ◌/◌, ◌%◌, ◌≤◌, ◌<◌, false, ◌≡◌, ◌≢◌, arith, ltb}

pub not_due : (fc : ℕ) → 1 < fc → ltb (fc - 1) 1 ≡ false
not_due fc h = ground arith

pub draws_regroup : (d used n : ℕ) → d + used + used * n ≡ d + used * suc n
draws_regroup d used n = omega arith

pub regroup : (batch fc n : ℕ) → 1 < fc → suc n + batch - fc ≡ n + batch - (fc - 1)
regroup batch fc n h = omega arith

pub count_nil : (batch fc : ℕ) → 0 < fc → fc ≤ batch → (0 + batch - fc) % batch ≡ 0 → fc ≡ batch
count_nil batch fc h k m = grind (arith, mod-eq_of_lt)

pub mod_flush :
    (batch n : ℕ) → 1 ≤ batch → (n + batch - batch) % batch ≡ 0 → (suc n + batch - 1) % batch ≡ 0
mod_flush batch n h m = grind (arith, add-mod_right)

pub mod_unflush :
    (batch n : ℕ) → 1 ≤ batch → (suc n + batch - 1) % batch ≡ 0 → (n + batch - batch) % batch ≡ 0
mod_unflush batch n h m = grind (arith, add-mod_right)

-- `n / batch`, rounded up.
pub ceil_exact :
    (batch n : ℕ)
    → 0 < batch
    → (n + batch - batch) % batch ≡ 0
    → (n + batch - batch) / batch ≡ (n + batch - 1) / batch
ceil_exact batch n h m = grind arith

pub ceil_more :
    (batch n : ℕ)
    → 0 < batch
    → (n + batch - batch) % batch ≢ 0
    → (n + batch - batch) / batch + 1 ≡ (n + batch - 1) / batch
ceil_more batch n h m = grind arith

pub count_zero : (batch fc : ℕ) → 0 < fc → fc ≤ batch → 0 ≡ (0 + batch - fc) / batch
count_zero batch fc h k = grind arith

pub count_flush :
    (batch n : ℕ) → 1 ≤ batch → suc ((n + batch - batch) / batch) ≡ (suc n + batch - 1) / batch
count_flush batch n h = grind arith
