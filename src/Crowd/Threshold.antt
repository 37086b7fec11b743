-- ===== src/Crowd/Threshold.antt =====
-- When a count of reports is an anomaly.
use voxellink_monitor.Common.{ℕ, zero, suc, ◌+◌, ◌-◌, ◌*◌, ◌/◌, ◌≤◌, ◌<◌, ◌≡◌, ◌↔◌, true, arith}
use voxellink_monitor.Crowd.{Average, evaluate}

-- The ceiling of a fraction is the least number above it.
ceil_le : (n d r : ℕ) → 0 < d → ((n + (d - 1)) / d ≤ r) ↔ (n ≤ r * d)
ceil_le n d r h = (λ p. grind arith, λ p. grind arith)

less_two : (r d : ℕ) → 2 ≤ r → (r - 2) * d + d * 2 ≡ r * d
less_two zero d h = absurd (omega arith)
less_two (suc zero) d h = absurd (omega arith)
less_two (suc (suc r)) d h = grind arith

-- A count is anomalous exactly when it reaches three reports and three times the baseline and two
-- more, at every baseline of at least one day.
pub evaluate-anomalous :
    (reports : ℕ) (b : Average)
    → 0 < b.days
    → ((evaluate reports b).anomalous ≡ true)
      ↔ ((3 ≤ reports) × (b.total * 3 + b.days * 2 ≤ reports * b.days))
unfolding evaluate
evaluate-anomalous reports b h =
    ground (arith, ceil_le (b.total * 3) b.days (reports - 2) h, less_two reports b.days)

-- More reports never take an anomaly back, whatever the baseline.
pub evaluate-anomalous_mono :
    (fewer more : ℕ) (b : Average)
    → fewer ≤ more
    → (evaluate fewer b).anomalous ≡ true
    → (evaluate more b).anomalous ≡ true
unfolding evaluate
evaluate-anomalous_mono fewer more b h anomaly = ground arith
