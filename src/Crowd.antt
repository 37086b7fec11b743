-- ===== src/Crowd.antt =====
-- internal/crowd/crowd.go: the verdict on a count of player reports.
-- The baseline, a float64 average of counts, is the exact fraction `total / days`.
pub mod Threshold
use voxellink_monitor.Common.{ℕ, ◌+◌, ◌*◌, ◌/◌, ◌-◌, Bool, ltb, leb, if◌then◌else◌}
use voxellink_monitor.Domain.{CrowdSignal}

pub record Average : Type 0 where
  pub total : ℕ
  pub days : ℕ

-- int(math.Ceil(baseline*3)) + 2
abbrev pub ceil_thrice : Average → ℕ
ceil_thrice b = (b.total * 3 + (b.days - 1)) / b.days

-- int(math.Round(baseline)): halves go up
abbrev pub round : Average → ℕ
round b = (b.total * 2 + b.days) / (b.days * 2)

abbrev threshold_of : Average → ℕ
threshold_of baseline =
    let threshold = ceil_thrice baseline + 2 in if ltb threshold 3 then 3 else threshold

unfoldable pub evaluate : ℕ → Average → CrowdSignal
evaluate reports baseline = record {
  reports = reports;
  baseline = round baseline;
  threshold = threshold_of baseline;
  anomalous = leb (threshold_of baseline) reports;
}
