-- ===== src/Safety/Severities.antt =====
-- What `disk_severity` of backend/app/safety.py makes of its thresholds.
use home_ai_agent.Base.{ℕ, ◌≤◌, ◌≡◌, ◌↔◌, true, false, arith}
use home_ai_agent.Json.Number.{ℤ, pos, negsuc}
use home_ai_agent.Safety.{less, Severity, critical, high, warning, normal, disk_severity}

-- how bad a severity is
abbrev pub rank : Severity → ℕ
rank normal = 0
rank warning = 1
rank high = 2
rank critical = 3

-- `b ≤ a < p`, and `b ≤ a ≤ p`
above_lower : (b a p : ℤ) → less a b ≡ false → less a p ≡ true → less p b ≡ false
above_lower (pos b) (pos a) (pos p) h g = ground arith
above_lower (pos b) (pos a) (negsuc p) h g = ground arith
above_lower (pos b) (negsuc a) p h g = ground arith
above_lower (negsuc b) (pos a) (pos p) h g = ground arith
above_lower (negsuc b) (pos a) (negsuc p) h g = ground arith
above_lower (negsuc b) (negsuc a) (pos p) h g = ground arith
above_lower (negsuc b) (negsuc a) (negsuc p) h g = ground arith

at_least_lower : (b a p : ℤ) → less a b ≡ false → less p a ≡ false → less p b ≡ false
at_least_lower (pos b) (pos a) (pos p) h g = ground arith
at_least_lower (pos b) (pos a) (negsuc p) h g = ground arith
at_least_lower (pos b) (negsuc a) p h g = ground arith
at_least_lower (negsuc b) (pos a) (pos p) h g = ground arith
at_least_lower (negsuc b) (pos a) (negsuc p) h g = ground arith
at_least_lower (negsuc b) (negsuc a) (pos p) h g = ground arith
at_least_lower (negsuc b) (negsuc a) (negsuc p) h g = ground arith

-- If the threshold of `warning` is at most that of `high`, and that at most the one of `critical`, then a severity
-- is at least `warning` or at least `high` exactly if the percentage is not below its threshold, and
-- `critical` exactly if the percentage is above its threshold.
pub disk_severity_iff :
    (at_warning at_high above_critical p : ℤ)
    → less at_high at_warning ≡ false
    → less above_critical at_high ≡ false
    → ((1 ≤ rank (disk_severity p at_warning at_high above_critical)) ↔ (less p at_warning ≡ false))
      × ((2 ≤ rank (disk_severity p at_warning at_high above_critical)) ↔ (less p at_high ≡ false))
      × ((3 ≤ rank (disk_severity p at_warning at_high above_critical))
          ↔ (less above_critical p ≡ true))
unfolding disk_severity
disk_severity_iff w h c p wh hc =
    let reached : less c p ≡ true → less p h ≡ false = above_lower h c p hc in
    let lower : less p h ≡ false → less p w ≡ false = at_least_lower w h p wh in
    (
      (λ y. ground (arith, reached, lower), λ y. ground (arith, reached, lower)),
      (λ y. ground (arith, reached, lower), λ y. ground (arith, reached, lower)),
      (λ y. ground (arith, reached, lower), λ y. ground (arith, reached, lower)),
    )
