-- ===== src/Pricing/Rounding.antt =====
-- Rounding half up, as `Decimal.quantize` does it.
use juris.Base.{arith, if◌then◌else◌, ℕ, ◌%◌, ◌*◌, ◌+◌, ◌-◌, ◌==◌, ◌≡◌, ◌≤◌}
use juris.Pricing.{round_half_up}

-- A sum of two parts that are rounded apart gains one unit when both parts end in one half.
pub round_half_up-split :
    (x total : ℕ)
    → x ≤ total * 10000
    → round_half_up x 10000 + round_half_up (total * 10000 - x) 10000
      ≡ total + (if x % 10000 == 5000 then 1 else 0)
unfolding round_half_up
round_half_up-split x total h = ground arith

-- A share of at most 100 percent rounds to no more than the whole.
pub round_half_up-share : (x total : ℕ) → x ≤ total * 100 → round_half_up x 100 ≤ total
unfolding round_half_up
round_half_up-share x total h = omega arith
