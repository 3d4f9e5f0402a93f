-- ===== src/Pricing/Split.antt =====
-- What the three prices of a booking are together, and the price of an offering at 30 and 60 minutes.
use native.Mathlib.Nat.{pow-succ'}
use Prim.Native.Nat.{◌^◌}
use juris.Base.{
  refl, subst, suc, zero, ◌-◌, Bool-cases, arith, if◌then◌else◌, inl, inr, ℕ, ◌%◌, ◌*◌, ◌+◌, ◌<◌,
  ◌==◌, ◌≡◌, ◌≤◌,
}
use juris.Pricing.{
  Offering, OfferingType, ServiceType, booking_prices, calculate_price, calculate_refund_amount,
  is_physical, max_price, min_price, round_half_even, round_half_up, excess, times, units,
}
use juris.Pricing.Rounding.{round_half_up-share, round_half_up-split}

share-le : (total bp : ℕ) → bp ≤ 10000 → total * bp ≤ total * 10000
share-le total bp h = grind arith

-- For an offering whose commission is at most 100 percent, the stored commission and the stored
-- amount of the lawyer add up to the stored total price, but for one cent more exactly when the
-- service is not physical and the exact commission ends in one half of a cent.
pub booking_prices-split :
    (t : OfferingType) (duration : ℕ)
    → t.offering.commission_percentage ≤ 10000
    → let p = booking_prices t duration in
      p.commission_amount + p.lawyer_amount
      ≡ p.total_price
        + (if is_physical t.type
            then 0
            else if (p.total_price * t.offering.commission_percentage) % 10000 == 5000
            then 1
            else 0)
unfolding booking_prices
booking_prices-split t duration h = elim (Bool-cases (is_physical t.type)) [
  | inl free ↦ rw free (omega arith)
  | inr paid ↦ rw paid (
      round_half_up-split _ (calculate_price t.offering duration)
        (share-le (calculate_price t.offering duration) t.offering.commission_percentage h))
]

units_30 : units 30 ≡ record { coefficient = 10 ^ 27; places = 27 }
unfolding units
units_30 = refl

units_60 : units 60 ≡ record { coefficient = 2 * 10 ^ 27; places = 27 }
unfolding units
units_60 = refl

-- The digits that are dropped are zeros.
dropped :
    (n e : ℕ) → e ≤ 12 → round_half_up (round_half_even (n * 10 ^ 27) (10 ^ e)) (10 ^ (27 - e)) ≡ n
unfolding round_half_up round_half_even
dropped n zero h = ground arith
dropped n (suc zero) h = ground arith
dropped n (suc (suc zero)) h = ground arith
dropped n (suc (suc (suc zero))) h = ground arith
dropped n (suc (suc (suc (suc zero)))) h = ground arith
dropped n (suc (suc (suc (suc (suc zero))))) h = ground arith
dropped n (suc (suc (suc (suc (suc (suc zero)))))) h = ground arith
dropped n (suc (suc (suc (suc (suc (suc (suc zero))))))) h = ground arith
dropped n (suc (suc (suc (suc (suc (suc (suc (suc zero)))))))) h = ground arith
dropped n (suc (suc (suc (suc (suc (suc (suc (suc (suc zero))))))))) h = ground arith
dropped n (suc (suc (suc (suc (suc (suc (suc (suc (suc (suc zero)))))))))) h = ground arith
dropped n (suc (suc (suc (suc (suc (suc (suc (suc (suc (suc (suc zero))))))))))) h = ground arith
dropped n (suc (suc (suc (suc (suc (suc (suc (suc (suc (suc (suc (suc zero)))))))))))) h =
    ground arith
dropped n (suc (suc (suc (suc (suc (suc (suc (suc (suc (suc (suc (suc (suc e))))))))))))) h =
    absurd (omega arith)

ten_more : (limit j : ℕ) → limit * 10 ^ suc j ≡ (10 * limit) * 10 ^ j
ten_more limit j = rw (pow-succ' 10 j) (grind arith)

excess-le : (most limit n j : ℕ) → n < limit * 10 ^ j → excess most limit n ≤ j
unfolding excess
excess-le zero limit n j h = omega arith
excess-le (suc most) limit n zero h = ground arith
excess-le (suc most) limit n (suc j) h =
    let room : n < (10 * limit) * 10 ^ j = subst (λ t. n < t) (ten_more limit j) h in
    ground (arith, excess-le most (10 * limit) n j)

whole_units :
    (o : Offering) (duration a : ℕ)
    → units duration ≡ record { coefficient = a * 10 ^ 27; places = 27 }
    → o.price_per_30min * a < 10 ^ 12
    → calculate_price o duration ≡ o.price_per_30min * a
unfolding calculate_price times
whole_units o duration a e h =
    let n = o.price_per_30min * a in
    let most : excess 28 (10 ^ 28) (n * 10 ^ 27) ≤ 12 =
      excess-le 28 (10 ^ 28) (n * 10 ^ 27) 12 (omega arith) in
    let regroup : o.price_per_30min * (a * 10 ^ 27) ≡ n * 10 ^ 27 = grind arith in
    rw (e, regroup) (dropped n (excess 28 (10 ^ 28) (n * 10 ^ 27)) most)

-- At 30 and 60 minutes the price of an offering is the exact price for 30 minutes and its double, and the
-- second is the greatest price, although the quotient and the product are rounded to 28 digits; the
-- price for 30 minutes is below 10^11 cents, and the column has ten digits.
pub calculate_price-exact :
    (o : Offering)
    → o.price_per_30min < 10 ^ 11
    → (calculate_price o 30 ≡ min_price o)
      × (calculate_price o 60 ≡ 2 * min_price o)
      × (max_price o ≡ 2 * min_price o)
unfolding min_price max_price
calculate_price-exact o h =
    let one = whole_units o 30 1 units_30 (omega arith) in
    let two = whole_units o 60 2 units_60 (omega arith) in
    (omega (arith, one), omega (arith, two), omega (arith, two))

percent-le : (amount percentage : ℕ) → percentage ≤ 100 → amount * percentage ≤ amount * 100
percent-le amount percentage h = grind arith

-- At a percentage of at most 100, the refund of a paid appointment and the commission withheld from
-- it, rounded half up, are together the lawyer's amount; for a physical one all of it is withheld.
calculate_refund_amount-share :
    (type : ServiceType) (lawyer_amount percentage : ℕ)
    → percentage ≤ 100
    → calculate_refund_amount type lawyer_amount percentage
        + (if is_physical type
            then lawyer_amount
            else round_half_up (lawyer_amount * percentage) 100)
      ≡ lawyer_amount
unfolding calculate_refund_amount
calculate_refund_amount-share type amount percentage h = elim (Bool-cases (is_physical type)) [
  | inl free ↦ rw free (omega arith)
  | inr paid ↦ rw paid (
      omega
        (arith, round_half_up-share (amount * percentage) amount (percent-le amount percentage h)))
]
