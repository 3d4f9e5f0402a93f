-- ===== src/Pricing.antt =====
-- Prices of the offerings of a lawyer: `LawyerOffering` and `OfferingType` of lawyer/models.py, the
-- three prices that `CreateAppointmentView.perform_create_with_validation` of
-- lawyer_appointment/views.py stores, and `calculate_refund_amount` of lawyer_appointment/models.py.
-- A price is a number of cents. A percentage with two decimals is a number of basis points, so an
-- unrounded commission is a number of ten-thousandths of a cent. `Decimal` rounds the quotient of the
-- minutes by 30, and its product with the price, to 28 digits, half to even; the other values have
-- fewer digits. Prices have at most ten digits, and durations are below 10^18 minutes.
pub mod Rounding
pub mod Split
use Prim.Native.Nat.{◌^◌}
use juris.Base.{Bool, false, if◌then◌else◌, ltb, suc, true, zero, ℕ, ◌%◌, ◌*◌, ◌+◌, ◌-◌, ◌/◌, ◌==◌}

-- `Decimal.quantize(Decimal("0.01"), rounding=ROUND_HALF_UP)` of the quotient n / d of cents
unfoldable pub round_half_up : ℕ → ℕ → ℕ
round_half_up n d = (2 * n + d) / (2 * d)

-- Rounding to a whole number, half to even, of the quotient n / d
unfoldable pub round_half_even : ℕ → ℕ → ℕ
round_half_even n d =
    let q = n / d in
    let r = n % d in if ltb (2 * r) d then q else if ltb d (2 * r) then q + 1 else q + q % 2

-- A `Decimal` that is not negative: a coefficient over ten to the power of the places.
pub record Decimal : Type 0 where
  pub coefficient : ℕ
  pub places : ℕ

-- The number of digits of n, if it is at most the first argument.
unfoldable pub digits : ℕ → ℕ → ℕ
digits zero n = 0
digits (suc most) n = elim (n == 0) [ true ↦ 0 | false ↦ suc (digits most (n / 10)) ]

-- How many digits n has more than the limit, a power of ten, has zeros; at most the first argument.
unfoldable pub excess : ℕ → ℕ → ℕ → ℕ
excess zero limit n = 0
excess (suc most) limit n = elim (ltb n limit) [
  | true ↦ 0
  | false ↦ suc (excess most (10 * limit) n)
]

-- `Decimal(str(duration_minutes)) / Decimal("30")`, with 28 digits
unfoldable pub units : ℕ → Decimal
unfolding digits round_half_even
units duration_minutes =
    let k = 30 - digits 30 duration_minutes in
    if ltb (duration_minutes * 10 ^ k) (30 * 10 ^ 28)
    then record { coefficient = round_half_even (duration_minutes * 10 ^ k) 30; places = k }
    else record {
      coefficient = round_half_even (duration_minutes * 10 ^ (k - 1)) 30;
      places = k - 1;
    }

-- The product of a price in cents with a `Decimal`, in cents, with 28 digits
unfoldable pub times : ℕ → Decimal → Decimal
unfolding excess round_half_even
times price d =
    let n = price * d.coefficient in
    let e = excess 28 (10 ^ 28) n in
    record { coefficient = round_half_even n (10 ^ e); places = d.places - e }

-- `OfferingType.type`
pub data ServiceType : Type 0 where
  physical audio video : ServiceType

pub ServiceType-discrete : Discrete ServiceType
ServiceType-discrete = hlevel

-- `LawyerOffering`, with the `commission_percentage` of its lawyer's profile
pub record Offering : Type 0 where
  pub id : ℕ
  pub lawyer_profile : ℕ
  pub price_per_30min : ℕ
  pub commission_percentage : ℕ
  pub is_active : Bool

pub record OfferingType : Type 0 where
  pub id : ℕ
  pub offering : Offering
  pub type : ServiceType
  pub is_active : Bool

-- Amounts in cents, the commission and the lawyer's part in ten-thousandths of a cent.
pub record PriceBreakdown : Type 0 where
  pub total_price : ℕ
  pub commission_amount : ℕ
  pub lawyer_amount : ℕ
  pub commission_percentage : ℕ
  pub is_free : Bool

unfoldable pub calculate_price : Offering → ℕ → ℕ
unfolding round_half_up units times
calculate_price o duration_minutes =
    let total = times o.price_per_30min (units duration_minutes) in
    round_half_up total.coefficient (10 ^ total.places)

-- in ten-thousandths of a cent
unfoldable pub calculate_commission : Offering → ℕ → ℕ
calculate_commission o total_price = total_price * o.commission_percentage

-- `LawyerOffering.get_price_breakdown`
unfoldable pub offering_price_breakdown : Offering → ℕ → PriceBreakdown
unfolding calculate_price calculate_commission
offering_price_breakdown o duration_minutes =
    let total = calculate_price o duration_minutes in
    let commission = calculate_commission o total in
    record {
      total_price = total;
      commission_amount = commission;
      lawyer_amount = total * 10000 - commission;
      commission_percentage = o.commission_percentage;
      is_free = false;
    }

abbrev pub is_physical : ServiceType → Bool
is_physical physical = true
is_physical _ = false

unfoldable pub get_price_for_duration : OfferingType → ℕ → ℕ
unfolding calculate_price
get_price_for_duration t duration_minutes =
    if is_physical t.type then 0 else calculate_price t.offering duration_minutes

-- `OfferingType.get_price_breakdown`
unfoldable pub get_price_breakdown : OfferingType → ℕ → PriceBreakdown
unfolding offering_price_breakdown
get_price_breakdown t duration_minutes =
    if is_physical t.type
    then record {
      total_price = 0;
      commission_amount = 0;
      lawyer_amount = 0;
      commission_percentage = 0;
      is_free = true;
    }
    else offering_price_breakdown t.offering duration_minutes

unfoldable pub min_price : Offering → ℕ
min_price o = o.price_per_30min

unfoldable pub max_price : Offering → ℕ
unfolding calculate_price
max_price o = calculate_price o 60

-- The three amounts of an appointment, each rounded to whole cents on its own.
pub record Prices : Type 0 where
  pub total_price : ℕ
  pub commission_amount : ℕ
  pub lawyer_amount : ℕ

unfoldable pub booking_prices : OfferingType → ℕ → Prices
unfolding get_price_breakdown round_half_up
booking_prices t duration_minutes =
    let b = get_price_breakdown t duration_minutes in
    record {
      total_price = b.total_price;
      commission_amount = round_half_up b.commission_amount 10000;
      lawyer_amount = round_half_up b.lawyer_amount 10000;
    }

-- `calculate_refund_amount` for a paid appointment; the percentage is REFUND_COMMISSION_PERCENTAGE
-- of the settings, a whole number of percent
unfoldable pub calculate_refund_amount : ServiceType → ℕ → ℕ → ℕ
unfolding round_half_up
calculate_refund_amount type lawyer_amount percentage =
    if is_physical type then 0 else lawyer_amount - round_half_up (lawyer_amount * percentage) 100
