-- ===== src/Billing/Vouchers.antt =====
-- Vouchers: `Voucher` and `VoucherUsage` of subscriptions/models.py, the views of
-- subscriptions/views.py that validate a voucher and apply one to an active subscription, and
-- `get_or_create_stripe_coupon` of subscriptions/stripe_utils.py. Discounts are Stripe's, whose answers
-- are arguments.
use juris.Base.{
  All, Bool, Bool-cases, List, Option, Option-cases, arith, false, first_row, if◌then◌else◌, inl,
  inr, is_some, leb, ltb, none, not, some, subst, sum_of, sym, ℕ, ◌&&◌, ◌+◌, ◌<◌, ◌==◌, ◌∷◌, ◌≡◌,
  ◌≤◌, ◌⊎◌,
}
use juris.Billing.{VendorSubscription, is_active_status}
use juris.Table.{All-map, All-save_row_other, HasKeys, first_row_fits, save_row, save_row-HasKeys}

pub record Voucher : Type 0 where
  pub id : ℕ
  pub code : ℕ
  pub usage_limit : ℕ
  pub used_count : ℕ
  pub expires_at : ℕ
  pub is_active : Bool
  pub stripe_coupon_id : Option ℕ
  pub restricted_to_email : Option ℕ

pub record VoucherUsage : Type 0 where
  pub voucher : ℕ
  pub vendor : ℕ

-- The last is `subscription.voucher` by vendor.
pub record Desk : Type 0 where
  pub subscriptions : List VendorSubscription
  pub vouchers : List Voucher
  pub usages : List VoucherUsage
  pub voucher_of : ℕ → Option ℕ

-- What Stripe answers: whether it has the stored coupon, the coupon that it creates, and whether it
-- takes the discount; an error is none or false.
pub record StripeAnswers : Type 0 where
  pub has_coupon : Bool
  pub new_coupon : Option ℕ
  pub takes_discount : Bool

pub data VoucherReply : Type 0 where
  no_subscription : VoucherReply  -- 404
  not_active : VoucherReply  -- 400
  in_trial : VoucherReply  -- 400
  bad_code : VoucherReply  -- 400, of the serializer
  invalid_code : VoucherReply  -- 400
  other_account : VoucherReply  -- 400
  limit_exceeded : VoucherReply  -- 400
  stripe_error : VoucherReply  -- 400
  applied : Voucher → VoucherReply  -- 200

abbrev pub voucher_key : Voucher → ℕ
voucher_key v = v.id

-- `code=code, is_active=True, expires_at__gt=now()`
abbrev pub is_redeemable : ℕ → ℕ → Voucher → Bool
is_redeemable now code v = v.code == code && v.is_active && ltb now v.expires_at

abbrev pub is_used_up : Voucher → Bool
is_used_up v = leb v.usage_limit v.used_count

-- `VoucherValidateView`: the voucher, if it is valid and not used up
unfoldable pub validate_voucher : ℕ → ℕ → Desk → VoucherReply
validate_voucher now code d = elim (first_row (is_redeemable now code) d.vouchers) [
  | none ↦ invalid_code
  | some v ↦ if is_used_up v then limit_exceeded else applied v
]

-- The voucher with its coupon; none for a `StripeError`
unfoldable pub get_or_create_stripe_coupon : StripeAnswers → Voucher → Option Voucher
get_or_create_stripe_coupon stripe v =
    if is_some v.stripe_coupon_id && stripe.has_coupon then some v else elim stripe.new_coupon [
      | none ↦ none
      | some k ↦ some (record v { stripe_coupon_id = some k })
    ]

abbrev pub is_restricted : ℕ → Voucher → Bool
is_restricted email v = elim v.restricted_to_email [ none ↦ false | some e ↦ not (email == e) ]

-- The writes of a voucher that is applied
abbrev pub use_voucher : ℕ → Voucher → Desk → Desk
use_voucher vendor v d = record d {
  vouchers = save_row voucher_key (record v { used_count = v.used_count + 1 }) d.vouchers;
  usages = record { voucher = v.id; vendor = vendor } ∷ d.usages;
  voucher_of = λ w. if w == vendor then some v.id else d.voucher_of w;
}

-- The body of `transaction.atomic()`
unfoldable pub redeem : ℕ → StripeAnswers → ℕ → ℕ → ℕ → Desk → VoucherReply × Desk
unfolding get_or_create_stripe_coupon
redeem now stripe vendor email code d = elim (first_row (is_redeemable now code) d.vouchers) [
  | none ↦ (invalid_code, d)
  | some v ↦
      if is_restricted email v
      then (other_account, d)
      else if is_used_up v
      then (limit_exceeded, d)
      else elim (get_or_create_stripe_coupon stripe v) [
        | none ↦ (stripe_error, d)
        | some v' ↦
            if stripe.takes_discount
            then (applied (record v' { used_count = v'.used_count + 1 }), use_voucher vendor v' d)
            else (stripe_error, d)
      ]
]

abbrev pub is_in_trial : ℕ → VendorSubscription → Bool
is_in_trial now s = elim s.trial_ends_at [ none ↦ false | some t ↦ ltb now t ]

-- `ApplyVoucherToActiveSubscriptionView`; the code is none where the serializer refuses it
unfoldable pub apply_voucher : ℕ → StripeAnswers → ℕ → ℕ → Option ℕ → Desk → VoucherReply × Desk
unfolding redeem
apply_voucher now stripe vendor email code d =
    elim (first_row (λ (s : VendorSubscription). s.vendor == vendor) d.subscriptions) [
      | none ↦ (no_subscription, d)
      | some s ↦
          if not (is_active_status s.status)
          then (not_active, d)
          else if is_in_trial now s
          then (in_trial, d)
          else elim code [ none ↦ (bad_code, d) | some k ↦ redeem now stripe vendor email k d ]
    ]

-- How often a voucher was used.
abbrev pub uses : ℕ → List VoucherUsage → ℕ
uses k us = sum_of (λ (u : VoucherUsage). if u.voucher == k then 1 else 0) us

-- The voucher is used no more often than is counted, and that no more often than it may be.
abbrev pub IsCounted : List VoucherUsage → Voucher → Type 0
IsCounted us v = (uses v.id us ≤ v.used_count) × (v.used_count ≤ v.usage_limit)

abbrev pub IsDesk : Desk → Type 0
IsDesk d = HasKeys voucher_key d.vouchers × All (IsCounted d.usages) d.vouchers

use_voucher-IsDesk :
    (vendor : ℕ) (v : Voucher) (d : Desk)
    → IsDesk d
    → uses v.id d.usages ≤ v.used_count
    → v.used_count < v.usage_limit
    → IsDesk (use_voucher vendor v d)
use_voucher-IsDesk vendor v d (keys, counted) same room =
    let v' : Voucher = record v { used_count = v.used_count + 1 } in
    let us : List VoucherUsage = record { voucher = v.id; vendor = vendor } ∷ d.usages in
    (
      save_row-HasKeys voucher_key v' d.vouchers keys,
      All-save_row_other voucher_key (IsCounted us) v' d.vouchers keys
          (All-map voucher_key (IsCounted d.usages) (λ x. (x.id == v.id) ≡ false → IsCounted us x)
            d.vouchers (λ x h n. (ground arith, h.1)) counted)
          (ground arith, omega arith),
    )

coupon-kept :
    (stripe : StripeAnswers) (v v' : Voucher)
    → get_or_create_stripe_coupon stripe v ≡ some v'
    → (v'.id ≡ v.id) × (v'.used_count ≡ v.used_count) × (v'.usage_limit ≡ v.usage_limit)
unfolding get_or_create_stripe_coupon
coupon-kept stripe v v' e = ground arith

redeem-IsDesk :
    (now : ℕ) (stripe : StripeAnswers) (vendor email code : ℕ) (d : Desk)
    → IsDesk d
    → IsDesk (redeem now stripe vendor email code d).1
unfolding redeem
redeem-IsDesk now stripe vendor email code d h =
    elim (Option-cases (first_row (is_redeemable now code) d.vouchers)) [
      | inl n ↦ ground arith
      | inr (v, e) ↦ elim (Option-cases (get_or_create_stripe_coupon stripe v)) [
        | inl n ↦ ground arith
        | inr (v', f) ↦ elim (Bool-cases (is_used_up v)) [
          | inl full ↦ ground arith
          | inr room ↦
              let counted =
                first_row_fits voucher_key (is_redeemable now code) (IsCounted d.usages) d.vouchers
                  v h.1 e in
              let (i, u, l) = coupon-kept stripe v v' f in
              let used = use_voucher-IsDesk vendor v' d h (ground arith) (ground arith) in
              elim (Bool-cases (not (is_restricted email v) && stripe.takes_discount)) [
                | inl y ↦
                    let result : (redeem now stripe vendor email code d).1
                        ≡ use_voucher vendor v' d =
                      ground arith in
                    subst IsDesk (sym result) used
                | inr n ↦
                    let result : (redeem now stripe vendor email code d).1 ≡ d = ground arith in
                    subst IsDesk (sym result) h
              ]
        ]
      ]
    ]

-- From vouchers with distinct ids, of which each counts at least as many uses as there are rows of it,
-- and no more than its limit, a request to apply a voucher to an active subscription, whatever it asks
-- for, whatever Stripe answers and however it ends, leads to such vouchers.
pub apply_voucher-IsDesk :
    (now : ℕ) (stripe : StripeAnswers) (vendor email : ℕ) (code : Option ℕ) (d : Desk)
    → IsDesk d
    → IsDesk (apply_voucher now stripe vendor email code d).1
unfolding apply_voucher
apply_voucher-IsDesk now stripe vendor email none d h =
    let result : (apply_voucher now stripe vendor email none d).1 ≡ d = ground arith in
    subst IsDesk (sym result) h
apply_voucher-IsDesk now stripe vendor email (some k) d h =
    let done = redeem-IsDesk now stripe vendor email k d h in
    elim (cases k) [
      | inl same ↦ subst IsDesk (sym same) h
      | inr same ↦ subst IsDesk (sym same) done
    ]
  where
    cases :
        (k : ℕ)
        → ((apply_voucher now stripe vendor email (some k) d).1 ≡ d)
          ⊎ ((apply_voucher now stripe vendor email (some k) d).1
              ≡ (redeem now stripe vendor email k d).1)
    cases k =
        elim (Option-cases
          (first_row (λ (s : VendorSubscription). s.vendor == vendor) d.subscriptions)) [
            | inl n ↦ inl (ground arith)
            | inr (s, e) ↦
                elim (Bool-cases (is_active_status s.status && not (is_in_trial now s))) [
                  | inl y ↦ inr (ground arith)
                  | inr n ↦ inl (ground arith)
                ]
          ]
