-- ===== src/Billing.antt =====
-- The subscriptions of vendors: `VendorSubscription` of subscriptions/models.py and the handlers of
-- Stripe's subscription events, subscriptions/webhook.py, with the cached values of
-- subscriptions/redis_utils.py that they write. Plans, customers and the amounts of invoices are left
-- out; a listing is `VendorProfile.is_active`.
pub mod Events
pub mod Listed
pub mod Changes
pub mod Vouchers
pub mod Cards
pub mod Primary
pub mod Views
pub mod Kept
pub mod Unlisted
use juris.Base.{
  Bool, List, Option, false, is_some, leb, none, not, some, true, ℕ, ◌&&◌, ◌*◌, ◌==◌, ◌||◌,
}
use juris.Redis.{Redis}

-- Stripe's texts for the status of a subscription.
pub data SubscriptionStatus : Type 0 where
  trialing active past_due canceled unpaid incomplete incomplete_expired paused : SubscriptionStatus

abbrev pub is_trialing : SubscriptionStatus → Bool
is_trialing trialing = true
is_trialing _ = false

abbrev pub is_active_status : SubscriptionStatus → Bool
is_active_status active = true
is_active_status _ = false

abbrev pub is_past_due : SubscriptionStatus → Bool
is_past_due past_due = true
is_past_due _ = false

-- `in ["canceled", "past_due", "unpaid"]`
abbrev pub is_suspended : SubscriptionStatus → Bool
is_suspended canceled = true
is_suspended past_due = true
is_suspended unpaid = true
is_suspended _ = false

pub record VendorSubscription : Type 0 where
  pub vendor : ℕ
  pub stripe_subscription_id : ℕ
  pub status : SubscriptionStatus
  pub trial_ends_at : Option ℕ
  pub current_period_end : Option ℕ
  pub canceled_at : Option ℕ

-- `subscription` of an event.
pub record Subscription : Type 0 where
  pub id : ℕ
  pub status : SubscriptionStatus
  pub trial_end : Option ℕ
  pub current_period_end : Option ℕ
  pub canceled_at : Option ℕ

-- `invoice` of an event; the last is the first end of a period in its lines.
pub record Invoice : Type 0 where
  pub id : ℕ
  pub subscription : Option ℕ
  pub line_period_end : Option ℕ

pub data BillingKey : Type 0 where
  subscription_status_key days_left_key : ℕ → BillingKey

pub data BillingValue : Type 0 where
  cached_status : SubscriptionStatus → BillingValue
  cached_days : ℕ → BillingValue

pub data Notice : Type 0 where
  subscription_activated payment_failed_notice trial_ended trial_ending : Notice
  subscription_canceled : Notice

abbrev pub subscription_status_ttl : ℕ
subscription_status_ttl = 60 * 15

abbrev pub days_left_ttl : ℕ
days_left_ttl = 60 * 60 * 6

-- A field that is overwritten if the event has a value for it.
abbrev pub or_keep : Option ℕ → Option ℕ → Option ℕ
or_keep none old = old
or_keep (some t) old = some t

abbrev pub vendor_key : VendorSubscription → ℕ
vendor_key s = s.vendor

-- `VendorSubscription.objects.get(stripe_subscription_id=id)`
abbrev pub with_stripe_id : ℕ → VendorSubscription → Bool
with_stripe_id id s = s.stripe_subscription_id == id

unfoldable pub detect_trial_end_transition :
    ℕ → SubscriptionStatus → SubscriptionStatus → Option ℕ → Option ℕ → Bool
detect_trial_end_transition now old_status new_status old_trial_end trial_end =
    (is_trialing old_status && not (is_trialing new_status))
    || (elim trial_end [ none ↦ false | some t ↦ leb t now ] && is_trialing old_status)
    || (is_some old_trial_end && not (is_some trial_end))

module _ (cache : Redis BillingKey BillingValue) where
  open cache use {Store, setex}

  pub record Billing : Type 0 where
    pub subscriptions : List VendorSubscription
    pub is_listed : ℕ → Bool
    pub cached : Store
    pub invoices : List ℕ
    pub notices : List (ℕ × Notice)
