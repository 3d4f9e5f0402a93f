-- ===== src/Billing/Views.antt =====
-- The requests of a vendor about its subscription: the views of subscriptions/views.py that start a
-- trial, activate a subscription, cancel it, pay again and reactivate it, the signal of
-- subscriptions/signals.py that starts a trial when a profile is complete, and what they call of
-- subscriptions/stripe_utils.py. What Stripe answers is an argument; a subscription always has its id
-- there, as both creations of a row give it one. The end of a trial that Stripe starts is not past.
use juris.Base.{
  Bool, List, Option, false, first_row, if◌then◌else◌, is_some, none, not, some, true, ℕ, ◌&&◌, ◌+◌,
  ◌-◌, ◌/◌, ◌==◌,
}
use juris.Billing.{
  Billing, BillingKey, BillingValue, Subscription, SubscriptionStatus, VendorSubscription, or_keep,
  past_due, subscription_activated, subscription_canceled, trialing, unpaid, vendor_key,
}
use juris.Billing.Cards.{CardFile, PaymentMethod, save_method, set_payment_method_id}
use juris.Billing.Events.{notify, save_subscription, set_days_left, set_subscription_status}
use juris.Billing.Vouchers.{
  StripeAnswers, Voucher, get_or_create_stripe_coupon, is_redeemable, is_used_up, voucher_key,
}
use juris.Clock.{day}
use juris.Redis.{Redis}
use juris.Status.{is_completed}
use juris.Table.{find, save_row}

-- Why a request is refused, and how it succeeds.
pub data ViewReply : Type 0 where
  trial_started : ViewReply  -- 201
  has_subscription_already : ViewReply  -- 400
  profile_incomplete : ViewReply  -- 400
  no_plan : ViewReply  -- 400
  bad_activation : ViewReply  -- 400, of the serializer
  voucher_used_up : ViewReply  -- 400
  view_fails : ViewReply  -- 500, or 400 with the error's text
  activated : ViewReply  -- 200
  cancellation_set : ViewReply  -- 200
  view_no_subscription : ViewReply  -- 404
  nothing_to_retry : ViewReply  -- 400
  no_open_invoice : ViewReply  -- 404
  retry_paid : ViewReply  -- 200
  retry_declined : ViewReply  -- 400
  not_canceled : ViewReply  -- 400
  reactivated : ViewReply  -- 200

-- `stripe.Invoice.pay`
pub data PayAnswer : Type 0 where
  invoice_paid card_declined pay_fails : PayAnswer

-- What an activation asks for: the card, the id that the database draws for its row, and the voucher.
pub record Activation : Type 0 where
  pub payment_method_id : Option ℕ
  pub card_id : ℕ
  pub voucher_code : Option ℕ

-- What others answer to an activation: Stripe about the voucher's coupon, with the subscription that was
-- changed, and whether it has the card; and the mail service, whether the mail about it is sent.
pub record ActivationAnswers : Type 0 where
  pub coupon : StripeAnswers
  pub changed : Option Subscription
  pub has_card : Bool
  pub mail_sent : Bool

abbrev pub has_failed_payment : SubscriptionStatus → Bool
has_failed_payment past_due = true
has_failed_payment unpaid = true
has_failed_payment _ = false

module _ (cache : Redis BillingKey BillingValue) where
  -- The tables of the subscriptions application; the last is `subscription.voucher` by vendor.
  pub record Office : Type 0 where
    pub billing : Billing cache
    pub cards : CardFile
    pub vouchers : List Voucher
    pub voucher_of : ℕ → Option ℕ

  abbrev pub on_billing : (Billing cache → Billing cache) → Office → Office
  on_billing f o = record o { billing = f o.billing }

  -- `VendorSubscription.objects.get(vendor=vendor)`
  abbrev pub subscription_of : ℕ → Office → Option VendorSubscription
  subscription_of vendor o = find vendor_key vendor o.billing.subscriptions

  -- The row is saved and its status cached.
  unfoldable pub save_status : ℕ → VendorSubscription → Billing cache → Billing cache
  save_status now s b =
      set_subscription_status cache now s.vendor s.status (save_subscription cache s b)

  -- The row of a trial that Stripe has started under an id until an end, with the days left.
  unfoldable pub create_trial : ℕ → ℕ → ℕ × ℕ → Billing cache → Billing cache
  create_trial now vendor (id, trial_end) b =
      let s : VendorSubscription = record {
        vendor = vendor;
        stripe_subscription_id = id;
        status = trialing;
        trial_ends_at = some trial_end;
        current_period_end = none;
        canceled_at = none;
      } in
      set_subscription_status cache now vendor trialing
        (set_days_left cache now vendor ((trial_end - now) / day) (save_subscription cache s b))

  -- `InitTrialView`
  unfoldable pub start_trial : ℕ → ℕ → Bool → Bool → Option (ℕ × ℕ) → Office → ViewReply × Office
  unfolding create_trial
  start_trial now vendor is_completed has_plan stripe o =
      if is_some (subscription_of vendor o)
      then (has_subscription_already, o)
      else if not is_completed
      then (profile_incomplete, o)
      else if not has_plan
      then (no_plan, o)
      else elim stripe [
        | none ↦ (view_fails, o)
        | some t ↦ (trial_started, on_billing (create_trial now vendor t) o)
      ]

  -- The signal after a save of the vendor's profile; an error of Stripe is the error of the save.
  unfoldable pub create_vendor_trial_subscription :
      ℕ → ℕ → Bool → Bool → Option (ℕ × ℕ) → Office → Office
  unfolding create_trial
  create_vendor_trial_subscription now vendor is_completed has_plan stripe o =
      if is_completed && not (is_some (subscription_of vendor o)) && has_plan
      then elim stripe [ none ↦ o | some t ↦ on_billing (create_trial now vendor t) o ]
      else o

  -- The writes of an activation that Stripe has accepted.
  unfoldable pub write_activation :
      ℕ → ℕ → ℕ → Option Voucher → Subscription → VendorSubscription → Office → Office
  unfolding save_method save_status
  write_activation now card_id k voucher changed s o =
      let m : PaymentMethod = record {
        id = card_id;
        vendor = s.vendor;
        stripe_payment_method_id = k;
        is_default = true;
      } in
      let s' : VendorSubscription = record s {
        status = changed.status;
        trial_ends_at = changed.trial_end;
        current_period_end = or_keep changed.current_period_end s.current_period_end;
      } in
      record o {
        billing = notify cache s.vendor subscription_activated (save_status now s' o.billing);
        cards = set_payment_method_id s.vendor k (save_method m true o.cards);
        vouchers = elim voucher [
          | none ↦ o.vouchers
          | some v ↦ save_row voucher_key (record v { used_count = v.used_count + 1 }) o.vouchers
        ];
        voucher_of = elim voucher [
          | none ↦ o.voucher_of
          | some v ↦ λ w. if w == s.vendor then some v.id else o.voucher_of w
        ];
      }

  -- The end of `transaction.atomic()` by an exception: the rows are those from before, but the cache,
  -- which is no part of the transaction, keeps what was written.
  abbrev pub roll_back : Office → Office → Office
  roll_back before after = record before {
    billing = record before.billing { cached = after.billing.cached };
    cards = record before.cards { cached_method = after.cards.cached_method };
  }

  -- `activate_subscription` and what follows, one transaction; a mail that cannot be sent, the last step,
  -- raises.
  unfoldable pub activate_with :
      ℕ
      → ActivationAnswers
      → ℕ
      → ℕ
      → Option Voucher
      → VendorSubscription
      → Office
      → ViewReply × Office
  unfolding write_activation get_or_create_stripe_coupon
  activate_with now stripe card_id k voucher s o =
      let coupon : Option (Option Voucher) = elim voucher [
        | none ↦ some none
        | some v ↦ elim (get_or_create_stripe_coupon stripe.coupon v) [
          | none ↦ none
          | some v' ↦ some (some v')
        ]
      ] in
      elim coupon [
        | none ↦ (view_fails, o)
        | some used ↦ elim stripe.changed [
          | none ↦ (view_fails, o)
          | some c ↦
              let after = write_activation now card_id k used c s o in
              if not stripe.has_card
              then (view_fails, o)
              else if stripe.mail_sent
              then (activated, after)
              else (view_fails, roll_back o after)
        ]
      ]

  -- `SubscriptionActivateView`
  unfoldable pub activate_view :
      ℕ → ActivationAnswers → ℕ → Activation → Office → ViewReply × Office
  unfolding activate_with
  activate_view now stripe vendor a o = elim (subscription_of vendor o) [
    | none ↦ (view_fails, o)
    | some s ↦ elim a.payment_method_id [
      | none ↦ (bad_activation, o)
      | some k ↦ elim a.voucher_code [
        | none ↦ activate_with now stripe a.card_id k none s o
        | some code ↦ elim (first_row (is_redeemable now code) o.vouchers) [
          | none ↦ (view_fails, o)
          | some v ↦
              let done = activate_with now stripe a.card_id k (some v) s o in
              if is_used_up v then (voucher_used_up, o) else done
        ]
      ]
    ]
  ]

  -- The writes of a cancellation that Stripe has accepted.
  abbrev pub write_cancellation :
      ℕ → SubscriptionStatus → Bool → VendorSubscription → Office → Office
  write_cancellation now status at_period_end s o =
      let s' : VendorSubscription = record s {
        status = status;
        canceled_at = if at_period_end then some now else none;
      } in
      on_billing (λ b. notify cache s.vendor subscription_canceled (save_status now s' b)) o

  -- `SubscriptionCancelView`; Stripe answers with the status and with whether the subscription now
  -- ends with its period. A mail that cannot be sent raises within the transaction.
  unfoldable pub cancel_view :
      ℕ → Option (SubscriptionStatus × Bool) → Bool → ℕ → Office → ViewReply × Office
  unfolding save_status
  cancel_view now stripe mail_sent vendor o = elim (subscription_of vendor o) [
    | none ↦ (view_no_subscription, o)
    | some s ↦ elim stripe [
      | none ↦ (view_fails, o)
      | some (status, at_period_end) ↦
          let after = write_cancellation now status at_period_end s o in
          if mail_sent then (cancellation_set, after) else (view_fails, roll_back o after)
    ]
  ]

  -- `RetryFailedPaymentView`, where no transaction undoes the writes before the mail; none where the list of open invoices fails, and whether it has one
  unfoldable pub retry : ℕ → Option Bool → PayAnswer → ℕ → Office → ViewReply × Office
  unfolding save_status
  retry now invoices pay vendor o = elim (subscription_of vendor o) [
    | none ↦ (view_no_subscription, o)
    | some s ↦
        let paid =
          on_billing
            (λ b.
              notify cache vendor subscription_activated
                (save_status now (record s { status = SubscriptionStatus.active }) b))
            o in
        if not (has_failed_payment s.status) then (nothing_to_retry, o) else elim invoices [
          | none ↦ (view_fails, o)
          | some false ↦ (no_open_invoice, o)
          | some true ↦ elim pay [
            | invoice_paid ↦ (retry_paid, paid)
            | card_declined ↦ (retry_declined, o)
            | pay_fails ↦ (view_fails, o)
          ]
        ]
  ]

  -- `SubscriptionReactivateView`; Stripe answers with the status
  unfoldable pub reactivate : ℕ → Option SubscriptionStatus → ℕ → Office → ViewReply × Office
  unfolding save_status
  reactivate now stripe vendor o = elim (subscription_of vendor o) [
    | none ↦ (view_no_subscription, o)
    | some s ↦ if not (is_some s.canceled_at) then (not_canceled, o) else elim stripe [
      | none ↦ (view_fails, o)
      | some status ↦ (
        reactivated,
        on_billing (save_status now (record s { status = status; canceled_at = none })) o,
      )
    ]
  ]
