-- ===== src/Billing/Kept.antt =====
-- What the requests of vendors keep of the subscriptions and of the cache.
use juris.Base.{
  Bool, Option, Option-cases, arith, first_row, false, if◌then◌else◌, inl, inr, ltb, none, refl,
  some, subst, sym, true, ℕ, ◌*◌, ◌+◌, ◌-◌, ◌/◌, ◌∙◌, ◌≡◌, ◌≤◌, ◌⊎◌,
}
use juris.Billing.{
  Billing, BillingKey, BillingValue, Notice, SubscriptionStatus, VendorSubscription, cached_status,
  or_keep, subscription_activated, subscription_canceled, subscription_status_key,
  subscription_status_ttl,
}
use juris.Billing.Events.{notify, save_subscription, set_days_left, set_subscription_status}
use juris.Billing.Listed.{IsCurrent, changed-IsCurrent, set_days_left-status, status_written}
use juris.Billing.Views.{
  Activation, ActivationAnswers, Office, PayAnswer, activate_view, activate_with, cancel_view,
  create_trial, create_vendor_trial_subscription, on_billing, reactivate, retry, save_status,
  start_trial, subscription_of, view_fails, write_activation, write_cancellation,
}
use juris.Billing.Vouchers.{Voucher, is_redeemable}
use juris.Clock.{day, second}
use juris.Redis.{Redis}
use juris.Status.{is_completed}

module _ (cache : Redis BillingKey BillingValue) where
  -- Each vendor has one subscription, and the cache knows no status but its own.
  abbrev pub IsOffice : ℕ → Office cache → Type 0
  IsOffice now o = IsCurrent cache now o.billing

  save_status-IsCurrent :
      (now : ℕ) (s : VendorSubscription) (b : Billing cache)
      → IsCurrent cache now b
      → IsCurrent cache now (save_status cache now s b)
  unfolding save_status save_subscription set_subscription_status
  save_status-IsCurrent now s b h =
      changed-IsCurrent cache now s b (save_status cache now s b) h refl
        (status_written cache now s.vendor s.status (save_subscription cache s b))

  notified-IsCurrent :
      (now vendor : ℕ) (n : Notice) (b : Billing cache)
      → IsCurrent cache now b
      → IsCurrent cache now (notify cache vendor n b)
  unfolding notify
  notified-IsCurrent now vendor n b h = h

  create_trial-IsCurrent :
      (now vendor : ℕ) (t : ℕ × ℕ) (b : Billing cache)
      → IsCurrent cache now b
      → IsCurrent cache now (create_trial cache now vendor t b)
  unfolding create_trial set_subscription_status save_subscription set_days_left
  create_trial-IsCurrent now vendor (id, trial_end) b h =
      let s : VendorSubscription = record {
        vendor = vendor;
        stripe_subscription_id = id;
        status = SubscriptionStatus.trialing;
        trial_ends_at = some trial_end;
        current_period_end = none;
        canceled_at = none;
      } in
      let b1 =
        set_days_left cache now vendor ((trial_end - now) / day) (save_subscription cache s b) in
      let (set, kept) = status_written cache now vendor SubscriptionStatus.trialing b1 in
      changed-IsCurrent cache now s b (create_trial cache now vendor (id, trial_end) b) h refl (
        set,
        λ later v differ.
            kept later v differ
            ∙ set_days_left-status cache now vendor ((trial_end - now) / day) later v
                (save_subscription cache s b),
      )

  -- A request that ends in one of two ways.
  one_of-IsOffice :
      (now : ℕ) (o p q : Office cache)
      → (q ≡ o) ⊎ (q ≡ p)
      → IsOffice now o
      → IsOffice now p
      → IsOffice now q
  one_of-IsOffice now o p q (inl same) h k = subst (IsOffice now) (sym same) h
  one_of-IsOffice now o p q (inr same) h k = subst (IsOffice now) (sym same) k

  trials-IsOffice :
      (now vendor : ℕ) (is_completed has_plan : Bool) (stripe : Option (ℕ × ℕ)) (o : Office cache)
      → IsOffice now o
      → IsOffice now (start_trial cache now vendor is_completed has_plan stripe o).1
        × IsOffice now
            (create_vendor_trial_subscription cache now vendor is_completed has_plan stripe o)
  unfolding start_trial create_vendor_trial_subscription
  trials-IsOffice now vendor is_completed has_plan none o h =
      let q = (start_trial cache now vendor is_completed has_plan none o).1 in
      let r = create_vendor_trial_subscription cache now vendor is_completed has_plan none o in
      (
        one_of-IsOffice now o o q (inl (ground arith)) h h,
        one_of-IsOffice now o o r (inl (ground arith)) h h,
      )
  trials-IsOffice now vendor is_completed has_plan (some t) o h =
      let p = on_billing cache (create_trial cache now vendor t) o in
      let q = (start_trial cache now vendor is_completed has_plan (some t) o).1 in
      let r = create_vendor_trial_subscription cache now vendor is_completed has_plan (some t) o in
      let k = create_trial-IsCurrent now vendor t o.billing h in
      (one_of-IsOffice now o p q (ground arith) h k, one_of-IsOffice now o p r (ground arith) h k)

  activate_with-IsOffice :
      (now : ℕ) (stripe : ActivationAnswers) (card_id k : ℕ) (voucher : Option Voucher)
      (s : VendorSubscription) (o : Office cache)
      → stripe.mail_sent ≡ true
      → IsOffice now o
      → IsOffice now (activate_with cache now stripe card_id k voucher s o).1
  unfolding activate_with write_activation
  activate_with-IsOffice now stripe card_id k voucher s o sent h =
      elim (Option-cases stripe.changed) [
        | inl n ↦
            let after = (activate_with cache now stripe card_id k voucher s o).1 in
            one_of-IsOffice now o o after (inl (ground arith)) h h
        | inr (c, e) ↦
            let s' : VendorSubscription = record s {
              status = c.status;
              trial_ends_at = c.trial_end;
              current_period_end = or_keep c.current_period_end s.current_period_end;
            } in
            let b =
              notify cache s.vendor subscription_activated (save_status cache now s' o.billing) in
            let done : IsCurrent cache now b =
              notified-IsCurrent now s.vendor subscription_activated
                (save_status cache now s' o.billing) (save_status-IsCurrent now s' o.billing h) in
            let after = (activate_with cache now stripe card_id k voucher s o).1 in
            let cases : (after.billing ≡ o.billing) ⊎ (after.billing ≡ b) = ground arith in
            elim cases [
              | inl same ↦ subst (IsCurrent cache now) (sym same) h
              | inr same ↦ subst (IsCurrent cache now) (sym same) done
            ]
      ]

  activate_view-IsOffice :
      (now : ℕ) (stripe : ActivationAnswers) (vendor : ℕ) (a : Activation) (o : Office cache)
      → stripe.mail_sent ≡ true
      → IsOffice now o
      → IsOffice now (activate_view cache now stripe vendor a o).1
  unfolding activate_view
  activate_view-IsOffice now stripe vendor a o sent h =
      let q = (activate_view cache now stripe vendor a o).1 in
      let refused : (q ≡ o) → IsOffice now q = λ same. subst (IsOffice now) (sym same) h in
      elim (Option-cases (subscription_of cache vendor o)) [
        | inl n ↦ refused (ground arith)
        | inr (s, e) ↦ elim (Option-cases a.payment_method_id) [
          | inl n ↦ refused (ground arith)
          | inr (k, f) ↦ elim (Option-cases a.voucher_code) [
            | inl n ↦
                let p = (activate_with cache now stripe a.card_id k none s o).1 in
                let k' = activate_with-IsOffice now stripe a.card_id k none s o sent h in
                one_of-IsOffice now o p q (inr (ground arith)) h k'
            | inr (code, g) ↦ elim (Option-cases (first_row (is_redeemable now code) o.vouchers)) [
              | inl n ↦ refused (ground arith)
              | inr (v, i) ↦
                  let p = (activate_with cache now stripe a.card_id k (some v) s o).1 in
                  let k' = activate_with-IsOffice now stripe a.card_id k (some v) s o sent h in
                  one_of-IsOffice now o p q (ground arith) h k'
            ]
          ]
        ]
      ]

  cancel_view-IsOffice :
      (now : ℕ) (stripe : Option (SubscriptionStatus × Bool)) (vendor : ℕ) (o : Office cache)
      → IsOffice now o
      → IsOffice now (cancel_view cache now stripe true vendor o).1
  unfolding cancel_view
  cancel_view-IsOffice now none vendor o h =
      one_of-IsOffice now o o (cancel_view cache now none true vendor o).1 (inl (ground arith)) h h
  cancel_view-IsOffice now (some (status, at_period_end)) vendor o h =
      let q = (cancel_view cache now (some (status, at_period_end)) true vendor o).1 in
      elim (Option-cases (subscription_of cache vendor o)) [
        | inl n ↦ one_of-IsOffice now o o q (inl (ground arith)) h h
        | inr (s, e) ↦
            let s' : VendorSubscription = record s {
              status = status;
              canceled_at = if at_period_end then some now else none;
            } in
            let p = write_cancellation cache now status at_period_end s o in
            one_of-IsOffice now o p q (inr (ground arith)) h (
              notified-IsCurrent now s.vendor subscription_canceled
                (save_status cache now s' o.billing) (save_status-IsCurrent now s' o.billing h))
      ]

  retry-IsOffice :
      (now : ℕ) (invoices : Option Bool) (pay : PayAnswer) (vendor : ℕ) (o : Office cache)
      → IsOffice now o
      → IsOffice now (retry cache now invoices pay vendor o).1
  unfolding retry
  retry-IsOffice now invoices pay vendor o h =
      let q = (retry cache now invoices pay vendor o).1 in
      elim (Option-cases (subscription_of cache vendor o)) [
        | inl n ↦ one_of-IsOffice now o o q (inl (ground arith)) h h
        | inr (s, e) ↦
            let s' : VendorSubscription = record s { status = SubscriptionStatus.active } in
            let p =
              on_billing cache
                (λ b. notify cache vendor subscription_activated (save_status cache now s' b)) o in
            one_of-IsOffice now o p q (ground arith) h (
              notified-IsCurrent now vendor subscription_activated
                (save_status cache now s' o.billing) (save_status-IsCurrent now s' o.billing h))
      ]

  reactivate-IsOffice :
      (now : ℕ) (stripe : Option SubscriptionStatus) (vendor : ℕ) (o : Office cache)
      → IsOffice now o
      → IsOffice now (reactivate cache now stripe vendor o).1
  unfolding reactivate
  reactivate-IsOffice now none vendor o h =
      one_of-IsOffice now o o (reactivate cache now none vendor o).1 (inl (ground arith)) h h
  reactivate-IsOffice now (some status) vendor o h =
      let q = (reactivate cache now (some status) vendor o).1 in
      elim (Option-cases (subscription_of cache vendor o)) [
        | inl n ↦ one_of-IsOffice now o o q (inl (ground arith)) h h
        | inr (s, e) ↦
            let s' : VendorSubscription = record s { status = status; canceled_at = none } in
            let p = on_billing cache (save_status cache now s') o in
            one_of-IsOffice now o p q (ground arith) h (save_status-IsCurrent now s' o.billing h)
      ]

  -- A cancellation that Stripe has accepted and whose mail cannot be sent is answered with an error: the
  -- rows stay, but the cached status is the one that Stripe gave.
  cancel_view-unsent :
      (now later : ℕ) (status : SubscriptionStatus) (at_period_end : Bool) (s : VendorSubscription)
      (o : Office cache)
      → subscription_of cache s.vendor o ≡ some s
      → now ≤ later
      → let (reply, o') = cancel_view cache now (some (status, at_period_end)) false s.vendor o in
        (reply ≡ view_fails)
        × (o'.billing.subscriptions ≡ o.billing.subscriptions)
        × (o'.vouchers ≡ o.vouchers)
        × (Redis.get cache o'.billing.cached later (subscription_status_key s.vendor) ≡ (
            if ltb later (now + subscription_status_ttl * second)
            then some (cached_status status)
            else none))
  unfolding cancel_view set_subscription_status save_subscription notify
  cancel_view-unsent now later status at_period_end s o e le =
      let there =
        Redis.get-setex_same cache o.billing.cached now later (subscription_status_key s.vendor)
          subscription_status_ttl (cached_status status) le in
      (ground arith, ground arith, ground arith, ground arith)

  -- From a state in which each vendor has one subscription and the cache has, from now on, no status of a
  -- vendor but that of the stored subscription, each request of a vendor about its subscription leads to
  -- such a state, whatever Stripe answers, if the mails about an activation and a cancellation are
  -- sent: the start of a trial, by the view or by the profile's signal, the activation, the cancellation,
  -- the payment that is tried again and the reactivation.
  pub subscription_views-IsOffice :
      (now vendor : ℕ) (is_completed has_plan : Bool) (trial : Option (ℕ × ℕ))
      (answers : ActivationAnswers) (a : Activation)
      (cancel_answer : Option (SubscriptionStatus × Bool)) (mail_sent : Bool)
      (invoices : Option Bool) (pay : PayAnswer) (resume_answer : Option SubscriptionStatus)
      (o : Office cache)
      → answers.mail_sent ≡ true
      → mail_sent ≡ true
      → IsOffice now o
      → IsOffice now (start_trial cache now vendor is_completed has_plan trial o).1
        × IsOffice now
            (create_vendor_trial_subscription cache now vendor is_completed has_plan trial o)
        × IsOffice now (activate_view cache now answers vendor a o).1
        × IsOffice now (cancel_view cache now cancel_answer mail_sent vendor o).1
        × IsOffice now (retry cache now invoices pay vendor o).1
        × IsOffice now (reactivate cache now resume_answer vendor o).1
  subscription_views-IsOffice now vendor is_completed has_plan trial answers a cancel_answer
        mail_sent invoices pay resume_answer o sent sent' h =
      (
        (trials-IsOffice now vendor is_completed has_plan trial o h).0,
        (trials-IsOffice now vendor is_completed has_plan trial o h).1,
        activate_view-IsOffice now answers vendor a o sent h,
        subst (λ m. IsOffice now (cancel_view cache now cancel_answer m vendor o).1) (sym sent')
            (cancel_view-IsOffice now cancel_answer vendor o h),
        retry-IsOffice now invoices pay vendor o h,
        reactivate-IsOffice now resume_answer vendor o h,
      )
