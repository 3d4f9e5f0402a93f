-- ===== src/Billing/Unlisted.antt =====
-- What a payment that a vendor tries again does to the listing.
use juris.Base.{
  All, List, Option, [], arith, false, first_row, is_some, none, refl, some, subst, sym, true, ℕ,
  ◌∙◌, ◌∷◌, ◌≡◌,
}
use juris.Billing.{
  Billing, BillingKey, BillingValue, Invoice, Subscription, SubscriptionStatus, VendorSubscription,
  detect_trial_end_transition, or_keep, subscription_activated, vendor_key, with_stripe_id,
}
use juris.Billing.Events.{
  change_listing, handle_payment_succeeded, handle_subscription_updated, mark_paid, mark_updated,
  notify, save_subscription, set_days_left, set_days_until, set_subscription_status, updated_to,
  with_period_end,
}
use juris.Billing.Views.{
  Office, has_failed_payment, invoice_paid, on_billing, retry, retry_paid, save_status,
}
use juris.Redis.{Redis}
use juris.Table.{HasKeys, find, first_row-save_row, key-find, save_row-HasKeys}

-- What Stripe sends when a period is paid: the invoice, or the subscription as it is then.
pub data PaidEvent : Type 0 where
  pays : ℕ → Invoice → PaidEvent
  updates : ℕ → Subscription → PaidEvent

-- The event is about the subscription, which is active in it and had a trial in it if it had one in the row.
abbrev pub IsAbout : VendorSubscription → PaidEvent → Type 0
IsAbout s (pays now i) = i.subscription ≡ some s.stripe_subscription_id
IsAbout s (updates now e) =
    (e.id ≡ s.stripe_subscription_id)
    × (e.status ≡ SubscriptionStatus.active)
    × (is_some e.trial_end ≡ is_some s.trial_ends_at)

module _ (cache : Redis BillingKey BillingValue) where
  -- A vendor whose subscription is active although it is not listed; the other columns are the old ones.
  abbrev IsHidden : VendorSubscription → Billing cache → Type 0
  IsHidden s b =
      HasKeys vendor_key b.subscriptions
      × (b.is_listed s.vendor ≡ false)
      × (s' : VendorSubscription) × (first_row (with_stripe_id s.stripe_subscription_id)
            b.subscriptions
          ≡ some s')
      × (s'.vendor ≡ s.vendor)
      × (s'.stripe_subscription_id ≡ s.stripe_subscription_id)
      × (s'.status ≡ SubscriptionStatus.active)
      × (is_some s'.trial_ends_at ≡ is_some s.trial_ends_at)

  saved-IsHidden :
      (s s' s1 : VendorSubscription) (b : Billing cache)
      → HasKeys vendor_key b.subscriptions
      → b.is_listed s.vendor ≡ false
      → first_row (with_stripe_id s.stripe_subscription_id) b.subscriptions ≡ some s1
      → s1.vendor ≡ s.vendor
      → s'.vendor ≡ s.vendor
      → s'.stripe_subscription_id ≡ s.stripe_subscription_id
      → s'.status ≡ SubscriptionStatus.active
      → is_some s'.trial_ends_at ≡ is_some s.trial_ends_at
      → IsHidden s (save_subscription cache s' b)
  unfolding save_subscription
  saved-IsHidden s s' s1 b keys off found own own' id act trial = (
    save_row-HasKeys vendor_key s' b.subscriptions keys,
    off,
    s',
    first_row-save_row vendor_key (with_stripe_id s.stripe_subscription_id) s1 s' b.subscriptions
        keys found (own' ∙ sym own) (ground arith),
    own',
    id,
    act,
    trial,
  )

  -- The days left change neither the table nor the listing.
  days-IsHidden :
      (now v : ℕ) (end : Option ℕ) (s : VendorSubscription) (b : Billing cache)
      → IsHidden s b
      → IsHidden s (set_days_until cache now v end b)
  unfolding set_days_until set_days_left
  days-IsHidden now v none s b h = h
  days-IsHidden now v (some end) s b h = h

  period_end-IsHidden :
      (now : ℕ) (end : Option ℕ) (s s' : VendorSubscription) (b : Billing cache)
      → HasKeys vendor_key b.subscriptions
      → b.is_listed s.vendor ≡ false
      → first_row (with_stripe_id s.stripe_subscription_id) b.subscriptions ≡ some s'
      → s'.vendor ≡ s.vendor
      → s'.stripe_subscription_id ≡ s.stripe_subscription_id
      → s'.status ≡ SubscriptionStatus.active
      → is_some s'.trial_ends_at ≡ is_some s.trial_ends_at
      → IsHidden s
          (with_period_end cache now end (record s' { status = SubscriptionStatus.active }) b)
  period_end-IsHidden now none s s' b keys off found own id act trial =
      (keys, off, s', found, own, id, act, trial)
  period_end-IsHidden now (some end) s s' b keys off found own id act trial =
      let s2 : VendorSubscription = record s' {
        status = SubscriptionStatus.active;
        current_period_end = some end;
      } in
      days-IsHidden now s'.vendor (some end) s (save_subscription cache s2 b)
        (saved-IsHidden s s2 s' b keys off found own own id refl trial)

  paid-IsHidden :
      (now : ℕ) (i : Invoice) (s : VendorSubscription) (b : Billing cache)
      → i.subscription ≡ some s.stripe_subscription_id
      → IsHidden s b
      → IsHidden s (handle_payment_succeeded cache now i b)
  unfolding handle_payment_succeeded mark_paid
  paid-IsHidden now i s b same (keys, off, s', found, own, id, act, trial) =
      let b2 : Billing cache = record b { invoices = i.id ∷ b.invoices } in
      let s2 : VendorSubscription = record s' { status = SubscriptionStatus.active } in
      let result : handle_payment_succeeded cache now i b
          ≡ with_period_end cache now i.line_period_end s2 b2 =
        ground arith in
      subst (IsHidden s) (sym result)
        (period_end-IsHidden now i.line_period_end s s' b2 keys off found own id act trial)

  updated-IsHidden :
      (now : ℕ) (e : Subscription) (s : VendorSubscription) (b : Billing cache)
      → e.id ≡ s.stripe_subscription_id
      → e.status ≡ SubscriptionStatus.active
      → is_some e.trial_end ≡ is_some s.trial_ends_at
      → IsHidden s b
      → IsHidden s (handle_subscription_updated cache now e b)
  unfolding handle_subscription_updated mark_updated change_listing detect_trial_end_transition
      set_subscription_status
  updated-IsHidden now e s b same still kept (keys, off, s', found, own, id, act, trial) =
      let s2 : VendorSubscription = record (updated_to e s') {
        canceled_at = or_keep e.canceled_at s'.canceled_at;
      } in
      let b0 = save_subscription cache s2 b in
      let b1 = set_subscription_status cache now s'.vendor e.status b0 in
      let result : handle_subscription_updated cache now e b
          ≡ set_days_until cache now s'.vendor e.current_period_end b1 =
        ground arith in
      let hidden = saved-IsHidden s s2 s' b keys off found own own id still (ground arith) in
      subst (IsHidden s) (sym result) (days-IsHidden now s'.vendor e.current_period_end s b1 hidden)

  abbrev pub paid_events : List PaidEvent → Billing cache → Billing cache
  paid_events [] b = b
  paid_events (pays now i ∷ es) b = paid_events es (handle_payment_succeeded cache now i b)
  paid_events (updates now e ∷ es) b = paid_events es (handle_subscription_updated cache now e b)

  paid_events-IsHidden :
      (s : VendorSubscription) (es : List PaidEvent) (b : Billing cache)
      → All (IsAbout s) es
      → IsHidden s b
      → IsHidden s (paid_events es b)
  paid_events-IsHidden s [] b all h = h
  paid_events-IsHidden s (pays now i ∷ es) b all h =
      paid_events-IsHidden s es (handle_payment_succeeded cache now i b) all.1
        (paid-IsHidden now i s b all.0 h)
  paid_events-IsHidden s (updates now e ∷ es) b all h =
      let (same, still, kept) = all.0 in
      paid_events-IsHidden s es (handle_subscription_updated cache now e b) all.1
        (updated-IsHidden now e s b same still kept h)

  -- In a table with one subscription for each vendor and distinct Stripe ids, of which the row of a
  -- vendor that is not listed is past due or unpaid: when the vendor tries the payment again and Stripe
  -- takes it, the answer is a success, and after every sequence of Stripe's events that the subscription
  -- is paid, or active with its trial as before, the row is active and the vendor still not listed.
  pub retry-unlisted :
      (now : ℕ) (vendor : ℕ) (s : VendorSubscription) (o : Office cache) (es : List PaidEvent)
      → HasKeys vendor_key o.billing.subscriptions
      → find vendor_key vendor o.billing.subscriptions ≡ some s
      → first_row (with_stripe_id s.stripe_subscription_id) o.billing.subscriptions ≡ some s
      → has_failed_payment s.status ≡ true
      → o.billing.is_listed vendor ≡ false
      → All (IsAbout s) es
      → let done = retry cache now (some true) invoice_paid vendor o in
        let after = paid_events es done.1.billing in
        (done.0 ≡ retry_paid)
        × (after.is_listed vendor ≡ false)
        × ((s' : VendorSubscription) × (first_row
                (with_stripe_id s.stripe_subscription_id)
                after.subscriptions
              ≡ some s')
            × (s'.vendor ≡ vendor)
            × (s'.status ≡ SubscriptionStatus.active))
  unfolding retry save_status set_subscription_status notify
  retry-unlisted now vendor s o es keys found first failing off all =
      let s1 : VendorSubscription = record s { status = SubscriptionStatus.active } in
      let own = key-find vendor_key vendor o.billing.subscriptions s found in
      let b1 = notify cache vendor subscription_activated (save_status cache now s1 o.billing) in
      let hidden : IsHidden s b1 =
        saved-IsHidden s s1 s o.billing keys (ground arith) first refl refl refl refl refl in
      let (keys', off', s', found', own', id', act', trial') =
        paid_events-IsHidden s es b1 all hidden in
      let result : retry cache now (some true) invoice_paid vendor o
          ≡ (retry_paid, on_billing cache (λ b. b1) o) =
        ground arith in
      rw result (
        refl,
        subst (λ v. (paid_events es b1).is_listed v ≡ false) own off',
        (s', found', own' ∙ own, act'),
      )
