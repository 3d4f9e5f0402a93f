-- ===== src/Billing/Changes.antt =====
-- What the events of an update and of a payment do to the listing and to the cache.
use juris.Base.{
  Bool, Bool-cases, Option, arith, false, if◌then◌else◌, inl, inr, none, refl, some, subst, true, ℕ,
  ◌∙◌, ◌∷◌, ◌≡◌, ◌≢◌,
}
use juris.Billing.{
  Billing, BillingKey, BillingValue, Invoice, Notice, Subscription, VendorSubscription, active,
  is_active_status, is_past_due, is_trialing, or_keep, payment_failed_notice,
  subscription_activated, subscription_status_key, trial_ended, trial_ending, vendor_key,
  with_stripe_id,
}
use juris.Billing.Events.{
  change_listing, handle_payment_failed, handle_payment_succeeded, handle_subscription_deleted,
  handle_subscription_updated, handle_trial_to_paid_transition, handle_trial_will_end, list_vendor,
  mark_deleted, mark_paid, mark_past_due, mark_updated, notify, save_subscription, set_days_left,
  set_days_until, set_subscription_status, updated_to, warn_trial, with_period_end,
  with_subscription,
}
use juris.Billing.Listed.{
  IsBilling, IsFresh, IsShown, changed-IsBilling, mark_deleted-IsBilling, mark_past_due-IsBilling,
  set_days_left-status, set_days_until-IsBilling, set_days_until-status, status_written,
  with_subscription-IsBilling,
}
use juris.Redis.{Redis}
use juris.Table.{first_row_fits}

module _ (cache : Redis BillingKey BillingValue) where
  open cache use {get}

  -- What the change of a listing leaves alone.
  change_listing-kept :
      (now later v : ℕ) (s : VendorSubscription) (e : Subscription) (b : Billing cache)
      → let b' = change_listing cache now s e b in
        (b'.subscriptions ≡ b.subscriptions)
        × (v ≢ s.vendor → b'.is_listed v ≡ b.is_listed v)
        × (get b'.cached later (subscription_status_key v)
            ≡ get b.cached later (subscription_status_key v))
  unfolding change_listing handle_trial_to_paid_transition list_vendor notify set_days_left
      set_days_until
  change_listing-kept now later v s e b = (
    ground arith,
    λ differ. ground arith,
    ground (
      arith,
      set_days_left-status cache now s.vendor 0 later v
          (notify cache s.vendor payment_failed_notice (list_vendor cache s.vendor false b)),
      set_days_left-status cache now s.vendor 0 later v
          (notify cache s.vendor trial_ended (list_vendor cache s.vendor false b)),
      set_days_until-status cache now s.vendor e.current_period_end later v
          (notify cache s.vendor subscription_activated (list_vendor cache s.vendor true b)),
    ),
  )

  -- The vendor is listed by the new status.
  change_listing-IsShown :
      (now : ℕ) (s s' : VendorSubscription) (e : Subscription) (b : Billing cache)
      → s'.vendor ≡ s.vendor
      → s'.status ≡ e.status
      → IsShown cache b.is_listed s
      → IsShown cache (change_listing cache now s e b).is_listed s'
  unfolding change_listing handle_trial_to_paid_transition list_vendor notify
  change_listing-IsShown now s s' e b own new shown = (ground arith, ground arith)

  -- The row of an update is saved, its status cached and its vendor listed or not.
  change_listing-IsBilling :
      (now : ℕ) (e : Subscription) (s : VendorSubscription) (canceled_at : Option ℕ)
      (b : Billing cache)
      → IsBilling cache now b
      → IsShown cache b.is_listed s
      → let s' : VendorSubscription = record (updated_to e s) { canceled_at = canceled_at } in
        IsBilling cache now (
          change_listing cache now s e
            (set_subscription_status cache now s.vendor e.status (save_subscription cache s' b)))
  unfolding save_subscription set_subscription_status
  change_listing-IsBilling now e s canceled_at b h shown =
      let s' : VendorSubscription = record (updated_to e s) { canceled_at = canceled_at } in
      let b0 = save_subscription cache s' b in
      let b1 = set_subscription_status cache now s.vendor e.status b0 in
      let (set, kept) = status_written cache now s.vendor e.status b0 in
      changed-IsBilling cache now s' b (change_listing cache now s e b1) h
        (change_listing-kept now now s.vendor s e b1).0
        (change_listing-IsShown now s s' e b1 refl refl shown)
        (λ v differ. (change_listing-kept now now v s e b1).1 differ)
        (
          λ later le. rw (change_listing-kept now later s.vendor s e b1).2 (set later le),
          λ later v differ. (change_listing-kept now later v s e b1).2 ∙ kept later v differ,
        )

  mark_updated-IsBilling :
      (now : ℕ) (e : Subscription) (s : VendorSubscription) (b : Billing cache)
      → IsBilling cache now b
      → IsShown cache b.is_listed s
      → IsBilling cache now (mark_updated cache now e s b)
  unfolding mark_updated
  mark_updated-IsBilling now e s b h shown =
      let s' : VendorSubscription = record (updated_to e s) {
        canceled_at = or_keep e.canceled_at s.canceled_at;
      } in
      let b1 = set_subscription_status cache now s.vendor e.status (save_subscription cache s' b) in
      let moved =
        change_listing-IsBilling now e s (or_keep e.canceled_at s.canceled_at) b h shown in
      elim (Bool-cases (is_active_status e.status)) [
        | inl y ↦ rw y (
            set_days_until-IsBilling cache now s.vendor e.current_period_end
              (change_listing cache now s e b1) moved)
        | inr n ↦ rw n moved
      ]

  -- The part of a payment that depends on the old status.
  activated-IsBilling :
      (now : ℕ) (s : VendorSubscription) (b : Billing cache)
      → IsBilling cache now b
      → IsBilling cache now (
          list_vendor cache s.vendor true (
            set_subscription_status cache now s.vendor active
              (save_subscription cache (record s { status = active }) b)))
  unfolding list_vendor set_subscription_status save_subscription
  activated-IsBilling now s b h =
      let s' : VendorSubscription = record s { status = active } in
      let b0 = save_subscription cache s' b in
      let b1 = set_subscription_status cache now s.vendor active b0 in
      changed-IsBilling cache now s' b (list_vendor cache s.vendor true b1) h refl
        (ground arith, ground arith) (λ v differ. ground arith)
        (status_written cache now s.vendor active b0)

  -- A row that is saved with the status that it has.
  same_status-IsBilling :
      (now : ℕ) (s : VendorSubscription) (b : Billing cache)
      → IsBilling cache now b
      → IsShown cache b.is_listed s
      → IsFresh cache now b.cached s
      → IsBilling cache now (save_subscription cache s b)
  unfolding save_subscription
  same_status-IsBilling now s b h shown fresh =
      changed-IsBilling cache now s b (save_subscription cache s b) h refl shown (λ v differ. refl)
        (fresh, λ later v differ. refl)

  period_end-IsBilling :
      (now : ℕ) (end : Option ℕ) (s : VendorSubscription) (b : Billing cache)
      → IsBilling cache now b
      → IsShown cache b.is_listed s
      → IsFresh cache now b.cached s
      → IsBilling cache now (with_period_end cache now end s b)
  period_end-IsBilling now none s b h shown fresh = h
  period_end-IsBilling now (some end) s b h shown fresh =
      let s' : VendorSubscription = record s { current_period_end = some end } in
      set_days_until-IsBilling cache now s.vendor (some end) (save_subscription cache s' b)
        (same_status-IsBilling now s' b h shown fresh)

  notified-IsBilling :
      (now vendor : ℕ) (n : Notice) (told : Bool) (b : Billing cache)
      → IsBilling cache now b
      → IsBilling cache now (if told then notify cache vendor n b else b)
  unfolding notify
  notified-IsBilling now vendor n true b h = h
  notified-IsBilling now vendor n false b h = h

  -- A subscription that is paid is active.
  mark_paid-IsBilling :
      (now : ℕ) (i : Invoice) (s : VendorSubscription) (b : Billing cache)
      → IsBilling cache now b
      → IsShown cache b.is_listed s
      → IsFresh cache now b.cached s
      → IsBilling cache now (mark_paid cache now i s b)
  unfolding mark_paid list_vendor notify
  mark_paid-IsBilling now i s b h shown fresh =
      let s' : VendorSubscription = record s { status = active } in
      let b0 = save_subscription cache s' b in
      let b1 =
        list_vendor cache s.vendor true (set_subscription_status cache now s.vendor active b0) in
      elim (Bool-cases (is_active_status s.status)) [
        | inl y ↦
            let b2 : Billing cache = record b { invoices = i.id ∷ b.invoices } in
            let paid : s.status ≡ active = ground arith in
            let done =
              period_end-IsBilling now i.line_period_end s' b2 h (λ z. shown.0 y, λ z. cc)
                (subst (λ st. IsFresh cache now b.cached (record s { status = st })) paid fresh) in
            rw y
              (notified-IsBilling now s.vendor subscription_activated (is_past_due s.status) _ done)
        | inr n ↦
            let b2 : Billing cache = record b1 { invoices = i.id ∷ b1.invoices } in
            let done =
              period_end-IsBilling now i.line_period_end s' b2 (activated-IsBilling now s b h)
                (ground arith, ground arith) (status_written cache now s.vendor active b0).0 in
            rw n
              (notified-IsBilling now s.vendor subscription_activated (is_past_due s.status) _ done)
      ]

  -- From a billing in which each vendor has one subscription, every vendor with an active one is listed
  -- and none with a canceled, unpaid or past due one, and the cache has, from now on, no status of a
  -- vendor but that of the stored subscription, each event leads to such a billing: the update and
  -- the deletion of a subscription, a payment, a failed payment and the end of a trial ahead.
  pub subscription_events-IsBilling :
      (now id : ℕ) (e : Subscription) (i : Invoice) (b : Billing cache)
      → IsBilling cache now b
      → IsBilling cache now (handle_subscription_updated cache now e b)
        × IsBilling cache now (handle_subscription_deleted cache now id b)
        × IsBilling cache now (handle_payment_succeeded cache now i b)
        × IsBilling cache now (handle_payment_failed cache now i b)
        × IsBilling cache now (handle_trial_will_end cache id b)
  unfolding handle_subscription_updated handle_subscription_deleted handle_payment_succeeded
      handle_payment_failed handle_trial_will_end
  subscription_events-IsBilling now id e i b h = (
    with_subscription-IsBilling cache now e.id (mark_updated cache now e) b h (λ s f.
        mark_updated-IsBilling now e s b h (
          first_row_fits vendor_key (with_stripe_id e.id) (IsShown cache b.is_listed)
            b.subscriptions s h.1 f)),
    with_subscription-IsBilling cache now id (mark_deleted cache now) b h
        (λ s f. mark_deleted-IsBilling cache now s b h),
    paid i.subscription,
    failed_payment i.subscription,
    with_subscription-IsBilling cache now id (warn_trial cache) b h
        (λ s f. notified-IsBilling now s.vendor trial_ending (is_trialing s.status) b h),
  )
    where
      paid :
          (o : Option ℕ)
          → IsBilling cache now
              (elim o [ none ↦ b | some k ↦ with_subscription cache k (mark_paid cache now i) b ])
      paid none = h
      paid (some k) = with_subscription-IsBilling cache now k (mark_paid cache now i) b h (λ s f.
          mark_paid-IsBilling now i s b h
            (first_row_fits vendor_key (with_stripe_id k) (IsShown cache b.is_listed)
              b.subscriptions s h.1 f)
            (first_row_fits vendor_key (with_stripe_id k) (IsFresh cache now b.cached)
              b.subscriptions s h.2 f))

      failed_payment :
          (o : Option ℕ)
          → IsBilling cache now
              (elim o [ none ↦ b | some k ↦ with_subscription cache k (mark_past_due cache now) b ])
      failed_payment none = h
      failed_payment (some k) =
          with_subscription-IsBilling cache now k (mark_past_due cache now) b h
            (λ s f. mark_past_due-IsBilling cache now s b h)
