-- ===== src/Billing/Events.antt =====
-- The handlers of the subscription events.
use juris.Base.{
  Bool, Option, false, first_row, if◌then◌else◌, none, not, some, true, ℕ, ◌&&◌, ◌-◌, ◌/◌, ◌==◌,
  ◌∷◌,
}
use juris.Billing.{
  Billing, BillingKey, BillingValue, Invoice, Notice, Subscription, SubscriptionStatus,
  VendorSubscription, active, cached_days, cached_status, canceled, days_left_key, days_left_ttl,
  detect_trial_end_transition, incomplete, incomplete_expired, is_active_status, is_past_due,
  is_suspended, is_trialing, or_keep, past_due, payment_failed_notice, subscription_activated,
  subscription_status_key, subscription_status_ttl, trial_ended, trial_ending, unpaid, vendor_key,
  with_stripe_id,
}
use juris.Clock.{day}
use juris.Redis.{Redis}
use juris.Table.{save_row}

-- The row that an event of creation or update leaves.
abbrev pub updated_to : Subscription → VendorSubscription → VendorSubscription
updated_to e s = record s {
  status = e.status;
  trial_ends_at = or_keep e.trial_end s.trial_ends_at;
  current_period_end = or_keep e.current_period_end s.current_period_end;
}

module _ (cache : Redis BillingKey BillingValue) where
  open cache use {Store, setex}

  unfoldable pub save_subscription : VendorSubscription → Billing cache → Billing cache
  save_subscription s b = record b { subscriptions = save_row vendor_key s b.subscriptions }

  unfoldable pub set_subscription_status :
      ℕ → ℕ → SubscriptionStatus → Billing cache → Billing cache
  set_subscription_status now vendor status b = record b {
    cached =
        setex b.cached now (subscription_status_key vendor) subscription_status_ttl
          (cached_status status);
  }

  unfoldable pub set_days_left : ℕ → ℕ → ℕ → Billing cache → Billing cache
  set_days_left now vendor days b = record b {
    cached = setex b.cached now (days_left_key vendor) days_left_ttl (cached_days days);
  }

  -- `set_days_left(vendor.id, max(0, (end - now()).days))` where the event has the end
  unfoldable pub set_days_until : ℕ → ℕ → Option ℕ → Billing cache → Billing cache
  unfolding set_days_left
  set_days_until now vendor none b = b
  set_days_until now vendor (some end) b = set_days_left now vendor ((end - now) / day) b

  -- `activate_listing` and `deactivate_listing`
  unfoldable pub list_vendor : ℕ → Bool → Billing cache → Billing cache
  list_vendor vendor listed b = record b {
    is_listed = λ v. if v == vendor then listed else b.is_listed v;
  }

  unfoldable pub notify : ℕ → Notice → Billing cache → Billing cache
  notify vendor n b = record b { notices = (vendor, n) ∷ b.notices }

  -- Nothing happens for a subscription that is not known.
  abbrev pub with_subscription :
      ℕ → (VendorSubscription → Billing cache → Billing cache) → Billing cache → Billing cache
  with_subscription id f b = elim (first_row (with_stripe_id id) b.subscriptions) [
    | none ↦ b
    | some s ↦ f s b
  ]

  -- What the handlers do with the row that they find.
  unfoldable pub mark_created :
      ℕ → Subscription → VendorSubscription → Billing cache → Billing cache
  unfolding set_subscription_status save_subscription set_days_until
  mark_created now e s b =
      let b1 =
        set_subscription_status now s.vendor e.status (save_subscription (updated_to e s) b) in
      if is_trialing e.status then set_days_until now s.vendor e.trial_end b1 else b1

  unfoldable pub handle_subscription_created : ℕ → Subscription → Billing cache → Billing cache
  handle_subscription_created now e = with_subscription e.id (mark_created now e)

  unfoldable pub handle_trial_to_paid_transition :
      ℕ → ℕ → Subscription → Billing cache → Billing cache
  unfolding list_vendor notify set_days_left set_days_until
  handle_trial_to_paid_transition now vendor e b = elim e.status [
    | active ↦
        set_days_until now vendor e.current_period_end
          (notify vendor subscription_activated (list_vendor vendor true b))
    | past_due ↦
        set_days_left now vendor 0
          (notify vendor payment_failed_notice (list_vendor vendor false b))
    | unpaid ↦
        set_days_left now vendor 0
          (notify vendor payment_failed_notice (list_vendor vendor false b))
    | incomplete ↦
        set_days_left now vendor 0 (notify vendor trial_ended (list_vendor vendor false b))
    | incomplete_expired ↦
        set_days_left now vendor 0 (notify vendor trial_ended (list_vendor vendor false b))
    | _ ↦ list_vendor vendor false b
  ]

  -- The listing, once the row is saved: the end of a trial first, then the other changes of status
  unfoldable pub change_listing :
      ℕ → VendorSubscription → Subscription → Billing cache → Billing cache
  unfolding handle_trial_to_paid_transition list_vendor detect_trial_end_transition
  change_listing now s e b =
      if detect_trial_end_transition now s.status e.status s.trial_ends_at e.trial_end
      then handle_trial_to_paid_transition now s.vendor e b
      else if is_active_status e.status && not (is_active_status s.status)
      then list_vendor s.vendor true b
      else if is_suspended e.status && not (is_suspended s.status)
      then list_vendor s.vendor false b
      else b

  unfoldable pub mark_updated :
      ℕ → Subscription → VendorSubscription → Billing cache → Billing cache
  unfolding save_subscription
  mark_updated now e s b =
      let s' = record (updated_to e s) { canceled_at = or_keep e.canceled_at s.canceled_at } in
      let b1 = set_subscription_status now s.vendor e.status (save_subscription s' b) in
      let b2 = change_listing now s e b1 in
      if is_active_status e.status then set_days_until now s.vendor e.current_period_end b2 else b2

  unfoldable pub handle_subscription_updated : ℕ → Subscription → Billing cache → Billing cache
  handle_subscription_updated now e = with_subscription e.id (mark_updated now e)

  unfoldable pub mark_deleted : ℕ → VendorSubscription → Billing cache → Billing cache
  unfolding save_subscription list_vendor
  mark_deleted now s b = list_vendor s.vendor false (
      set_days_left now s.vendor 0 (
        set_subscription_status now s.vendor canceled
          (save_subscription (record s { status = canceled; canceled_at = some now }) b)))

  unfoldable pub handle_subscription_deleted : ℕ → ℕ → Billing cache → Billing cache
  handle_subscription_deleted now id = with_subscription id (mark_deleted now)

  -- The end of the period in the invoice's lines
  abbrev pub with_period_end : ℕ → Option ℕ → VendorSubscription → Billing cache → Billing cache
  with_period_end now none s b = b
  with_period_end now (some end) s b =
      set_days_until now s.vendor (some end)
        (save_subscription (record s { current_period_end = some end }) b)

  unfoldable pub mark_paid : ℕ → Invoice → VendorSubscription → Billing cache → Billing cache
  unfolding save_subscription list_vendor notify
  mark_paid now i s b =
      let s' = record s { status = active } in
      let b1 =
        if is_active_status s.status
        then b
        else list_vendor s.vendor true
            (set_subscription_status now s.vendor active (save_subscription s' b)) in
      let b2 : Billing cache = record b1 { invoices = i.id ∷ b1.invoices } in
      let b3 = with_period_end now i.line_period_end s' b2 in
      if is_past_due s.status then notify s.vendor subscription_activated b3 else b3

  unfoldable pub handle_payment_succeeded : ℕ → Invoice → Billing cache → Billing cache
  handle_payment_succeeded now i b = elim i.subscription [
    | none ↦ b
    | some id ↦ with_subscription id (mark_paid now i) b
  ]

  unfoldable pub mark_past_due : ℕ → VendorSubscription → Billing cache → Billing cache
  unfolding save_subscription list_vendor notify
  mark_past_due now s b = notify s.vendor payment_failed_notice (
      list_vendor s.vendor false (
        set_days_left now s.vendor 0 (
          set_subscription_status now s.vendor past_due
            (save_subscription (record s { status = past_due }) b))))

  unfoldable pub handle_payment_failed : ℕ → Invoice → Billing cache → Billing cache
  handle_payment_failed now i b = elim i.subscription [
    | none ↦ b
    | some id ↦ with_subscription id (mark_past_due now) b
  ]

  abbrev pub warn_trial : VendorSubscription → Billing cache → Billing cache
  warn_trial s b = if is_trialing s.status then notify s.vendor trial_ending b else b

  unfoldable pub handle_trial_will_end : ℕ → Billing cache → Billing cache
  handle_trial_will_end id = with_subscription id warn_trial
