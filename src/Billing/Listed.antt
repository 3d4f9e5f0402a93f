-- ===== src/Billing/Listed.antt =====
-- Which vendors are listed, and what the cache says of their subscriptions.
use juris.Base.{
  All, Bool, Bool-cases, Option, arith, false, first_row, inl, inr, ltb, none, refl, some, subst,
  sym, true, ℕ, ◌*◌, ◌+◌, ◌-◌, ◌/◌, ◌==◌, ◌∙◌, ◌≡◌, ◌≢◌, ◌≤◌, ◌⊎◌,
}
use juris.Billing.{
  Billing, BillingKey, BillingValue, SubscriptionStatus, VendorSubscription, cached_days,
  cached_status, days_left_key, days_left_ttl, is_active_status, is_suspended, past_due,
  subscription_status_key, subscription_status_ttl, vendor_key, with_stripe_id,
}
use juris.Billing.Events.{
  list_vendor, mark_deleted, mark_past_due, save_subscription, set_days_left, set_days_until,
  set_subscription_status, with_subscription,
}
use juris.Clock.{day, second}
use juris.Redis.{Redis}
use juris.Table.{All-map, All-save_row_other, HasKeys, save_row, save_row-HasKeys}

module _ (cache : Redis BillingKey BillingValue) where
  open cache use {Store, get, setex, get-setex_same, get-setex_other}

  -- A vendor with an active subscription is listed, one with a suspended subscription is not.
  abbrev pub IsShown : (ℕ → Bool) → VendorSubscription → Type 0
  IsShown is_listed s =
      (is_active_status s.status ≡ true → is_listed s.vendor ≡ true)
      × (is_suspended s.status ≡ true → is_listed s.vendor ≡ false)

  -- From this instant on, the cache has no status for the vendor or that of the row.
  abbrev pub IsFresh : ℕ → Store → VendorSubscription → Type 0
  IsFresh now s row =
      (later : ℕ)
      → now ≤ later
      → (get s later (subscription_status_key row.vendor) ≡ none)
        ⊎ (get s later (subscription_status_key row.vendor) ≡ some (cached_status row.status))

  -- Each vendor has one subscription, which the cache follows.
  abbrev pub IsCurrent : ℕ → Billing cache → Type 0
  IsCurrent now b = HasKeys vendor_key b.subscriptions × All (IsFresh now b.cached) b.subscriptions

  -- Each vendor has one subscription, which the listing and the cache follow.
  abbrev pub IsBilling : ℕ → Billing cache → Type 0
  IsBilling now b =
      HasKeys vendor_key b.subscriptions
      × All (IsShown b.is_listed) b.subscriptions
      × All (IsFresh now b.cached) b.subscriptions

  -- A cache after a vendor's status was written, compared with the one before.
  abbrev pub Sets : ℕ → ℕ → SubscriptionStatus → Store → Store → Type 0
  Sets now vendor status c c' =
      ((later : ℕ)
        → now ≤ later
        → (get c' later (subscription_status_key vendor) ≡ none)
          ⊎ (get c' later (subscription_status_key vendor) ≡ some (cached_status status)))
      × ((later v : ℕ)
          → v ≢ vendor
          → get c' later (subscription_status_key v) ≡ get c later (subscription_status_key v))

  pub status_written :
      (now vendor : ℕ) (status : SubscriptionStatus) (b : Billing cache)
      → Sets now vendor status b.cached (set_subscription_status cache now vendor status b).cached
  unfolding set_subscription_status
  status_written now vendor status b = (
    λ later le.
        let there =
          get-setex_same b.cached now later (subscription_status_key vendor) subscription_status_ttl
            (cached_status status) le in
        elim (Bool-cases (ltb later (now + subscription_status_ttl * second))) [
          | inl live ↦ inr (ground arith)
          | inr late ↦ inl (ground arith)
        ],
    λ later v differ.
        get-setex_other b.cached now later (subscription_status_key vendor)
          (subscription_status_key v) subscription_status_ttl (cached_status status)
          (λ e. differ (cc)),
  )

  -- The days left are under another key.
  pub set_days_left-status :
      (now vendor days later v : ℕ) (b : Billing cache)
      → get (set_days_left cache now vendor days b).cached later (subscription_status_key v)
        ≡ get b.cached later (subscription_status_key v)
  unfolding set_days_left
  set_days_left-status now vendor days later v b =
      get-setex_other b.cached now later (days_left_key vendor) (subscription_status_key v)
        days_left_ttl (cached_days days) (λ e. cc)

  -- The cache follows one row that is saved, if it has its status and those of the other vendors stay.
  pub changed-IsCurrent :
      (now : ℕ) (s : VendorSubscription) (b b' : Billing cache)
      → IsCurrent now b
      → b'.subscriptions ≡ save_row vendor_key s b.subscriptions
      → Sets now s.vendor s.status b.cached b'.cached
      → IsCurrent now b'
  changed-IsCurrent now s b b' (keys, fresh) same (set, kept) = rw same (
    save_row-HasKeys vendor_key s b.subscriptions keys,
    All-save_row_other vendor_key (IsFresh now b'.cached) s b.subscriptions keys
        (All-map vendor_key (IsFresh now b.cached)
          (λ x. (x.vendor == s.vendor) ≡ false → IsFresh now b'.cached x) b.subscriptions
          (λ x fr n later le.
            subst (λ o. (o ≡ none) ⊎ (o ≡ some (cached_status x.status)))
              (sym (kept later x.vendor (ground arith))) (fr later le))
          fresh)
        set,
  )

  -- So does the billing, if the listing does too and that of the other vendors stays.
  pub changed-IsBilling :
      (now : ℕ) (s : VendorSubscription) (b b' : Billing cache)
      → IsBilling now b
      → b'.subscriptions ≡ save_row vendor_key s b.subscriptions
      → IsShown b'.is_listed s
      → ((v : ℕ) → v ≢ s.vendor → b'.is_listed v ≡ b.is_listed v)
      → Sets now s.vendor s.status b.cached b'.cached
      → IsBilling now b'
  changed-IsBilling now s b b' (keys, shown, fresh) same listed others sets =
      let (keys', fresh') = changed-IsCurrent now s b b' (keys, fresh) same sets in
      (
        keys',
        rw same (
            All-save_row_other vendor_key (IsShown b'.is_listed) s b.subscriptions keys
              (All-map vendor_key (IsShown b.is_listed)
                (λ x. (x.vendor == s.vendor) ≡ false → IsShown b'.is_listed x) b.subscriptions
                (λ x sh n. let o = others x.vendor (ground arith) in ground arith) shown)
              listed),
        fresh',
      )

  -- The days are under another key.
  pub set_days_left-IsCurrent :
      (now vendor days : ℕ) (b : Billing cache)
      → IsCurrent now b
      → IsCurrent now (set_days_left cache now vendor days b)
  unfolding set_days_left
  set_days_left-IsCurrent now vendor days b (keys, fresh) =
      let b' = set_days_left cache now vendor days b in
      (
        keys,
        All-map vendor_key (IsFresh now b.cached) (IsFresh now b'.cached) b.subscriptions
            (λ x fr later le.
              subst (λ o. (o ≡ none) ⊎ (o ≡ some (cached_status x.status)))
                (sym (set_days_left-status now vendor days later x.vendor b)) (fr later le))
            fresh,
      )

  pub with_subscription-IsBilling :
      (now id : ℕ) (f : VendorSubscription → Billing cache → Billing cache) (b : Billing cache)
      → IsBilling now b
      → ((s : VendorSubscription)
          → first_row (with_stripe_id id) b.subscriptions ≡ some s
          → IsBilling now (f s b))
      → IsBilling now (with_subscription cache id f b)
  with_subscription-IsBilling now id f b h step =
      go (first_row (with_stripe_id id) b.subscriptions) refl
    where
      go :
          (o : Option VendorSubscription)
          → first_row (with_stripe_id id) b.subscriptions ≡ o
          → IsBilling now (elim o [ none ↦ b | some s ↦ f s b ])
      go none e = h
      go (some s) e = step s e

  pub set_days_until-status :
      (now vendor : ℕ) (end : Option ℕ) (later v : ℕ) (b : Billing cache)
      → get (set_days_until cache now vendor end b).cached later (subscription_status_key v)
        ≡ get b.cached later (subscription_status_key v)
  unfolding set_days_until
  set_days_until-status now vendor none later v b = refl
  set_days_until-status now vendor (some end) later v b =
      set_days_left-status now vendor ((end - now) / day) later v b

  -- The days do not matter.
  pub set_days_until-IsBilling :
      (now vendor : ℕ) (end : Option ℕ) (b : Billing cache)
      → IsBilling now b
      → IsBilling now (set_days_until cache now vendor end b)
  unfolding set_days_until set_days_left
  set_days_until-IsBilling now vendor none b h = h
  set_days_until-IsBilling now vendor (some end) b (keys, shown, fresh) =
      let (keys', fresh') =
        set_days_left-IsCurrent now vendor ((end - now) / day) b (keys, fresh) in
      (keys', shown, fresh')

  -- A row with a suspended status, saved and cached, its vendor no longer listed.
  suspended-IsBilling :
      (now : ℕ) (s : VendorSubscription) (b : Billing cache)
      → is_suspended s.status ≡ true
      → IsBilling now b
      → IsBilling now (
          list_vendor cache s.vendor false (
            set_days_left cache now s.vendor 0
              (set_subscription_status cache now s.vendor s.status (save_subscription cache s b))))
  unfolding list_vendor set_days_left set_subscription_status save_subscription
  suspended-IsBilling now s b closed h =
      let b1 = set_subscription_status cache now s.vendor s.status (save_subscription cache s b) in
      let b2 = set_days_left cache now s.vendor 0 b1 in
      let (set, kept) = status_written now s.vendor s.status (save_subscription cache s b) in
      changed-IsBilling now s b (list_vendor cache s.vendor false b2) h refl
        (ground arith, ground arith) (λ v differ. ground arith)
        (
          λ later le. rw (set_days_left-status now s.vendor 0 later s.vendor b1) (set later le),
          λ later v differ. set_days_left-status now s.vendor 0 later v b1 ∙ kept later v differ,
        )

  pub mark_deleted-IsBilling :
      (now : ℕ) (s : VendorSubscription) (b : Billing cache)
      → IsBilling now b
      → IsBilling now (mark_deleted cache now s b)
  unfolding mark_deleted
  mark_deleted-IsBilling now s b h =
      suspended-IsBilling now
        (record s { status = SubscriptionStatus.canceled; canceled_at = some now }) b refl h

  pub mark_past_due-IsBilling :
      (now : ℕ) (s : VendorSubscription) (b : Billing cache)
      → IsBilling now b
      → IsBilling now (mark_past_due cache now s b)
  unfolding mark_past_due
  mark_past_due-IsBilling now s b h =
      suspended-IsBilling now (record s { status = past_due }) b refl h
