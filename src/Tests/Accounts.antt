-- ===== src/Tests/Accounts.antt =====
-- Runs of the services around an account: codes, tokens, subscriptions and identity checks, each
-- with a Redis that is a function from keys.
use juris.Base.{
  All, Bool, Bool-cases, List, [], arith, false, inl, inr, none, refl, some, some_eq, subst, true,
  ℕ, ◌*◌, ◌++◌, ◌==◌, ◌∷◌, ◌≡◌, ◌≢◌,
}
use juris.Billing.{
  Billing, BillingKey, BillingValue, Invoice, Subscription, SubscriptionStatus, VendorSubscription,
  days_left_key, past_due, subscription_status_key,
}
use juris.Billing.Changes.{subscription_events-IsBilling}
use juris.Billing.Events.{
  handle_payment_failed, handle_payment_succeeded, handle_subscription_deleted,
  handle_subscription_updated, handle_trial_will_end,
}
use juris.Billing.Listed.{IsBilling}
use juris.Billing.Vouchers.{
  Desk, IsDesk, StripeAnswers, Voucher, apply_voucher, apply_voucher-IsDesk,
}
use juris.Clock.{second}
use juris.Kyc.{
  CheckStatus, Profile, VerificationSession, handle_kyc_event, in_progress, profile_key,
  start_verification,
}
use juris.Kyc.Mirrored.{
  IsMirrored, IsNew, after_kyc_calls, canceled-start_verification, event, kyc_calls-IsMirrored,
  request,
}
use juris.Otp.{
  Env, OtpData, OtpKey, User, code_sent, email_change, new_data, otp_key, password_reset, sms_otp,
}
use juris.Otp.Ends.{lockout-ends}
use juris.Otp.Guesses.{Guess, try_all, try_all-refused}
use juris.Otp.Sent.{send-verify, send_password_reset-unlocks}
use juris.Otp.Service.{reset_key, send_password_reset_otp, send_sms_otp, sms_key, verify_sms_otp}
use juris.Redis.{Redis, table}
use juris.Status.{KycStatus}
use juris.Table.{find}
use juris.Text.{strip}
use juris.Tokens.{
  CacheKey, CacheValue, TokenData, access, invalidate_user_tokens, refresh, store_tokens, token_key,
  user_tokens, validate_token,
}
use juris.Tokens.Linked.{IsLinked, store_tokens-IsLinked}
use juris.Tokens.Valid.{invalidate_user_tokens-refused}

-- Keys that differ do not pass a test that only equal keys pass.
pub ne_of_sound :
    {K : Type 0} (same : K → K → Bool)
    → ((k j : K) → same k j ≡ true → k ≡ j)
    → (k j : K) → k ≢ j
    → same k j ≡ false
ne_of_sound same sound k j h = elim (Bool-cases (same k j)) [
  | inl y ↦ absurd (h (sound k j y))
  | inr n ↦ n
]

abbrev pub same_otp_key : OtpKey → OtpKey → Bool
same_otp_key (otp_key sms_otp u) (otp_key sms_otp v) = u == v
same_otp_key (otp_key email_change u) (otp_key email_change v) = u == v
same_otp_key (otp_key password_reset u) (otp_key password_reset v) = u == v
same_otp_key _ _ = false

pub same_otp_key_refl : (k : OtpKey) → same_otp_key k k ≡ true
same_otp_key_refl k = ground arith

pub same_otp_key_sound : (k j : OtpKey) → same_otp_key k j ≡ true → k ≡ j
same_otp_key_sound k j h = ground arith

abbrev pub otp_redis : Redis OtpKey OtpData
otp_redis = table same_otp_key same_otp_key_refl (ne_of_sound same_otp_key same_otp_key_sound)

abbrev pub same_cache_key : CacheKey → CacheKey → Bool
same_cache_key (token_key access t) (token_key access u) = t == u
same_cache_key (token_key refresh t) (token_key refresh u) = t == u
same_cache_key (user_tokens t) (user_tokens u) = t == u
same_cache_key _ _ = false

pub same_cache_key_refl : (k : CacheKey) → same_cache_key k k ≡ true
same_cache_key_refl k = ground arith

pub same_cache_key_sound : (k j : CacheKey) → same_cache_key k j ≡ true → k ≡ j
same_cache_key_sound k j h = ground arith

abbrev pub token_cache : Redis CacheKey CacheValue
token_cache =
    table same_cache_key same_cache_key_refl (ne_of_sound same_cache_key same_cache_key_sound)

abbrev pub same_billing_key : BillingKey → BillingKey → Bool
same_billing_key (subscription_status_key t) (subscription_status_key u) = t == u
same_billing_key (days_left_key t) (days_left_key u) = t == u
same_billing_key _ _ = false

pub same_billing_key_refl : (k : BillingKey) → same_billing_key k k ≡ true
same_billing_key_refl k = ground arith

pub same_billing_key_sound : (k j : BillingKey) → same_billing_key k j ≡ true → k ≡ j
same_billing_key_sound k j h = ground arith

abbrev pub billing_cache : Redis BillingKey BillingValue
billing_cache =
    table same_billing_key same_billing_key_refl
      (ne_of_sound same_billing_key same_billing_key_sound)

abbrev client : User
client = record {
  id = 12;
  email = 1;
  username = 1;
  has_phone_number = true;
  has_initiate_login = true;
}

-- "123456"
abbrev pub right_code : List ℕ
right_code = 49 ∷ 50 ∷ 51 ∷ 52 ∷ 53 ∷ 54 ∷ []

abbrev pub at_second : ℕ → Env
at_second t = record { now = t * second; connected = true; delivered = true }

abbrev pub no_codes : Redis.Store otp_redis
no_codes k = none

abbrev sent_store : Redis.Store otp_redis
sent_store = (send_sms_otp otp_redis (at_second 100) 5 right_code client false no_codes).1

abbrev guess : ℕ → List ℕ → Guess
guess t text = record { env = at_second t; text = text }

abbrev wrong_guesses : List Guess
wrong_guesses =
    guess 101 (49 ∷ [])
    ∷ guess 102 (50 ∷ [])
    ∷ guess 103 (51 ∷ [])
    ∷ guess 104 (52 ∷ [])
    ∷ guess 105 (53 ∷ [])
    ∷ []

try_all-refused_example :
    (try_all otp_redis (wrong_guesses ++ guess 106 right_code ∷ []) client sent_store).0 ≡ false
unfolding strip send_sms_otp
try_all-refused_example =
    try_all-refused otp_redis (100 * second) wrong_guesses (guess 106 right_code ∷ []) client
      right_code sent_store (λ d e. ground arith) (omega arith)
      ((refl, refl), ((refl, refl), ((refl, refl), ((refl, refl), ((refl, refl), tt)))))
      (omega arith)

send-verify_example :
    let (matched, user', s'') =
      verify_sms_otp otp_redis (at_second 160) client (32 ∷ right_code) sent_store in
    (matched ≡ true)
    × (user' ≡ record client { has_initiate_login = false })
    × (Redis.get otp_redis s'' (160 * second) (sms_key otp_redis client) ≡ none)
unfolding strip send_sms_otp
send-verify_example =
    send-verify otp_redis (at_second 100) (at_second 160) 5 right_code (32 ∷ right_code) client
      false no_codes sent_store refl refl (omega arith) (omega arith) refl

abbrev client_tokens : TokenData
client_tokens = record { access_token = 70; refresh_token = 71; user_id = 12 }

abbrev pub no_tokens : Redis.Store token_cache
no_tokens k = none

pub no_tokens-IsLinked : IsLinked token_cache 0 no_tokens
no_tokens-IsLinked later type token user le e = cc

abbrev tokens_store : Redis.Store token_cache
tokens_store = store_tokens token_cache 0 900 3600 client_tokens no_tokens

store_tokens-IsLinked_example : IsLinked token_cache 0 tokens_store
store_tokens-IsLinked_example =
    store_tokens-IsLinked token_cache 0 900 3600 client_tokens no_tokens (omega arith)
      no_tokens-IsLinked

invalidate_user_tokens-refused_example :
    validate_token token_cache
      (10 * second)
      refresh
      71
      (invalidate_user_tokens token_cache 0 12 tokens_store)
    ≢ some 12
invalidate_user_tokens-refused_example =
    invalidate_user_tokens-refused token_cache 0 (10 * second) refresh 71 12 tokens_store
      (store_tokens-IsLinked token_cache 0 900 3600 client_tokens no_tokens (omega arith)
        no_tokens-IsLinked)
      (omega arith)

abbrev pub vendor_subscription : VendorSubscription
vendor_subscription = record {
  vendor = 80;
  stripe_subscription_id = 81;
  status = SubscriptionStatus.active;
  trial_ends_at = none;
  current_period_end = none;
  canceled_at = none;
}

abbrev pub nothing_cached : Redis.Store billing_cache
nothing_cached k = none

abbrev pub billing : Billing billing_cache
billing = record {
  subscriptions = vendor_subscription ∷ [];
  is_listed = λ v. v == 80;
  cached = nothing_cached;
  invoices = [];
  notices = [];
}

abbrev past_due_event : Subscription
past_due_event = record {
  id = 81;
  status = past_due;
  trial_end = none;
  current_period_end = none;
  canceled_at = none;
}

abbrev pub paid_invoice : Invoice
paid_invoice = record { id = 82; subscription = some 81; line_period_end = some (30 * second) }

billing-IsBilling : IsBilling billing_cache 5 billing
billing-IsBilling = ((tt, tt), ((λ z. refl, λ z. cc), tt), ((λ later le. inl refl), tt))

subscription_events-IsBilling_example :
    IsBilling billing_cache 5 (handle_subscription_updated billing_cache 5 past_due_event billing)
    × IsBilling billing_cache 5 (handle_subscription_deleted billing_cache 5 81 billing)
    × IsBilling billing_cache 5 (handle_payment_succeeded billing_cache 5 paid_invoice billing)
    × IsBilling billing_cache 5 (handle_payment_failed billing_cache 5 paid_invoice billing)
    × IsBilling billing_cache 5 (handle_trial_will_end billing_cache 81 billing)
subscription_events-IsBilling_example =
    subscription_events-IsBilling billing_cache 5 81 past_due_event paid_invoice billing
      billing-IsBilling

abbrev one_use : Voucher
one_use = record {
  id = 85;
  code = 86;
  usage_limit = 1;
  used_count = 0;
  expires_at = 100 * second;
  is_active = true;
  stripe_coupon_id = none;
  restricted_to_email = none;
}

abbrev desk : Desk
desk = record {
  subscriptions = vendor_subscription ∷ [];
  vouchers = one_use ∷ [];
  usages = [];
  voucher_of = λ v. none;
}

abbrev pub willing : StripeAnswers
willing = record { has_coupon = false; new_coupon = some 87; takes_discount = true }

apply_voucher-IsDesk_example : IsDesk (apply_voucher (10 * second) willing 80 1 (some 86) desk).1
apply_voucher-IsDesk_example =
    apply_voucher-IsDesk (10 * second) willing 80 1 (some 86) desk
      ((tt, tt), ((omega arith, omega arith), tt))

abbrev pending_profile : Profile
pending_profile = record {
  id = 1;
  user = 11;
  kyc_verification_status = KycStatus.pending;
  kyc_verification =
      some (record { stripe_verification_session_id = 90; status = CheckStatus.processing });
}

abbrev canceled_event : VerificationSession
canceled_event = record { id = 90; status = some CheckStatus.canceled }

abbrev verified_event : VerificationSession
verified_event = record { id = 90; status = some CheckStatus.verified }

abbrev fresh_session : VerificationSession
fresh_session = record { id = 91; status = some CheckStatus.requires_input }

fresh_session-IsNew : (e : VerificationSession) → some fresh_session ≡ some e → IsNew e
fresh_session-IsNew e h =
    subst IsNew (some_eq h) ((λ (k : _). cc), (λ (k : _). cc), (λ (k : _). cc))

kyc_calls-IsMirrored_example : All IsMirrored (
    after_kyc_calls
      (event canceled_event ∷ request 11 (some fresh_session) ∷ event verified_event ∷ [])
      (pending_profile ∷ []))
kyc_calls-IsMirrored_example =
    kyc_calls-IsMirrored
      (event canceled_event ∷ request 11 (some fresh_session) ∷ event verified_event ∷ [])
      (pending_profile ∷ []) (tt, (fresh_session-IsNew, (tt, tt))) (refl, tt)

canceled-start_verification_example :
    let ps' = handle_kyc_event canceled_event (pending_profile ∷ []) in
    ((p' : Profile) × (find profile_key 1 ps' ≡ some p')
      × (p'.kyc_verification_status ≡ KycStatus.rejected))
    × (start_verification 11 (some fresh_session) ps' ≡ (in_progress 90 CheckStatus.canceled, ps'))
canceled-start_verification_example =
    canceled-start_verification 11 canceled_event (some fresh_session) pending_profile
      (pending_profile ∷ []) (tt, tt) refl refl refl

abbrev failed_reset : OtpData
failed_reset = record (new_data (at_second 100).now right_code 5 none) { attempt_count = 5 }

abbrev locked_store : Redis.Store otp_redis
locked_store =
    Redis.setex otp_redis no_codes (at_second 100).now (reset_key otp_redis 12) 600 failed_reset

send_password_reset-unlocks_example :
    let (reply, s') =
      send_password_reset_otp otp_redis (at_second 160) 5 right_code client false locked_store in
    (reply ≡ code_sent)
    × ((d' : OtpData) × (Redis.get otp_redis s' (160 * second) (reset_key otp_redis 12) ≡ some d')
        × (d'.otp ≡ right_code)
        × (d'.attempt_count ≡ 0))
send_password_reset-unlocks_example =
    send_password_reset-unlocks otp_redis (at_second 160) 5 right_code client locked_store
      failed_reset refl (omega arith) refl refl (omega arith)

-- Five wrong guesses, and a new code after the old one's time.
lockout-ends_example :
    let s' = (try_all otp_redis wrong_guesses client sent_store).2 in
    let (reply, s'') = send_sms_otp otp_redis (at_second 400) 5 right_code client false s' in
    (reply ≡ code_sent)
    × ((verify_sms_otp otp_redis (at_second 460) client (32 ∷ right_code) s'').0 ≡ true)
unfolding send_sms_otp strip
lockout-ends_example =
    lockout-ends otp_redis (at_second 100) (at_second 400) (at_second 460) 5 right_code right_code
      (32 ∷ right_code) wrong_guesses client client false no_codes sent_store refl (omega arith)
      (omega arith) (omega arith) (omega arith) refl refl refl refl refl refl (omega arith)
      (omega arith) refl
