-- ===== src/Tests/Users.antt =====
-- Runs of the views of accounts, with passwords that are their own hash.
use juris.Accounts.{
  Account, Context, Hasher, Settings, SignedData, Site, account_key, done, give_tokens,
  invalid_token, require_2fa, two_factor_verification,
}
use juris.Accounts.Factor.{IsEarned, second_factor-needed}
use juris.Accounts.Forced.{IsNewCode, forced-unlocks}
use juris.Accounts.Login.{
  google_account, google_login, login, refresh_tokens, second_factor_passed, verify_otp,
}
use juris.Accounts.Passwords.{by_email, by_phone, by_token, forgot_password, reset_password}
use juris.Accounts.Reset.{forgot-reset}
use juris.Accounts.Rotated.{refresh_tokens-once}
use juris.Base.{
  List, [], arith, false, if◌then◌else◌, inl, ltb, none, refl, some, true, ℕ, ◌*◌, ◌+◌, ◌∷◌, ◌≡◌,
  ◌≢◌, ◌≤◌,
}
use juris.Clock.{second}
use juris.Otp.{delete_otp_data, get_otp_data, new_data, otp_key, password_reset, sms_otp}
use juris.Otp.Service.{verify_sms_otp}
use juris.Redis.{Redis}
use juris.Table.{find}
use juris.Tests.Accounts.{at_second, no_codes, no_tokens, otp_redis, right_code, token_cache}
use juris.Text.{same_text, strip}
use juris.Tokens.{TokenType, refresh, store_tokens, validate_token}

same_text_self : (t : List ℕ) → same_text t t ≡ true
same_text_self [] = refl
same_text_self (c ∷ t) = ground (arith, same_text_self t)

abbrev plain : Hasher
plain = record {
  Hash = List ℕ;
  set_password = λ p. p;
  check_password = same_text;
  check-set = same_text_self;
}

abbrev conf : Settings
conf = record {
  otp_validity_minutes = 5;
  access_expiry = 900;
  refresh_expiry = 3600;
  email_verification_hours = 24;
  password_reset_timeout = 3600;
}

abbrev draw : ℕ → Context
draw t = record {
  env = at_second t;
  code = right_code;
  access_token = 70;
  refresh_token = 71;
  reset_token = 75;
}

-- "ab"
abbrev her_password : List ℕ
her_password = 97 ∷ 98 ∷ []

abbrev her_account : Account plain
her_account = record {
  id = 12;
  email = 500;
  username = 500;
  phone_number = some 600;
  password = her_password;
  password_attempt = 0;
  is_active = true;
  is_email_verified = true;
  email_verification_valid_until = none;
  is_2fa_enabled = true;
  has_initiate_login = false;
}

abbrev site : Site plain otp_redis token_cache
site = record {
  accounts = her_account ∷ [];
  reset_tokens = [];
  codes_store = no_codes;
  cache_store = no_tokens;
  next_id = 13;
}

-- Her login has started, and the code that was sent to her waits.
abbrev begun_account : Account plain
begun_account = record her_account { has_initiate_login = true }

abbrev begun_site : Site plain otp_redis token_cache
begun_site = record site {
  accounts = begun_account ∷ [];
  codes_store =
      Redis.setex otp_redis no_codes 0 (otp_key sms_otp 12) 600 (new_data 0 right_code 5 none);
}

abbrev signed_data : SignedData
signed_data = record { user_id = 12; action = two_factor_verification }

second_factor-needed_example :
    ((login plain otp_redis token_cache conf
        (draw 10)
        true
        500
        her_password
        begun_site).1.cache_store
      ≡ no_tokens)
    × ((google_login plain otp_redis token_cache conf
          (draw 10)
          (google_account 12)
          begun_site).1.cache_store
        ≡ no_tokens)
    × ((later : ℕ) (type : TokenType) (token user : ℕ)
        → 10 * second ≤ later
        → validate_token token_cache later type token
            (verify_otp plain otp_redis token_cache conf
              (draw 10)
              (some signed_data)
              right_code
              begun_site).1.cache_store
          ≡ some user
        → IsEarned plain otp_redis token_cache conf
            (draw 10)
            (some signed_data)
            right_code
            begun_site
            later
            type
            token
            user)
second_factor-needed_example =
    second_factor-needed plain otp_redis token_cache conf (draw 10) 500 her_password 12
      (some signed_data) right_code begun_account begun_account begun_site refl (inl refl) refl refl

-- The code gives her the tokens.
second_factor_run :
    validate_token token_cache
      (20 * second)
      refresh
      71
      (verify_otp plain otp_redis token_cache conf
        (draw 10)
        (some signed_data)
        right_code
        begun_site).1.cache_store
    ≡ some 12
unfolding verify_otp verify_sms_otp get_otp_data delete_otp_data give_tokens second_factor_passed
    validate_token store_tokens strip
second_factor_run = refl

forced-unlocks_example :
    let (reply, w') = login plain otp_redis token_cache conf (draw 10) true 500 her_password site in
    let (reply', w'') =
      forgot_password plain otp_redis token_cache conf (draw 10) true (by_phone 600) site in
    (reply ≡ require_2fa (record { user_id = 12; action = two_factor_verification }))
    × IsNewCode otp_redis (10 * second) (otp_key sms_otp 12) right_code w'.codes_store
    × (reply' ≡ done)
    × IsNewCode otp_redis (10 * second) (otp_key password_reset 12) right_code w''.codes_store
forced-unlocks_example =
    forced-unlocks plain otp_redis token_cache conf (draw 10) 500 600 her_password her_account
      her_account site refl refl refl refl refl refl refl (omega arith)

-- "cd"
abbrev other_password : List ℕ
other_password = 99 ∷ 100 ∷ []

forgot-reset_example :
    let w1 =
      (forgot_password plain otp_redis token_cache conf (draw 10) true (by_email 500) site).1 in
    let (reply, w2) =
      reset_password plain otp_redis token_cache conf
        (draw 20)
        true
        (by_token 75)
        other_password
        true
        w1 in
    let u' : Account plain = record her_account { password = other_password } in
    (reply ≡ done)
    × (find (account_key plain) 12 w2.accounts ≡ some u')
    × (same_text other_password u'.password ≡ true)
    × ((t : ℕ) (type : TokenType) (token : ℕ)
        → 20 * second ≤ t
        → validate_token token_cache t type token w2.cache_store ≢ some 12)
    × (reset_password plain otp_redis token_cache conf
          (draw 20)
          true
          (by_token 75)
          her_password
          true
          w2
        ≡ (invalid_token, w2))
forgot-reset_example =
    forgot-reset plain otp_redis token_cache conf (draw 10) (draw 20) 500 other_password
      her_password true her_account site (tt, tt) (λ t type token user le e. cc) refl tt
      (omega arith)

abbrev logged_in_site : Site plain otp_redis token_cache
logged_in_site = record site {
  cache_store =
      store_tokens token_cache 0 900 3600
        (record { access_token = 68; refresh_token = 69; user_id = 12 }) no_tokens;
}

refresh_tokens-once_example :
    let w' =
      (refresh_tokens plain otp_redis token_cache conf
        (draw 10)
        (some 69)
        (some 12)
        logged_in_site).1 in
    (refresh_tokens plain otp_redis token_cache conf (draw 20) (some 69) (some 12) w'
      ≡ (invalid_token, w'))
    × (validate_token token_cache (20 * second) refresh 71 w'.cache_store
        ≡ (if ltb (20 * second) (10 * second + 3600 * second) then some 12 else none))
unfolding refresh_tokens validate_token store_tokens
refresh_tokens-once_example =
    refresh_tokens-once plain otp_redis token_cache conf (draw 10) (draw 20) 69 12 (some 12)
      (record { access_token = 70; refresh_token = 71; user_id = 12 }) logged_in_site
      (refresh_tokens plain otp_redis token_cache conf (draw 10) (some 69) (some 12)
        logged_in_site).1
      refl (λ e. grind arith) (omega arith)
