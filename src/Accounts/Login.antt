-- ===== src/Accounts/Login.antt =====
-- The views of users/views.py that create, verify and log in accounts, and end logins.
use juris.Accounts.{
  Account, AccountReply, Action, Context, Hasher, Settings, SignedData, Site, account_key,
  available, bad_form, done, empty_text, give_tokens, has_text, integrity_error,
  invalid_credentials, invalid_link, invalid_token, is_setup, link_expired, login_not_started,
  mail_error, not_sent_code, not_verified_email, of_otp_user, otp_user, phone_in_use,
  phone_required, phone_taken, request_user, require_2fa, save_account, save_unique, signed_up,
  two_factor_setup, two_factor_verification, unauthorized, unnamed, with_email_of, with_phone_of,
  wrong_otp,
}
use juris.Base.{
  Bool, List, Option, exists_row, false, first_row, if◌then◌else◌, ltb, none, not, some, true, ℕ,
  ◌&&◌, ◌*◌, ◌+◌, ◌==◌, ◌||◌,
}
use juris.Clock.{hour}
use juris.Otp.{OtpData, OtpKey, code_sent, get_sms_otp_attempts_left}
use juris.Otp.Service.{send_sms_otp, verify_sms_otp}
use juris.Redis.{Redis}
use juris.Table.{find}
use juris.Tokens.{
  CacheKey, CacheValue, blacklist_token, invalidate_user_tokens, refresh, validate_token,
}

-- What Google's backend gives for an access token: an account, its refusal, or no account.
pub data GoogleAnswer : Type 0 where
  google_account : ℕ → GoogleAnswer
  google_error no_google_account : GoogleAnswer

-- `phone_number` is none where the request has no such field.
pub record SignupRequest : Type 0 where
  pub is_valid : Bool
  pub email : ℕ
  pub phone_number : Option (Option ℕ)
  pub password : List ℕ

pub record ToggleRequest : Type 0 where
  pub is_valid : Bool
  pub enable : Bool
  pub phone_number : Option ℕ

module _ (hasher : Hasher) (codes : Redis OtpKey OtpData) (cache : Redis CacheKey CacheValue)
    (conf : Settings) where
  open hasher use {set_password, check_password}

  unfoldable pub check_email : Bool → ℕ → Site hasher codes cache → AccountReply
  check_email is_valid email w =
      if is_valid
      then available (not (exists_row (with_email_of hasher email) w.accounts))
      else bad_form

  unfoldable pub update_phone :
      ℕ → Option ℕ → Site hasher codes cache → AccountReply × Site hasher codes cache
  update_phone user phone w = elim (request_user hasher codes cache user w) [
    | none ↦ (unauthorized, w)
    | some u ↦ elim phone [
      | none ↦ (bad_form, w)
      | some p ↦
          if phone_taken hasher codes cache u.id p w
          then (phone_in_use, w)
          else (done, save_account hasher codes cache (record u { phone_number = some p }) w)
    ]
  ]

  abbrev pub phone_given : Option (Option ℕ) → Option ℕ
  phone_given none = some empty_text
  phone_given (some p) = p

  abbrev pub phone_known : Option (Option ℕ) → Site hasher codes cache → Bool
  phone_known (some (some p)) w = exists_row (with_phone_of hasher p) w.accounts
  phone_known _ w = false

  -- `SignupSerializer.create`, with the time that the view adds
  abbrev pub new_account : Context → SignupRequest → Site hasher codes cache → Account hasher
  new_account c r w = record {
    id = w.next_id;
    email = r.email;
    username = r.email;
    phone_number = phone_given r.phone_number;
    password = set_password r.password;
    password_attempt = 0;
    is_active = true;
    is_email_verified = false;
    email_verification_valid_until = some (c.env.now + conf.email_verification_hours * hour);
    is_2fa_enabled = false;
    has_initiate_login = false;
  }

  unfoldable pub signup :
      Context → SignupRequest → Site hasher codes cache → AccountReply × Site hasher codes cache
  signup c r w =
      if not r.is_valid
        || exists_row (with_email_of hasher r.email) w.accounts
        || phone_known r.phone_number w
      then (bad_form, w)
      else elim (save_unique hasher codes cache (new_account c r w) w) [
        | none ↦ (integrity_error, w)
        | some w' ↦ (
          if c.env.delivered then signed_up else mail_error,
          record w' { next_id = w.next_id + 1 },
        )
      ]

  -- The message with a link to an account that is not verified, the link renewed if it is over.
  abbrev pub is_link_over : ℕ → Account hasher → Bool
  is_link_over now u = elim u.email_verification_valid_until [ none ↦ true | some t ↦ ltb t now ]

  abbrev pub send_link :
      Context → Account hasher → Site hasher codes cache → AccountReply × Site hasher codes cache
  send_link c u w = (
    if c.env.delivered then not_verified_email else mail_error,
    if is_link_over c.env.now u
        then save_account hasher codes cache
            (record u {
              email_verification_valid_until =
                  some (c.env.now + conf.email_verification_hours * hour);
            })
            w
        else w,
  )

  -- A code for the second factor, whatever the lockout and the cooldown, and the token for it
  unfoldable pub start_2fa :
      Context
      → Action
      → Account hasher
      → Site hasher codes cache
      → AccountReply × Site hasher codes cache
  start_2fa c action u w =
      let u' : Account hasher = record u { has_initiate_login = true } in
      let w1 = save_account hasher codes cache u' w in
      let (reply, s) =
        send_sms_otp codes c.env conf.otp_validity_minutes c.code (otp_user hasher u') true
          w1.codes_store in
      (
        elim reply [
          | code_sent ↦ require_2fa (record { user_id = u.id; action = action })
          | refusal ↦ not_sent_code refusal
        ],
        record w1 { codes_store = s },
      )

  -- The rest of `LoginView.post`, once the password is right
  unfoldable pub login_account :
      Context → Account hasher → Site hasher codes cache → AccountReply × Site hasher codes cache
  unfolding start_2fa give_tokens
  login_account c u w =
      let u' : Account hasher = record u { password_attempt = 0 } in
      let w1 = save_account hasher codes cache u' w in
      if not u'.is_email_verified
      then send_link c u' w1
      else if not u'.is_2fa_enabled
      then give_tokens hasher codes cache conf c u' w1
      else if not (has_text u'.phone_number)
      then (phone_required, w1)
      else start_2fa c two_factor_verification u' w1

  -- `authenticate`, as Django's model backend does it
  abbrev pub authenticate : ℕ → List ℕ → Site hasher codes cache → Option (Account hasher)
  authenticate email password w =
      first_row
        (λ u. with_email_of hasher email u && check_password password u.password && u.is_active)
        w.accounts

  unfoldable pub login :
      Context → Bool → ℕ → List ℕ → Site hasher codes cache → AccountReply × Site hasher codes cache
  unfolding login_account
  login c is_valid email password w =
      if not is_valid then (bad_form, w) else elim (authenticate email password w) [
        | some u ↦ login_account c u w
        | none ↦ (
          invalid_credentials,
          elim (first_row (with_email_of hasher email) w.accounts) [
            | none ↦ w
            | some u ↦
                save_account hasher codes cache
                  (record u { password_attempt = u.password_attempt + 1 }) w
          ],
        )
      ]

  unfoldable pub google_login :
      Context → GoogleAnswer → Site hasher codes cache → AccountReply × Site hasher codes cache
  unfolding start_2fa give_tokens
  google_login c google_error w = (bad_form, w)
  google_login c no_google_account w = (unauthorized, w)
  google_login c (google_account id) w = elim (request_user hasher codes cache id w) [
    | none ↦ (unauthorized, w)
    | some u ↦
        let u' : Account hasher = record u { is_email_verified = true } in
        let w1 = save_account hasher codes cache u' w in
        if u'.is_2fa_enabled
        then start_2fa c unnamed u' w1
        else give_tokens hasher codes cache conf c u' w1
  ]

  unfoldable pub logout :
      Context
      → ℕ
      → Option ℕ
      → Bool
      → Site hasher codes cache
      → AccountReply × Site hasher codes cache
  logout c user cookie logout_all w = elim (request_user hasher codes cache user w) [
    | none ↦ (unauthorized, w)
    | some u ↦
        let s1 : Redis.Store cache = elim cookie [
          | none ↦ w.cache_store
          | some t ↦ blacklist_token cache c.env.now t refresh w.cache_store
        ] in
        let s2 = if logout_all then invalidate_user_tokens cache c.env.now u.id s1 else s1 in
        (done, record w { cache_store = s2 })
  ]

  -- The payload is what the JWT library reads of the token in the cookie.
  unfoldable pub refresh_tokens :
      Context
      → Option ℕ
      → Option ℕ
      → Site hasher codes cache
      → AccountReply × Site hasher codes cache
  unfolding give_tokens
  refresh_tokens c none payload w = (bad_form, w)
  refresh_tokens c (some token) none w = (invalid_token, w)
  refresh_tokens c (some token) (some user) w =
      elim (validate_token cache c.env.now refresh token w.cache_store) [
        | none ↦ (invalid_token, w)
        | some holder ↦
            if not (user == holder)
            then (invalid_token, w)
            else elim (find (account_key hasher) user w.accounts) [
              | none ↦ (invalid_token, w)
              | some u ↦ give_tokens hasher codes cache conf c u (record w {
                cache_store = blacklist_token cache c.env.now token refresh w.cache_store;
              })
            ]
      ]

  -- The user is none where its id in the link has no account; `checks` is what Django says of the link.
  unfoldable pub verify_email :
      Context → ℕ → Bool → Site hasher codes cache → AccountReply × Site hasher codes cache
  verify_email c uid checks w = elim (find (account_key hasher) uid w.accounts) [
    | none ↦ (invalid_link, w)
    | some u ↦
        if elim u.email_verification_valid_until [ none ↦ false | some t ↦ ltb t c.env.now ]
        then (link_expired, w)
        else if checks
        then (
          done,
          save_account hasher codes cache
              (record u { is_email_verified = true; email_verification_valid_until = none }) w,
        )
        else (invalid_link, w)
  ]

  -- The phone number is updated before the code is sent.
  unfoldable pub toggle_2fa :
      Context → ℕ → ToggleRequest → Site hasher codes cache → AccountReply × Site hasher codes cache
  unfolding start_2fa
  toggle_2fa c user r w = elim (request_user hasher codes cache user w) [
    | none ↦ (unauthorized, w)
    | some u ↦
        if not r.is_valid
        then (bad_form, w)
        else if not r.enable
        then (done, save_account hasher codes cache (record u { is_2fa_enabled = false }) w)
        else elim r.phone_number [
          | none ↦
              if has_text u.phone_number
              then start_2fa c two_factor_setup u w
              else (phone_required, w)
          | some p ↦
              if phone_taken hasher codes cache u.id p w
              then (phone_in_use, w)
              else let u' : Account hasher = record u { phone_number = some p } in
                start_2fa c two_factor_setup u' (save_account hasher codes cache u' w)
        ]
  ]

  -- The end of `VerifyOTPView.post`: the setup of the second factor, or the login
  unfoldable pub second_factor_passed :
      Context
      → Action
      → Account hasher
      → Site hasher codes cache
      → AccountReply × Site hasher codes cache
  unfolding give_tokens
  second_factor_passed c action u w =
      let u' : Account hasher = record u { has_initiate_login = false } in
      if is_setup action
      then (done, save_account hasher codes cache (record u' { is_2fa_enabled = true }) w)
      else give_tokens hasher codes cache conf c u' (save_account hasher codes cache u' w)

  -- The data are none where `signing.loads` refuses the token.
  unfoldable pub verify_otp :
      Context
      → Option SignedData
      → List ℕ
      → Site hasher codes cache
      → AccountReply × Site hasher codes cache
  unfolding second_factor_passed
  verify_otp c signed otp w = elim signed [
    | none ↦ (invalid_token, w)
    | some d ↦ elim (find (account_key hasher) d.user_id w.accounts) [
      | none ↦ (invalid_token, w)
      | some u ↦
          if not u.has_initiate_login
          then (login_not_started, w)
          else let (matched, o, s) =
              verify_sms_otp codes c.env (otp_user hasher u) otp w.codes_store in
            if matched
            then second_factor_passed c d.action (of_otp_user hasher o u)
                (record w { codes_store = s })
            else let (attempts, s') = get_sms_otp_attempts_left codes c.env u.id s in
              (wrong_otp attempts, record w { codes_store = s' })
    ]
  ]

  unfoldable pub resend_otp :
      Context → Option SignedData → Site hasher codes cache → AccountReply × Site hasher codes cache
  resend_otp c signed w = elim signed [
    | none ↦ (invalid_token, w)
    | some d ↦ elim (find (account_key hasher) d.user_id w.accounts) [
      | none ↦ (invalid_token, w)
      | some u ↦
          if not (is_setup d.action) && not (u.has_initiate_login && u.is_2fa_enabled)
          then (login_not_started, w)
          else let (reply, s) =
              send_sms_otp codes c.env conf.otp_validity_minutes c.code (otp_user hasher u) false
                w.codes_store in
            (
              elim reply [ code_sent ↦ done | refusal ↦ not_sent_code refusal ],
              record w { codes_store = s },
            )
    ]
  ]
