-- ===== src/Accounts/Passwords.antt =====
-- The views of users/views.py that change an account's email address and password.
use juris.Accounts.{
  Account, AccountReply, Context, Hasher, ResetToken, Settings, Site, account_key, bad_form,
  code_refused, done, integrity_error, invalid_credentials, invalid_token, mail_error,
  not_sent_code, of_otp_user, otp_user, request_user, reset_token_key, save_account, save_unique,
  unauthorized, weak_password, with_email_of, with_phone_of,
}
use juris.Base.{
  Bool, List, Option, exists_row, false, first_row, if◌then◌else◌, ltb, none, not, some, true, ℕ,
  ◌&&◌, ◌*◌, ◌+◌, ◌==◌,
}
use juris.Clock.{second}
use juris.Otp.{OtpData, OtpKey, SendReply, VerifyReply, code_sent}
use juris.Otp.Service.{
  clear_password_reset_otp, get_email_change_data, send_email_change_verification,
  send_password_reset_otp, verify_email_change_code, verify_password_reset_otp,
}
use juris.Redis.{Redis}
use juris.Table.{find, save_row}
use juris.Tokens.{CacheKey, CacheValue, invalidate_user_tokens}

-- `identifier`: an email address if it has an "@", and else a phone number
pub data Identifier : Type 0 where
  by_email by_phone : ℕ → Identifier

-- How a request shows that it may reset a password.
pub data Proof : Type 0 where
  by_token : ℕ → Proof
  by_otp : List ℕ → Identifier → Proof

module _ (hasher : Hasher) (codes : Redis OtpKey OtpData) (cache : Redis CacheKey CacheValue)
    (conf : Settings) where
  open hasher use {set_password, check_password}

  -- The reply for what a service that sends a code says.
  abbrev pub sent_reply : SendReply → AccountReply
  sent_reply code_sent = done
  sent_reply refusal = not_sent_code refusal

  -- `ChangeEmailRequestSerializer.validate_new_email`
  abbrev pub is_valid_new_email : Account hasher → ℕ → Site hasher codes cache → Bool
  is_valid_new_email u e w =
      not (exists_row (λ v. with_email_of hasher e v && not (v.id == u.id)) w.accounts)
      && not (u.email == e)

  unfoldable pub change_email_request :
      Context → ℕ → Bool → ℕ → Site hasher codes cache → AccountReply × Site hasher codes cache
  change_email_request c user is_valid new_email w = elim (request_user hasher codes cache user w) [
    | none ↦ (unauthorized, w)
    | some u ↦
        if not (is_valid && is_valid_new_email u new_email w)
        then (bad_form, w)
        else let (reply, s) =
            send_email_change_verification codes c.env c.code (otp_user hasher u) new_email true
              w.codes_store in
          (sent_reply reply, record w { codes_store = s })
  ]

  -- The address may have been taken since the request; then `user.save()` raises, and the code stays.
  unfoldable pub verify_email_change :
      Context → ℕ → Bool → List ℕ → Site hasher codes cache → AccountReply × Site hasher codes cache
  verify_email_change c user is_valid code w = elim (request_user hasher codes cache user w) [
    | none ↦ (unauthorized, w)
    | some u ↦
        if not is_valid
        then (bad_form, w)
        else let (reply, o, s) =
            verify_email_change_code codes c.env (otp_user hasher u) code w.codes_store in
          elim reply [
            | VerifyReply.verified ↦
                elim (save_unique hasher codes cache (of_otp_user hasher o u) w) [
                  | none ↦ (integrity_error, w)
                  | some w' ↦ (done, record w' { codes_store = s })
                ]
            | refusal ↦ (code_refused refusal, record w { codes_store = s })
          ]
  ]

  -- `new_email` of the data of a request for a change
  unfoldable pub resend_email_change_code :
      Context → ℕ → Site hasher codes cache → AccountReply × Site hasher codes cache
  resend_email_change_code c user w = elim (request_user hasher codes cache user w) [
    | none ↦ (unauthorized, w)
    | some u ↦ elim (get_email_change_data codes c.env (otp_user hasher u) w.codes_store) [
      | none ↦ (bad_form, w)
      | some d ↦ elim d.new_email [
        | none ↦ (bad_form, w)
        | some e ↦
            let (reply, s) =
              send_email_change_verification codes c.env c.code (otp_user hasher u) e false
                w.codes_store in
            (sent_reply reply, record w { codes_store = s })
      ]
    ]
  ]

  -- `user.set_password`, `user.save()` and the logout from all devices
  unfoldable pub put_password :
      Context → List ℕ → Account hasher → Site hasher codes cache → Site hasher codes cache
  put_password c password u w =
      let w1 = save_account hasher codes cache (record u { password = set_password password }) w in
      record w1 { cache_store = invalidate_user_tokens cache c.env.now u.id w1.cache_store }

  unfoldable pub change_password :
      Context
      → ℕ
      → Bool
      → List ℕ
      → List ℕ
      → Bool
      → Site hasher codes cache
      → AccountReply × Site hasher codes cache
  unfolding put_password
  change_password c user is_valid current new_password is_strong w =
      elim (request_user hasher codes cache user w) [
        | none ↦ (unauthorized, w)
        | some u ↦
            if not is_valid
            then (bad_form, w)
            else if not (check_password current u.password)
            then (invalid_credentials, w)
            else if not is_strong
            then (weak_password, w)
            else (done, put_password c new_password u w)
      ]

  abbrev pub find_by : Identifier → Site hasher codes cache → Option (Account hasher)
  find_by (by_email e) w = first_row (with_email_of hasher e) w.accounts
  find_by (by_phone p) w = first_row (with_phone_of hasher p) w.accounts

  -- `_send_email_reset`: the account has one token, which is renewed
  abbrev pub new_reset_token : Context → Account hasher → ResetToken
  new_reset_token c u = record {
    user = u.id;
    token = c.reset_token;
    expires_at = c.env.now + conf.password_reset_timeout * second;
    is_used = false;
  }

  unfoldable pub send_email_reset :
      Context → Account hasher → Site hasher codes cache → AccountReply × Site hasher codes cache
  send_email_reset c u w = (
    if c.env.delivered then done else mail_error,
    record w { reset_tokens = save_row reset_token_key (new_reset_token c u) w.reset_tokens },
  )

  -- `_send_sms_reset`, and the call of `ResendPasswordResetOTPView`
  unfoldable pub send_sms_reset :
      Context
      → Bool
      → Account hasher
      → Site hasher codes cache
      → AccountReply × Site hasher codes cache
  send_sms_reset c force u w =
      let (reply, s) =
        send_password_reset_otp codes c.env conf.otp_validity_minutes c.code (otp_user hasher u)
          force w.codes_store in
      (sent_reply reply, record w { codes_store = s })

  -- An account that does not exist is answered like one that does.
  unfoldable pub forgot_password :
      Context → Bool → Identifier → Site hasher codes cache → AccountReply × Site hasher codes cache
  unfolding send_email_reset send_sms_reset
  forgot_password c is_valid i w = if not is_valid then (bad_form, w) else elim (find_by i w) [
    | none ↦ (done, w)
    | some u ↦ elim i [
      | by_email e ↦ send_email_reset c u w
      | by_phone p ↦ send_sms_reset c true u w
    ]
  ]

  unfoldable pub resend_password_reset_otp :
      Context → Bool → ℕ → Site hasher codes cache → AccountReply × Site hasher codes cache
  unfolding send_sms_reset
  resend_password_reset_otp c is_valid phone w =
      if not is_valid then (bad_form, w) else elim (find_by (by_phone phone) w) [
        | none ↦ (done, w)
        | some u ↦ send_sms_reset c false u w
      ]

  abbrev pub is_usable : ℕ → ℕ → ResetToken → Bool
  is_usable now token t = t.token == token && not t.is_used && ltb now t.expires_at

  -- The end of `ResetPasswordView.post`; a reset by SMS clears its code
  unfoldable pub reset_for :
      Context
      → List ℕ
      → Bool
      → Bool
      → Account hasher
      → Site hasher codes cache
      → AccountReply × Site hasher codes cache
  unfolding put_password
  reset_for c new_password is_strong by_sms u w =
      if not is_strong
      then (weak_password, w)
      else let s =
          if by_sms
          then clear_password_reset_otp codes c.env u.id w.codes_store
          else w.codes_store in
        (done, put_password c new_password u (record w { codes_store = s }))

  -- The token is used up before the password is validated for the account.
  unfoldable pub reset_password :
      Context
      → Bool
      → Proof
      → List ℕ
      → Bool
      → Site hasher codes cache
      → AccountReply × Site hasher codes cache
  unfolding reset_for
  reset_password c false proof new_password is_strong w = (bad_form, w)
  reset_password c true (by_token token) new_password is_strong w =
      elim (first_row (is_usable c.env.now token) w.reset_tokens) [
        | none ↦ (invalid_token, w)
        | some t ↦ elim (find (account_key hasher) t.user w.accounts) [
          | none ↦ (invalid_token, w)
          | some u ↦ reset_for c new_password is_strong false u (record w {
            reset_tokens = save_row reset_token_key (record t { is_used = true }) w.reset_tokens;
          })
        ]
      ]
  reset_password c true (by_otp otp i) new_password is_strong w = elim (find_by i w) [
    | none ↦ (invalid_token, w)
    | some u ↦
        let (reply, s) =
          verify_password_reset_otp codes c.env (otp_user hasher u) otp w.codes_store in
        elim reply [
          | VerifyReply.verified ↦
              reset_for c new_password is_strong true u (record w { codes_store = s })
          | refusal ↦ (code_refused refusal, record w { codes_store = s })
        ]
  ]
