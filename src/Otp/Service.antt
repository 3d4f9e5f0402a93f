-- ===== src/Otp/Service.antt =====
-- Sending and verifying codes: the three pairs of methods of `RedisOTPService`.
use juris.Base.{
  Bool, List, Option, false, if◌then◌else◌, is_some, none, not, some, true, ℕ, ◌&&◌, ◌-◌, ◌||◌,
}
use juris.Otp.{
  Env, OtpData, OtpKey, SendReply, User, VerifyReply, can_resend_otp, code_sent,
  default_max_attempts, delete_otp_data, email_change, expired, get_otp_data,
  get_sms_otp_attempts_left, increment_attempt, is_exhausted, is_otp_valid, locked, no_phone,
  no_request, not_logged_in, not_sent, not_stored, otp_key, password_reset, sms_otp, store_otp_data,
  too_many, too_soon, wrong_code,
}
use juris.Redis.{Redis}
use juris.Text.{same_text, strip}

-- What the checks of a request to send a code decide: the data that the method goes on with, or the
-- answer.
pub data Gate (S : Type 0) : Type 0 where
  passed : Option OtpData → S → Gate S
  answered : SendReply → S → Gate S

pub record OtpStatus : Type 0 where
  pub sms_otp_active : Bool
  pub sms_attempts_left : ℕ
  pub sms_expires_at : Option ℕ
  pub email_change_active : Bool
  pub email_change_to : Option ℕ
  pub email_expires_at : Option ℕ
  pub password_reset_active : Bool
  pub reset_expires_at : Option ℕ

abbrev pub is_live : ℕ → Option OtpData → Bool
is_live now none = false
is_live now (some d) = is_otp_valid now d

abbrev pub expiry : Option OtpData → Option ℕ
expiry none = none
expiry (some d) = some d.expires_at

module _ (redis : Redis OtpKey OtpData) where
  open redis use {Store}

  -- The checks of `send_sms_otp` and `send_email_change_verification`: the lockout, then the cooldown
  unfoldable pub check_lockout : Env → Bool → OtpKey → Store → Gate Store
  unfolding get_otp_data delete_otp_data
  check_lockout env force key s = elim (get_otp_data redis env key s) [
    | none ↦ passed none s
    | some d ↦
        if force
        then passed (some d) s
        else if is_exhausted d
        then (if is_otp_valid env.now d
            then answered locked s
            else passed none (delete_otp_data redis env key s))
        else if not (can_resend_otp env.now d)
        then answered too_soon s
        else passed (some d) s
  ]

  -- The check of `send_password_reset_otp`: the cooldown
  unfoldable pub check_cooldown : Env → Bool → OtpKey → Store → Gate Store
  unfolding get_otp_data
  check_cooldown env force key s = elim (get_otp_data redis env key s) [
    | none ↦ passed none s
    | some d ↦
        if not force && not (can_resend_otp env.now d)
        then answered too_soon s
        else passed (some d) s
  ]

  -- The code is stored and sent, and deleted again if it could not be sent.
  unfoldable pub store_and_send : Env → OtpKey → List ℕ → ℕ → Option ℕ → Store → SendReply × Store
  unfolding store_otp_data delete_otp_data
  store_and_send env key otp validity_minutes new_email s =
      let (success, s') = store_otp_data redis env key otp validity_minutes new_email s in
      if not success
      then (not_stored, s')
      else if env.delivered
      then (code_sent, s')
      else (not_sent, delete_otp_data redis env key s')

  abbrev pub sms_key : User → OtpKey
  sms_key user = otp_key sms_otp user.id

  unfoldable pub send_sms_otp : Env → ℕ → List ℕ → User → Bool → Store → SendReply × Store
  unfolding check_lockout store_and_send
  send_sms_otp env validity otp user force s =
      if not user.has_initiate_login
      then (not_logged_in, s)
      else elim (check_lockout env force (sms_key user) s) [
        | answered r s' ↦ (r, s')
        | passed d s' ↦
            if not user.has_phone_number
            then (no_phone, s')
            else store_and_send env (sms_key user) otp validity none (
                if force || not (is_some d)
                then delete_otp_data redis env (sms_key user) s'
                else s')
      ]

  -- `verify_sms_otp`: a success ends the state of the login
  unfoldable pub verify_sms_otp : Env → User → List ℕ → Store → Bool × User × Store
  unfolding get_otp_data delete_otp_data
  verify_sms_otp env user otp s =
      if not user.has_initiate_login
      then (false, user, s)
      else elim (get_otp_data redis env (sms_key user) s) [
        | none ↦ (false, user, s)
        | some d ↦
            if not (is_otp_valid env.now d)
            then (false, user, delete_otp_data redis env (sms_key user) s)
            else if is_exhausted d
            then (false, user, s)
            else if same_text (strip d.otp) (strip otp)
            then (
              true,
              record user { has_initiate_login = false },
              delete_otp_data redis env (sms_key user) s,
            )
            else (false, user, increment_attempt redis env (sms_key user) s)
      ]

  abbrev pub email_key : User → OtpKey
  email_key user = otp_key email_change user.id

  unfoldable pub send_email_change_verification :
      Env → List ℕ → User → ℕ → Bool → Store → SendReply × Store
  unfolding check_lockout store_and_send
  send_email_change_verification env otp user new_email force s =
      elim (check_lockout env force (email_key user) s) [
        | answered r s' ↦ (r, s')
        | passed d s' ↦ store_and_send env (email_key user) otp 15 (some new_email) s'
      ]

  -- `if new_email: user.email = new_email; user.username = new_email`
  abbrev pub with_email : Option ℕ → User → User
  with_email none user = user
  with_email (some e) user = record user { email = e; username = e }

  unfoldable pub verify_email_change_code : Env → User → List ℕ → Store → VerifyReply × User × Store
  unfolding get_otp_data delete_otp_data
  verify_email_change_code env user code s = elim (get_otp_data redis env (email_key user) s) [
    | none ↦ (no_request, user, s)
    | some d ↦
        if not (is_otp_valid env.now d)
        then (expired, user, delete_otp_data redis env (email_key user) s)
        else if is_exhausted d
        then (too_many, user, s)
        else if same_text d.otp code
        then (
          VerifyReply.verified,
          with_email d.new_email user,
          delete_otp_data redis env (email_key user) s,
        )
        else (
          wrong_code (default_max_attempts - d.attempt_count - 1),
          user,
          increment_attempt redis env (email_key user) s,
        )
  ]

  abbrev pub reset_key : ℕ → OtpKey
  reset_key user = otp_key password_reset user

  unfoldable pub send_password_reset_otp :
      Env → ℕ → List ℕ → User → Bool → Store → SendReply × Store
  unfolding check_cooldown store_and_send
  send_password_reset_otp env validity otp user force s =
      elim (check_cooldown env force (reset_key user.id) s) [
        | answered r s' ↦ (r, s')
        | passed d s' ↦ store_and_send env (reset_key user.id) otp validity none s'
      ]

  -- `verify_password_reset_otp`: a success leaves the code to `clear_password_reset_otp`
  unfoldable pub verify_password_reset_otp : Env → User → List ℕ → Store → VerifyReply × Store
  unfolding get_otp_data delete_otp_data
  verify_password_reset_otp env user otp s = elim (get_otp_data redis env (reset_key user.id) s) [
    | none ↦ (no_request, s)
    | some d ↦
        if not (is_otp_valid env.now d)
        then (expired, delete_otp_data redis env (reset_key user.id) s)
        else if is_exhausted d
        then (too_many, s)
        else if same_text d.otp otp
        then (VerifyReply.verified, s)
        else (
          wrong_code (default_max_attempts - d.attempt_count - 1),
          increment_attempt redis env (reset_key user.id) s,
        )
  ]

  unfoldable pub clear_password_reset_otp : Env → ℕ → Store → Store
  unfolding delete_otp_data
  clear_password_reset_otp env user s = delete_otp_data redis env (reset_key user) s

  unfoldable pub get_email_change_data : Env → User → Store → Option OtpData
  unfolding get_otp_data
  get_email_change_data env user s = get_otp_data redis env (email_key user) s

  -- `get_user_otp_status`: what each kind of code shows; its reading may delete a code that is over
  unfoldable pub get_user_otp_status : Env → ℕ → Store → OtpStatus × Store
  unfolding get_otp_data get_sms_otp_attempts_left
  get_user_otp_status env user s =
      let sms = get_otp_data redis env (otp_key sms_otp user) s in
      let (attempts, s') =
        if is_some sms
        then get_sms_otp_attempts_left redis env user s
        else (default_max_attempts, s) in
      let email = get_otp_data redis env (otp_key email_change user) s' in
      let reset = get_otp_data redis env (otp_key password_reset user) s' in
      (
        record {
          sms_otp_active = is_live env.now sms;
          sms_attempts_left = attempts;
          sms_expires_at = expiry sms;
          email_change_active = is_live env.now email;
          email_change_to = elim email [ none ↦ none | some d ↦ d.new_email ];
          email_expires_at = expiry email;
          password_reset_active = is_live env.now reset;
          reset_expires_at = expiry reset;
        },
        s',
      )
