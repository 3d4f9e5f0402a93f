-- ===== src/Accounts/Forced.antt =====
-- What codes that are sent by force do to a lockout.
use juris.Accounts.{
  Account, Action, Context, Hasher, Settings, Site, done, has_text, otp_user, require_2fa,
  save_account, two_factor_verification,
}
use juris.Accounts.Login.{authenticate, login, login_account, start_2fa}
use juris.Accounts.Passwords.{by_phone, find_by, forgot_password, send_sms_reset}
use juris.Base.{List, ap, arith, none, refl, some, subst, sym, true, ℕ, ◌<◌, ◌≡◌}
use juris.Booking.Slots.{stored}
use juris.Otp.{
  Env, OtpData, OtpKey, SendReply, User, code_sent, delete_otp_data, new_data, otp_key,
  password_reset, sms_otp,
}
use juris.Otp.Sent.{still_there, stored_and_sent}
use juris.Otp.Service.{
  check_cooldown, check_lockout, reset_key, send_password_reset_otp, send_sms_otp, sms_key,
  store_and_send,
}
use juris.Redis.{Redis}
use juris.Tokens.{CacheKey, CacheValue}

module _ (codes : Redis OtpKey OtpData) where
  open codes use {Store, get}

  -- The codes have this one for the key, with no failed attempt.
  abbrev pub IsNewCode : ℕ → OtpKey → List ℕ → Store → Type 0
  IsNewCode now key code s =
      (d : OtpData) × (get s now key ≡ some d) × (d.otp ≡ code) × (d.attempt_count ≡ 0)

  fresh_code :
      (env : Env) (key : OtpKey) (validity : ℕ) (otp : List ℕ) (s s' : Store)
      → 0 < validity
      → store_and_send codes env key otp validity none s ≡ (code_sent, s')
      → IsNewCode env.now key otp s'
  fresh_code env key validity otp s s' pos h =
      let d = new_data env.now otp validity none in
      let there = still_there codes env.now env.now validity key d s (omega arith) (grind arith) in
      (d, rw (stored_and_sent codes env key validity otp none s s' h) there, refl, refl)

  store_and_send-sent :
      (env : Env) (key : OtpKey) (validity : ℕ) (otp : List ℕ) (s : Store)
      → env.connected ≡ true
      → env.delivered ≡ true
      → (store_and_send codes env key otp validity none s).0 ≡ code_sent
  unfolding store_and_send
  store_and_send-sent env key validity otp s up sent = ground arith

  stored_fresh :
      (env : Env) (key : OtpKey) (validity : ℕ) (otp : List ℕ) (s : Store)
      → env.connected ≡ true
      → env.delivered ≡ true
      → 0 < validity
      → IsNewCode env.now key otp (store_and_send codes env key otp validity none s).1
  stored_fresh env key validity otp s up sent pos =
      fresh_code env key validity otp s (store_and_send codes env key otp validity none s).1 pos
        (λ i. (
          store_and_send-sent env key validity otp s up sent i,
          (store_and_send codes env key otp validity none s).1,
        ))

  -- Sent by force, a code is stored and sent whatever the codes were.
  send_sms_otp-forced :
      (env : Env) (validity : ℕ) (otp : List ℕ) (user : User) (s : Store)
      → user.has_initiate_login ≡ true
      → user.has_phone_number ≡ true
      → (s0 : Store) × (send_sms_otp codes env validity otp user true s
          ≡ store_and_send codes env (sms_key codes user) otp validity none s0)
  unfolding send_sms_otp check_lockout
  send_sms_otp-forced env validity otp user s login phone =
      (delete_otp_data codes env (sms_key codes user) s, ground arith)

  send_password_reset-forced :
      (env : Env) (validity : ℕ) (otp : List ℕ) (user : User) (s : Store)
      → send_password_reset_otp codes env validity otp user true s
        ≡ store_and_send codes env (reset_key codes user.id) otp validity none s
  unfolding send_password_reset_otp check_cooldown
  send_password_reset-forced env validity otp user s = ground arith

module _ (hasher : Hasher) (codes : Redis OtpKey OtpData) (cache : Redis CacheKey CacheValue)
    (conf : Settings) where
  start_2fa-forced :
      (c : Context) (step : Action) (u : Account hasher) (w : Site hasher codes cache)
      → has_text u.phone_number ≡ true
      → c.env.connected ≡ true
      → c.env.delivered ≡ true
      → 0 < conf.otp_validity_minutes
      → let (reply, w') = start_2fa hasher codes cache conf c step u w in
        (reply ≡ require_2fa (record { user_id = u.id; action = step }))
        × IsNewCode codes c.env.now (otp_key sms_otp u.id) c.code w'.codes_store
  unfolding start_2fa
  start_2fa-forced c step u w phone up sent pos =
      let u' : Account hasher = record u { has_initiate_login = true } in
      let (s0, e) =
        send_sms_otp-forced codes c.env conf.otp_validity_minutes c.code (otp_user hasher u')
          w.codes_store refl phone in
      let replied =
        store_and_send-sent codes c.env (otp_key sms_otp u.id) conf.otp_validity_minutes c.code s0
          up sent in
      let stored =
        stored_fresh codes c.env (otp_key sms_otp u.id) conf.otp_validity_minutes c.code s0 up sent
          pos in
      (
        ground arith,
        subst (IsNewCode codes c.env.now (otp_key sms_otp u.id) c.code)
            (sym (ap (λ (p : SendReply × Redis.Store codes). p.1) e)) stored,
      )

  -- With the right password, the lockout after five wrong codes lasts until the next login: a login of
  -- an account that is verified and has two factors and a phone number sends a new code at once, with
  -- no failed attempt, whatever the attempts were. So does a request for a forgotten password by a phone
  -- number, for the codes of resets, which needs no password.
  pub forced-unlocks :
      (c : Context) (email phone : ℕ) (password : List ℕ) (u v : Account hasher)
      (w : Site hasher codes cache)
      → authenticate hasher codes cache conf email password w ≡ some u
      → u.is_email_verified ≡ true
      → u.is_2fa_enabled ≡ true
      → has_text u.phone_number ≡ true
      → find_by hasher codes cache conf (by_phone phone) w ≡ some v
      → c.env.connected ≡ true
      → c.env.delivered ≡ true
      → 0 < conf.otp_validity_minutes
      → let (reply, w') = login hasher codes cache conf c true email password w in
        let (reply', w'') = forgot_password hasher codes cache conf c true (by_phone phone) w in
        (reply ≡ require_2fa (record { user_id = u.id; action = two_factor_verification }))
        × IsNewCode codes c.env.now (otp_key sms_otp u.id) c.code w'.codes_store
        × (reply' ≡ done)
        × IsNewCode codes c.env.now (otp_key password_reset v.id) c.code w''.codes_store
  unfolding login login_account forgot_password send_sms_reset
  forced-unlocks c email phone password u v w e verified two has f up sent pos =
      let u' : Account hasher = record u { password_attempt = 0 } in
      let (replied, stored) =
        start_2fa-forced c two_factor_verification u' (save_account hasher codes cache u' w) has up
          sent pos in
      let asked =
        send_password_reset-forced codes c.env conf.otp_validity_minutes c.code (otp_user hasher v)
          w.codes_store in
      let key = otp_key password_reset v.id in
      let replied' =
        store_and_send-sent codes c.env key conf.otp_validity_minutes c.code w.codes_store up
          sent in
      let stored' =
        stored_fresh codes c.env key conf.otp_validity_minutes c.code w.codes_store up sent pos in
      let logs : login hasher codes cache conf c true email password w
          ≡ start_2fa hasher codes cache conf c two_factor_verification u'
              (save_account hasher codes cache u' w) =
        ground arith in
      let asks : forgot_password hasher codes cache conf c true (by_phone phone) w
          ≡ send_sms_reset hasher codes cache conf c true v w =
        ground arith in
      rw (logs, asks)
        (
          replied,
          stored,
          ground arith,
          subst (IsNewCode codes c.env.now key c.code)
              (sym (ap (λ (p : SendReply × Redis.Store codes). p.1) asked)) stored',
        )
