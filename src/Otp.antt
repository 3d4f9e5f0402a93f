-- ===== src/Otp.antt =====
-- The one-time passwords of users/redis_otp_service.py: two-factor login by SMS, the change of an
-- email address, and the reset of a password. The data of a code is kept in Redis as JSON, which the
-- model stores as the record that it stands for. In a request Redis is connected throughout or not
-- at all. The random code, the answer of the SMS or mail service, and OTP_VALIDITY_MINUTES of the
-- settings are arguments.
pub mod Service
pub mod Guesses
pub mod Sent
pub mod Ends
use juris.Base.{
  Bool, List, Option, false, if◌then◌else◌, leb, ltb, none, not, some, true, ℕ, ◌*◌, ◌+◌, ◌-◌, ◌/◌,
}
use juris.Clock.{minute, second}
use juris.Redis.{Redis}

pub data OtpKind : Type 0 where
  sms_otp email_change password_reset : OtpKind

-- `_get_key`: the prefix and the user
pub data OtpKey : Type 0 where
  otp_key : OtpKind → ℕ → OtpKey

pub record OtpData : Type 0 where
  pub otp : List ℕ
  pub expires_at : ℕ
  pub attempt_count : ℕ
  pub last_sent : ℕ
  pub new_email : Option ℕ

pub record User : Type 0 where
  pub id : ℕ
  pub email : ℕ
  pub username : ℕ
  pub has_phone_number : Bool
  pub has_initiate_login : Bool

-- What a request meets: the clock, Redis connected or not, the message delivered or not.
pub record Env : Type 0 where
  pub now : ℕ
  pub connected : Bool
  pub delivered : Bool

abbrev pub default_cooldown : ℕ
default_cooldown = 60 * second

abbrev pub default_max_attempts : ℕ
default_max_attempts = 5

-- `_is_otp_valid`
abbrev pub is_otp_valid : ℕ → OtpData → Bool
is_otp_valid now d = ltb now d.expires_at

-- `_can_resend_otp`
abbrev pub can_resend_otp : ℕ → OtpData → Bool
can_resend_otp now d = leb (d.last_sent + default_cooldown) now

-- `attempt_count >= DEFAULT_MAX_ATTEMPTS`
abbrev pub is_exhausted : OtpData → Bool
is_exhausted d = leb default_max_attempts d.attempt_count

pub data SendReply : Type 0 where
  not_logged_in locked too_soon no_phone not_stored not_sent code_sent : SendReply

pub data VerifyReply : Type 0 where
  no_request expired too_many : VerifyReply
  wrong_code : ℕ → VerifyReply
  verified : VerifyReply

pub record LockoutInfo : Type 0 where
  pub is_locked : Bool
  pub attempts_left : ℕ
  pub lockout_expires_at : Option ℕ
  pub lockout_expires_in_minutes : ℕ

abbrev pub no_lockout : LockoutInfo
no_lockout = record {
  is_locked = false;
  attempts_left = default_max_attempts;
  lockout_expires_at = none;
  lockout_expires_in_minutes = 0;
}

-- `otp_data` of `_store_otp_data`
abbrev pub new_data : ℕ → List ℕ → ℕ → Option ℕ → OtpData
new_data now otp validity_minutes new_email = record {
  otp = otp;
  expires_at = now + validity_minutes * minute;
  attempt_count = 0;
  last_sent = now;
  new_email = new_email;
}

module _ (redis : Redis OtpKey OtpData) where
  open redis use {Store, get, setex, delete}

  -- `_store_otp_data`
  unfoldable pub store_otp_data : Env → OtpKey → List ℕ → ℕ → Option ℕ → Store → Bool × Store
  store_otp_data env key otp validity_minutes new_email s =
      if env.connected
      then (
        true,
        setex s env.now key ((validity_minutes + 5) * 60)
            (new_data env.now otp validity_minutes new_email),
      )
      else (false, s)

  -- `_get_otp_data`
  unfoldable pub get_otp_data : Env → OtpKey → Store → Option OtpData
  get_otp_data env key s = if env.connected then get s env.now key else none

  -- `_delete_otp_data`, whose result nothing reads
  unfoldable pub delete_otp_data : Env → OtpKey → Store → Store
  delete_otp_data env key s = if env.connected then delete s key else s

  -- `_increment_attempt`, whose result nothing reads
  unfoldable pub increment_attempt : Env → OtpKey → Store → Store
  unfolding get_otp_data
  increment_attempt env key s = elim (get_otp_data env key s) [
    | none ↦ s
    | some d ↦
        let remaining_seconds = (d.expires_at - env.now) / second in
        if ltb 0 remaining_seconds
        then setex s env.now key remaining_seconds
            (record d { attempt_count = d.attempt_count + 1 })
        else delete s key
  ]

  unfoldable pub get_lockout_info : Env → ℕ → Store → LockoutInfo × Store
  unfolding get_otp_data delete_otp_data
  get_lockout_info env user s = elim (get_otp_data env (otp_key sms_otp user) s) [
    | none ↦ (no_lockout, s)
    | some d ↦
        if not (is_otp_valid env.now d)
        then (no_lockout, delete_otp_data env (otp_key sms_otp user) s)
        else (
          record {
            is_locked = is_exhausted d;
            attempts_left = default_max_attempts - d.attempt_count;
            lockout_expires_at = if is_exhausted d then some d.expires_at else none;
            lockout_expires_in_minutes =
                if is_exhausted d then (d.expires_at - env.now) / minute else 0;
          },
          s,
        )
  ]

  unfoldable pub get_sms_otp_attempts_left : Env → ℕ → Store → ℕ × Store
  unfolding get_otp_data delete_otp_data
  get_sms_otp_attempts_left env user s = elim (get_otp_data env (otp_key sms_otp user) s) [
    | none ↦ (default_max_attempts, s)
    | some d ↦
        if not (is_otp_valid env.now d)
        then (default_max_attempts, delete_otp_data env (otp_key sms_otp user) s)
        else (default_max_attempts - d.attempt_count, s)
  ]
