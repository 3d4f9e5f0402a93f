-- ===== src/Accounts.antt =====
-- The accounts of users/models.py and what the views of users/views.py share. Texts (emails, user
-- names, phone numbers) are numbers that are only compared, 0 the empty one; hashed passwords are a
-- parameter. What the serializers decide of formats and of the strength of passwords, the JWT library
-- of a refresh token, Django's `signing` of a verification token, and Google of an access token, are
-- arguments, and so are random tokens. The settings are those of production, with `DEBUG` off.
pub mod Login
pub mod Passwords
pub mod Factor
pub mod Reset
pub mod Forced
pub mod Rotated
use juris.Base.{
  Bool, List, Option, exists_row, false, first_row, holds, if◌then◌else◌, none, not, some, true, ℕ,
  ◌&&◌, ◌==◌, ◌||◌, ◌≡◌,
}
use juris.Otp.{Env, OtpData, OtpKey, SendReply, User, VerifyReply}
use juris.Redis.{Redis}
use juris.Table.{save_row}
use juris.Tokens.{CacheKey, CacheValue, TokenData, store_tokens}

-- `set_password` and `check_password` of Django's users.
pub record Hasher : Type 1 where
  pub Hash : Type 0
  pub set_password : List ℕ → Hash
  pub check_password : List ℕ → Hash → Bool
  pub check-set : (p : List ℕ) → check_password p (set_password p) ≡ true

pub record Settings : Type 0 where
  pub otp_validity_minutes : ℕ
  pub access_expiry : ℕ
  pub refresh_expiry : ℕ
  pub email_verification_hours : ℕ
  pub password_reset_timeout : ℕ  -- seconds

-- What a request meets: the clock, Redis and the messages, and what it draws.
pub record Context : Type 0 where
  pub env : Env
  pub code : List ℕ
  pub access_token : ℕ
  pub refresh_token : ℕ
  pub reset_token : ℕ

-- `PasswordResetToken`
pub record ResetToken : Type 0 where
  pub user : ℕ
  pub token : ℕ
  pub expires_at : ℕ
  pub is_used : Bool

abbrev pub empty_text : ℕ
empty_text = 0

-- The truth of a nullable text.
abbrev pub has_text : Option ℕ → Bool
has_text none = false
has_text (some t) = not (t == empty_text)

abbrev pub reset_token_key : ResetToken → ℕ
reset_token_key t = t.user

-- `action` of a verification token, which may be missing
pub data Action : Type 0 where
  two_factor_verification two_factor_setup unnamed : Action

abbrev pub is_setup : Action → Bool
is_setup two_factor_setup = true
is_setup _ = false

-- What `signing.loads` gives for a verification token that is signed and not too old.
pub record SignedData : Type 0 where
  pub user_id : ℕ
  pub action : Action

pub data AccountReply : Type 0 where
  bad_form : AccountReply  -- 400, of the serializer
  unauthorized : AccountReply  -- 401
  done : AccountReply  -- 200
  integrity_error : AccountReply  -- 500
  mail_error : AccountReply  -- 500
  invalid_credentials : AccountReply  -- 401
  not_verified_email : AccountReply  -- 401
  phone_required : AccountReply  -- 400
  phone_in_use : AccountReply  -- 400
  not_sent_code : SendReply → AccountReply  -- 400
  require_2fa : SignedData → AccountReply  -- 200
  logged_in : TokenData → AccountReply  -- 200
  signed_up : AccountReply  -- 201
  invalid_link : AccountReply  -- 400
  link_expired : AccountReply  -- 400
  invalid_token : AccountReply  -- 400 or 401
  login_not_started : AccountReply  -- 400
  wrong_otp : ℕ → AccountReply  -- 400
  code_refused : VerifyReply → AccountReply  -- 400
  weak_password : AccountReply  -- 400
  available : Bool → AccountReply  -- 200

module _ (hasher : Hasher) where
  open hasher use {Hash}

  pub record Account : Type 0 where
    pub id : ℕ
    pub email : ℕ
    pub username : ℕ
    pub phone_number : Option ℕ
    pub password : Hash
    pub password_attempt : ℕ
    pub is_active : Bool
    pub is_email_verified : Bool
    pub email_verification_valid_until : Option ℕ
    pub is_2fa_enabled : Bool
    pub has_initiate_login : Bool

  abbrev pub account_key : Account → ℕ
  account_key u = u.id

  -- What the one-time passwords read of an account, and what they write to it.
  abbrev pub otp_user : Account → User
  otp_user u = record {
    id = u.id;
    email = u.email;
    username = u.username;
    has_phone_number = has_text u.phone_number;
    has_initiate_login = u.has_initiate_login;
  }

  abbrev pub of_otp_user : User → Account → Account
  of_otp_user o u = record u {
    email = o.email;
    username = o.username;
    has_initiate_login = o.has_initiate_login;
  }

  abbrev pub with_email_of : ℕ → Account → Bool
  with_email_of e u = u.email == e

  abbrev pub with_phone_of : ℕ → Account → Bool
  with_phone_of p u = holds p u.phone_number

  -- Another account has the email, the user name or the phone number, which are unique.
  abbrev pub collides : Account → Account → Bool
  collides u v =
      not (v.id == u.id)
      && (v.email == u.email
          || v.username == u.username
          || elim u.phone_number [ none ↦ false | some p ↦ holds p v.phone_number ])

  module _ (codes : Redis OtpKey OtpData) (cache : Redis CacheKey CacheValue) where
    pub record Site : Type 0 where
      pub accounts : List Account
      pub reset_tokens : List ResetToken
      pub codes_store : Redis.Store codes
      pub cache_store : Redis.Store cache
      pub next_id : ℕ

    -- `user.save()` that leaves the unique texts alone
    abbrev pub save_account : Account → Site → Site
    save_account u w = record w { accounts = save_row account_key u w.accounts }

    -- `user.save()`; none for an IntegrityError
    abbrev pub save_unique : Account → Site → Option Site
    save_unique u w = if exists_row (collides u) w.accounts then none else some (save_account u w)

    -- `request.user`, where the JWT library gives its id
    abbrev pub request_user : ℕ → Site → Option Account
    request_user id w = first_row (λ u. u.id == id && u.is_active) w.accounts

    -- `User.objects.exclude(id=user.id).filter(phone_number=phone).exists()`
    abbrev pub phone_taken : ℕ → ℕ → Site → Bool
    phone_taken id phone w = exists_row (λ u. not (u.id == id) && with_phone_of phone u) w.accounts

    -- `RedisTokenStore.store_tokens(user)` and the response
    abbrev pub new_tokens : Context → Account → TokenData
    new_tokens c u = record {
      access_token = c.access_token;
      refresh_token = c.refresh_token;
      user_id = u.id;
    }

    unfoldable pub give_tokens : Settings → Context → Account → Site → AccountReply × Site
    give_tokens conf c u w = (
      logged_in (new_tokens c u),
      record w {
        cache_store =
            store_tokens cache c.env.now conf.access_expiry conf.refresh_expiry (new_tokens c u)
              w.cache_store;
      },
    )
