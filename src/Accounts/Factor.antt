-- ===== src/Accounts/Factor.antt =====
-- The second factor of a login.
use juris.Accounts.{
  Account, Action, Context, Hasher, Settings, SignedData, Site, account_key, give_tokens, is_setup,
  new_tokens, of_otp_user, otp_user, request_user, save_account, two_factor_verification, unnamed,
}
use juris.Accounts.Login.{
  authenticate, google_account, google_login, login, login_account, second_factor_passed, start_2fa,
  verify_otp,
}
use juris.Base.{
  Bool-cases, List, Option, Option-cases, arith, false, inl, inr, none, refl, some, subst, sym,
  true, ℕ, ◌&&◌, ◌<◌, ◌∙◌, ◌≡◌, ◌≤◌, ◌⊎◌,
}
use juris.Otp.{Env, OtpData, OtpKey, User, get_otp_data, otp_key, sms_otp}
use juris.Otp.Service.{verify_sms_otp}
use juris.Redis.{Redis}
use juris.Table.{find, key-find}
use juris.Text.{same_text, strip}
use juris.Tokens.{CacheKey, CacheValue, TokenType, validate_token}
use juris.Tokens.Valid.{store-new}

module _ (hasher : Hasher) (codes : Redis OtpKey OtpData) (cache : Redis CacheKey CacheValue)
    (conf : Settings) where
  start_2fa-cache :
      (c : Context) (action : Action) (u : Account hasher) (w : Site hasher codes cache)
      → (start_2fa hasher codes cache conf c action u w).1.cache_store ≡ w.cache_store
  unfolding start_2fa
  start_2fa-cache c action u w = refl

  login_account-cache :
      (c : Context) (u : Account hasher) (w : Site hasher codes cache)
      → (u.is_2fa_enabled ≡ true) ⊎ (u.is_email_verified ≡ false)
      → (login_account hasher codes cache conf c u w).1.cache_store ≡ w.cache_store
  unfolding login_account
  login_account-cache c u w (inl two) =
      let u' : Account hasher = record u { password_attempt = 0 } in
      let kept =
        start_2fa-cache c two_factor_verification u' (save_account hasher codes cache u' w) in
      ground arith
  login_account-cache c u w (inr n) = ground arith

  login-cache :
      (c : Context) (email : ℕ) (password : List ℕ) (u : Account hasher)
      (w : Site hasher codes cache)
      → authenticate hasher codes cache conf email password w ≡ some u
      → (u.is_2fa_enabled ≡ true) ⊎ (u.is_email_verified ≡ false)
      → (login hasher codes cache conf c true email password w).1.cache_store ≡ w.cache_store
  unfolding login
  login-cache c email password u w e two = let kept = login_account-cache c u w two in ground arith

  google-cache :
      (c : Context) (id : ℕ) (u : Account hasher) (w : Site hasher codes cache)
      → request_user hasher codes cache id w ≡ some u
      → u.is_2fa_enabled ≡ true
      → (google_login hasher codes cache conf c (google_account id) w).1.cache_store ≡ w.cache_store
  unfolding google_login
  google-cache c id u w e two =
      let u' : Account hasher = record u { is_email_verified = true } in
      let kept = start_2fa-cache c unnamed u' (save_account hasher codes cache u' w) in ground arith

  -- The code that is stored for a user is still valid and is the guess.
  abbrev pub IsRightCode : Env → ℕ → List ℕ → Redis.Store codes → Type 0
  IsRightCode env user otp s =
      (d : OtpData) × (Redis.get codes s env.now (otp_key sms_otp user) ≡ some d)
      × (env.now < d.expires_at)
      × (d.attempt_count < 5)
      × (same_text (strip d.otp) (strip otp) ≡ true)

  verified-IsRightCode :
      (env : Env) (user : User) (otp : List ℕ) (s : Redis.Store codes)
      → (verify_sms_otp codes env user otp s).0 ≡ true
      → IsRightCode env user.id otp s
  unfolding verify_sms_otp get_otp_data
  verified-IsRightCode env user otp s h =
      elim (Option-cases (Redis.get codes s env.now (otp_key sms_otp user.id))) [
        | inl n ↦ absurd (ground arith)
        | inr (d, e) ↦ (d, e, ground arith, ground arith, ground arith)
      ]

  -- A token that a user has after a code is checked was the user's before, or the user's login has
  -- started, is the one that the signed data name, and the code is right.
  abbrev pub IsEarned :
      Context
      → Option SignedData
      → List ℕ
      → Site hasher codes cache
      → ℕ
      → TokenType
      → ℕ
      → ℕ
      → Type 0
  IsEarned c signed otp w later type token user =
      (validate_token cache later type token w.cache_store ≡ some user)
      ⊎ ((d : SignedData) × (u : Account hasher) × (signed ≡ some d)
          × (d.user_id ≡ user)
          × (find (account_key hasher) user w.accounts ≡ some u)
          × (u.has_initiate_login ≡ true)
          × IsRightCode c.env user otp w.codes_store)

  module _ (c : Context) (otp : List ℕ) (w : Site hasher codes cache) (later : ℕ) (type : TokenType)
      (token user : ℕ) (le : c.env.now ≤ later) where
    passed-IsEarned :
        (action : Action) (u : Account hasher) (w' : Site hasher codes cache)
        → w'.cache_store ≡ w.cache_store
        → validate_token cache later type token
            (second_factor_passed hasher codes cache conf c action u w').1.cache_store
          ≡ some user
        → (validate_token cache later type token w.cache_store ≡ some user) ⊎ (user ≡ u.id)
    unfolding second_factor_passed give_tokens
    passed-IsEarned action u w' same e = elim (Bool-cases (is_setup action)) [
      | inl y ↦ inl (ground arith)
      | inr n ↦ rw (← same) (
          store-new cache c.env.now later conf.access_expiry conf.refresh_expiry type token user
            (new_tokens hasher codes cache c u) w'.cache_store le (ground arith))
    ]

    verify_otp-IsEarned :
        (signed : Option SignedData)
        → validate_token cache later type token
            (verify_otp hasher codes cache conf c signed otp w).1.cache_store
          ≡ some user
        → IsEarned c signed otp w later type token user
    unfolding verify_otp
    verify_otp-IsEarned none e = inl e
    verify_otp-IsEarned (some d) e =
        elim (Option-cases (find (account_key hasher) d.user_id w.accounts)) [
          | inl n ↦ inl (ground arith)
          | inr (u, f) ↦
              elim (Bool-cases (
                u.has_initiate_login
                && (verify_sms_otp codes c.env (otp_user hasher u) otp w.codes_store).0)) [
                  | inr n ↦ inl (ground arith)
                  | inl y ↦
                      let (matched, o, s) =
                        verify_sms_otp codes c.env (otp_user hasher u) otp w.codes_store in
                      let id = key-find (account_key hasher) d.user_id w.accounts u f in
                      let right =
                        verified-IsRightCode c.env (otp_user hasher u) otp w.codes_store
                          (ground arith) in
                      let w' : Site hasher codes cache = record w { codes_store = s } in
                      let passed : verify_otp hasher codes cache conf c (some d) otp w
                          ≡ second_factor_passed hasher codes cache conf c d.action
                              (of_otp_user hasher o u) w' =
                        ground arith in
                      elim (passed-IsEarned d.action (of_otp_user hasher o u) w' refl
                        (rw passed at e)) [
                          | inl before ↦ inl before
                          | inr own ↦ inr (
                              subst
                                (λ (v : ℕ).
                                  (x : SignedData) × (u : Account hasher) × (some d ≡ some x)
                                  × (x.user_id ≡ v)
                                  × (find (account_key hasher) v w.accounts ≡ some u)
                                  × (u.has_initiate_login ≡ true)
                                  × IsRightCode c.env v otp w.codes_store)
                                (sym id ∙ sym own)
                                (
                                  d,
                                  u,
                                  refl,
                                  refl,
                                  f,
                                  ground arith,
                                  subst (λ v. IsRightCode c.env v otp w.codes_store) id right,
                                ))
                        ]
                ]
        ]

  -- An account with two factors gets no tokens from the right password or from Google, nor one with an
  -- unverified address from the right password: the tokens in the cache stay as they are. When a code
  -- is checked, every token that is valid for a user from then on was valid for that user before, or
  -- the user is the one that the signed data name, whose login has started, and the code is, but for
  -- white space around it, the one that is stored for that user, not over and not used up.
  pub second_factor-needed :
      (c : Context) (email : ℕ) (password : List ℕ) (id : ℕ) (signed : Option SignedData)
      (otp : List ℕ) (u v : Account hasher) (w : Site hasher codes cache)
      → authenticate hasher codes cache conf email password w ≡ some u
      → (u.is_2fa_enabled ≡ true) ⊎ (u.is_email_verified ≡ false)
      → request_user hasher codes cache id w ≡ some v
      → v.is_2fa_enabled ≡ true
      → ((login hasher codes cache conf c true email password w).1.cache_store ≡ w.cache_store)
        × ((google_login hasher codes cache conf c (google_account id) w).1.cache_store
            ≡ w.cache_store)
        × ((later : ℕ) (type : TokenType) (token user : ℕ)
            → c.env.now ≤ later
            → validate_token cache later type token
                (verify_otp hasher codes cache conf c signed otp w).1.cache_store
              ≡ some user
            → IsEarned c signed otp w later type token user)
  second_factor-needed c email password id signed otp u v w e two f two' = (
    login-cache c email password u w e two,
    google-cache c id v w f two',
    λ later type token user le. verify_otp-IsEarned c otp w later type token user le signed,
  )
