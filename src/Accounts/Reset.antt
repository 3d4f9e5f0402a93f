-- ===== src/Accounts/Reset.antt =====
-- The way of a forgotten password to a new one.
use juris.Accounts.{
  Account, Context, Hasher, ResetToken, Settings, Site, account_key, done, invalid_token,
  reset_token_key, with_email_of,
}
use juris.Accounts.Passwords.{
  by_email, by_token, find_by, forgot_password, is_usable, new_reset_token, put_password, reset_for,
  reset_password, send_email_reset,
}
use juris.Base.{
  All, Bool, List, [], arith, false, first_row, if◌then◌else◌, none, refl, some, true, ℕ, ◌*◌, ◌+◌,
  ◌<◌, ◌==◌, ◌∷◌, ◌≡◌, ◌≢◌, ◌≤◌,
}
use juris.Clock.{second}
use juris.Otp.{OtpData, OtpKey}
use juris.Redis.{Redis}
use juris.Table.{HasKeys, find, find-first_row, find-save_row, save_row}
use juris.Tokens.{CacheKey, CacheValue, TokenType, validate_token}
use juris.Tokens.Linked.{IsLinked}
use juris.Tokens.Valid.{invalidate_user_tokens-refused}

-- The row of an account's token takes the place of the one before.
save_row_twice :
    (a b : ResetToken) (ts : List ResetToken)
    → a.user ≡ b.user
    → save_row reset_token_key b (save_row reset_token_key a ts) ≡ save_row reset_token_key b ts
save_row_twice a b [] h = ground arith
save_row_twice a b (t ∷ ts) h = ground (arith, save_row_twice a b ts h)

-- No row has the token.
abbrev pub IsUnknown : ℕ → List ResetToken → Type 0
IsUnknown token ts = All (λ (t : ResetToken). (t.token == token) ≡ false) ts

module _ (hasher : Hasher) (codes : Redis OtpKey OtpData) (cache : Redis CacheKey CacheValue)
    (conf : Settings) where
  usable_saved :
      (now token : ℕ) (t : ResetToken) (ts : List ResetToken)
      → IsUnknown token ts
      → first_row (is_usable hasher codes cache conf now token) (save_row reset_token_key t ts)
        ≡ (if is_usable hasher codes cache conf now token t then some t else none)
  usable_saved now token t [] h = ground arith
  usable_saved now token t (x ∷ ts) h =
      ground (arith, usable_saved now token t ts h.1, unusable ts h.1)
    where
      unusable :
          (ts : List ResetToken)
          → IsUnknown token ts
          → first_row (is_usable hasher codes cache conf now token) ts ≡ none
      unusable [] h = refl
      unusable (x ∷ ts) h = ground (arith, unusable ts h.1)

  -- Where accounts have distinct ids and the tokens in the cache are linked, the owner of an email address
  -- who asks for a new password and sends the token from the message, before its time is over and with
  -- a password that is strong enough, has that password, and nothing else of the account changes. From
  -- then on no earlier token of a login is valid for the account, and the reset token is refused.
  pub forgot-reset :
      (c later : Context) (email : ℕ) (new_password again : List ℕ) (is_strong : Bool)
      (u : Account hasher) (w : Site hasher codes cache)
      → HasKeys (account_key hasher) w.accounts
      → IsLinked cache later.env.now w.cache_store
      → find_by hasher codes cache conf (by_email email) w ≡ some u
      → IsUnknown c.reset_token w.reset_tokens
      → later.env.now < c.env.now + conf.password_reset_timeout * second
      → let w1 = (forgot_password hasher codes cache conf c true (by_email email) w).1 in
        let (reply, w2) =
          reset_password hasher codes cache conf later true
            (by_token c.reset_token)
            new_password
            true
            w1 in
        let u' : Account hasher = record u { password = hasher.set_password new_password } in
        (reply ≡ done)
        × (find (account_key hasher) u.id w2.accounts ≡ some u')
        × (hasher.check_password new_password u'.password ≡ true)
        × ((t : ℕ) (type : TokenType) (token : ℕ)
            → later.env.now ≤ t
            → validate_token cache t type token w2.cache_store ≢ some u.id)
        × (reset_password hasher codes cache conf later true
              (by_token c.reset_token)
              again
              is_strong
              w2
            ≡ (invalid_token, w2))
  unfolding forgot_password send_email_reset reset_password reset_for put_password
  forgot-reset c later email new_password again is_strong u w keys link f fresh lt =
      let t = new_reset_token hasher codes cache conf c u in
      let used : ResetToken = record t { is_used = true } in
      let w1 : Site hasher codes cache = record w {
        reset_tokens = save_row reset_token_key t w.reset_tokens;
      } in
      let w1' : Site hasher codes cache = record w {
        reset_tokens = save_row reset_token_key used (save_row reset_token_key t w.reset_tokens);
      } in
      let w2 = put_password hasher codes cache conf later new_password u w1' in
      let asks : (forgot_password hasher codes cache conf c true (by_email email) w).1 ≡ w1 =
        ground arith in
      let own =
        find-first_row (account_key hasher) (with_email_of hasher email) w.accounts u keys f in
      let usable = usable_saved later.env.now c.reset_token t w.reset_tokens fresh in
      let resets : reset_password hasher codes cache conf later true (by_token c.reset_token)
            new_password true w1
          ≡ (done, w2) =
        ground arith in
      let unusable = usable_saved later.env.now c.reset_token used w.reset_tokens fresh in
      rw (asks, resets)
        (
          refl,
          ground (
            arith,
            find-save_row (account_key hasher) u.id
                (record u { password = hasher.set_password new_password }) w.accounts,
          ),
          hasher.check-set new_password,
          λ t type token le.
              invalidate_user_tokens-refused cache later.env.now t type token u.id w.cache_store
                link le,
          ground (arith, save_row_twice t used w.reset_tokens refl),
        )
