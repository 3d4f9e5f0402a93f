-- ===== src/Accounts/Rotated.antt =====
-- What `refresh_tokens` does to the refresh token that it takes.
use juris.Accounts.{
  Context, Hasher, Settings, Site, account_key, give_tokens, invalid_token, logged_in, new_tokens,
}
use juris.Accounts.Login.{refresh_tokens}
use juris.Base.{
  Bool-cases, Option, Option-cases, arith, if◌then◌else◌, inl, inr, ltb, none, refl, some, sym, ℕ,
  ◌*◌, ◌+◌, ◌==◌, ◌∙◌, ◌≡◌, ◌≢◌, ◌≤◌,
}
use juris.Clock.{second}
use juris.Otp.{OtpData, OtpKey}
use juris.Redis.{Redis}
use juris.Table.{find, key-find}
use juris.Tokens.{
  CacheKey, CacheValue, TokenData, access, blacklist_token, delete_tokens, forget_pair, owner,
  refresh, store_tokens, token_data, token_key, user_tokens, validate_token,
}
use juris.Tokens.Valid.{store-validate}

module _ (cache : Redis CacheKey CacheValue) where
  open cache use {Store, get, delete, setex, get-setex_other, get-delete_same, get-delete_other}

  -- A refresh token that is not there stays so when another one or itself is deleted.
  gone-delete :
      (later token other : ℕ) (s : Store)
      → get s later (token_key refresh token) ≡ none
      → get (delete s (token_key refresh other)) later (token_key refresh token) ≡ none
  gone-delete later token other s h = elim (Bool-cases (other == token)) [
    | inl y ↦
        let same : other ≡ token = ground arith in
        rw same (get-delete_same s later (token_key refresh token))
    | inr n ↦
        get-delete_other s later (token_key refresh other) (token_key refresh token)
          (λ e. ground arith)
        ∙ h
  ]

  gone-delete_tokens :
      (later token : ℕ) (v : Option CacheValue) (s : Store)
      → get s later (token_key refresh token) ≡ none
      → get (delete_tokens cache v s) later (token_key refresh token) ≡ none
  gone-delete_tokens later token none s h = h
  gone-delete_tokens later token (some (owner u)) s h = h
  gone-delete_tokens later token (some (token_data d)) s h =
      gone-delete later token d.refresh_token (delete s (token_key access d.access_token)) (
        get-delete_other s later (token_key access d.access_token) (token_key refresh token)
          (λ e. cc)
        ∙ h)

  gone-store_tokens :
      (now later token access_expiry refresh_expiry : ℕ) (d : TokenData) (s : Store)
      → d.refresh_token ≢ token
      → get s later (token_key refresh token) ≡ none
      → get
          (store_tokens cache now access_expiry refresh_expiry d s)
          later
          (token_key refresh token)
        ≡ none
  unfolding store_tokens
  gone-store_tokens now later token access_expiry refresh_expiry d s differ h =
      let s1 = delete_tokens cache (get s now (user_tokens d.user_id)) s in
      let s2 = setex s1 now (token_key access d.access_token) access_expiry (owner d.user_id) in
      let s3 = setex s2 now (token_key refresh d.refresh_token) refresh_expiry (owner d.user_id) in
      get-setex_other s3 now later (user_tokens d.user_id) (token_key refresh token) refresh_expiry
        (token_data d) (λ e. cc)
      ∙ get-setex_other s2 now later (token_key refresh d.refresh_token) (token_key refresh token)
          refresh_expiry (owner d.user_id) (λ e. differ (cc))
      ∙ get-setex_other s1 now later (token_key access d.access_token) (token_key refresh token)
          access_expiry (owner d.user_id) (λ e. cc)
      ∙ gone-delete_tokens later token (get s now (user_tokens d.user_id)) s h

  gone-forget_pair :
      (later token user : ℕ) (v : Option CacheValue) (s : Store)
      → get s later (token_key refresh token) ≡ none
      → get (forget_pair cache token user v s) later (token_key refresh token) ≡ none
  gone-forget_pair later token user none s h = h
  gone-forget_pair later token user (some (owner u)) s h = h
  gone-forget_pair later token user (some (token_data d)) s h =
      let s1 = delete s (token_key access d.access_token) in
      let kept =
        get-delete_other s later (token_key access d.access_token) (token_key refresh token)
          (λ e. cc) in
      let still =
        get-delete_other s1 later (user_tokens user) (token_key refresh token) (λ e. cc) in
      elim (Bool-cases (d.refresh_token == token)) [
        | inl y ↦ rw y (still ∙ kept ∙ h)
        | inr n ↦ rw n h
      ]

  gone-blacklist_token :
      (now later token user : ℕ) (s : Store)
      → validate_token cache now refresh token s ≡ some user
      → get (blacklist_token cache now token refresh s) later (token_key refresh token) ≡ none
  unfolding blacklist_token
  gone-blacklist_token now later token user s e =
      let s1 = delete s (token_key refresh token) in
      rw (e, blacklist_token)
        (gone-forget_pair later token user (get s1 now (user_tokens user)) s1
          (get-delete_same s later (token_key refresh token)))

module _ (hasher : Hasher) (codes : Redis OtpKey OtpData) (cache : Redis CacheKey CacheValue)
    (conf : Settings) where
  -- A refresh token works once: when a request with it and its user's id is answered with tokens, of
  -- which the new refresh token is another one, then every later request with the old one is refused and
  -- changes nothing, and the new one is valid for the user until its time is over.
  pub refresh_tokens-once :
      (c c' : Context) (token user : ℕ) (payload : Option ℕ) (d : TokenData)
      (w w' : Site hasher codes cache)
      → refresh_tokens hasher codes cache conf c (some token) (some user) w ≡ (logged_in d, w')
      → c.refresh_token ≢ token
      → c.env.now ≤ c'.env.now
      → (refresh_tokens hasher codes cache conf c' (some token) payload w' ≡ (invalid_token, w'))
        × (validate_token cache c'.env.now refresh c.refresh_token w'.cache_store ≡ (
            if ltb c'.env.now (c.env.now + conf.refresh_expiry * second) then some user else none))
  unfolding refresh_tokens give_tokens validate_token
  refresh_tokens-once c c' token user payload d w w' e differ le =
      elim (Option-cases (validate_token cache c.env.now refresh token w.cache_store)) [
        | inl n ↦ ground arith
        | inr (holder, f) ↦ elim (Option-cases (find (account_key hasher) user w.accounts)) [
          | inl n ↦ ground arith
          | inr (u, g) ↦
              let s1 = blacklist_token cache c.env.now token refresh w.cache_store in
              let tokens : TokenData = new_tokens hasher codes cache c u in
              let own = key-find (account_key hasher) user w.accounts u g in
              let written : w'.cache_store
                  ≡ store_tokens cache c.env.now conf.access_expiry conf.refresh_expiry tokens s1 =
                ground arith in
              let gone =
                gone-store_tokens cache c.env.now c'.env.now token conf.access_expiry
                  conf.refresh_expiry tokens s1 differ
                  (gone-blacklist_token cache c.env.now c'.env.now token holder w.cache_store f) in
              let valid =
                (store-validate cache c.env.now c'.env.now conf.access_expiry conf.refresh_expiry
                  tokens s1 le).1 in
              (refused payload (rw written gone), rw (written, sym own) valid)
        ]
      ]
    where
      refused :
          (p : Option ℕ)
          → Redis.get cache w'.cache_store c'.env.now (token_key refresh token) ≡ none
          → refresh_tokens hasher codes cache conf c' (some token) p w' ≡ (invalid_token, w')
      refused none h = refl
      refused (some v) h = ground arith
