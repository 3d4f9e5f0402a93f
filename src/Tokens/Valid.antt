-- ===== src/Tokens/Valid.antt =====
-- Which tokens are valid after a login and after a logout.
use juris.Base.{
  Option, Option-cases, ap, arith, if◌then◌else◌, inl, inr, ltb, none, some, subst, sym, ℕ, ◌*◌,
  ◌+◌, ◌∙◌, ◌≡◌, ◌≢◌, ◌≤◌, ◌⊎◌,
}
use juris.Clock.{second}
use juris.Redis.{Redis}
use juris.Tokens.{
  CacheKey, CacheValue, TokenData, TokenType, access, delete_tokens, invalidate_user_tokens, owner,
  owner_of, refresh, store_tokens, token_data, token_key, user_tokens, validate_token,
}
use juris.Tokens.Linked.{
  IsLinked, delete-kept, delete_tokens-gone, delete_tokens-kept, set_token, there_before,
}

module _ (cache : Redis CacheKey CacheValue) where
  open cache use {Store, get, setex, delete, get-setex_same, get-setex_other}

  -- A token that the logout of a user leaves valid was valid.
  invalidated-kept :
      (now later : ℕ) (type : TokenType) (token user w : ℕ) (s : Store)
      → get (invalidate_user_tokens cache now user s) later (token_key type token) ≡ some (owner w)
      → get s later (token_key type token) ≡ some (owner w)
  unfolding invalidate_user_tokens
  invalidated-kept now later type token user w s e =
      elim (Option-cases (get s now (user_tokens user))) [
        | inl n ↦ ground arith
        | inr (v, ev) ↦ delete_tokens-kept cache (some v) later (token_key type token) (owner w) s (
            delete-kept cache _ later (user_tokens user) (token_key type token) (owner w)
              (ground arith))
      ]

  invalidated-gone :
      (now later : ℕ) (type : TokenType) (token user : ℕ) (s : Store)
      → IsLinked cache now s
      → now ≤ later
      → get (invalidate_user_tokens cache now user s) later (token_key type token)
        ≢ some (owner user)
  unfolding invalidate_user_tokens
  invalidated-gone now later type token user s link le e =
      let v = get s now (user_tokens user) in
      elim (Option-cases v) [
        | inl n ↦
            let (d, there, own) =
              link later type token user le (invalidated-kept now later type token user user s e) in
            let before =
              there_before cache s now later (user_tokens user) (token_data d) le there in
            cc
        | inr (w, ew) ↦
            let left : get (delete_tokens cache (some w) s) later (token_key type token)
                ≡ some (owner user) =
              delete-kept cache _ later (user_tokens user) (token_key type token) (owner user)
                (ground arith) in
            delete_tokens-gone cache now later type token user s link le (
              subst
                (λ z.
                  get (delete_tokens cache z s) later (token_key type token) ≡ some (owner user))
                (sym ew) left)
      ]

  owner_found :
      (v : Option CacheValue) (user : ℕ) → owner_of cache v ≡ some user → v ≡ some (owner user)
  owner_found none user h = cc
  owner_found (some (owner u)) user h = cc
  owner_found (some (token_data d)) user h = cc

  -- After a logout from all devices, in a cache whose tokens are linked, no token is valid for the
  -- user from then on.
  pub invalidate_user_tokens-refused :
      (now later : ℕ) (type : TokenType) (token user : ℕ) (s : Store)
      → IsLinked cache now s
      → now ≤ later
      → validate_token cache later type token (invalidate_user_tokens cache now user s) ≢ some user
  unfolding validate_token
  invalidate_user_tokens-refused now later type token user s link le e =
      invalidated-gone now later type token user s link le (owner_found _ user e)

  -- A pair of tokens that was stored is valid for its user until each one's time is over.
  pub store-validate :
      (now later access_expiry refresh_expiry : ℕ) (d : TokenData) (s : Store)
      → now ≤ later
      → let s' = store_tokens cache now access_expiry refresh_expiry d s in
        (validate_token cache later access d.access_token s'
          ≡ (if ltb later (now + access_expiry * second) then some d.user_id else none))
        × (validate_token cache later refresh d.refresh_token s'
            ≡ (if ltb later (now + refresh_expiry * second) then some d.user_id else none))
  unfolding store_tokens validate_token
  store-validate now later access_expiry refresh_expiry d s le =
      let s1 = delete_tokens cache (get s now (user_tokens d.user_id)) s in
      let s2 = setex s1 now (token_key access d.access_token) access_expiry (owner d.user_id) in
      let s3 = setex s2 now (token_key refresh d.refresh_token) refresh_expiry (owner d.user_id) in
      let access_on =
        get-setex_other s3 now later (user_tokens d.user_id) (token_key access d.access_token)
          refresh_expiry (token_data d) (λ e. cc)
        ∙ get-setex_other s2 now later (token_key refresh d.refresh_token)
            (token_key access d.access_token) refresh_expiry (owner d.user_id) (λ e. cc)
        ∙ get-setex_same s1 now later (token_key access d.access_token) access_expiry
            (owner d.user_id) le in
      let refresh_on =
        get-setex_other s3 now later (user_tokens d.user_id) (token_key refresh d.refresh_token)
          refresh_expiry (token_data d) (λ e. cc)
        ∙ get-setex_same s2 now later (token_key refresh d.refresh_token) refresh_expiry
            (owner d.user_id) le in
      (rw access_on (ground arith), rw refresh_on (ground arith))

  -- A token that is valid after a pair was stored was valid before, or its user is the pair's.
  pub store-new :
      (now later access_expiry refresh_expiry : ℕ) (type : TokenType) (token user : ℕ)
      (d : TokenData) (s : Store)
      → now ≤ later
      → validate_token cache later type token
          (store_tokens cache now access_expiry refresh_expiry d s)
        ≡ some user
      → (validate_token cache later type token s ≡ some user) ⊎ (user ≡ d.user_id)
  unfolding store_tokens validate_token
  store-new now later access_expiry refresh_expiry type token user d s le e =
      let s1 = delete_tokens cache (get s now (user_tokens d.user_id)) s in
      let s2 = setex s1 now (token_key access d.access_token) access_expiry (owner d.user_id) in
      let s3 = setex s2 now (token_key refresh d.refresh_token) refresh_expiry (owner d.user_id) in
      let e3 : get s3 later (token_key type token) ≡ some (owner user) =
        sym (
          get-setex_other s3 now later (user_tokens d.user_id) (token_key type token) refresh_expiry
            (token_data d) (λ z. cc))
        ∙ owner_found _ user e in
      elim (set_token cache s2 now later refresh_expiry d.user_id refresh type d.refresh_token token
        user le e3) [
          | inr new ↦ inr new.0
          | inl e2 ↦
              elim (set_token cache s1 now later access_expiry d.user_id access type d.access_token
                token user le e2) [
                  | inr new ↦ inr new.0
                  | inl e1 ↦ inl (
                      ap (owner_of cache) (
                        delete_tokens-kept cache (get s now (user_tokens d.user_id)) later
                          (token_key type token) (owner user) s e1))
                ]
        ]
