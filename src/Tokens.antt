-- ===== src/Tokens.antt =====
-- `RedisTokenStore` of users/redis_token_store.py: the JSON Web Tokens of the logged in users, in
-- Django's cache. The tokens and their lifetimes are arguments: they come from the JWT library and its
-- settings. What is stored as JSON is the record that it stands for.
pub mod Linked
pub mod Valid
pub mod Blacklist
use juris.Base.{Option, if◌then◌else◌, none, some, ℕ, ◌==◌}
use juris.Redis.{Redis}

-- `token_type`
pub data TokenType : Type 0 where
  access refresh : TokenType

pub data CacheKey : Type 0 where
  token_key : TokenType → ℕ → CacheKey
  user_tokens : ℕ → CacheKey

pub record TokenData : Type 0 where
  pub access_token : ℕ
  pub refresh_token : ℕ
  pub user_id : ℕ

pub data CacheValue : Type 0 where
  owner : ℕ → CacheValue
  token_data : TokenData → CacheValue

abbrev pub token_of : TokenType → TokenData → ℕ
token_of access d = d.access_token
token_of refresh d = d.refresh_token

module _ (cache : Redis CacheKey CacheValue) where
  open cache use {Store, get, setex, delete}

  -- The deletion of both tokens of a stored value, if it is the data of some.
  abbrev pub delete_tokens : Option CacheValue → Store → Store
  delete_tokens none s = s
  delete_tokens (some (owner u)) s = s
  delete_tokens (some (token_data d)) s =
      delete (delete s (token_key access d.access_token)) (token_key refresh d.refresh_token)

  unfoldable pub store_tokens : ℕ → ℕ → ℕ → TokenData → Store → Store
  store_tokens now access_expiry refresh_expiry d s =
      let s1 = delete_tokens (get s now (user_tokens d.user_id)) s in
      let s2 = setex s1 now (token_key access d.access_token) access_expiry (owner d.user_id) in
      let s3 = setex s2 now (token_key refresh d.refresh_token) refresh_expiry (owner d.user_id) in
      setex s3 now (user_tokens d.user_id) refresh_expiry (token_data d)

  abbrev pub owner_of : Option CacheValue → Option ℕ
  owner_of none = none
  owner_of (some (owner u)) = some u
  owner_of (some (token_data d)) = none

  unfoldable pub validate_token : ℕ → TokenType → ℕ → Store → Option ℕ
  validate_token now type token s = owner_of (get s now (token_key type token))

  unfoldable pub invalidate_user_tokens : ℕ → ℕ → Store → Store
  invalidate_user_tokens now user s = elim (get s now (user_tokens user)) [
    | none ↦ s
    | some v ↦ delete (delete_tokens (some v) s) (user_tokens user)
  ]

  -- The end of `blacklist_token` for a refresh token: its user's data go with it if it is theirs.
  abbrev pub forget_pair : ℕ → ℕ → Option CacheValue → Store → Store
  forget_pair token user none s = s
  forget_pair token user (some (owner u)) s = s
  forget_pair token user (some (token_data d)) s =
      if d.refresh_token == token
      then delete (delete s (token_key access d.access_token)) (user_tokens user)
      else s

  unfoldable pub blacklist_token : ℕ → ℕ → TokenType → Store → Store
  unfolding validate_token
  blacklist_token now token access s = delete s (token_key access token)
  blacklist_token now token refresh s = elim (validate_token now refresh token s) [
    | none ↦ s
    | some user ↦
        let s' = delete s (token_key refresh token) in
        forget_pair token user (get s' now (user_tokens user)) s'
  ]
