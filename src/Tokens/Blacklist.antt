-- ===== src/Tokens/Blacklist.antt =====
-- The logout of one device, `blacklist_token`, and the tokens of the others.
use native.Mathlib.Decide.{ℕ_discrete}
use juris.Base.{
  Bool-cases, Option, arith, inl, inr, none, refl, some, subst, sym, ℕ, ◌==◌, ◌∙◌, ◌≡◌, ◌≢◌,
}
use juris.Redis.{Redis}
use juris.Tokens.{
  CacheKey, CacheValue, TokenData, TokenType, access, blacklist_token, forget_pair, owner, refresh,
  token_data, token_key, token_of, user_tokens, validate_token,
}
use juris.Tokens.Linked.{IsLinked, delete-kept, there_before}

module _ (cache : Redis CacheKey CacheValue) where
  open cache use {Store, get, delete, get-delete_same, get-delete_other}

  delete_token-IsLinked :
      (now token : ℕ) (type : TokenType) (s : Store)
      → IsLinked cache now s
      → IsLinked cache now (delete s (token_key type token))
  delete_token-IsLinked now token type s link later ty tk user le e =
      let (d, there, own) =
        link later ty tk user le
          (delete-kept cache s later (token_key type token) (token_key ty tk) (owner user) e) in
      (d, get-delete_other s later (token_key type token) (user_tokens user) (λ z. cc) ∙ there, own)

  -- The tokens of the pair are gone once the refresh token is.
  pair_gone :
      (later : ℕ) (type : TokenType) (d : TokenData) (user : ℕ) (s : Store)
      → get s later (token_key refresh d.refresh_token) ≡ none
      → get (delete s (token_key access d.access_token)) later (token_key type (token_of type d))
        ≢ some (owner user)
  pair_gone later access d user s gone e =
      let none_left = get-delete_same s later (token_key access d.access_token) in cc
  pair_gone later refresh d user s gone e =
      let there = delete-kept cache s later (token_key access d.access_token) _ (owner user) e in cc

  forgotten-IsLinked :
      (now user : ℕ) (d : TokenData) (s : Store)
      → IsLinked cache now s
      → get s now (user_tokens user) ≡ some (token_data d)
      → ((later : ℕ) → get s later (token_key refresh d.refresh_token) ≡ none)
      → IsLinked cache now (delete (delete s (token_key access d.access_token)) (user_tokens user))
  forgotten-IsLinked now user d s link own gone later ty tk w le e =
      let s1 = delete s (token_key access d.access_token) in
      let e1 = delete-kept cache s1 later (user_tokens user) (token_key ty tk) (owner w) e in
      let (d', there, fits) =
        delete_token-IsLinked now d.access_token access s link later ty tk w le e1 in
      elim (ℕ_discrete user w) [
        | no differ ↦ (
          d',
          get-delete_other s1 later (user_tokens user) (user_tokens w) (λ z. differ (cc)) ∙ there,
          fits,
        )
        | yes same ↦
            let before = there_before cache s1 now later (user_tokens w) (token_data d') le there in
            let before' =
              delete-kept cache s now (token_key access d.access_token) (user_tokens w)
                (token_data d') before in
            let pair : d' ≡ d = cc in
            let same_token : tk ≡ token_of ty d = cc in
            absurd (
              pair_gone later ty d w s (gone later)
                (subst (λ t. get s1 later (token_key ty t) ≡ some (owner w)) same_token e1))
      ]

  forget_pair-IsLinked :
      (now token user : ℕ) (v : Option CacheValue) (s : Store)
      → IsLinked cache now s
      → get s now (user_tokens user) ≡ v
      → ((later : ℕ) → get s later (token_key refresh token) ≡ none)
      → IsLinked cache now (forget_pair cache token user v s)
  forget_pair-IsLinked now token user none s link e gone = link
  forget_pair-IsLinked now token user (some (owner u)) s link e gone = link
  forget_pair-IsLinked now token user (some (token_data d)) s link e gone =
      elim (Bool-cases (d.refresh_token == token)) [
        | inr n ↦ rw n link
        | inl y ↦
            let same : d.refresh_token ≡ token = ground arith in
            rw y (
              forgotten-IsLinked now user d s link e (
                subst (λ t. (later : ℕ) → get s later (token_key refresh t) ≡ none) (sym same)
                  gone))
      ]

  -- The logout of one token, access or refresh, keeps the tokens linked: each token that is valid from
  -- then on for a user is the one in the user's data.
  blacklist_token-IsLinked :
      (now token : ℕ) (type : TokenType) (s : Store)
      → IsLinked cache now s
      → IsLinked cache now (blacklist_token cache now token type s)
  unfolding blacklist_token
  blacklist_token-IsLinked now token access s link = delete_token-IsLinked now token access s link
  blacklist_token-IsLinked now token refresh s link = go (validate_token cache now refresh token s)
    where
      go :
          (o : Option ℕ)
          → IsLinked cache now (elim o [
            | none ↦ s
            | some user ↦
                let s' = delete s (token_key refresh token) in
                forget_pair cache token user (get s' now (user_tokens user)) s'
          ])
      go none = link
      go (some user) =
          let s' = delete s (token_key refresh token) in
          forget_pair-IsLinked now token user (get s' now (user_tokens user)) s'
            (delete_token-IsLinked now token refresh s link) refl
            (λ later. get-delete_same s later (token_key refresh token))
