-- ===== src/Tokens/Linked.antt =====
-- Every token that is valid is that of its user's data, so that one user has one pair of tokens.
use native.Mathlib.Decide.{ℕ_discrete}
use juris.Base.{
  Option, arith, inl, inr, ltb, none, refl, some, subst, sym, true, ℕ, ◌*◌, ◌+◌, ◌<◌, ◌∙◌, ◌≡◌, ◌≢◌,
  ◌≤◌, ◌⊎◌,
}
use juris.Clock.{second}
use juris.Redis.{Redis}
use juris.Tokens.{
  CacheKey, CacheValue, TokenData, TokenType, access, delete_tokens, owner, refresh, store_tokens,
  token_data, token_key, token_of, user_tokens,
}

CacheKey-discrete : Discrete CacheKey
CacheKey-discrete = hlevel ℕ_discrete

module _ (cache : Redis CacheKey CacheValue) where
  open cache use {
    Store, get, setex, delete, get-setex_same, get-setex_other, get-delete_same, get-delete_other,
    get-later,
  }

  -- From this instant on, a token that is valid for a user is in the data of the user.
  abbrev pub IsLinked : ℕ → Store → Type 0
  IsLinked now s =
      (later : ℕ) (type : TokenType) (token user : ℕ)
      → now ≤ later
      → get s later (token_key type token) ≡ some (owner user)
      → (d : TokenData) × (get s later (user_tokens user) ≡ some (token_data d))
        × (token_of type d ≡ token)

  -- What is there later was there before.
  pub there_before :
      (s : Store) (now later : ℕ) (k : CacheKey) (v : CacheValue)
      → now ≤ later
      → get s later k ≡ some v
      → get s now k ≡ some v
  there_before s now later k v le e = elim (get-later s now later k le) [
    | inl gone ↦ cc
    | inr same ↦ sym same ∙ e
  ]

  pub delete-kept :
      (s : Store) (t : ℕ) (k j : CacheKey) (v : CacheValue)
      → get (delete s k) t j ≡ some v
      → get s t j ≡ some v
  delete-kept s t k j v e = elim (CacheKey-discrete k j) [
    | yes same ↦
        let gone : get (delete s k) t j ≡ none =
          subst (λ z. get (delete s k) t z ≡ none) same (get-delete_same s t k) in
        cc
    | no other ↦ sym (get-delete_other s t k j other) ∙ e
  ]

  pub delete_tokens-kept :
      (v : Option CacheValue) (t : ℕ) (k : CacheKey) (w : CacheValue) (s : Store)
      → get (delete_tokens cache v s) t k ≡ some w
      → get s t k ≡ some w
  delete_tokens-kept none t k w s e = e
  delete_tokens-kept (some (owner u)) t k w s e = e
  delete_tokens-kept (some (token_data d)) t k w s e =
      delete-kept s t (token_key access d.access_token) k w
        (delete-kept _ t (token_key refresh d.refresh_token) k w e)

  delete_tokens-data :
      (v : Option CacheValue) (t user : ℕ) (s : Store)
      → get (delete_tokens cache v s) t (user_tokens user) ≡ get s t (user_tokens user)
  delete_tokens-data none t user s = refl
  delete_tokens-data (some (owner u)) t user s = refl
  delete_tokens-data (some (token_data d)) t user s =
      get-delete_other _ t (token_key refresh d.refresh_token) (user_tokens user) (λ e. cc)
      ∙ get-delete_other s t (token_key access d.access_token) (user_tokens user) (λ e. cc)

  deleted_pair :
      (t : ℕ) (type : TokenType) (d : TokenData) (s : Store) (v : CacheValue)
      → get (delete_tokens cache (some (token_data d)) s) t (token_key type (token_of type d))
        ≢ some v
  deleted_pair t access d s v e =
      let there = delete-kept _ t (token_key refresh d.refresh_token) _ v e in
      let gone = get-delete_same s t (token_key access d.access_token) in cc
  deleted_pair t refresh d s v e =
      let gone =
        get-delete_same (delete s (token_key access d.access_token)) t
          (token_key refresh d.refresh_token) in
      cc

  -- After the deletion of a user's tokens, none is valid for the user.
  pub delete_tokens-gone :
      (now later : ℕ) (type : TokenType) (token user : ℕ) (s : Store)
      → IsLinked now s
      → now ≤ later
      → get (delete_tokens cache (get s now (user_tokens user)) s) later (token_key type token)
        ≢ some (owner user)
  delete_tokens-gone now later type token user s link le e =
      let v = get s now (user_tokens user) in
      let (d, there, own) =
        link later type token user le (delete_tokens-kept v later _ (owner user) s e) in
      let before = there_before s now later (user_tokens user) (token_data d) le there in
      deleted_pair later type d s (owner user) (rw (before, ← own) at e)

  -- The writes of `store_tokens` one by one.
  pub set_token :
      (s : Store) (now later expiry user : ℕ) (type other : TokenType) (token token' : ℕ) (w : ℕ)
      → now ≤ later
      → get (setex s now (token_key type token) expiry (owner user)) later (token_key other token')
        ≡ some (owner w)
      → (get s later (token_key other token') ≡ some (owner w))
        ⊎ ((w ≡ user) × (other ≡ type) × (token' ≡ token) × (later < now + expiry * second))
  set_token s now later expiry user type other token token' w le e =
      elim (CacheKey-discrete (token_key type token) (token_key other token')) [
        | no differ ↦ inl (sym (get-setex_other s now later _ _ expiry (owner user) differ) ∙ e)
        | yes same ↦
            let there = get-setex_same s now later (token_key type token) expiry (owner user) le in
            let e' =
              subst
                (λ z.
                  get (setex s now (token_key type token) expiry (owner user)) later z
                  ≡ some (owner w))
                (sym same) e in
            inr (ground arith, cc, cc, ground arith)
      ]

  -- A token of another user is as it was, and so are the data of that user.
  module _ (now access_expiry refresh_expiry : ℕ) (d : TokenData) (s : Store)
      (lives : access_expiry ≤ refresh_expiry) (link : IsLinked now s) where
    s1 : Store
    s1 = delete_tokens cache (get s now (user_tokens d.user_id)) s

    s2 : Store
    s2 = setex s1 now (token_key access d.access_token) access_expiry (owner d.user_id)

    s3 : Store
    s3 = setex s2 now (token_key refresh d.refresh_token) refresh_expiry (owner d.user_id)

    -- A token that is valid after the three writes was valid before and is another user's, or it
    -- is the new one.
    new_or_old :
        (later : ℕ) (type : TokenType) (token user : ℕ)
        → now ≤ later
        → get s3 later (token_key type token) ≡ some (owner user)
        → ((user ≢ d.user_id) × (get s later (token_key type token) ≡ some (owner user)))
          ⊎ ((user ≡ d.user_id)
              × (token_of type d ≡ token)
              × (later < now + refresh_expiry * second))
    unfolding s3 s2 s1
    new_or_old later type token user le e =
        let v = get s now (user_tokens d.user_id) in
        elim (set_token s2 now later refresh_expiry d.user_id refresh type d.refresh_token token
          user le e) [
            | inr (u, ty, tk, lt) ↦ inr (u, rw ty (sym tk), lt)
            | inl e2 ↦
                elim (set_token s1 now later access_expiry d.user_id access type d.access_token
                  token user le e2) [
                    | inr (u, ty, tk, lt) ↦ inr (u, rw ty (sym tk), omega arith)
                    | inl e1 ↦ inl (
                      λ same. delete_tokens-gone now later type token d.user_id s link le (
                          subst (λ u. get s1 later (token_key type token) ≡ some (owner u)) same
                            e1),
                      delete_tokens-kept v later (token_key type token) (owner user) s e1,
                    )
                  ]
          ]

    data_kept : (later user : ℕ) → get s3 later (user_tokens user) ≡ get s later (user_tokens user)
    unfolding s3 s2 s1
    data_kept later user =
        get-setex_other s2 now later (token_key refresh d.refresh_token) (user_tokens user)
          refresh_expiry (owner d.user_id) (λ e. cc)
        ∙ get-setex_other s1 now later (token_key access d.access_token) (user_tokens user)
            access_expiry (owner d.user_id) (λ e. cc)
        ∙ delete_tokens-data (get s now (user_tokens d.user_id)) later user s

    -- `store_tokens` keeps the tokens linked.
    stored-IsLinked : IsLinked now (store_tokens cache now access_expiry refresh_expiry d s)
    unfolding store_tokens s3 s2 s1
    stored-IsLinked later type token user le e =
        let end = setex s3 now (user_tokens d.user_id) refresh_expiry (token_data d) in
        let e3 : get s3 later (token_key type token) ≡ some (owner user) =
          sym (
            get-setex_other s3 now later (user_tokens d.user_id) (token_key type token)
              refresh_expiry (token_data d) (λ z. cc))
          ∙ e in
        elim (new_or_old later type token user le e3) [
          | inr (same, own, lt) ↦
              let there =
                get-setex_same s3 now later (user_tokens d.user_id) refresh_expiry (token_data d)
                  le in
              let alive : ltb later (now + refresh_expiry * second) ≡ true = ground arith in
              (
                d,
                subst (λ u. get end later (user_tokens u) ≡ some (token_data d)) (sym same)
                    (there ∙ rw alive refl),
                own,
              )
          | inl (differ, old) ↦
              let (d', there, own) = link later type token user le old in
              (
                d',
                get-setex_other s3 now later (user_tokens d.user_id) (user_tokens user)
                      refresh_expiry (token_data d) (λ z. differ (cc))
                    ∙ data_kept later user
                    ∙ there,
                own,
              )
        ]

  -- The access and refresh tokens that are stored together keep the tokens linked, if access
  -- tokens live no longer than refresh tokens: each token that is valid from then on for a user is
  -- the one in the user's data.
  pub store_tokens-IsLinked :
      (now access_expiry refresh_expiry : ℕ) (d : TokenData) (s : Store)
      → access_expiry ≤ refresh_expiry
      → IsLinked now s
      → IsLinked now (store_tokens cache now access_expiry refresh_expiry d s)
  store_tokens-IsLinked now access_expiry refresh_expiry d s lives link =
      stored-IsLinked now access_expiry refresh_expiry d s lives link
