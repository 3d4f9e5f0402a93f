-- ===== src/Otp/Guesses.antt =====
-- How many guesses a code allows.
use juris.Base.{
  All, Bool, Bool-cases, List, Option-cases, [], arith, false, inl, inr, length, ltb, none, not,
  refl, some, subst, sym, true, ℕ, ◌&&◌, ◌++◌, ◌+◌, ◌-◌, ◌/◌, ◌<◌, ◌||◌, ◌∙◌, ◌∷◌, ◌≡◌, ◌≤◌, ◌⊎◌,
}
use juris.Clock.{second}
use juris.Otp.{Env, OtpData, OtpKey, User, increment_attempt, is_exhausted, is_otp_valid}
use juris.Otp.Service.{sms_key, verify_sms_otp}
use juris.Redis.{Redis}
use juris.Text.{same_text, strip}

-- A guess: what its request meets, and the text.
pub record Guess : Type 0 where
  pub env : Env
  pub text : List ℕ

-- The guesses are made one after another, none before this instant.
abbrev pub IsOrdered : ℕ → List Guess → Type 0
IsOrdered now [] = Unit
IsOrdered now (g ∷ gs) = (now ≤ g.env.now) × IsOrdered g.env.now gs

-- The guess reaches Redis and is not the code.
abbrev pub IsWrong : List ℕ → Guess → Type 0
IsWrong code g = (g.env.connected ≡ true) × (same_text (strip code) (strip g.text) ≡ false)

module _ (redis : Redis OtpKey OtpData) where
  open redis use {Store, get, get-later, get-setex_same, get-delete_same}

  -- A code is stored with at least this many failed attempts, or none is.
  abbrev Counted : ℕ → OtpKey → ℕ → List ℕ → Store → Type 0
  Counted now key n code s =
      (get s now key ≡ none)
      ⊎ ((d : OtpData) × (get s now key ≡ some d) × (d.otp ≡ code) × (n ≤ d.attempt_count))

  Counted-later :
      (now later : ℕ) (key : OtpKey) (n : ℕ) (code : List ℕ) (s : Store)
      → now ≤ later
      → Counted now key n code s
      → Counted later key n code s
  Counted-later now later key n code s h (inl e) = elim (get-later s now later key h) [
    | inl f ↦ inl f
    | inr f ↦ inl (f ∙ e)
  ]
  Counted-later now later key n code s h (inr (d, e, o, c)) = elim (get-later s now later key h) [
    | inl f ↦ inl f
    | inr f ↦ inr (d, f ∙ e, o, c)
  ]

  -- One failed guess of a request that reaches Redis counts.
  increment_attempt-Counted :
      (env : Env) (key : OtpKey) (n : ℕ) (code : List ℕ) (s : Store)
      → env.connected ≡ true
      → Counted env.now key n code s
      → Counted env.now key (n + 1) code (increment_attempt redis env key s)
  unfolding increment_attempt
  increment_attempt-Counted env key n code s up (inl e) = inl (ground arith)
  increment_attempt-Counted env key n code s up (inr (d, e, o, c)) =
      let left = (d.expires_at - env.now) / second in
      let d' : OtpData = record d { attempt_count = d.attempt_count + 1 } in
      elim (Bool-cases (ltb 0 left)) [
        | inl y ↦
            let there = get-setex_same s env.now env.now key left d' (omega arith) in
            inr (d', ground arith, o, omega arith)
        | inr n ↦ let gone = get-delete_same s env.now key in inl (ground arith)
      ]

  -- A wrong guess of a request that reaches Redis is refused, and counts while there are less than
  -- five.
  wrong_guess :
      (g : Guess) (user : User) (n : ℕ) (code : List ℕ) (s : Store)
      → user.has_initiate_login ≡ true
      → g.env.connected ≡ true
      → same_text (strip code) (strip g.text) ≡ false
      → n < 5
      → Counted g.env.now (sms_key redis user) n code s
      → let (matched, user', s') = verify_sms_otp redis g.env user g.text s in
        (matched ≡ false) × (user' ≡ user) × Counted g.env.now (sms_key redis user) (n + 1) code s'
  unfolding verify_sms_otp
  wrong_guess g user n code s login up wrong low (inl e) =
      (ground arith, ground arith, inl (ground arith))
  wrong_guess g user n code s login up wrong low (inr (d, e, o, c)) =
      let key = sms_key redis user in
      let differ : same_text (strip d.otp) (strip g.text) ≡ false = rw o wrong in
      (
        ground arith,
        ground arith,
        elim (Bool-cases (is_otp_valid g.env.now d)) [
          | inr over ↦ let gone = get-delete_same s g.env.now key in inl (ground arith)
          | inl live ↦ elim (Bool-cases (is_exhausted d)) [
            | inl full ↦ inr (d, ground arith, o, ground arith)
            | inr room ↦
                let counted = increment_attempt-Counted g.env key n code s up (inr (d, e, o, c)) in
                subst (Counted g.env.now key (n + 1) code) (ground arith) counted
          ]
        ],
      )

  -- With five failed attempts, or with no code, any guess is refused and leaves it so.
  locked_guess :
      (g : Guess) (user : User) (code : List ℕ) (s : Store)
      → Counted g.env.now (sms_key redis user) 5 code s
      → let (matched, user', s') = verify_sms_otp redis g.env user g.text s in
        (matched ≡ false) × (user' ≡ user) × Counted g.env.now (sms_key redis user) 5 code s'
  unfolding verify_sms_otp
  locked_guess g user code s (inl e) = (ground arith, ground arith, inl (ground arith))
  locked_guess g user code s (inr (d, e, o, c)) =
      let key = sms_key redis user in
      let gone = get-delete_same s g.env.now key in
      (
        ground arith,
        ground arith,
        elim (Bool-cases
            (user.has_initiate_login && g.env.connected && not (is_otp_valid g.env.now d))) [
              | inl over ↦ inl (ground arith)
              | inr live ↦ inr (d, ground arith, o, c)
            ],
      )

  -- Guesses one after another: whether one was accepted, and what they leave.
  abbrev pub try_all : List Guess → User → Store → Bool × User × Store
  try_all [] user s = (false, user, s)
  try_all (g ∷ gs) user s =
      let (matched, user', s') = verify_sms_otp redis g.env user g.text s in
      let (later, user'', s'') = try_all gs user' s' in (matched || later, user'', s'')

  not_logged_in_all :
      (gs : List Guess) (user : User) (s : Store)
      → user.has_initiate_login ≡ false
      → (try_all gs user s).0 ≡ false
  unfolding verify_sms_otp
  not_logged_in_all [] user s h = refl
  not_logged_in_all (g ∷ gs) user s h = ground (arith, not_logged_in_all gs user s h)

  locked_all :
      (now : ℕ) (gs : List Guess) (user : User) (code : List ℕ) (s : Store)
      → IsOrdered now gs
      → Counted now (sms_key redis user) 5 code s
      → (try_all gs user s).0 ≡ false
  locked_all now [] user code s order c = refl
  locked_all now (g ∷ gs) user code s (le, order) c =
      let (no_match, same, c') =
        locked_guess g user code s
          (Counted-later now g.env.now (sms_key redis user) 5 code s le c) in
      let (matched, user', s') = verify_sms_otp redis g.env user g.text s in
      rw no_match (
        locked_all g.env.now gs user' code s' order
          (subst (λ (u : User). Counted g.env.now (sms_key redis u) 5 code s') (sym same) c'))

  guesses_from :
      (now n : ℕ) (ws gs : List Guess) (user : User) (code : List ℕ) (s : Store)
      → user.has_initiate_login ≡ true
      → IsOrdered now (ws ++ gs)
      → All (IsWrong code) ws
      → n ≤ 5
      → 5 ≤ n + length ws
      → Counted now (sms_key redis user) n code s
      → (try_all (ws ++ gs) user s).0 ≡ false
  guesses_from now n [] gs user code s login order wrong low many c =
      let five : n ≡ 5 = omega arith in
      locked_all now gs user code s order
        (subst (λ k. Counted now (sms_key redis user) k code s) five c)
  guesses_from now n (w ∷ ws) gs user code s login (le, order) ((up, differ), wrong) low many c =
      elim (Bool-cases (ltb n 5)) [
        | inr full ↦
            let five : n ≡ 5 = ground arith in
            locked_all now (w ∷ (ws ++ gs)) user code s (le, order)
              (subst (λ k. Counted now (sms_key redis user) k code s) five c)
        | inl room ↦
            let (no_match, same, c') =
              wrong_guess w user n code s login up differ (ground arith)
                (Counted-later now w.env.now (sms_key redis user) n code s le c) in
            let (matched, user', s') = verify_sms_otp redis w.env user w.text s in
            rw no_match (
              guesses_from w.env.now (n + 1) ws gs user' code s' (rw same login) order wrong
                (ground arith) (omega arith)
                (subst (λ (u : User). Counted w.env.now (sms_key redis u) (n + 1) code s')
                  (sym same) c'))
      ]

  stored-Counted :
      (now : ℕ) (key : OtpKey) (code : List ℕ) (s : Store)
      → ((d : OtpData) → get s now key ≡ some d → d.otp ≡ code)
      → Counted now key 0 code s
  stored-Counted now key code s own = elim (Option-cases (get s now key)) [
    | inl e ↦ inl e
    | inr (d, e) ↦ inr (d, e, own d e, omega arith)
  ]

  -- Of the guesses at a code of the login that are made one after another, with no code sent in
  -- between, none is accepted if the first five or more of them reach Redis and are wrong: then not
  -- even the right code ends the lockout.
  pub try_all-refused :
      (now : ℕ) (ws gs : List Guess) (user : User) (code : List ℕ) (s : Store)
      → ((d : OtpData) → get s now (sms_key redis user) ≡ some d → d.otp ≡ code)
      → IsOrdered now (ws ++ gs)
      → All (IsWrong code) ws
      → 5 ≤ length ws
      → (try_all (ws ++ gs) user s).0 ≡ false
  try_all-refused now ws gs user code s own order wrong many =
      elim (Bool-cases user.has_initiate_login) [
        | inr out ↦ not_logged_in_all (ws ++ gs) user s out
        | inl login ↦
            guesses_from now 0 ws gs user code s login order wrong (omega arith) (omega arith)
              (stored-Counted now (sms_key redis user) code s own)
      ]
