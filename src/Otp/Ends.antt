-- ===== src/Otp/Ends.antt =====
-- When a code for the login can be asked for again, and that a lockout ends.
use juris.Base.{
  All, Bool, Bool-cases, List, Option, Option-cases, [], arith, false, inl, inr, ltb, none, some,
  subst, sym, true, ℕ, ◌*◌, ◌+◌, ◌-◌, ◌/◌, ◌<◌, ◌∙◌, ◌∷◌, ◌≡◌, ◌≤◌, ◌⊎◌,
}
use juris.Clock.{minute, second}
use juris.Otp.{
  Env, OtpData, OtpKey, User, code_sent, default_cooldown, delete_otp_data, get_otp_data,
  increment_attempt, is_exhausted, new_data, sms_otp, otp_key, store_otp_data,
}
use juris.Otp.Guesses.{Guess, IsOrdered, try_all}
use juris.Otp.Sent.{send-verify, send_sms_otp-sent}
use juris.Otp.Service.{check_lockout, passed, send_sms_otp, sms_key, store_and_send, verify_sms_otp}
use juris.Redis.{Redis}
use juris.Text.{strip}

module _ (redis : Redis OtpKey OtpData) where
  open redis use {Store, get, get-later, get-setex_same, get-delete_same}

  -- Neither the lockout nor the cooldown of the stored code lasts.
  abbrev pub IsOver : ℕ → OtpData → Type 0
  IsOver now d =
      (is_exhausted d ≡ true → d.expires_at ≤ now)
      × (is_exhausted d ≡ false → d.last_sent + default_cooldown ≤ now)

  over-passes :
      (env : Env) (key : OtpKey) (s : Store)
      → ((d : OtpData) → get s env.now key ≡ some d → IsOver env.now d)
      → env.connected ≡ true
      → (o : Option OtpData) × (s' : Store) × (check_lockout redis env false key s ≡ passed o s')
  unfolding check_lockout get_otp_data
  over-passes env key s ready up = elim (Option-cases (get s env.now key)) [
    | inl n ↦ (none, s, ground arith)
    | inr (d, e) ↦
        let (unlocks, cool) = ready d e in
        elim (Bool-cases (is_exhausted d)) [
          | inl y ↦ let past = unlocks y in (none, delete_otp_data redis env key s, ground arith)
          | inr n ↦ let past = cool n in (some d, s, ground arith)
        ]
  ]

  -- A new code is sent and accepted once the stored one, if there is one, is over.
  sent_again :
      (env later : Env) (validity : ℕ) (otp text : List ℕ) (user : User) (s : Store)
      → ((d : OtpData) → get s env.now (sms_key redis user) ≡ some d → IsOver env.now d)
      → user.has_initiate_login ≡ true
      → user.has_phone_number ≡ true
      → env.connected ≡ true
      → env.delivered ≡ true
      → later.connected ≡ true
      → env.now ≤ later.now
      → later.now < env.now + validity * minute
      → strip text ≡ strip otp
      → let (reply, s') = send_sms_otp redis env validity otp user false s in
        (reply ≡ code_sent) × ((verify_sms_otp redis later user text s').0 ≡ true)
  unfolding send_sms_otp store_and_send store_otp_data
  sent_again env later validity otp text user s ready begun phone up sent up' le lt same =
      let (o, s1, gate) = over-passes env (sms_key redis user) s ready up in
      let sends : (send_sms_otp redis env validity otp user false s).0 ≡ code_sent = ground arith in
      let (reply, s') = send_sms_otp redis env validity otp user false s in
      let whole : send_sms_otp redis env validity otp user false s
          ≡ (code_sent, (send_sms_otp redis env validity otp user false s).1) =
        ground arith in
      (
        sends,
        (send-verify redis env later validity otp text user false s
            (send_sms_otp redis env validity otp user false s).1 whole up' le lt same).0,
      )

  -- What is stored under the key is over at the deadline, and may be replaced then.
  abbrev EndsBy : ℕ → ℕ → OtpKey → Store → Type 0
  EndsBy deadline now key s =
      (d : OtpData)
      → get s now key ≡ some d
      → (d.expires_at ≤ deadline) × (d.last_sent + default_cooldown ≤ deadline)

  EndsBy-later :
      (deadline now later : ℕ) (key : OtpKey) (s : Store)
      → now ≤ later
      → EndsBy deadline now key s
      → EndsBy deadline later key s
  EndsBy-later deadline now later key s le h d e = elim (get-later s now later key le) [
    | inl gone ↦ cc
    | inr same ↦ h d (sym same ∙ e)
  ]

  increment_attempt-EndsBy :
      (deadline : ℕ) (env : Env) (key : OtpKey) (s : Store)
      → EndsBy deadline env.now key s
      → EndsBy deadline env.now key (increment_attempt redis env key s)
  unfolding increment_attempt get_otp_data
  increment_attempt-EndsBy deadline env key s h d e =
      elim (Option-cases (get_otp_data redis env key s)) [
        | inl n ↦ h d (ground arith)
        | inr (old, f) ↦
            let stored : get s env.now key ≡ some old = ground arith in
            let (ends, cool) = h old stored in
            let left = (old.expires_at - env.now) / second in
            let new : OtpData = record old { attempt_count = old.attempt_count + 1 } in
            let there = get-setex_same s env.now env.now key left new (omega arith) in
            let gone = get-delete_same s env.now key in
            elim (Bool-cases (ltb 0 left)) [
              | inl y ↦ let same : d ≡ new = ground arith in (ground arith, ground arith)
              | inr n ↦ absurd (ground arith)
            ]
      ]

  delete-EndsBy :
      (deadline : ℕ) (env : Env) (key : OtpKey) (s : Store)
      → EndsBy deadline env.now key s
      → EndsBy deadline env.now key (delete_otp_data redis env key s)
  unfolding delete_otp_data
  delete-EndsBy deadline env key s h d e = elim (Bool-cases env.connected) [
    | inl y ↦ let gone = get-delete_same s env.now key in absurd (ground arith)
    | inr n ↦ h d (ground arith)
  ]

  -- A guess, right or wrong, leaves nothing that lasts longer.
  guess-EndsBy :
      (deadline : ℕ) (env : Env) (user : User) (text : List ℕ) (s : Store)
      → EndsBy deadline env.now (sms_key redis user) s
      → let (matched, user', s') = verify_sms_otp redis env user text s in
        (user'.id ≡ user.id) × EndsBy deadline env.now (sms_key redis user) s'
  unfolding verify_sms_otp
  guess-EndsBy deadline env user text s h =
      let key = sms_key redis user in
      let after = (verify_sms_otp redis env user text s).2 in
      let three : (after ≡ s)
          ⊎ ((after ≡ delete_otp_data redis env key s)
              ⊎ (after ≡ increment_attempt redis env key s)) =
        ground arith in
      (
        ground arith,
        elim three [
          | inl e ↦ subst (EndsBy deadline env.now key) (sym e) h
          | inr (inl e) ↦
              subst (EndsBy deadline env.now key) (sym e) (delete-EndsBy deadline env key s h)
          | inr (inr e) ↦
              subst (EndsBy deadline env.now key) (sym e)
                (increment_attempt-EndsBy deadline env key s h)
        ],
      )

  guesses-EndsBy :
      (deadline now last : ℕ) (gs : List Guess) (user : User) (s : Store)
      → now ≤ last
      → IsOrdered now gs
      → All (λ (g : Guess). g.env.now ≤ last) gs
      → EndsBy deadline now (sms_key redis user) s
      → EndsBy deadline last (sms_key redis user) (try_all redis gs user s).2
  guesses-EndsBy deadline now last [] user s le order before h =
      EndsBy-later deadline now last (sms_key redis user) s le h
  guesses-EndsBy deadline now last (g ∷ gs) user s le order before h =
      let h' = EndsBy-later deadline now g.env.now (sms_key redis user) s order.0 h in
      let (same, kept) = guess-EndsBy deadline g.env user g.text s h' in
      let (matched, user', s') = verify_sms_otp redis g.env user g.text s in
      subst (λ k. EndsBy deadline last (otp_key sms_otp k) (try_all redis gs user' s').2) same
        (guesses-EndsBy deadline g.env.now last gs user' s' before.0 order.1 before.1
          (subst (λ k. EndsBy deadline g.env.now (otp_key sms_otp k) s') (sym same) kept))

  sent-EndsBy :
      (env : Env) (validity : ℕ) (code : List ℕ) (user : User) (force : Bool) (s s' : Store)
      → send_sms_otp redis env validity code user force s ≡ (code_sent, s')
      → 0 < validity
      → EndsBy (env.now + validity * minute) env.now (sms_key redis user) s'
  sent-EndsBy env validity code user force s s' sent pos d e =
      let (begun, (s0, whole)) = send_sms_otp-sent redis env validity code user force s s' sent in
      let new = new_data env.now code validity none in
      let there =
        get-setex_same s0 env.now env.now (sms_key redis user) ((validity + 5) * 60) new
          (omega arith) in
      let same : d ≡ new = ground arith in (ground arith, ground arith)

  -- A lockout ends with the time of the code. When a code was sent and any guesses were made at it, as
  -- many as one likes and right or wrong, a new code that is asked for once the first one's time is
  -- over, for a login that has begun, while Redis is reached and the message delivered, is sent; and it
  -- is accepted, with white space around it, by the first guess within its validity that reaches
  -- Redis.
  pub lockout-ends :
      (first env later : Env) (validity : ℕ) (code otp text : List ℕ) (gs : List Guess)
      (user again : User) (force : Bool) (s s1 : Store)
      → send_sms_otp redis first validity code user force s ≡ (code_sent, s1)
      → 0 < validity
      → IsOrdered first.now gs
      → All (λ (g : Guess). g.env.now ≤ env.now) gs
      → first.now + validity * minute ≤ env.now
      → again.id ≡ user.id
      → again.has_initiate_login ≡ true
      → again.has_phone_number ≡ true
      → env.connected ≡ true
      → env.delivered ≡ true
      → later.connected ≡ true
      → env.now ≤ later.now
      → later.now < env.now + validity * minute
      → strip text ≡ strip otp
      → let s2 = (try_all redis gs user s1).2 in
        let (reply, s3) = send_sms_otp redis env validity otp again false s2 in
        (reply ≡ code_sent) × ((verify_sms_otp redis later again text s3).0 ≡ true)
  lockout-ends first env later validity code otp text gs user again force s s1 sent pos order before
        over own begun phone up delivered up' le lt same =
      let deadline = first.now + validity * minute in
      let s2 = (try_all redis gs user s1).2 in
      let ends =
        guesses-EndsBy deadline first.now env.now gs user s1 (omega arith) order before
          (sent-EndsBy first validity code user force s s1 sent pos) in
      sent_again env later validity otp text again s2
        (λ d e.
          let (gone, cool) =
            ends d (subst (λ k. get s2 env.now (otp_key sms_otp k) ≡ some d) own e) in
          ((λ y. omega arith), λ n. omega arith))
        begun phone up delivered up' le lt same
