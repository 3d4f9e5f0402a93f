-- ===== src/Otp/Sent.antt =====
-- What a code that was sent is good for, and what sending another one does to a lockout.
use juris.Accounts.Login.{login}
use juris.Base.{
  Bool, List, Option, [], arith, false, if◌then◌else◌, inl, inr, is_some, none, not, refl, some,
  true, ℕ, ◌*◌, ◌+◌, ◌<◌, ◌||◌, ◌∷◌, ◌≡◌, ◌≢◌, ◌≤◌, ◌⊎◌,
}
use juris.Clock.{minute, second}
use juris.Otp.{
  Env, OtpData, OtpKey, SendReply, User, code_sent, default_cooldown, delete_otp_data, new_data,
}
use juris.Otp.Service.{
  Gate, answered, check_cooldown, check_lockout, passed, reset_key, send_password_reset_otp,
  send_sms_otp, sms_key, store_and_send, verify_sms_otp,
}
use juris.Redis.{Redis}
use juris.Text.{same_text, strip}

same_text_refl : (t : List ℕ) → same_text t t ≡ true
same_text_refl [] = refl
same_text_refl (c ∷ t) = ground (arith, same_text_refl t)

module _ (redis : Redis OtpKey OtpData) where
  open redis use {Store, get, setex, get-setex_same, get-delete_same}

  pub stored_and_sent :
      (env : Env) (key : OtpKey) (validity : ℕ) (otp : List ℕ) (email : Option ℕ) (s s' : Store)
      → store_and_send redis env key otp validity email s ≡ (code_sent, s')
      → s' ≡ setex s env.now key ((validity + 5) * 60) (new_data env.now otp validity email)
  unfolding store_and_send
  stored_and_sent env key validity otp email s s' h = ground arith

  Gate-cases :
      (g : Gate Store)
      → ((d : Option OtpData) × (s : Store) × (g ≡ passed d s))
        ⊎ ((r : SendReply) × (s : Store) × (g ≡ answered r s))
  Gate-cases (passed d s) = inl (d, s, refl)
  Gate-cases (answered r s) = inr (r, s, refl)

  -- The checks alone send nothing.
  check_lockout-ne-sent :
      (env : Env) (force : Bool) (key : OtpKey) (s s' : Store)
      → check_lockout redis env force key s ≢ answered code_sent s'
  unfolding check_lockout
  check_lockout-ne-sent env force key s s' = ground arith

  -- The store after an SMS was sent, from some store before it.
  pub send_sms_otp-sent :
      (env : Env) (validity : ℕ) (otp : List ℕ) (user : User) (force : Bool) (s s' : Store)
      → send_sms_otp redis env validity otp user force s ≡ (code_sent, s')
      → (user.has_initiate_login ≡ true)
        × ((s0 : Store) × (s'
              ≡ setex s0 env.now
                  (sms_key redis user)
                  ((validity + 5) * 60)
                  (new_data env.now otp validity none)))
  unfolding send_sms_otp
  send_sms_otp-sent env validity otp user force s s' h =
      elim (Gate-cases (check_lockout redis env force (sms_key redis user) s)) [
        | inl (d, s1, e) ↦
            let s2 =
              if force || not (is_some d)
              then delete_otp_data redis env (sms_key redis user) s1
              else s1 in
            (
              ground arith,
              (s2, stored_and_sent env (sms_key redis user) validity otp none s2 s' (ground arith)),
            )
        | inr (r, s1, e) ↦
            absurd (check_lockout-ne-sent env force (sms_key redis user) s s' (ground arith))
      ]

  -- Within the time of a code, Redis still has it.
  pub still_there :
      (now later validity : ℕ) (key : OtpKey) (d : OtpData) (s : Store)
      → now ≤ later
      → later < now + validity * minute
      → get (setex s now key ((validity + 5) * 60) d) later key ≡ some d
  still_there now later validity key d s le lt =
      let there = get-setex_same s now later key ((validity + 5) * 60) d le in
      let alive : later < now + ((validity + 5) * 60) * second = omega arith in ground arith

  -- A code that was sent by SMS is accepted, with white space around it, when it is the first guess
  -- made before its time is over and both requests reach Redis; the login then ends and the code is gone.
  pub send-verify :
      (env later : Env) (validity : ℕ) (otp text : List ℕ) (user : User) (force : Bool)
      (s s' : Store)
      → send_sms_otp redis env validity otp user force s ≡ (code_sent, s')
      → later.connected ≡ true
      → env.now ≤ later.now
      → later.now < env.now + validity * minute
      → strip text ≡ strip otp
      → let (matched, user', s'') = verify_sms_otp redis later user text s' in
        (matched ≡ true)
        × (user' ≡ record user { has_initiate_login = false })
        × (get s'' later.now (sms_key redis user) ≡ none)
  unfolding verify_sms_otp
  send-verify env later validity otp text user force s s' sent up le lt same =
      let (login, (s0, e)) = send_sms_otp-sent env validity otp user force s s' sent in
      let key = sms_key redis user in
      let d = new_data env.now otp validity none in
      let there : get s' later.now key ≡ some d =
        rw e (still_there env.now later.now validity key d s0 le lt) in
      let gone = get-delete_same s' later.now key in
      let fits : same_text (strip otp) (strip text) ≡ true = rw same (same_text_refl (strip otp)) in
      (ground arith, ground arith, ground arith)

  -- A code for the reset of a password can be asked for again after a minute, whatever the number of
  -- failed attempts; the new one has all its attempts.
  pub send_password_reset-unlocks :
      (env : Env) (validity : ℕ) (otp : List ℕ) (user : User) (s : Store) (d : OtpData)
      → get s env.now (reset_key redis user.id) ≡ some d
      → d.last_sent + default_cooldown ≤ env.now
      → env.connected ≡ true
      → env.delivered ≡ true
      → 0 < validity
      → let (reply, s') = send_password_reset_otp redis env validity otp user false s in
        (reply ≡ code_sent)
        × ((d' : OtpData) × (get s' env.now (reset_key redis user.id) ≡ some d')
            × (d'.otp ≡ otp)
            × (d'.attempt_count ≡ 0))
  unfolding send_password_reset_otp check_cooldown store_and_send
  send_password_reset-unlocks env validity otp user s d e cool up sent pos =
      let key = reset_key redis user.id in
      let d' = new_data env.now otp validity none in
      let there = still_there env.now env.now validity key d' s (omega arith) (grind arith) in
      (ground arith, (d', ground arith, refl, refl))
