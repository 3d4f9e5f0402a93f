-- ===== src/Kyc/Mirrored.antt =====
-- What the status of a profile says of its check, over the events of Stripe and the requests to start a
-- check.
use juris.Base.{
  All, List, Option, Option-cases, [], arith, first_row, inl, inr, none, refl, some, some_eq, subst,
  sym, true, ℕ, ◌==◌, ◌≡◌, ◌≢◌, ◌∷◌,
}
use juris.Kyc.{
  CheckStatus, KycVerification, Profile, VerificationSession, handle_kyc_event, has_session,
  in_progress, profile_key, save_profile, start_for, start_verification, status_or, update_check,
  update_from_stripe_data,
}
use juris.Status.{KycStatus}
use juris.Table.{
  All-save_row, HasKeys, find, find-save_row, first_row-fits, first_row-save_row, first_row_fits,
  save_row,
}

abbrev pub check_status : Option KycVerification → Option CheckStatus
check_status none = none
check_status (some k) = some k.status

-- What each status of a profile says of the lawyer's check.
abbrev pub Tells : KycStatus → Option CheckStatus → Type 0
Tells KycStatus.verified c = c ≡ some CheckStatus.verified
Tells KycStatus.pending c = c ≡ some CheckStatus.processing
Tells KycStatus.rejected c = c ≡ some CheckStatus.canceled
Tells KycStatus.unverified c =
    (c ≢ some CheckStatus.verified)
    × (c ≢ some CheckStatus.processing)
    × (c ≢ some CheckStatus.canceled)

abbrev pub IsMirrored : Profile → Type 0
IsMirrored p = Tells p.kyc_verification_status (check_status p.kyc_verification)

saved-IsMirrored :
    (o : Option Profile) (ps : List Profile)
    → ((p : Profile) → o ≡ some p → IsMirrored p)
    → All IsMirrored ps
    → All IsMirrored (save_profile o ps)
saved-IsMirrored none ps m h = h
saved-IsMirrored (some p) ps m h = All-save_row profile_key IsMirrored p ps h (m p refl)

updated-IsMirrored :
    (e : VerificationSession) (o : Option KycVerification) (p p' : Profile)
    → update_check e o p ≡ some p'
    → IsMirrored p'
unfolding update_from_stripe_data
updated-IsMirrored e none p p' h = cc
updated-IsMirrored e (some k) p p' h = ground arith

handle_kyc_event-IsMirrored :
    (e : VerificationSession) (ps : List Profile)
    → All IsMirrored ps
    → All IsMirrored (handle_kyc_event e ps)
unfolding handle_kyc_event
handle_kyc_event-IsMirrored e ps h =
    go (first_row (λ (p : Profile). has_session e.id p.kyc_verification) ps)
  where
    go :
        (o : Option Profile)
        → All IsMirrored (elim o as (λ x. List Profile) [
          | none ↦ ps
          | some p ↦ save_profile (update_check e p.kyc_verification p) ps
        ])
    go none = h
    go (some p) = saved-IsMirrored _ ps (λ p'. updated-IsMirrored e p.kyc_verification p p') h

-- A session that Stripe has just created is neither verified nor processed nor canceled.
abbrev pub IsNew : VerificationSession → Type 0
IsNew e =
    (e.status ≢ some CheckStatus.verified)
    × (e.status ≢ some CheckStatus.processing)
    × (e.status ≢ some CheckStatus.canceled)

begun-IsMirrored :
    (session : Option VerificationSession) (p p' : Profile) (k : Option KycVerification)
    → ((e : VerificationSession) → session ≡ some e → IsNew e)
    → p.kyc_verification ≡ k
    → IsMirrored p
    → (start_for session p k).1 ≡ some p'
    → IsMirrored p'
begun-IsMirrored session p p' (some k) new own m h = absurd (ground arith)
begun-IsMirrored none p p' none new own m h = cc
begun-IsMirrored (some e) p p' none new own m h =
    subst IsMirrored (some_eq h)
      (told p.kyc_verification_status e.status (rw own at m) (new e refl))
  where
    told :
        (s : KycStatus) (t : Option CheckStatus)
        → Tells s none
        → (t ≢ some CheckStatus.verified)
          × (t ≢ some CheckStatus.processing)
          × (t ≢ some CheckStatus.canceled)
        → Tells s (some (status_or CheckStatus.requires_input t))
    told s t m n = ground arith

start_verification-IsMirrored :
    (user : ℕ) (session : Option VerificationSession) (ps : List Profile)
    → ((e : VerificationSession) → session ≡ some e → IsNew e)
    → All IsMirrored ps
    → All IsMirrored (start_verification user session ps).1
unfolding start_verification
start_verification-IsMirrored user session ps new h =
    elim (Option-cases (first_row (λ (p : Profile). p.user == user) ps)) [
      | inl n ↦
          let stay : (start_verification user session ps).1 ≡ ps = ground arith in
          subst (All IsMirrored) (sym stay) h
      | inr (p, e) ↦
          let m =
            first_row_fits profile_key (λ (p : Profile). p.user == user) IsMirrored ps p h e in
          let p' = (start_for session p p.kyc_verification).1 in
          let kept : (start_verification user session ps).1 ≡ save_profile p' ps = ground arith in
          subst (All IsMirrored) (sym kept) (
            saved-IsMirrored p' ps
              (λ p'. begun-IsMirrored session p p' p.kyc_verification new refl m) h)
    ]

-- An identity event of Stripe, or a user's request with what Stripe answers to it.
pub data KycCall : Type 0 where
  event : VerificationSession → KycCall
  request : ℕ → Option VerificationSession → KycCall

abbrev pub after_kyc_call : KycCall → List Profile → List Profile
after_kyc_call (event e) ps = handle_kyc_event e ps
after_kyc_call (request user session) ps = (start_verification user session ps).1

abbrev pub after_kyc_calls : List KycCall → List Profile → List Profile
after_kyc_calls [] ps = ps
after_kyc_calls (c ∷ cs) ps = after_kyc_calls cs (after_kyc_call c ps)

abbrev pub StartsNew : KycCall → Type 0
StartsNew (event e) = Unit
StartsNew (request user session) = (e : VerificationSession) → session ≡ some e → IsNew e

call-IsMirrored :
    (c : KycCall) (ps : List Profile)
    → StartsNew c
    → All IsMirrored ps
    → All IsMirrored (after_kyc_call c ps)
call-IsMirrored (event e) ps new h = handle_kyc_event-IsMirrored e ps h
call-IsMirrored (request user session) ps new h =
    start_verification-IsMirrored user session ps new h

-- From profiles of which each is verified exactly if its check is, pending exactly if its check is
-- processing, rejected exactly if its check is canceled, and unverified otherwise, every sequence of
-- identity events of Stripe, whatever they say, and of requests to start a check leads to such
-- profiles, if no session that Stripe has just created for a request is verified, processing or
-- canceled.
pub kyc_calls-IsMirrored :
    (cs : List KycCall) (ps : List Profile)
    → All StartsNew cs
    → All IsMirrored ps
    → All IsMirrored (after_kyc_calls cs ps)
kyc_calls-IsMirrored [] ps new h = h
kyc_calls-IsMirrored (c ∷ cs) ps new h =
    kyc_calls-IsMirrored cs (after_kyc_call c ps) new.1 (call-IsMirrored c ps new.0 h)

canceled_event :
    (e : VerificationSession) (p : Profile) (k : Option KycVerification)
    → has_session e.id k ≡ true
    → e.status ≡ some CheckStatus.canceled
    → (p' : Profile) × (update_check e k p ≡ some p')
      × (p'.id ≡ p.id)
      × (p'.user ≡ p.user)
      × (p'.kyc_verification_status ≡ KycStatus.rejected)
      × (p'.kyc_verification
          ≡ some (record { stripe_verification_session_id = e.id; status = CheckStatus.canceled }))
unfolding update_from_stripe_data
canceled_event e p none own c = cc
canceled_event e p (some k) own c = (
  record p {
    kyc_verification_status = KycStatus.rejected;
    kyc_verification = some (record k { status = CheckStatus.canceled });
  },
  ground arith,
  refl,
  refl,
  refl,
  ground arith,
)

start-again :
    (user : ℕ) (session : Option VerificationSession) (p : Profile) (k : KycVerification)
    (ps : List Profile)
    → first_row (λ (p : Profile). p.user == user) ps ≡ some p
    → p.kyc_verification ≡ some k
    → k.status ≡ CheckStatus.canceled
    → start_verification user session ps
      ≡ (in_progress k.stripe_verification_session_id CheckStatus.canceled, ps)
unfolding start_verification
start-again user session p k ps e own c = ground arith

event_saved :
    (e : VerificationSession) (p p' : Profile) (ps : List Profile)
    → first_row (λ (p : Profile). has_session e.id p.kyc_verification) ps ≡ some p
    → update_check e p.kyc_verification p ≡ some p'
    → handle_kyc_event e ps ≡ save_row profile_key p' ps
unfolding handle_kyc_event
event_saved e p p' ps fits updated = ground arith

-- When Stripe reports the check of a lawyer's profile as canceled, the stored profile is rejected, and
-- the lawyer cannot start another check: every later request is answered with the old session,
-- whatever Stripe would give, and the profiles stay. The profiles have distinct ids, and the
-- session of the event is that of the profile.
pub canceled-start_verification :
    (user : ℕ) (e : VerificationSession) (session : Option VerificationSession) (p : Profile)
    (ps : List Profile)
    → HasKeys profile_key ps
    → first_row (λ (p : Profile). p.user == user) ps ≡ some p
    → first_row (λ (p : Profile). has_session e.id p.kyc_verification) ps ≡ some p
    → e.status ≡ some CheckStatus.canceled
    → let ps' = handle_kyc_event e ps in
      ((p' : Profile) × (find profile_key p.id ps' ≡ some p')
        × (p'.kyc_verification_status ≡ KycStatus.rejected))
      × (start_verification user session ps' ≡ (in_progress e.id CheckStatus.canceled, ps'))
canceled-start_verification user e session p ps keys mine fits c =
    let has =
      first_row-fits profile_key (λ (p : Profile). has_session e.id p.kyc_verification) ps p fits in
    let own = first_row-fits profile_key (λ (p : Profile). p.user == user) ps p mine in
    let (p', updated, same, holder, status, check) = canceled_event e p p.kyc_verification has c in
    let k : KycVerification = record {
      stripe_verification_session_id = e.id;
      status = CheckStatus.canceled;
    } in
    let ps' = save_row profile_key p' ps in
    let first =
      first_row-save_row profile_key (λ (p : Profile). p.user == user) p p' ps keys mine same
        (rw holder own) in
    let there : find profile_key p.id ps' ≡ some p' =
      ground (arith, find-save_row profile_key p.id p' ps) in
    let again = start-again user session p' k ps' first check refl in
    rw (event_saved e p p' ps fits updated) ((p', there, status), again)
