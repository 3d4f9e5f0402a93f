-- ===== src/Kyc.antt =====
-- The identity checks of lawyers: `KYCVerification` of kyc/models.py, `KYCVerificationView` of
-- kyc/views.py and the handlers of Stripe's identity events, subscriptions/webhook.py. Each lawyer's
-- profile has at most one check, with its session at Stripe; Stripe's answers are arguments.
pub mod Mirrored
use juris.Base.{Bool, List, Option, false, first_row, if◌then◌else◌, none, some, true, ℕ, ◌==◌}
use juris.Status.{KycStatus}
use juris.Table.{save_row}

-- `KYCVerification.status`; the last stands for any text that the code does not know.
pub data CheckStatus : Type 0 where
  requires_input processing verified canceled unknown : CheckStatus

pub record KycVerification : Type 0 where
  pub stripe_verification_session_id : ℕ
  pub status : CheckStatus

-- A lawyer's profile with its check.
pub record Profile : Type 0 where
  pub id : ℕ
  pub user : ℕ
  pub kyc_verification_status : KycStatus
  pub kyc_verification : Option KycVerification

abbrev pub profile_key : Profile → ℕ
profile_key p = p.id

-- The status of a profile for that of its check.
abbrev pub profile_status : CheckStatus → KycStatus
profile_status CheckStatus.verified = KycStatus.verified
profile_status CheckStatus.processing = KycStatus.pending
profile_status CheckStatus.canceled = KycStatus.rejected
profile_status _ = KycStatus.unverified

-- `is_verified`
abbrev pub is_verified : CheckStatus → Bool
is_verified CheckStatus.verified = true
is_verified _ = false

-- `VerificationSession` of an event; its status may be missing.
pub record VerificationSession : Type 0 where
  pub id : ℕ
  pub status : Option CheckStatus

abbrev pub has_session : ℕ → Option KycVerification → Bool
has_session id none = false
has_session id (some k) = k.stripe_verification_session_id == id

abbrev pub status_or : CheckStatus → Option CheckStatus → CheckStatus
status_or old none = old
status_or old (some s) = s

-- `update_from_stripe_data`, of a profile's check; none where it raises for another session
unfoldable pub update_from_stripe_data :
    VerificationSession → KycVerification → Profile → Option Profile
update_from_stripe_data e k p =
    let status = status_or k.status e.status in
    if e.id == k.stripe_verification_session_id
    then some (record p {
      kyc_verification_status = profile_status status;
      kyc_verification = some (record k { status = status });
    })
    else none

abbrev pub update_check : VerificationSession → Option KycVerification → Profile → Option Profile
update_check e none p = none
update_check e (some k) p = update_from_stripe_data e k p

abbrev pub save_profile : Option Profile → List Profile → List Profile
save_profile none ps = ps
save_profile (some p) ps = save_row profile_key p ps

-- `handle_kyc_verified`, `handle_kyc_requires_input`, `handle_kyc_canceled` and
-- `handle_kyc_processing`, which do the same
unfoldable pub handle_kyc_event : VerificationSession → List Profile → List Profile
unfolding update_from_stripe_data
handle_kyc_event e ps = elim (first_row (λ (p : Profile). has_session e.id p.kyc_verification) ps) [
  | none ↦ ps
  | some p ↦ save_profile (update_check e p.kyc_verification p) ps
]

pub data StartReply : Type 0 where
  no_profile : StartReply  -- 404
  already_verified : StartReply  -- 400
  in_progress : ℕ → CheckStatus → StartReply  -- 200
  no_session : StartReply  -- 400, of a StripeError
  started : VerificationSession → StartReply  -- 201

abbrev pub start_for :
    Option VerificationSession → Profile → Option KycVerification → StartReply × Option Profile
start_for session p (some k) =
    if is_verified k.status
    then (already_verified, none)
    else (in_progress k.stripe_verification_session_id k.status, none)
start_for none p none = (no_session, none)
start_for (some session) p none = (
  started session,
  some (record p {
    kyc_verification = some (record {
      stripe_verification_session_id = session.id;
      status = status_or CheckStatus.requires_input session.status;
    });
  }),
)

-- `KYCVerificationView.post`, given the session that Stripe creates, or none for a `StripeError`
unfoldable pub start_verification :
    ℕ → Option VerificationSession → List Profile → StartReply × List Profile
start_verification user session ps = elim (first_row (λ (p : Profile). p.user == user) ps) [
  | none ↦ (no_profile, ps)
  | some p ↦ let (reply, p') = start_for session p p.kyc_verification in (reply, save_profile p' ps)
]
