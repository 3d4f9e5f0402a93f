-- ===== src/Status.antt =====
-- The choices of lawyer_appointment/models.py, lawyer_wallet/models.py and lawyer/models.py, with
-- the tests that the code makes on them.
use juris.Base.{Bool, false, true, ◌||◌}

pub data AppointmentStatus : Type 0 where
  pending confirmed cancelled completed rescheduled interrupted failed no_show : AppointmentStatus

-- `no_refund` is RefundStatus.NONE
pub data RefundStatus : Type 0 where
  no_refund pending approved rejected not_applicable : RefundStatus

pub data TransactionType : Type 0 where
  payment payout refund fee adjustment : TransactionType

pub data TransactionStatus : Type 0 where
  pending completed failed cancelled : TransactionStatus

-- `kyc_verification_status` of a lawyer's profile
pub data KycStatus : Type 0 where
  unverified pending verified rejected : KycStatus

abbrev pub is_pending : AppointmentStatus → Bool
is_pending AppointmentStatus.pending = true
is_pending _ = false

abbrev pub is_confirmed : AppointmentStatus → Bool
is_confirmed AppointmentStatus.confirmed = true
is_confirmed _ = false

abbrev pub is_cancelled : AppointmentStatus → Bool
is_cancelled AppointmentStatus.cancelled = true
is_cancelled _ = false

abbrev pub is_completed : AppointmentStatus → Bool
is_completed AppointmentStatus.completed = true
is_completed _ = false

-- `status in [PENDING, CONFIRMED]`
abbrev pub is_open : AppointmentStatus → Bool
is_open s = is_pending s || is_confirmed s

abbrev pub is_refund_pending : RefundStatus → Bool
is_refund_pending RefundStatus.pending = true
is_refund_pending _ = false

abbrev pub is_no_refund : RefundStatus → Bool
is_no_refund no_refund = true
is_no_refund _ = false

abbrev pub is_payment : TransactionType → Bool
is_payment payment = true
is_payment _ = false

abbrev pub is_payout : TransactionType → Bool
is_payout payout = true
is_payout _ = false

abbrev pub is_refund : TransactionType → Bool
is_refund refund = true
is_refund _ = false

abbrev pub is_pending_transaction : TransactionStatus → Bool
is_pending_transaction TransactionStatus.pending = true
is_pending_transaction _ = false

abbrev pub is_completed_transaction : TransactionStatus → Bool
is_completed_transaction TransactionStatus.completed = true
is_completed_transaction _ = false

abbrev pub is_kyc_verified : KycStatus → Bool
is_kyc_verified verified = true
is_kyc_verified _ = false
