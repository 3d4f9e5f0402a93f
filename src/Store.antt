-- ===== src/Store.antt =====
-- The rows that appointments and payments share, and how each is saved: `Appointment` of
-- lawyer_appointment/models.py, `Wallet` and `Transaction` of lawyer_wallet/models.py, and of
-- `LawyerProfile` what they read. Money is in cents, an instant in microseconds; primary keys,
-- users, Stripe's and Celery's identifiers and idempotency keys are numbers, which are only
-- compared. Free texts (titles, reasons, notes) are left out. Fresh keys are drawn from
-- the counter `next_id`, which stands for `uuid4` and for the identifiers of other services.
pub mod Save
use juris.Availability.{Availability, Unavailability}
use juris.Base.{Bool, List, Option, if◌then◌else◌, none, refl, some, ℕ, ◌≡◌}
use juris.Pricing.{OfferingType}
use juris.Status.{AppointmentStatus, KycStatus, RefundStatus, TransactionStatus, TransactionType}

pub record Lawyer : Type 0 where
  pub id : ℕ
  pub user : ℕ  -- vendor_profile.user
  pub kyc_verification_status : KycStatus
  pub kyc_verification : Option Bool  -- the KYCVerification row, with its is_verified
  pub cancellation_threshold_hours : ℕ

pub record Wallet : Type 0 where
  pub id : ℕ
  pub lawyer : ℕ
  pub balance : ℕ
  pub is_locked : Bool

pub record Transaction : Type 0 where
  pub id : ℕ
  pub wallet : Option ℕ
  pub lawyer : ℕ
  pub client : Option ℕ
  pub appointment : Option ℕ
  pub stripe_transaction_id : Option ℕ
  pub amount : ℕ
  pub transaction_type : TransactionType
  pub status : TransactionStatus
  pub idempotency_key : Option ℕ
  pub processed_at : Option ℕ
  pub processed_by : Option ℕ

pub record Appointment : Type 0 where
  pub id : ℕ
  pub client : ℕ
  pub lawyer : Lawyer
  pub offering_type : OfferingType
  pub start_datetime : ℕ
  pub end_datetime : ℕ
  pub status : AppointmentStatus
  pub cancelled_at : Option ℕ
  pub cancelled_by : Option ℕ
  pub is_rescheduled : Bool
  pub last_rescheduled_at : Option ℕ
  pub rescheduled_by : Option ℕ
  pub refund_status : RefundStatus
  pub refund_requested_at : Option ℕ
  pub refund_processed_at : Option ℕ
  pub total_price : ℕ
  pub commission_amount : ℕ
  pub lawyer_amount : ℕ
  pub stripe_payment_intent_id : Option ℕ
  pub payment_task_id : Option ℕ
  pub reminder_task_id : Option ℕ

-- Transactions are listed by `Meta.ordering`, the newest first.
pub record Db : Type 0 where
  pub lawyers : List Lawyer
  pub offering_types : List OfferingType
  pub slots : List Availability
  pub absences : List Unavailability
  pub wallets : List Wallet
  pub transactions : List Transaction
  pub appointments : List Appointment
  pub next_id : ℕ

-- What ends a request early.
pub data Exn : Type 0 where
  bad_amount : Exn  -- the validator of Transaction.amount
  duplicate_key : Exn  -- the unique idempotency key
  bad_interval : Exn  -- "End time must be after start time"
  priced_physical : Exn  -- "Physical appointments must have zero price"
  in_the_past : Exn
  bad_duration : Exn
  inactive_type : Exn
  inactive_offering : Exn
  other_lawyer : Exn
  not_available : Exn
  lawyer_conflict : Exn  -- raised as ConflictError
  client_conflict : Exn
  not_verified : Exn
  own_appointment : Exn
  payment_setup_failed : Exn
  does_not_exist : Exn
  attribute_error : Exn

pub data Result {ℓ} (A : Type ℓ) : Type ℓ where
  err : Exn → Result A
  ok : A → Result A

abbrev pub raise_if : Bool → Exn → Result (Unit {0})
raise_if failed exn = if failed then err exn else ok tt

infixl 5 ◌>>◌ ◌>>=◌
abbrev pub ◌>>=◌ {κ ℓ} : {X : Type κ} {Y : Type ℓ} → Result X → (X → Result Y) → Result Y
err exn >>= step = err exn
ok x >>= step = step x

abbrev pub ◌>>◌ {κ} : {X : Type κ} → Result (Unit {0}) → Result X → Result X
check >> rest = check >>= λ done. rest

-- `objects.get`
abbrev pub or_raise {ℓ} : {A : Type ℓ} → Option A → Exn → Result A
or_raise none e = err e
or_raise (some a) e = ok a

-- `with transaction.atomic()` and the `except` clauses: an exception rolls the rows back.
abbrev pub atomic {ℓ} : {R : Type ℓ} → (Exn → R) → Db → Result (R × Db) → R × Db
atomic handler db (ok r) = r
atomic handler db (err e) = (handler e, db)

abbrev pub wallet_key : Wallet → ℕ
wallet_key w = w.id

abbrev pub transaction_key : Transaction → ℕ
transaction_key t = t.id

abbrev pub appointment_key : Appointment → ℕ
appointment_key a = a.id

-- What a chain of steps that succeeds has done.
pub >>=-eq-ok {κ ℓ} :
    {X : Type κ} {Y : Type ℓ} {y : Y} (first : Result X) (next : X → Result Y)
    → (first >>= next) ≡ ok y
    → (x : X) × (first ≡ ok x) × (next x ≡ ok y)
>>=-eq-ok (err exn) next done = cc
>>=-eq-ok (ok x) next done = (x, refl, done)

pub ok_eq {ℓ} : {A : Type ℓ} {a b : A} → ok a ≡ ok b → a ≡ b
ok_eq h = cc
