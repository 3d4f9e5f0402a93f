-- ===== src/Payments/Cancellation.antt =====
-- `CancelAppointmentSerializer` and `CancelAppointmentView`.
use juris.Base.{
  Bool, Option, exists_row, false, holds, if◌then◌else◌, leb, none, not, some, ℕ, ◌&&◌, ◌*◌, ◌+◌,
  ◌==◌,
}
use juris.Booking.Reschedule.{can_be_changed, changeable_by, is_party}
use juris.Clock.{hour}
use juris.Status.{AppointmentStatus, RefundStatus, TransactionStatus, is_refund, refund}
use juris.Store.{Appointment, Db, Exn, Result, Transaction, appointment_key, atomic, ok, ◌>>=◌}
use juris.Store.Save.{
  create_transaction, get_payment_transaction, is_paid_appointment, is_physical_appointment,
  save_appointment, save_transaction, set_refund_status,
}
use juris.Table.{find}

pub record CancelRequest : Type 0 where
  pub user : ℕ
  pub appointment_id : ℕ
  pub refund_idempotency_key : Option ℕ

pub data CancelReply : Type 0 where
  no_appointment : CancelReply  -- 404, of `get_object`
  invalid_cancellation : CancelReply  -- 400, of the serializer
  key_required : CancelReply  -- 400, "refund_idempotency_key is required ..."
  already_requested eligible not_eligible_refund not_applicable_refund : CancelReply  -- 200
  cancel_error : Exn → CancelReply  -- a Django error that no `except` clause takes

-- `serializer.is_valid()`: only a client cancels a paid appointment
unfoldable pub is_valid_cancellation : ℕ → ℕ → Appointment → Bool
unfolding can_be_changed
is_valid_cancellation now user a =
    can_be_changed now a && (if is_paid_appointment a then a.client == user else is_party user a)

-- `perform_cancellation`, up to the save
unfoldable pub cancelled_by_user : ℕ → ℕ → Appointment → Appointment
cancelled_by_user now user a = record a {
  status = AppointmentStatus.cancelled;
  cancelled_at = some now;
  cancelled_by = some user;
}

-- `_check_refund_eligibility`
unfoldable pub check_refund_eligibility : Appointment → Bool
check_refund_eligibility a = not (is_physical_appointment a) && elim a.cancelled_at [
  | none ↦ false
  | some t ↦ leb (t + a.lawyer.cancellation_threshold_hours * hour) a.start_datetime
]

-- `_cancel_payment_transaction`
unfoldable pub cancel_payment_transaction : ℕ → Db → Result Db
cancel_payment_transaction id db = elim (get_payment_transaction id db) [
  | none ↦ ok db
  | some t ↦ save_transaction (record t { status = TransactionStatus.cancelled }) db
]

-- The refund's transaction.
abbrev pub refund_of : ℕ → Appointment → ℕ → Transaction
refund_of id a key = record {
  id = id;
  wallet = none;
  lawyer = a.lawyer.id;
  client = some a.client;
  appointment = some a.id;
  stripe_transaction_id = none;
  amount = a.total_price;
  transaction_type = refund;
  status = TransactionStatus.pending;
  idempotency_key = some key;
  processed_at = none;
  processed_by = none;
}

-- `_create_refund_request_and_transaction`
unfoldable pub create_refund_request_and_transaction : ℕ → Appointment → ℕ → Db → Result Db
create_refund_request_and_transaction now a key db = do
  let a' = record a { refund_status = RefundStatus.pending; refund_requested_at = some now }
  db1 ← save_appointment a' db
  db2 ← cancel_payment_transaction a.id db1
  create_transaction (refund_of db2.next_id a' key) db2

abbrev pub refund_with_key : ℕ → Transaction → Bool
refund_with_key k t = holds k t.idempotency_key && is_refund t.transaction_type

-- The handling of the refund, once the appointment is cancelled. The early return for a missing key
-- leaves the block of `transaction.atomic()` without an exception.
unfoldable pub refund_step : ℕ → Option ℕ → Appointment → Db → Result (CancelReply × Db)
refund_step now key a db =
    if not (is_paid_appointment a)
    then ok (not_applicable_refund, db)
    else if check_refund_eligibility a
    then elim key [
      | none ↦ ok (key_required, db)
      | some k ↦
          if exists_row (refund_with_key k) db.transactions
          then ok (already_requested, db)
          else (do db' ← create_refund_request_and_transaction now a k db; ok (eligible, db'))
    ]
    else (do db' ← cancel_payment_transaction a.id db; ok (not_eligible_refund, db'))

unfoldable pub cancel_body : ℕ → CancelRequest → Appointment → Db → Result (CancelReply × Db)
cancel_body now r a db = do
  db' ← save_appointment (cancelled_by_user now r.user a) db
  refund_step now r.refund_idempotency_key (set_refund_status (cancelled_by_user now r.user a)) db'

unfoldable pub cancel : ℕ → CancelRequest → Db → CancelReply × Db
cancel now r db = elim (find appointment_key r.appointment_id db.appointments) [
  | none ↦ (no_appointment, db)
  | some a ↦
      if not (changeable_by r.user a)
      then (no_appointment, db)
      else if not (is_valid_cancellation now r.user a)
      then (invalid_cancellation, db)
      else atomic cancel_error db (cancel_body now r a db)
]
