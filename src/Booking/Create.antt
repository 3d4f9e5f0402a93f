-- ===== src/Booking/Create.antt =====
-- `AppointmentCreateSerializer` and `CreateAppointmentView`.
use juris.Base.{
  Bool, Option, exists_row, false, first_row, holds, if◌then◌else◌, leb, ltb, none, not, some, ℕ,
  ◌&&◌, ◌*◌, ◌+◌, ◌==◌, ◌||◌,
}
use juris.Booking.{available_between, client_conflicts, lawyer_conflicts, validate_start}
use juris.Clock.{hour, minute}
use juris.Pricing.{OfferingType, booking_prices}
use juris.Status.{AppointmentStatus, TransactionStatus, is_kyc_verified, no_refund, payment}
use juris.Store.{
  Appointment, Db, Exn, Lawyer, Result, Transaction, Wallet, appointment_key, atomic, bad_duration,
  client_conflict, does_not_exist, err, in_the_past, inactive_offering, inactive_type,
  lawyer_conflict, not_available, not_verified, ok, or_raise, other_lawyer, own_appointment,
  payment_setup_failed, raise_if, ◌>>=◌, ◌>>◌,
}
use juris.Store.Save.{
  create_transaction, is_paid_appointment, save_appointment, save_transaction, save_wallet,
  set_refund_status,
}
use juris.Table.{find}

pub record CreateRequest : Type 0 where
  pub user : ℕ
  pub lawyer_id : ℕ
  pub offering_type_id : ℕ
  pub start_datetime : ℕ
  pub duration_minutes : ℕ
  pub idempotency_key : ℕ

pub data CreateReply : Type 0 where
  invalid_request : CreateReply  -- 400, of the serializer
  already_exists : Appointment → CreateReply  -- 200, is_duplicate
  requires_payment : Appointment → CreateReply  -- 201
  booked : Appointment → CreateReply  -- 201, a physical appointment
  creation_failed : Exn → CreateReply  -- 400

-- A duration of 30 or 60 minutes.
abbrev pub is_allowed_duration : ℕ → Bool
is_allowed_duration d = d == 30 || d == 60

abbrev pub lawyer_key : Lawyer → ℕ
lawyer_key l = l.id

abbrev pub offering_type_key : OfferingType → ℕ
offering_type_key t = t.id

abbrev pub is_bookable_lawyer : Option Lawyer → Bool
is_bookable_lawyer none = false
is_bookable_lawyer (some l) = is_kyc_verified l.kyc_verification_status

abbrev pub is_bookable_type : ℕ → Option OfferingType → Bool
is_bookable_type lawyer none = false
is_bookable_type lawyer (some t) =
    t.is_active && t.offering.is_active && t.offering.lawyer_profile == lawyer

-- `serializer.is_valid()`
unfoldable pub is_valid_request : ℕ → CreateRequest → Db → Bool
unfolding validate_start
is_valid_request now r db =
    is_bookable_lawyer (find lawyer_key r.lawyer_id db.lawyers)
    && is_bookable_type r.lawyer_id (find offering_type_key r.offering_type_id db.offering_types)
    && validate_start now r.start_datetime
    && is_allowed_duration r.duration_minutes

-- Rule 9: the lawyer's profile of the client is this lawyer.
abbrev pub own_profile : ℕ → Lawyer → Lawyer → Bool
own_profile client lawyer l = l.user == client && l.id == lawyer.id

unfoldable pub validate_booking_rules :
    ℕ → ℕ → Lawyer → OfferingType → ℕ → ℕ → ℕ → Db → Result (Unit {0})
validate_booking_rules now client lawyer t start end duration_minutes db = do
  raise_if (leb start now) in_the_past
  raise_if (not (is_allowed_duration duration_minutes)) bad_duration
  raise_if (not t.is_active) inactive_type
  raise_if (not t.offering.is_active) inactive_offering
  raise_if (not (t.offering.lawyer_profile == lawyer.id)) other_lawyer
  raise_if (not (available_between db lawyer.id start end t.offering.id)) not_available
  raise_if (exists_row (lawyer_conflicts lawyer.id start end) db.appointments) lawyer_conflict
  raise_if (exists_row (client_conflicts client start end) db.appointments) client_conflict
  raise_if (not (is_kyc_verified lawyer.kyc_verification_status)) not_verified
  raise_if (exists_row (own_profile client lawyer) db.lawyers) own_appointment

-- The row that `Appointment.objects.create` is given.
unfoldable pub new_appointment : ℕ → ℕ → Lawyer → OfferingType → ℕ → ℕ → Appointment
unfolding booking_prices
new_appointment id client lawyer t start duration_minutes =
    let p = booking_prices t duration_minutes in
    record {
      id = id;
      client = client;
      lawyer = lawyer;
      offering_type = t;
      start_datetime = start;
      end_datetime = start + duration_minutes * minute;
      status = AppointmentStatus.pending;
      cancelled_at = none;
      cancelled_by = none;
      is_rescheduled = false;
      last_rescheduled_at = none;
      rescheduled_by = none;
      refund_status = no_refund;
      refund_requested_at = none;
      refund_processed_at = none;
      total_price = p.total_price;
      commission_amount = p.commission_amount;
      lawyer_amount = p.lawyer_amount;
      stripe_payment_intent_id = none;
      payment_task_id = none;
      reminder_task_id = none;
    }

unfoldable pub perform_create_with_validation : ℕ → CreateRequest → Db → Result (Appointment × Db)
perform_create_with_validation now r db = do
  lawyer ← or_raise (find lawyer_key r.lawyer_id db.lawyers) does_not_exist
  t ← or_raise (find offering_type_key r.offering_type_id db.offering_types) does_not_exist
  validate_booking_rules now r.user lawyer t r.start_datetime
      (r.start_datetime + r.duration_minutes * minute) r.duration_minutes db
  let a =
      set_refund_status
        (new_appointment db.next_id r.user lawyer t r.start_datetime r.duration_minutes)
  db' ← save_appointment a (record db { next_id = db.next_id + 1 })
  ok (a, db')

abbrev pub of_lawyer : ℕ → Wallet → Bool
of_lawyer lawyer w = w.lawyer == lawyer

-- `Wallet.objects.get_or_create`
unfoldable pub get_or_create_wallet : ℕ → Db → Wallet × Db
unfolding save_wallet
get_or_create_wallet lawyer db = elim (first_row (of_lawyer lawyer) db.wallets) [
  | some w ↦ (w, db)
  | none ↦
      let w : Wallet = record {
        id = db.next_id;
        lawyer = lawyer;
        balance = 0;
        is_locked = false;
      } in
      (w, save_wallet w (record db { next_id = db.next_id + 1 }))
]

unfoldable pub create_payment_transaction : Appointment → ℕ → Db → Result (Transaction × Db)
create_payment_transaction a idempotency_key db =
    let (w, db') = get_or_create_wallet a.lawyer.id db in
    let t : Transaction = record {
      id = db'.next_id;
      wallet = some w.id;
      lawyer = a.lawyer.id;
      client = some a.client;
      appointment = some a.id;
      stripe_transaction_id = none;
      amount = a.total_price;
      transaction_type = payment;
      status = TransactionStatus.pending;
      idempotency_key = some idempotency_key;
      processed_at = none;
      processed_by = none;
    } in
    do db'' ← create_transaction t db'; ok (t, db'')

-- `_create_payment_intent`, given Stripe's answer: the id of the intent, or none for a `StripeError`
unfoldable pub create_payment_intent :
    Option ℕ → Appointment → Transaction → Db → Result (Appointment × Db)
create_payment_intent none a t db = err payment_setup_failed
create_payment_intent (some intent) a t db = do
  let a' = record a { stripe_payment_intent_id = some intent }
  db' ← save_appointment a' db
  db'' ← save_transaction (record t { stripe_transaction_id = some intent }) db'
  ok (a', db'')

-- `_schedule_appointment_reminder`: the id of the reminder's task is stored if the appointment is
-- more than 24 hours away
unfoldable pub schedule_appointment_reminder : ℕ → Appointment → Db → Result (Appointment × Db)
schedule_appointment_reminder now a db =
    let a' = record a { reminder_task_id = some db.next_id } in
    let saved_db = save_appointment a' (record db { next_id = db.next_id + 1 }) in
    if ltb (now + 24 * hour) a.start_datetime then (do db' ← saved_db; ok (a', db')) else ok (a, db)

-- The branch of `create` for a paid appointment.
unfoldable pub create_paid : Option ℕ → ℕ → Appointment → Db → Result (CreateReply × Db)
create_paid intent idempotency_key a db = do
  (t, db1) ← create_payment_transaction a idempotency_key db
  (a', db2) ← create_payment_intent intent a t db1
  let a'' = record a' { payment_task_id = some db2.next_id }
  db3 ← save_appointment a'' (record db2 { next_id = db2.next_id + 1 })
  ok (requires_payment a'', db3)

-- The branch of `create` for a physical appointment.
unfoldable pub create_free : ℕ → Appointment → Db → Result (CreateReply × Db)
create_free now a db = do
  let a' = record a { status = AppointmentStatus.confirmed }
  db1 ← save_appointment a' db
  (a'', db2) ← schedule_appointment_reminder now a' db1
  ok (booked a'', db2)

-- The body of `transaction.atomic()` in `create`.
unfoldable pub create_body : ℕ → Option ℕ → CreateRequest → Db → Result (CreateReply × Db)
create_body now intent r db = do
  (a, db1) ← perform_create_with_validation now r db
  if is_paid_appointment a
      then create_paid intent r.idempotency_key a db1
      else create_free now a db1

-- The appointment of an earlier transaction with the key, if it is still there.
unfoldable pub existing_appointment : ℕ → Db → Option Appointment
existing_appointment key db =
    elim (first_row (λ (t : Transaction). holds key t.idempotency_key) db.transactions) [
      | none ↦ none
      | some t ↦ elim t.appointment [
        | none ↦ none
        | some a ↦ find appointment_key a db.appointments
      ]
    ]

unfoldable pub create_appointment : ℕ → Option ℕ → CreateRequest → Db → CreateReply × Db
create_appointment now intent r db =
    if not (is_valid_request now r db)
    then (invalid_request, db)
    else elim (existing_appointment r.idempotency_key db) [
      | some a ↦ (already_exists a, db)
      | none ↦ atomic creation_failed db (create_body now intent r db)
    ]
