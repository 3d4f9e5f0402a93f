-- ===== src/Payments/Lost.antt =====
-- What cancelling and rescheduling an appointment leaves of its payment.
use juris.Base.{
  List, Option, arith, false, none, refl, some, true, ℕ, ◌*◌, ◌+◌, ◌-◌, ◌/◌, ◌<◌, ◌≡◌, ◌≤◌,
}
use juris.Booking.Reschedule.{
  RescheduleReply, RescheduleRequest, can_be_changed, changeable_by, duration_minutes,
  is_valid_reschedule, perform_reschedule, reschedule, rescheduled_to,
}
use juris.Clock.{minute}
use juris.Payments.Cancellation.{
  CancelReply, CancelRequest, cancel, cancel_body, cancelled_by_user, check_refund_eligibility,
  is_valid_cancellation, refund_step,
}
use juris.Payments.Unpaid.{delete_unpaid_appointment}
use juris.Status.{AppointmentStatus, is_open, is_pending}
use juris.Store.{Appointment, Db, appointment_key, ok}
use juris.Store.Save.{clean_appointment, is_paid_appointment, save_appointment, set_refund_status}
use juris.Table.{find, find-save_row, key-find, save_row}

paid_save :
    (a : Appointment) (db : Db)
    → is_paid_appointment a ≡ true
    → a.start_datetime < a.end_datetime
    → save_appointment a db
      ≡ ok (record db { appointments = save_row appointment_key a db.appointments })
unfolding save_appointment clean_appointment set_refund_status
paid_save a db paid lt = ground arith

-- A row that is saved at a key is found there.
row_found :
    (a : Appointment) (k : ℕ) (xs : List Appointment)
    → a.id ≡ k
    → find appointment_key k (save_row appointment_key a xs) ≡ some a
row_found a k xs e = rw (find-save_row appointment_key k a xs) (ground arith)

-- A span of a minute or more stays a positive span.
still_long :
    (start end new : ℕ) → start + minute ≤ end → new < new + (end - start) / minute * minute
still_long start end new h = omega arith

rescheduled_save :
    (now user new : ℕ) (a : Appointment) (db : Db)
    → is_paid_appointment a ≡ true
    → a.start_datetime + minute ≤ a.end_datetime
    → let a' = rescheduled_to now user new a in
      save_appointment a' db
      ≡ ok (record db { appointments = save_row appointment_key a' db.appointments })
unfolding rescheduled_to duration_minutes
rescheduled_save now user new a db paid long =
    paid_save (rescheduled_to now user new a) db paid
      (still_long a.start_datetime a.end_datetime new long)

valid_is_party :
    (now : ℕ) (r : RescheduleRequest) (a : Appointment) (db : Db)
    → is_valid_reschedule now r a db ≡ true
    → changeable_by r.user a ≡ true
unfolding is_valid_reschedule can_be_changed
valid_is_party now r a db h = ground arith

reschedule_lem :
    (now : ℕ) (r : RescheduleRequest) (a : Appointment) (db : Db)
    → find appointment_key r.appointment_id db.appointments ≡ some a
    → is_paid_appointment a ≡ true
    → is_valid_reschedule now r a db ≡ true
    → a.start_datetime + minute ≤ a.end_datetime
    → let a' = rescheduled_to now r.user r.new_start_datetime a in
      reschedule now r db ≡ (
        RescheduleReply.moved a',
        record db { appointments = save_row appointment_key a' db.appointments },
      )
unfolding reschedule perform_reschedule
reschedule_lem now r a db e paid valid long =
    let party = valid_is_party now r a db valid in
    let saved = rescheduled_save now r.user r.new_start_datetime a db paid long in ground arith

-- The task leaves an appointment that is confirmed.
delete_unpaid_confirmed :
    (k : ℕ) (a : Appointment) (db : Db)
    → find appointment_key k db.appointments ≡ some a
    → a.status ≡ AppointmentStatus.confirmed
    → delete_unpaid_appointment k db ≡ ok db
unfolding delete_unpaid_appointment
delete_unpaid_confirmed k a db e c = ground arith

-- For a stored appointment that is of the paid kind, pending and at least a minute long, a valid
-- request to reschedule it stores it as confirmed; no transaction changes, and the task that
-- deletes unpaid appointments then leaves the state as it is.
pub reschedule-confirms_unpaid :
    (now : ℕ) (r : RescheduleRequest) (a : Appointment) (db : Db)
    → find appointment_key r.appointment_id db.appointments ≡ some a
    → is_paid_appointment a ≡ true
    → is_pending a.status ≡ true
    → is_valid_reschedule now r a db ≡ true
    → a.start_datetime + minute ≤ a.end_datetime
    → let db' = (reschedule now r db).1 in
      (db'.transactions ≡ db.transactions)
      × (delete_unpaid_appointment r.appointment_id db' ≡ ok db')
      × ((b : Appointment) × (find appointment_key r.appointment_id db'.appointments ≡ some b)
          × (b.status ≡ AppointmentStatus.confirmed))
unfolding rescheduled_to
reschedule-confirms_unpaid now r a db e paid pend valid long =
    let a' = rescheduled_to now r.user r.new_start_datetime a in
    let at =
      row_found a' r.appointment_id db.appointments
        (key-find appointment_key r.appointment_id db.appointments a e) in
    rw (reschedule_lem now r a db e paid valid long) (
      refl,
      delete_unpaid_confirmed r.appointment_id a'
          (record db { appointments = save_row appointment_key a' db.appointments }) at refl,
      (a', at, refl),
    )

-- A cancellation in time may be refunded.
valid_eligible :
    (now user : ℕ) (a : Appointment)
    → is_paid_appointment a ≡ true
    → is_valid_cancellation now user a ≡ true
    → check_refund_eligibility (cancelled_by_user now user a) ≡ true
unfolding is_valid_cancellation can_be_changed check_refund_eligibility cancelled_by_user
valid_eligible now user a paid valid = ground arith

cancelled_save :
    (now user : ℕ) (a : Appointment) (db : Db)
    → is_paid_appointment a ≡ true
    → a.start_datetime < a.end_datetime
    → let a' = cancelled_by_user now user a in
      (set_refund_status a' ≡ a')
      × (save_appointment a' db
          ≡ ok (record db { appointments = save_row appointment_key a' db.appointments }))
unfolding cancelled_by_user set_refund_status
cancelled_save now user a db paid lt =
    (ground arith, paid_save (cancelled_by_user now user a) db paid lt)

cancelled_paid :
    (now user : ℕ) (a : Appointment)
    → is_paid_appointment a ≡ true
    → is_paid_appointment (cancelled_by_user now user a) ≡ true
unfolding cancelled_by_user
cancelled_paid now user a paid = paid

valid_party :
    (now user : ℕ) (a : Appointment)
    → is_paid_appointment a ≡ true
    → is_valid_cancellation now user a ≡ true
    → changeable_by user a ≡ true
unfolding is_valid_cancellation can_be_changed
valid_party now user a paid valid = ground arith

refund_step-none :
    (now : ℕ) (a : Appointment) (db : Db)
    → is_paid_appointment a ≡ true
    → check_refund_eligibility a ≡ true
    → refund_step now none a db ≡ ok (CancelReply.key_required, db)
unfolding refund_step
refund_step-none now a db paid soon = ground arith

cancel_lem :
    (now : ℕ) (r : CancelRequest) (a : Appointment) (db : Db)
    → find appointment_key r.appointment_id db.appointments ≡ some a
    → is_paid_appointment a ≡ true
    → a.start_datetime < a.end_datetime
    → is_valid_cancellation now r.user a ≡ true
    → r.refund_idempotency_key ≡ none
    → cancel now r db ≡ (
      CancelReply.key_required,
      record db {
        appointments = save_row appointment_key (cancelled_by_user now r.user a) db.appointments;
      },
    )
unfolding cancel cancel_body
cancel_lem now r a db e paid lt valid no_key =
    let party = valid_party now r.user a paid valid in
    let (same, stored_c) = cancelled_save now r.user a db paid lt in
    let c = cancelled_by_user now r.user a in
    let step =
      refund_step-none now c
        (record db { appointments = save_row appointment_key c db.appointments })
        (cancelled_paid now r.user a paid) (valid_eligible now r.user a paid valid) in
    ground arith

-- A closed appointment cannot be cancelled.
cancel_closed :
    (now : ℕ) (r : CancelRequest) (a : Appointment) (db : Db)
    → find appointment_key r.appointment_id db.appointments ≡ some a
    → is_open a.status ≡ false
    → cancel now r db ≡ (CancelReply.no_appointment, db)
unfolding cancel
cancel_closed now r a db e closed = ground arith

-- For a stored appointment that is paid and starts before it ends, a valid cancellation that
-- carries no refund key is answered with an error, yet the appointment is stored as cancelled and
-- no transaction changes; any later cancellation of it by the same user, with a key or without,
-- finds no appointment.
pub cancel-without_key :
    (now later : ℕ) (r : CancelRequest) (a : Appointment) (db : Db) (key : Option ℕ)
    → find appointment_key r.appointment_id db.appointments ≡ some a
    → is_paid_appointment a ≡ true
    → a.start_datetime < a.end_datetime
    → is_valid_cancellation now r.user a ≡ true
    → r.refund_idempotency_key ≡ none
    → let (reply, db') = cancel now r db in
      (reply ≡ CancelReply.key_required)
      × (db'.transactions ≡ db.transactions)
      × (find appointment_key r.appointment_id db'.appointments
          ≡ some (cancelled_by_user now r.user a))
      × (cancel later (record r { refund_idempotency_key = key }) db'
          ≡ (CancelReply.no_appointment, db'))
unfolding cancelled_by_user
cancel-without_key now later r a db key e paid lt valid no_key =
    let c = cancelled_by_user now r.user a in
    let db' : Db = record db { appointments = save_row appointment_key c db.appointments } in
    let at =
      row_found c r.appointment_id db.appointments
        (key-find appointment_key r.appointment_id db.appointments a e) in
    rw (cancel_lem now r a db e paid lt valid no_key) (
      refl,
      refl,
      at,
      cancel_closed later (record r { refund_idempotency_key = key }) c db' at refl,
    )
