-- ===== src/Booking/Reschedule.antt =====
-- `RescheduleAppointmentSerializer` and `RescheduleAppointmentView`. The notes are left out.
use juris.Base.{
  Bool, exists_row, if◌then◌else◌, ltb, none, not, some, true, ℕ, ◌&&◌, ◌*◌, ◌+◌, ◌-◌, ◌/◌, ◌==◌,
  ◌||◌,
}
use juris.Booking.{available_between, client_conflicts, lawyer_conflicts, validate_start}
use juris.Clock.{hour, minute}
use juris.Status.{AppointmentStatus, is_open}
use juris.Store.{Appointment, Db, Exn, Result, appointment_key, atomic, ok, ◌>>=◌}
use juris.Store.Save.{save_appointment}
use juris.Table.{find}

pub record RescheduleRequest : Type 0 where
  pub user : ℕ
  pub appointment_id : ℕ
  pub new_start_datetime : ℕ

pub data RescheduleReply : Type 0 where
  not_found : RescheduleReply  -- 404, of `get_object`
  invalid_reschedule : RescheduleReply  -- 400, of the serializer
  moved : Appointment → RescheduleReply  -- 200
  server_error : Exn → RescheduleReply  -- a Django error that no `except` clause takes

-- The user is the client or the lawyer.
abbrev pub is_party : ℕ → Appointment → Bool
is_party user a = a.client == user || a.lawyer.user == user

-- `get_queryset` of the views that change an appointment
abbrev pub changeable_by : ℕ → Appointment → Bool
changeable_by user a = is_party user a && is_open a.status

-- `duration_minutes`, of an appointment that ends after it starts
unfoldable pub duration_minutes : Appointment → ℕ
duration_minutes a = (a.end_datetime - a.start_datetime) / minute

-- `now < start_datetime - timedelta(hours=threshold)`, for `can_be_rescheduled` and
-- `can_be_cancelled`, which test the same
unfoldable pub can_be_changed : ℕ → Appointment → Bool
can_be_changed now a =
    is_open a.status && ltb (now + a.lawyer.cancellation_threshold_hours * hour) a.start_datetime

-- `serializer.is_valid()`, with the conflicts of the other appointments
unfoldable pub is_valid_reschedule : ℕ → RescheduleRequest → Appointment → Db → Bool
unfolding validate_start can_be_changed duration_minutes
is_valid_reschedule now r a db =
    let new_end = r.new_start_datetime + duration_minutes a * minute in
    validate_start now r.new_start_datetime
    && can_be_changed now a
    && is_party r.user a
    && available_between db a.lawyer.id r.new_start_datetime new_end a.offering_type.offering.id
    && not (
        exists_row
          (λ b. lawyer_conflicts a.lawyer.id r.new_start_datetime new_end b && not (b.id == a.id))
          db.appointments)
    && not (
        exists_row
          (λ b. client_conflicts a.client r.new_start_datetime new_end b && not (b.id == a.id))
          db.appointments)

-- The fields that `perform_reschedule` sets.
unfoldable pub rescheduled_to : ℕ → ℕ → ℕ → Appointment → Appointment
unfolding duration_minutes
rescheduled_to now user new_start a = record a {
  start_datetime = new_start;
  end_datetime = new_start + duration_minutes a * minute;
  status = AppointmentStatus.confirmed;
  is_rescheduled = true;
  last_rescheduled_at = some now;
  rescheduled_by = some user;
}

unfoldable pub perform_reschedule :
    ℕ → RescheduleRequest → Appointment → Db → Result (RescheduleReply × Db)
perform_reschedule now r a db = do
  let a' = rescheduled_to now r.user r.new_start_datetime a
  db' ← save_appointment a' db
  ok (moved a', db')

unfoldable pub reschedule : ℕ → RescheduleRequest → Db → RescheduleReply × Db
reschedule now r db = elim (find appointment_key r.appointment_id db.appointments) [
  | none ↦ (not_found, db)
  | some a ↦
      if not (changeable_by r.user a)
      then (not_found, db)
      else if not (is_valid_reschedule now r a db)
      then (invalid_reschedule, db)
      else atomic server_error db (perform_reschedule now r a db)
]
