-- ===== src/Booking.antt =====
-- Creating and rescheduling appointments: `CreateAppointmentView` and `RescheduleAppointmentView` of
-- lawyer_appointment/views.py with their serializers of lawyer_appointment/serializers.py. All
-- reads of the clock in a request give one instant, `now`. The length of the idempotency key and of
-- the free texts is not checked here.
pub mod Create
pub mod Reschedule
pub mod Slots
pub mod Created
pub mod Moved
use juris.Availability.{overlaps}
use juris.Availability.Query.{is_available_at_time_with_offering}
use juris.Base.{Bool, leb, ltb, not, some, ℕ, ◌&&◌, ◌*◌, ◌+◌, ◌==◌, ◌||◌}
use juris.Clock.{date, day, hour, time}
use juris.Status.{is_open}
use juris.Store.{Appointment, Db}

-- Two appointments that are pending or confirmed, of one lawyer or of one client, at times that
-- overlap.
abbrev pub double_booked : Appointment → Appointment → Bool
double_booked a b =
    is_open a.status
    && is_open b.status
    && (b.lawyer.id == a.lawyer.id || b.client == a.client)
    && overlaps a.start_datetime a.end_datetime b.start_datetime b.end_datetime

-- The rows of `lawyer_conflicts`.
abbrev pub lawyer_conflicts : ℕ → ℕ → ℕ → Appointment → Bool
lawyer_conflicts lawyer start end b =
    b.lawyer.id == lawyer
    && (ltb b.start_datetime end && ltb start b.end_datetime)
    && is_open b.status

-- The rows of `client_conflicts`.
abbrev pub client_conflicts : ℕ → ℕ → ℕ → Appointment → Bool
client_conflicts client start end b =
    b.client == client && (ltb b.start_datetime end && ltb start b.end_datetime) && is_open b.status

-- `lawyer.is_available_at_time_with_offering` for the dates and times of two instants
abbrev pub available_between : Db → ℕ → ℕ → ℕ → ℕ → Bool
available_between db lawyer start end offering =
    is_available_at_time_with_offering db.slots db.absences lawyer (date start) (time start)
      (time end) (some offering)

-- `validate_start_datetime` and `validate_new_start_datetime`
unfoldable pub validate_start : ℕ → ℕ → Bool
validate_start now start =
    not (leb start now) && not (ltb (now + 180 * day) start) && not (ltb start (now + hour))
