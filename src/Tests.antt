-- ===== src/Tests.antt =====
-- Runs of the model on a small office: one lawyer, one slot, one paid service, and two
-- appointments of one day.
mod Accounts
mod Vendors
mod Video
mod Users
use mathlib.Core.List.{Mem}
use juris.Availability.{Availability, Unavailability, save}
use juris.Availability.Agendas.{IsAgenda}
use juris.Availability.Bulk.{Schedule, clone_availability_to_offering}
use juris.Availability.Calls.{
  SlotCall, asks_copy, deletes_slot, posts_absence, slot_calls, slot_calls-IsAgenda,
}
use juris.Availability.Copies.{clone_availability-unchanged}
use juris.Availability.Offered.{
  Bookable, IsClear, get_availability-Bookable, is_available-overnight, is_available-within,
}
use juris.Availability.Owned.{IsGuarded, schedule-IsGuarded}
use juris.Availability.Query.{
  get_availability_for_date_with_offerings, is_available_at_time_with_offering,
}
use juris.Availability.Requests.{Agenda, Lawyers}
use juris.Availability.Slots.{IsSchedule, save-IsSchedule, slot_id}
use juris.Base.{
  All, List, [], arith, false, first_row, if◌then◌else◌, none, refl, some, true, ℕ, ◌%◌, ◌*◌, ◌+◌,
  ◌<◌, ◌==◌, ◌∷◌, ◌≡◌, ◌≤◌,
}
use juris.Booking.Create.{CreateRequest, create_appointment}
use juris.Booking.Created.{create_appointment-IsCalendar}
use juris.Booking.Moved.{reschedule-IsCalendar}
use juris.Booking.Reschedule.{RescheduleRequest, duration_minutes, is_valid_reschedule, reschedule}
use juris.Booking.Slots.{IsCalendar}
use juris.Clock.{date, day, hour, minute, time, weekday}
use juris.Payments.Cancellation.{
  CancelReply, CancelRequest, cancel, cancelled_by_user, is_valid_cancellation,
}
use juris.Payments.Cancelled.{cancel-IsCalendar}
use juris.Payments.Completion.{mark_appointment_completed}
use juris.Payments.Earned.{mark_appointment_completed-held, paid_out}
use juris.Payments.Lost.{cancel-without_key, reschedule-confirms_unpaid}
use juris.Payments.Reachable.{Reach-IsCalendar, Step, cancels, here, next}
use juris.Payments.Unpaid.{delete_unpaid_appointment}
use juris.Permissions.{Requester, lawyer_profile, offering_type}
use juris.Pricing.{
  Offering, OfferingType, ServiceType, booking_prices, calculate_price, max_price, min_price,
}
use juris.Pricing.Split.{booking_prices-split, calculate_price-exact}
use juris.Sessions.{client}
use juris.Status.{AppointmentStatus, KycStatus, RefundStatus, TransactionStatus, TransactionType}
use juris.Store.{Appointment, Db, Lawyer, Transaction, Wallet, appointment_key, ok, transaction_key}
use juris.Store.Save.{save_transaction, save_wallet}
use juris.Table.{HasKeys, find, save_row}
use juris.Withdrawal.{WithdrawRequest, reject_withdrawal, withdraw}
use juris.Withdrawal.Held.{held, withdraw-held}
use juris.Withdrawal.Review.{reject_withdrawal-held, reject_withdrawal-twice}

abbrev offering : Offering
offering = record {
  id = 5;
  lawyer_profile = 1;
  price_per_30min = 2550;
  commission_percentage = 1000;
  is_active = true;
}

abbrev video_call : OfferingType
video_call = record { id = 6; offering = offering; type = ServiceType.video; is_active = true }

abbrev lawyer : Lawyer
lawyer = record {
  id = 1;
  user = 11;
  kyc_verification_status = KycStatus.verified;
  kyc_verification = some true;
  cancellation_threshold_hours = 24;
}

-- Day 104 is a Wednesday. Open from 9 to 17.
abbrev slot : Availability
slot = record {
  id = 20;
  lawyer = 1;
  day_of_week = 2;
  start_time = 9 * hour;
  end_time = 17 * hour;
  offering = offering;
  is_active = true;
}

abbrev pub morning : ℕ
morning = 104 * day + 10 * hour

abbrev appointment : Appointment
appointment = record {
  id = 30;
  client = 12;
  lawyer = lawyer;
  offering_type = video_call;
  start_datetime = morning;
  end_datetime = morning + hour;
  status = AppointmentStatus.pending;
  cancelled_at = none;
  cancelled_by = none;
  is_rescheduled = false;
  last_rescheduled_at = none;
  rescheduled_by = none;
  refund_status = RefundStatus.no_refund;
  refund_requested_at = none;
  refund_processed_at = none;
  total_price = 5100;
  commission_amount = 510;
  lawyer_amount = 4590;
  stripe_payment_intent_id = some 40;
  payment_task_id = some 41;
  reminder_task_id = none;
}

abbrev pub afternoon : Appointment
afternoon = record appointment {
  id = 31;
  client = 14;
  start_datetime = morning + 5 * hour;
  end_datetime = morning + 6 * hour;
  status = AppointmentStatus.confirmed;
}

abbrev pub payment_row : Transaction
payment_row = record {
  id = 50;
  wallet = some 60;
  lawyer = 1;
  client = some 12;
  appointment = some 30;
  stripe_transaction_id = some 40;
  amount = 5100;
  transaction_type = TransactionType.payment;
  status = TransactionStatus.pending;
  idempotency_key = some 51;
  processed_at = none;
  processed_by = none;
}

abbrev payout_row : Transaction
payout_row = record payment_row {
  id = 52;
  client = none;
  appointment = none;
  stripe_transaction_id = none;
  amount = 2000;
  transaction_type = TransactionType.payout;
  idempotency_key = some 53;
}

abbrev wallet : Wallet
wallet = record { id = 60; lawyer = 1; balance = 9000; is_locked = false }

abbrev pub office : Db
office = record {
  lawyers = lawyer ∷ [];
  offering_types = video_call ∷ [];
  slots = slot ∷ [];
  absences = [];
  wallets = wallet ∷ [];
  transactions = payout_row ∷ payment_row ∷ [];
  appointments = afternoon ∷ appointment ∷ [];
  next_id = 100;
}

abbrev request : CreateRequest
request = record {
  user = 13;
  lawyer_id = 1;
  offering_type_id = 6;
  start_datetime = morning + 2 * hour;
  duration_minutes = 60;
  idempotency_key = 70;
}

abbrev move_request : RescheduleRequest
move_request = record { user = 12; appointment_id = 30; new_start_datetime = morning + 3 * hour }

abbrev cancel_request : CancelRequest
cancel_request = record { user = 12; appointment_id = 30; refund_idempotency_key = none }

abbrev withdraw_request : WithdrawRequest
withdraw_request = record { user = 11; amount = 3000; idempotency_key = 71 }

office-IsCalendar : IsCalendar office
office-IsCalendar = (((refl, refl), tt), (tt, tt))

create_appointment-IsCalendar_example :
    IsCalendar (create_appointment (100 * day) (some 80) request office).1
create_appointment-IsCalendar_example =
    create_appointment-IsCalendar (100 * day) (some 80) request office office-IsCalendar

reschedule-IsCalendar_example : IsCalendar (reschedule (100 * day) move_request office).1
reschedule-IsCalendar_example =
    reschedule-IsCalendar (100 * day) move_request office office-IsCalendar

cancel-IsCalendar_example : IsCalendar (cancel (100 * day) cancel_request office).1
cancel-IsCalendar_example = cancel-IsCalendar (100 * day) cancel_request office office-IsCalendar

Reach-IsCalendar_example :
    IsCalendar
      (cancel
        (101 * day)
        cancel_request
        (create_appointment (100 * day) (some 80) request office).1).1
Reach-IsCalendar_example = Reach-IsCalendar office-IsCalendar (
    next (next here (Step.creates (100 * day) (some 80) request office)) (
      cancels (101 * day) cancel_request
        (create_appointment (100 * day) (some 80) request office).1))

withdraw-held_example : held 60 (withdraw withdraw_request office office).1 ≡ held 60 office
withdraw-held_example = withdraw-held 60 withdraw_request office office

reject_withdrawal-held_example :
    held 60 (reject_withdrawal morning 90 payout_row office).1 ≡ held 60 office
reject_withdrawal-held_example = reject_withdrawal-held 60 morning 90 payout_row office refl

office-HasKeys : HasKeys transaction_key office.transactions
office-HasKeys = ((refl, tt), (tt, tt))

mark_appointment_completed-held_example :
    held 60 (mark_appointment_completed (morning + 8 * hour) 11 31 office).1
    ≡ held 60 office
      + paid_out 60 31 (mark_appointment_completed (morning + 8 * hour) 11 31 office).0 office
mark_appointment_completed-held_example =
    mark_appointment_completed-held 60 (morning + 8 * hour) 11 31 office office-HasKeys

abbrev rejected_once : Db
rejected_once = (reject_withdrawal morning 90 payout_row office).1

reject_withdrawal-twice_example :
    held 60 (reject_withdrawal morning 91 payout_row rejected_once).1 ≡ held 60 office + 2000
unfolding reject_withdrawal save_transaction save_wallet
reject_withdrawal-twice_example =
    reject_withdrawal-twice 60 morning 90 morning 91 payout_row office rejected_once
      (reject_withdrawal morning 91 payout_row rejected_once).1 refl refl refl refl

cancel-without_key_example :
    let (reply, db') = cancel (100 * day) cancel_request office in
    (reply ≡ CancelReply.key_required)
    × (db'.transactions ≡ office.transactions)
    × (find appointment_key 30 db'.appointments
        ≡ some (cancelled_by_user (100 * day) 12 appointment))
    × (cancel (101 * day) (record cancel_request { refund_idempotency_key = some 72 }) db'
        ≡ (CancelReply.no_appointment, db'))
unfolding is_valid_cancellation
cancel-without_key_example =
    cancel-without_key (100 * day) (101 * day) cancel_request appointment office (some 72) refl refl
      (omega arith) refl refl

reschedule-confirms_unpaid_example :
    let db' = (reschedule (100 * day) move_request office).1 in
    (db'.transactions ≡ office.transactions)
    × (delete_unpaid_appointment 30 db' ≡ ok db')
    × ((b : Appointment) × (find appointment_key 30 db'.appointments ≡ some b)
        × (b.status ≡ AppointmentStatus.confirmed))
unfolding is_valid_reschedule is_available_at_time_with_offering weekday date time
reschedule-confirms_unpaid_example =
    reschedule-confirms_unpaid (100 * day) move_request appointment office refl refl refl refl
      (omega arith)

slot-IsSchedule : IsSchedule (slot ∷ [])
slot-IsSchedule = (((omega arith, refl), tt), (tt, tt))

abbrev late_slot : Availability
late_slot = record slot { id = 21; start_time = 18 * hour; end_time = 20 * hour }

save-IsSchedule_example : IsSchedule (save_row slot_id late_slot (slot ∷ []))
unfolding save
save-IsSchedule_example =
    save-IsSchedule late_slot (slot ∷ []) (save_row slot_id late_slot (slot ∷ [])) slot-IsSchedule
      refl

abbrev errand : Unavailability
errand = record {
  id = 25;
  lawyer = 1;
  date = 104;
  start_time = some (12 * hour);
  end_time = some (13 * hour);
  is_all_day = false;
}

get_availability-Bookable_example :
    All
      (Bookable (slot ∷ []) (errand ∷ []) 1 104)
      (get_availability_for_date_with_offerings (slot ∷ []) (errand ∷ []) 1 104)
get_availability-Bookable_example = get_availability-Bookable (slot ∷ []) (errand ∷ []) 1 104

is_available-within_example :
    All (IsClear 1 (date morning) morning (morning + hour)) (errand ∷ [])
    × ((s : Availability) × Mem s (slot ∷ [])
        × (s.lawyer ≡ 1)
        × (s.day_of_week ≡ weekday (date morning))
        × (s.is_active ≡ true)
        × (s.offering.is_active ≡ true)
        × (s.offering.id ≡ 5)
        × (date morning * day + s.start_time ≤ morning)
        × (morning + hour ≤ date morning * day + s.end_time))
unfolding is_available_at_time_with_offering weekday date time
is_available-within_example =
    is_available-within (slot ∷ []) (errand ∷ []) 1 5 morning (morning + hour) refl refl

abbrev night_slot : Availability
night_slot = record slot { start_time = 20 * hour; end_time = 23 * hour + 30 * minute }

abbrev night : ℕ
night = 104 * day + 23 * hour

is_available-overnight_example :
    (is_available_at_time_with_offering
        (night_slot ∷ [])
        []
        1
        (date night)
        (time night)
        (time (night + 2 * hour))
        (some 5)
      ≡ true)
    × (date night * day + night_slot.end_time < night + 2 * hour)
unfolding weekday date time
is_available-overnight_example =
    is_available-overnight night_slot night (night + 2 * hour) refl refl refl (omega arith)
      (omega arith) (omega arith) refl (omega arith)

abbrev schedule : Schedule
schedule = record { slots = slot ∷ []; next_id = 100 }

clone_availability-unchanged_example :
    (clone_availability_to_offering 1 5 (record offering { id = 7 }) schedule).1.slots
    ≡ schedule.slots
clone_availability-unchanged_example =
    clone_availability-unchanged 1 5 schedule (record offering { id = 7 }) slot-IsSchedule
      (omega arith, tt)

-- 25.50 for half an hour at 10 percent: 2.55 and 22.95.
booking_prices-split_example :
    let p = booking_prices video_call 30 in
    p.commission_amount + p.lawyer_amount
    ≡ p.total_price + (if false then 0 else if (p.total_price * 1000) % 10000 == 5000 then 1 else 0)
booking_prices-split_example = booking_prices-split video_call 30 (omega arith)

calculate_price-exact_example :
    (calculate_price offering 30 ≡ min_price offering)
    × (calculate_price offering 60 ≡ 2 * min_price offering)
    × (max_price offering ≡ 2 * min_price offering)
calculate_price-exact_example = calculate_price-exact offering (omega arith)

-- One thirtieth of 1.65 is half a cent above five, but the quotient is rounded down.
one_minute : calculate_price (record offering { price_per_30min = 165 }) 1 ≡ 5
unfolding calculate_price
one_minute = refl

-- The office once the unpaid appointment is gone.

abbrev lawyer_user : Requester
lawyer_user = record {
  id = 10;
  is_authenticated = true;
  is_staff = false;
  is_superuser = false;
  is_lawyer_vendor = true;
}

abbrev agenda : Agenda
agenda = record { schedule = schedule; absences = []; next_absence = 300 }

abbrev bar : Lawyers
bar = record { user_of = λ k. 10; profile_of = λ k. some 1 }

abbrev her_requests : List (Requester × SlotCall)
her_requests =
    (lawyer_user, asks_copy (some 2) (3 ∷ 4 ∷ []) none)
    ∷ (lawyer_user, posts_absence 10 (some 700) errand)
    ∷ (lawyer_user, deletes_slot slot.id)
    ∷ []

slot_calls-IsAgenda_example : IsAgenda (slot_calls bar her_requests agenda)
slot_calls-IsAgenda_example =
    slot_calls-IsAgenda bar her_requests agenda (slot-IsSchedule, (tt, tt))

abbrev vendor : Requester
vendor = record {
  id = 11;
  is_authenticated = true;
  is_staff = false;
  is_superuser = false;
  is_lawyer_vendor = true;
}

schedule-IsGuarded_example :
    All (IsGuarded (record { user_of = λ k. 11; profile_of = λ k. some 1 }) vendor) (slot ∷ [])
schedule-IsGuarded_example =
    schedule-IsGuarded (record { user_of = λ k. 11; profile_of = λ k. some 1 }) vendor (slot ∷ [])
      (((omega arith, refl), tt), (tt, tt))
