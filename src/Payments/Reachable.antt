-- ===== src/Payments/Reachable.antt =====
-- The states that the requests, the task, the administrators and Stripe's events lead to, one after
-- another.
use juris.Base.{
  Option, Option-cases, arith, first_row, inl, inr, none, refl, some, subst, true, ℕ, ◌≡◌, ◌⊎◌,
}
use juris.Booking.Create.{CreateRequest, create_appointment, schedule_appointment_reminder}
use juris.Booking.Created.{create_appointment-IsCalendar, schedule_appointment_reminder-Holds}
use juris.Booking.Moved.{reschedule-IsCalendar}
use juris.Booking.Reschedule.{RescheduleRequest, reschedule}
use juris.Booking.Slots.{Holds, Holds-of_eq, IsCalendar, save_closed-IsCalendar, save_same-Holds}
use juris.Payments.Cancellation.{CancelRequest, cancel}
use juris.Payments.Cancelled.{IsCalendar-of_eq, atomic-IsCalendar, cancel-IsCalendar}
use juris.Payments.Completion.{
  CompleteReply, complete_error, complete_view_body, credit, mark_appointment_completed,
  mark_as_completed, mark_as_no_show, release, release_found,
}
use juris.Payments.Events.{
  delete_unpaid-IsCalendar, payment_failed-IsCalendar, update_transaction-appointments,
}
use juris.Payments.Refund.{approve_refund, reject_refund}
use juris.Payments.Refunded.{
  approve_refund-IsCalendar, end_session-IsCalendar, handle_charge_disputed-IsCalendar,
  handle_refund_failed-IsCalendar, handle_refund_succeeded-IsCalendar, mark_as_completed-IsCalendar,
  mark_as_no_show-IsCalendar, reject_refund-IsCalendar,
}
use juris.Payments.Unpaid.{delete_unpaid_appointment, pending_payment}
use juris.Payments.Webhook.{
  PaymentEvent, confirm_payment, handle_appointment_payment_canceled,
  handle_appointment_payment_failed, handle_appointment_payment_succeeded, handle_charge_disputed,
  handle_refund_failed, handle_refund_succeeded, update_transaction,
}
use juris.Sessions.Calls.{Claim, Rooms, end_session}
use juris.Status.{AppointmentStatus, is_open}
use juris.Store.{>>=-eq-ok, Appointment, Db, Transaction, appointment_key, ok, ok_eq, ◌>>=◌}
use juris.Store.Save.{create_transaction, save_appointment, save_transaction, save_wallet}
use juris.Table.{find, find-key}
use juris.Withdrawal.{
  WithdrawRequest, approve_withdrawal, reject_withdrawal, withdraw, withdraw_body,
}

-- The appointment of the event, if it is stored, is pending or confirmed.
abbrev pub IsOpenFor : PaymentEvent → Db → Type 0
IsOpenFor e db =
    (a : Appointment) (id : ℕ)
    → e.appointment_id ≡ some id
    → find appointment_key id db.appointments ≡ some a
    → is_open a.status ≡ true

-- One operation that changes the rows: a request, the task, an action of an administrator on an
-- appointment as it is stored, an event of Stripe, or a call of `mark_as_completed` or
-- `mark_as_no_show`.
pub data Step : Db → Db → Type 0 where
  creates :
      (now : ℕ) (intent : Option ℕ) (r : CreateRequest) (db : Db)
      → Step db (create_appointment now intent r db).1
  reschedules : (now : ℕ) (r : RescheduleRequest) (db : Db) → Step db (reschedule now r db).1
  cancels : (now : ℕ) (r : CancelRequest) (db : Db) → Step db (cancel now r db).1
  completes : (now user id : ℕ) (db : Db) → Step db (mark_appointment_completed now user id db).1
  expires : (id : ℕ) (db db' : Db) → delete_unpaid_appointment id db ≡ ok db' → Step db db'
  fails :
      (e : PaymentEvent) (db db' : Db)
      → (handle_appointment_payment_failed e db ≡ ok db')
        ⊎ (handle_appointment_payment_canceled e db ≡ ok db')
      → Step db db'
  withdraws : (r : WithdrawRequest) (before db : Db) → Step db (withdraw r before db).1
  approves_withdrawal :
      (now admin_user : ℕ) (t : Transaction) (db : Db)
      → Step db (approve_withdrawal now admin_user t db).1
  rejects_withdrawal :
      (now admin_user : ℕ) (t : Transaction) (db : Db)
      → Step db (reject_withdrawal now admin_user t db).1
  succeeds :
      (now : ℕ) (e : PaymentEvent) (db db' : Db)
      → handle_appointment_payment_succeeded now e db ≡ ok db'
      → IsOpenFor e db
      → Step db db'
  approves_refund :
      (now admin_user : ℕ) (stripe : Option ℕ) (a : Appointment) (db : Db)
      → find appointment_key a.id db.appointments ≡ some a
      → Step db (approve_refund now admin_user stripe a db).1
  rejects_refund :
      (now admin_user : ℕ) (a : Appointment) (db : Db)
      → find appointment_key a.id db.appointments ≡ some a
      → Step db (reject_refund now admin_user a db).1
  refunds :
      (now : ℕ) (e : PaymentEvent) (db db' : Db)
      → (handle_refund_succeeded now e db ≡ ok db') ⊎ (handle_refund_failed e db ≡ ok db')
      → Step db db'
  disputes : (intent : ℕ) (db db' : Db) → handle_charge_disputed intent db ≡ ok db' → Step db db'
  is_completed :
      (now : ℕ) (a : Appointment) (db db' : Db)
      → mark_as_completed now a db ≡ some (ok db')
      → Step db db'
  is_missed : (a : Appointment) (db db' : Db) → mark_as_no_show a db ≡ ok db' → Step db db'
  ends_session :
      (now user : ℕ) (claim : Option Claim) (id : ℕ) (r : Rooms)
      → Step r.db (end_session now user claim id r).1.db

pub data Reach (db : Db) : Db → Type 0 where
  here : Reach db db
  next : {db' db'' : Db} → Reach db db' → Step db' db'' → Reach db db''

release_found-appointments :
    (now amount : ℕ) (t : Option Transaction) (db db' : Db)
    → release_found now amount t db ≡ ok db'
    → db'.appointments ≡ db.appointments
unfolding release credit save_transaction save_wallet
release_found-appointments now amount none db db' e = ground arith
release_found-appointments now amount (some t) db db' e = ground arith

completed_body-IsCalendar :
    (now : ℕ) (a : Appointment) (db db' : Db)
    → IsCalendar db
    → complete_view_body now a db ≡ ok db'
    → IsCalendar db'
unfolding complete_view_body
completed_body-IsCalendar now a db db' h e =
    let a' : Appointment = record a { status = AppointmentStatus.completed } in
    let (db1, e1, f1) = >>=-eq-ok (save_appointment a' db) _ e in
    IsCalendar-of_eq db1 db'
      (release_found-appointments now a.lawyer_amount
        (first_row (pending_payment a.id) db1.transactions) db1 db' f1)
      (save_closed-IsCalendar a' db db1 h refl e1)

released-IsCalendar :
    (now : ℕ) (a : Appointment) (db : Db) (p : CompleteReply × Db)
    → IsCalendar db
    → (do db' ← complete_view_body now a db; ok (CompleteReply.released, db')) ≡ ok p
    → IsCalendar p.1
released-IsCalendar now a db p h e =
    let (db', e1, f1) = >>=-eq-ok (complete_view_body now a db) _ e in
    subst (λ (q : CompleteReply × Db). IsCalendar q.1) (ok_eq f1)
      (completed_body-IsCalendar now a db db' h e1)

completed-IsCalendar :
    (now user id : ℕ) (db : Db)
    → IsCalendar db
    → IsCalendar (mark_appointment_completed now user id db).1
unfolding mark_appointment_completed
completed-IsCalendar now user id db h =
    elim (Option-cases (find appointment_key id db.appointments)) [
      | inl n ↦ ground arith
      | inr (a, e) ↦ ground (
        arith,
        atomic-IsCalendar complete_error db
            (do db' ← complete_view_body now a db; ok (CompleteReply.released, db')) h
            (λ p. released-IsCalendar now a db p h),
      )
    ]

withdraw-appointments :
    (r : WithdrawRequest) (before db : Db) → (withdraw r before db).1.appointments ≡ db.appointments
unfolding withdraw withdraw_body create_transaction save_wallet
withdraw-appointments r before db = ground arith

approve_withdrawal-appointments :
    (now admin_user : ℕ) (t : Transaction) (db : Db)
    → (approve_withdrawal now admin_user t db).1.appointments ≡ db.appointments
unfolding approve_withdrawal save_transaction
approve_withdrawal-appointments now admin_user t db = ground arith

reject_withdrawal-appointments :
    (now admin_user : ℕ) (t : Transaction) (db : Db)
    → (reject_withdrawal now admin_user t db).1.appointments ≡ db.appointments
unfolding reject_withdrawal save_transaction save_wallet
reject_withdrawal-appointments now admin_user t db = ground arith

confirm_payment-IsCalendar :
    (now id : ℕ) (e : PaymentEvent) (a : Appointment) (db db' : Db)
    → IsCalendar db
    → find appointment_key id db.appointments ≡ some a
    → is_open a.status ≡ true
    → confirm_payment now e a db ≡ ok db'
    → IsCalendar db'
unfolding confirm_payment
confirm_payment-IsCalendar now id e a db db' h f busy s =
    let a' : Appointment = record a {
      status = AppointmentStatus.confirmed;
      stripe_payment_intent_id = some e.intent;
    } in
    let (db1, e1, f1) = >>=-eq-ok (save_appointment a' db) _ s in
    let (db2, e2, f2) =
      >>=-eq-ok
        (update_transaction e.transaction_id
          (λ t. record t { stripe_transaction_id = some e.intent }) db1)
        _ f1 in
    let ((a'', db3), e3, f3) = >>=-eq-ok (schedule_appointment_reminder now a' db2) _ f2 in
    let same : find appointment_key a.id db.appointments ≡ some a =
      find-key appointment_key id db.appointments a f in
    let held : Holds a db = (h, (a, same, (refl, refl, refl, refl, refl, refl))) in
    let booked = save_same-Holds a a' db db1 held (refl, busy, refl, refl, refl, refl) e1 in
    subst IsCalendar (ok_eq f3) (
      schedule_appointment_reminder-Holds now a' db2 (a'', db3)
        (Holds-of_eq a' db1 db2 (update_transaction-appointments e.transaction_id _ db1 db2 e2)
          booked)
        e3)

succeeded-IsCalendar :
    (now : ℕ) (e : PaymentEvent) (db db' : Db)
    → IsCalendar db
    → IsOpenFor e db
    → handle_appointment_payment_succeeded now e db ≡ ok db'
    → IsCalendar db'
unfolding handle_appointment_payment_succeeded
succeeded-IsCalendar now e db db' h busy s = elim (Option-cases e.appointment_id) [
  | inl n ↦ subst IsCalendar (stays n) h
  | inr (id, i) ↦ elim (Option-cases (find appointment_key id db.appointments)) [
    | inl n ↦ subst IsCalendar (gone id i n) h
    | inr (a, f) ↦ confirm_payment-IsCalendar now id e a db db' h f (busy a id i f) (ground arith)
  ]
]
  where
    stays : e.appointment_id ≡ none → db ≡ db'
    stays n = ground arith

    gone :
        (id : ℕ)
        → e.appointment_id ≡ some id
        → find appointment_key id db.appointments ≡ none
        → db ≡ db'
    gone id i n = ground arith

Step-IsCalendar : {db db' : Db} → Step db db' → IsCalendar db → IsCalendar db'
Step-IsCalendar (creates now intent r db) h = create_appointment-IsCalendar now intent r db h
Step-IsCalendar (reschedules now r db) h = reschedule-IsCalendar now r db h
Step-IsCalendar (cancels now r db) h = cancel-IsCalendar now r db h
Step-IsCalendar (completes now user id db) h = completed-IsCalendar now user id db h
Step-IsCalendar (expires id db db' e) h = delete_unpaid-IsCalendar id db db' h e
Step-IsCalendar (fails e db db' s) h = payment_failed-IsCalendar e db db' h s
Step-IsCalendar (withdraws r before db) h =
    IsCalendar-of_eq db (withdraw r before db).1 (withdraw-appointments r before db) h
Step-IsCalendar (approves_withdrawal now admin_user t db) h =
    IsCalendar-of_eq db (approve_withdrawal now admin_user t db).1
      (approve_withdrawal-appointments now admin_user t db) h
Step-IsCalendar (rejects_withdrawal now admin_user t db) h =
    IsCalendar-of_eq db (reject_withdrawal now admin_user t db).1
      (reject_withdrawal-appointments now admin_user t db) h
Step-IsCalendar (succeeds now e db db' s busy) h = succeeded-IsCalendar now e db db' h busy s
Step-IsCalendar (approves_refund now admin_user stripe a db e) h =
    approve_refund-IsCalendar now admin_user stripe a db h e
Step-IsCalendar (rejects_refund now admin_user a db e) h =
    reject_refund-IsCalendar now admin_user a db h e
Step-IsCalendar (refunds now e db db' (inl s)) h =
    handle_refund_succeeded-IsCalendar now e db db' h s
Step-IsCalendar (refunds now e db db' (inr s)) h = handle_refund_failed-IsCalendar e db db' h s
Step-IsCalendar (disputes intent db db' s) h = handle_charge_disputed-IsCalendar intent db db' h s
Step-IsCalendar (is_completed now a db db' s) h = mark_as_completed-IsCalendar now a db db' h s
Step-IsCalendar (is_missed a db db' s) h = mark_as_no_show-IsCalendar a db db' h s
Step-IsCalendar (ends_session now user claim id r) h = end_session-IsCalendar now user claim id r h

-- From a state in which no two pending or confirmed appointments of one lawyer, or of one client,
-- overlap, every state that these operations lead to, in whatever order they run, is such a state, if
-- each payment that Stripe reports as successful is for an appointment that is still open:
-- requests to create, reschedule, cancel and complete an appointment, to end its session and to
-- withdraw; `mark_as_completed` and `mark_as_no_show`; the deletion of unpaid appointments; an
-- administrator's approval or rejection of a withdrawal, or of the refund of an appointment as it is
-- stored; and Stripe's events that a payment succeeded, failed or was canceled, that a refund
-- succeeded or failed, and that a charge is disputed.
pub Reach-IsCalendar : {db db' : Db} → IsCalendar db → Reach db db' → IsCalendar db'
Reach-IsCalendar h here = h
Reach-IsCalendar h (next r s) = Step-IsCalendar s (Reach-IsCalendar h r)
