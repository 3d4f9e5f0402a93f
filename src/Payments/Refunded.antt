-- ===== src/Payments/Refunded.antt =====
-- What the review of refunds, the events of refunds and disputes, and the completion by
-- `mark_as_completed`, by `mark_as_no_show` and by the end of a session keep of the calendar.
use juris.Base.{
  Bool, Option, Option-cases, arith, false, first_row, if◌then◌else◌, inl, inr, none, refl, some,
  subst, true, ℕ, ◌∙◌, ◌≡◌,
}
use juris.Booking.Slots.{Holds, Holds-of_eq, IsCalendar, save_closed-IsCalendar, save_same-Holds}
use juris.Payments.Cancelled.{IsCalendar-of_eq, atomic-IsCalendar, save_transaction-appointments}
use juris.Payments.Completion.{
  complete_body, credit, mark_as_completed, mark_as_no_show, release_payment,
}
use juris.Payments.Events.{update_transaction-appointments}
use juris.Payments.Refund.{
  approve_refund, approve_refund_body, cancel_found, complete_found, pending_refund, reject_refund,
  reject_refund_body,
}
use juris.Payments.Released.{paid-Released}
use juris.Payments.Unpaid.{pending_payment}
use juris.Payments.Webhook.{
  PaymentEvent, handle_charge_disputed, handle_refund_failed, handle_refund_succeeded,
}
use juris.Sessions.{Session, session_key}
use juris.Sessions.Calls.{Claim, Rooms, complete_if_due, end_found, end_session, find_appointment}
use juris.Status.{AppointmentStatus, RefundStatus, TransactionStatus}
use juris.Store.{
  >>=-eq-ok, Appointment, Db, Result, Transaction, appointment_key, err, ok, ok_eq, transaction_key,
  ◌>>=◌,
}
use juris.Store.Save.{is_paid_appointment, save_appointment, save_transaction, save_wallet}
use juris.Table.{find, find-key}

-- A row that is stored holds its own place.
stored-Holds :
    (a : Appointment) (k : ℕ) (db : Db)
    → IsCalendar db
    → find appointment_key k db.appointments ≡ some a
    → Holds a db
stored-Holds a k db h e =
    (h, (a, find-key appointment_key k db.appointments a e, (refl, refl, refl, refl, refl, refl)))

credit-appointments :
    (amount : ℕ) (t : Transaction) (db db' : Db)
    → credit amount t db ≡ ok db'
    → db'.appointments ≡ db.appointments
unfolding credit save_wallet
credit-appointments amount t db db' e = ground arith

cancel_found-appointments :
    (t : Option Transaction) (db db' : Db)
    → cancel_found t db ≡ ok db'
    → db'.appointments ≡ db.appointments
cancel_found-appointments none db db' e = ground arith
cancel_found-appointments (some t) db db' e = save_transaction-appointments _ db db' e

complete_found-appointments :
    (now admin_user amount : ℕ) (t : Option Transaction) (db db' : Db)
    → complete_found now admin_user amount t db ≡ ok db'
    → db'.appointments ≡ db.appointments
complete_found-appointments now admin_user amount none db db' e = ground arith
complete_found-appointments now admin_user amount (some t) db db' e =
    let (db1, e1, f1) = >>=-eq-ok (save_transaction _ db) _ e in
    credit-appointments amount t db1 db' f1 ∙ save_transaction-appointments _ db db1 e1

approved-IsCalendar :
    (now admin_user : ℕ) (stripe : Option ℕ) (a : Appointment) (db : Db) (p : Bool × Db)
    → Holds a db
    → approve_refund_body now admin_user stripe a db ≡ ok p
    → IsCalendar p.1
unfolding approve_refund_body
approved-IsCalendar now admin_user stripe a db p held e =
    let a' : Appointment = record a {
      refund_status = RefundStatus.approved;
      refund_processed_at = some now;
    } in
    let (db1, e1, f1) = >>=-eq-ok (save_appointment a' db) _ e in
    let held1 = save_same-Holds a a' db db1 held (refl, refl, refl, refl, refl, refl) e1 in
    asked stripe a' db1 (first_row (pending_refund a.id) db1.transactions) held1 f1
  where
    asked :
        (stripe : Option ℕ) (a' : Appointment) (db1 : Db) (t : Option Transaction)
        → Holds a' db1
        → (elim t as (λ x. Result (Bool × Db)) [
          | none ↦ ok (false, db1)
          | some t ↦ elim stripe as (λ x. Result (Bool × Db)) [
            | none ↦ do
              db2 ←
                  save_appointment
                    (record a' { refund_status = RefundStatus.pending; refund_processed_at = none })
                    db1
              ok (false, db2)
            | some id ↦ do
              db2 ←
                  save_transaction
                    (record t { stripe_transaction_id = some id; processed_by = some admin_user })
                    db1
              ok (true, db2)
          ]
        ])
          ≡ ok p
        → IsCalendar p.1
    asked stripe a' db1 none h f = subst (λ (q : Bool × Db). IsCalendar q.1) (ok_eq f) h.0
    asked none a' db1 (some t) h f =
        let (db2, e2, f2) = >>=-eq-ok (save_appointment _ db1) _ f in
        subst (λ (q : Bool × Db). IsCalendar q.1) (ok_eq f2)
          (save_same-Holds a' _ db1 db2 h (refl, refl, refl, refl, refl, refl) e2).0
    asked (some id) a' db1 (some t) h f =
        let (db2, e2, f2) = >>=-eq-ok (save_transaction _ db1) _ f in
        subst (λ (q : Bool × Db). IsCalendar q.1) (ok_eq f2)
          (IsCalendar-of_eq db1 db2 (save_transaction-appointments _ db1 db2 e2) h.0)

pub approve_refund-IsCalendar :
    (now admin_user : ℕ) (stripe : Option ℕ) (a : Appointment) (db : Db)
    → IsCalendar db
    → find appointment_key a.id db.appointments ≡ some a
    → IsCalendar (approve_refund now admin_user stripe a db).1
unfolding approve_refund
approve_refund-IsCalendar now admin_user stripe a db h e = ground (
  arith,
  atomic-IsCalendar (λ x. false) db (approve_refund_body now admin_user stripe a db) h
      (λ p. approved-IsCalendar now admin_user stripe a db p (stored-Holds a a.id db h e)),
)

rejected-IsCalendar :
    (now admin_user : ℕ) (a : Appointment) (db : Db) (p : Bool × Db)
    → Holds a db
    → reject_refund_body now admin_user a db ≡ ok p
    → IsCalendar p.1
unfolding reject_refund_body
rejected-IsCalendar now admin_user a db p held e =
    let a' : Appointment = record a {
      refund_status = RefundStatus.rejected;
      refund_processed_at = some now;
    } in
    let (db1, e1, f1) = >>=-eq-ok (save_appointment a' db) _ e in
    let held1 = save_same-Holds a a' db db1 held (refl, refl, refl, refl, refl, refl) e1 in
    let refund = first_row (pending_refund a.id) db1.transactions in
    let (db2, e2, f2) =
      >>=-eq-ok (cancel_found refund db1)
        (λ (d : Db). do
          x ←
              complete_found now admin_user a.lawyer_amount
                (first_row (pending_payment a.id) d.transactions) d
          ok (true, x))
        f1 in
    let payment = first_row (pending_payment a.id) db2.transactions in
    let (db3, e3, f3) =
      >>=-eq-ok (complete_found now admin_user a.lawyer_amount payment db2)
        (λ (d : Db). ok (true, d)) f2 in
    subst (λ (q : Bool × Db). IsCalendar q.1) {x = (true, db3)} (ok_eq f3)
      (IsCalendar-of_eq db1 db3
        (complete_found-appointments now admin_user a.lawyer_amount payment db2 db3 e3
          ∙ cancel_found-appointments refund db1 db2 e2)
        held1.0)

pub reject_refund-IsCalendar :
    (now admin_user : ℕ) (a : Appointment) (db : Db)
    → IsCalendar db
    → find appointment_key a.id db.appointments ≡ some a
    → IsCalendar (reject_refund now admin_user a db).1
unfolding reject_refund
reject_refund-IsCalendar now admin_user a db h e = ground (
  arith,
  atomic-IsCalendar (λ x. false) db (reject_refund_body now admin_user a db) h
      (λ p. rejected-IsCalendar now admin_user a db p (stored-Holds a a.id db h e)),
)

pub handle_refund_succeeded-IsCalendar :
    (now : ℕ) (e : PaymentEvent) (db db' : Db)
    → IsCalendar db
    → handle_refund_succeeded now e db ≡ ok db'
    → IsCalendar db'
unfolding handle_refund_succeeded
handle_refund_succeeded-IsCalendar now e db db' h s = elim (Option-cases e.appointment_id) [
  | inl n ↦ IsCalendar-of_eq db db' (ground arith) h
  | inr (id, i) ↦ elim (Option-cases (find appointment_key id db.appointments)) [
    | inl n ↦ IsCalendar-of_eq db db' (ground arith) h
    | inr (a, f) ↦
        IsCalendar-of_eq db db'
          (update_transaction-appointments e.transaction_id
            (λ t. record t {
              status = TransactionStatus.completed;
              processed_at = some now;
              stripe_transaction_id = some e.intent;
            })
            db db' (ground arith))
          h
  ]
]

failed_saved-IsCalendar :
    (a : Appointment) (t : Transaction) (db db' : Db)
    → Holds a db
    → (do
      db1 ← save_transaction t db
      save_appointment (record a { refund_status = RefundStatus.pending }) db1)
      ≡ ok db'
    → IsCalendar db'
failed_saved-IsCalendar a t db db' held e =
    let a' : Appointment = record a { refund_status = RefundStatus.pending } in
    let (db1, e1, f1) = >>=-eq-ok (save_transaction t db) (save_appointment a') e in
    let held1 = Holds-of_eq a db db1 (save_transaction-appointments t db db1 e1) held in
    (save_same-Holds a a' db1 db' held1 (refl, refl, refl, refl, refl, refl) f1).0

pub handle_refund_failed-IsCalendar :
    (e : PaymentEvent) (db db' : Db)
    → IsCalendar db
    → handle_refund_failed e db ≡ ok db'
    → IsCalendar db'
unfolding handle_refund_failed
handle_refund_failed-IsCalendar e db db' h s = elim (Option-cases e.appointment_id) [
  | inl n ↦ IsCalendar-of_eq db db' (ground arith) h
  | inr (id, i) ↦ elim (Option-cases (find appointment_key id db.appointments)) [
    | inl n ↦ IsCalendar-of_eq db db' (ground arith) h
    | inr (a, f) ↦ elim (Option-cases e.transaction_id) [
      | inl n ↦ IsCalendar-of_eq db db' (ground arith) h
      | inr (k, j) ↦ elim (Option-cases (find transaction_key k db.transactions)) [
        | inl n ↦ IsCalendar-of_eq db db' (ground arith) h
        | inr (t, g) ↦
            failed_saved-IsCalendar a (record t { status = TransactionStatus.failed }) db db'
              (stored-Holds a id db h f) (ground arith)
      ]
    ]
  ]
]

pub handle_charge_disputed-IsCalendar :
    (intent : ℕ) (db db' : Db)
    → IsCalendar db
    → handle_charge_disputed intent db ≡ ok db'
    → IsCalendar db'
unfolding handle_charge_disputed save_transaction
handle_charge_disputed-IsCalendar intent db db' h e = IsCalendar-of_eq db db' (ground arith) h

pub complete_body-IsCalendar :
    (now : ℕ) (a : Appointment) (db db' : Db)
    → IsCalendar db
    → complete_body now a db ≡ ok db'
    → IsCalendar db'
unfolding complete_body
complete_body-IsCalendar now a db db' h e =
    let a' : Appointment = record a { status = AppointmentStatus.completed } in
    let (db1, e1, f1) =
      >>=-eq-ok (save_appointment a' db)
        (λ (d : Db). if is_paid_appointment a then release_payment now a d else ok d) e in
    IsCalendar-of_eq db1 db' (paid-Released now a db1 db' f1).0
      (save_closed-IsCalendar a' db db1 h refl e1)

pub mark_as_completed-IsCalendar :
    (now : ℕ) (a : Appointment) (db db' : Db)
    → IsCalendar db
    → mark_as_completed now a db ≡ some (ok db')
    → IsCalendar db'
unfolding mark_as_completed
mark_as_completed-IsCalendar now a db db' h e =
    complete_body-IsCalendar now a db db' h (ground arith)

pub mark_as_no_show-IsCalendar :
    (a : Appointment) (db db' : Db) → IsCalendar db → mark_as_no_show a db ≡ ok db' → IsCalendar db'
unfolding mark_as_no_show
mark_as_no_show-IsCalendar a db db' h e =
    save_closed-IsCalendar (record a { status = AppointmentStatus.no_show }) db db' h refl e

complete_if_due-IsCalendar :
    (now : ℕ) (a : Appointment) (db db' : Db) (updated : Bool)
    → IsCalendar db
    → complete_if_due now a db ≡ ok (updated, db')
    → IsCalendar db'
unfolding complete_if_due
complete_if_due-IsCalendar now a db db' updated h e =
    elim (Option-cases (mark_as_completed now a db)) [
      | inl n ↦ IsCalendar-of_eq db db' (ground arith) h
      | inr (r, f) ↦ done r f
    ]
  where
    done : (r : Result Db) → mark_as_completed now a db ≡ some r → IsCalendar db'
    done (err x) f = absurd (ground arith)
    done (ok d) f = mark_as_completed-IsCalendar now a db db' h (ground arith)

end_found-IsCalendar :
    (now : ℕ) (a : Appointment) (s : Session) (r : Rooms)
    → IsCalendar r.db
    → IsCalendar (end_found now a s r).1.db
unfolding end_found
end_found-IsCalendar now a s r h = go (complete_if_due now a r.db) refl
  where
    go :
        (c : Result (Bool × Db))
        → complete_if_due now a r.db ≡ c
        → IsCalendar (end_found now a s r).1.db
    go (err x) e = IsCalendar-of_eq r.db (end_found now a s r).1.db (ground arith) h
    go (ok (updated, db')) e =
        IsCalendar-of_eq db' (end_found now a s r).1.db (ground arith)
          (complete_if_due-IsCalendar now a r.db db' updated h e)

pub end_session-IsCalendar :
    (now user : ℕ) (claim : Option Claim) (id : ℕ) (r : Rooms)
    → IsCalendar r.db
    → IsCalendar (end_session now user claim id r).1.db
unfolding end_session
end_session-IsCalendar now user claim id r h =
    elim (Option-cases (find_appointment (λ a. true) user id r)) [
      | inl n ↦ ground arith
      | inr (a, e) ↦ elim (Option-cases (find session_key a.id r.sessions)) [
        | inl n ↦ ground arith
        | inr (s, f) ↦ let done = end_found-IsCalendar now a s r h in ground arith
      ]
    ]
