-- ===== src/Payments/Events.antt =====
-- What the deletion task and the events of failed payments keep of the calendar.
use juris.Base.{
  Bool-cases, Option, Option-cases, arith, first_row, inl, inr, none, some, subst, ℕ, ◌≡◌, ◌⊎◌,
}
use juris.Booking.{double_booked}
use juris.Booking.Slots.{IsCalendar}
use juris.Payments.Cancelled.{IsCalendar-of_eq, save_transaction-appointments}
use juris.Payments.Unpaid.{delete_unpaid_appointment, pending_payment}
use juris.Payments.Webhook.{
  PaymentEvent, handle_appointment_payment_canceled, handle_appointment_payment_failed,
  update_transaction, with_appointment,
}
use juris.Separate.{delete_row-IsSeparate}
use juris.Status.{TransactionStatus, is_pending}
use juris.Store.{
  >>=-eq-ok, Appointment, Db, Result, Transaction, appointment_key, ok, ok_eq, transaction_key,
  ◌>>=◌,
}
use juris.Store.Save.{delete_appointment, save_transaction}
use juris.Table.{find}

result-IsCalendar : (db db' : Db) → IsCalendar db → ok db ≡ ok db' → IsCalendar db'
result-IsCalendar db db' h e = subst IsCalendar (ok_eq e) h

delete_appointment-IsCalendar :
    (id : ℕ) (db : Db) → IsCalendar db → IsCalendar (delete_appointment id db)
unfolding delete_appointment
delete_appointment-IsCalendar id db h =
    delete_row-IsSeparate appointment_key double_booked id db.appointments h

saved_then_deleted :
    (t : Transaction) (id : ℕ) (db db' : Db)
    → IsCalendar db
    → (do db1 ← save_transaction t db; ok (delete_appointment id db1)) ≡ ok db'
    → IsCalendar db'
saved_then_deleted t id db db' h e =
    let (db1, e1, f1) = >>=-eq-ok (save_transaction t db) _ e in
    subst IsCalendar (ok_eq f1) (
      delete_appointment-IsCalendar id db1
        (IsCalendar-of_eq db db1 (save_transaction-appointments t db db1 e1) h))

-- From a state in which no two pending or confirmed appointments of one lawyer, or of one client,
-- overlap, a run of the deletion task that raises nothing leads to such a state.
pub delete_unpaid-IsCalendar :
    (id : ℕ) (db db' : Db)
    → IsCalendar db
    → delete_unpaid_appointment id db ≡ ok db'
    → IsCalendar db'
unfolding delete_unpaid_appointment
delete_unpaid-IsCalendar id db db' h e =
    elim (Option-cases (find appointment_key id db.appointments)) [
      | inl n ↦ result-IsCalendar db db' h (ground arith)
      | inr (a, ea) ↦ elim (Bool-cases (is_pending a.status)) [
        | inr other ↦ result-IsCalendar db db' h (ground arith)
        | inl waiting ↦ elim (Option-cases (first_row (pending_payment id) db.transactions)) [
          | inl n ↦
              result-IsCalendar (delete_appointment id db) db'
                (delete_appointment-IsCalendar id db h) (ground arith)
          | inr (t, et) ↦
              saved_then_deleted (record t { status = TransactionStatus.cancelled }) id db db' h
                (ground arith)
        ]
      ]
    ]

pub with_appointment-IsCalendar :
    (k : Option ℕ) (f : Appointment → Db → Result Db) (db db' : Db)
    → IsCalendar db
    → ((a : Appointment) → f a db ≡ ok db' → IsCalendar db')
    → with_appointment k f db ≡ ok db'
    → IsCalendar db'
with_appointment-IsCalendar none f db db' h kept e = subst IsCalendar (ok_eq e) h
with_appointment-IsCalendar (some id) f db db' h kept e =
    elim (Option-cases (find appointment_key id db.appointments)) [
      | inl n ↦ result-IsCalendar db db' h (ground arith)
      | inr (a, ea) ↦ kept a (ground arith)
    ]

pub update_transaction-appointments :
    (k : Option ℕ) (f : Transaction → Transaction) (db db' : Db)
    → update_transaction k f db ≡ ok db'
    → db'.appointments ≡ db.appointments
update_transaction-appointments none f db db' e = ground arith
update_transaction-appointments (some id) f db db' e =
    elim (Option-cases (find transaction_key id db.transactions)) [
      | inl n ↦ ground arith
      | inr (t, et) ↦ save_transaction-appointments (f t) db db' (ground arith)
    ]

updated_then_deleted :
    (k : Option ℕ) (f : Transaction → Transaction) (id : ℕ) (db db' : Db)
    → IsCalendar db
    → (do db1 ← update_transaction k f db; ok (delete_appointment id db1)) ≡ ok db'
    → IsCalendar db'
updated_then_deleted k f id db db' h e =
    let (db1, e1, f1) = >>=-eq-ok (update_transaction k f db) _ e in
    subst IsCalendar (ok_eq f1) (
      delete_appointment-IsCalendar id db1
        (IsCalendar-of_eq db db1 (update_transaction-appointments k f db db1 e1) h))

-- From a state in which no two pending or confirmed appointments of one lawyer, or of one client,
-- overlap, the event of a failed or of a canceled payment, when its handler raises nothing, leads
-- to such a state.
pub payment_failed-IsCalendar :
    (e : PaymentEvent) (db db' : Db)
    → IsCalendar db
    → (handle_appointment_payment_failed e db ≡ ok db')
      ⊎ (handle_appointment_payment_canceled e db ≡ ok db')
    → IsCalendar db'
unfolding handle_appointment_payment_failed handle_appointment_payment_canceled
payment_failed-IsCalendar e db db' h (inl e1) =
    with_appointment-IsCalendar e.appointment_id _ db db' h
      (λ a. updated_then_deleted e.transaction_id _ a.id db db' h) e1
payment_failed-IsCalendar e db db' h (inr e2) =
    with_appointment-IsCalendar e.appointment_id _ db db' h
      (λ a. updated_then_deleted e.transaction_id _ a.id db db' h) e2
