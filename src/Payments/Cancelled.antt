-- ===== src/Payments/Cancelled.antt =====
-- What cancelling an appointment keeps of the calendar.
use juris.Base.{
  Bool-cases, Option, Option-cases, arith, exists_row, false, inl, inr, refl, some, subst, sym, ℕ,
  ◌∙◌, ◌≡◌,
}
use juris.Booking.{double_booked}
use juris.Booking.Slots.{IsCalendar, save_closed-IsCalendar, set_refund_status-same}
use juris.Payments.Cancellation.{
  CancelReply, CancelRequest, already_requested, cancel, cancel_body, cancel_error,
  cancel_payment_transaction, cancelled_by_user, check_refund_eligibility,
  create_refund_request_and_transaction, key_required, not_applicable_refund, not_eligible_refund,
  refund_step, refund_with_key,
}
use juris.Separate.{IsSeparate}
use juris.Status.{RefundStatus, TransactionStatus, is_open}
use juris.Store.{
  >>=-eq-ok, Appointment, Db, Exn, Result, Transaction, appointment_key, atomic, err, ok, ok_eq,
  ◌>>=◌,
}
use juris.Store.Save.{
  create_transaction, get_payment_transaction, is_paid_appointment, save_appointment,
  save_transaction, set_refund_status,
}
use juris.Table.{find}

pub save_transaction-appointments :
    (t : Transaction) (db db' : Db)
    → save_transaction t db ≡ ok db'
    → db'.appointments ≡ db.appointments
unfolding save_transaction
save_transaction-appointments t db db' e = ground arith

cancel_payment_transaction-appointments :
    (id : ℕ) (db db' : Db)
    → cancel_payment_transaction id db ≡ ok db'
    → db'.appointments ≡ db.appointments
unfolding cancel_payment_transaction
cancel_payment_transaction-appointments id db db' e =
    elim (Option-cases (get_payment_transaction id db)) [
      | inl n ↦ ground arith
      | inr (t, et) ↦
          save_transaction-appointments (record t { status = TransactionStatus.cancelled }) db db'
            (ground arith)
    ]

create_transaction-appointments :
    (t : Transaction) (db db' : Db)
    → create_transaction t db ≡ ok db'
    → db'.appointments ≡ db.appointments
unfolding create_transaction
create_transaction-appointments t db db' e = ground arith

-- Two states with the same appointments have the same calendar.
pub IsCalendar-of_eq :
    (db db' : Db) → db'.appointments ≡ db.appointments → IsCalendar db → IsCalendar db'
IsCalendar-of_eq db db' e h = subst (λ xs. IsSeparate appointment_key double_booked xs) (sym e) h

refund_request-IsCalendar :
    (now : ℕ) (a : Appointment) (key : ℕ) (db db' : Db)
    → IsCalendar db
    → is_open a.status ≡ false
    → create_refund_request_and_transaction now a key db ≡ ok db'
    → IsCalendar db'
unfolding create_refund_request_and_transaction
refund_request-IsCalendar now a key db db' h closed e =
    let a' : Appointment = record a {
      refund_status = RefundStatus.pending;
      refund_requested_at = some now;
    } in
    let (db1, e1, f1) = >>=-eq-ok (save_appointment a' db) _ e in
    let (db2, e2, f2) = >>=-eq-ok (cancel_payment_transaction a.id db1) _ f1 in
    IsCalendar-of_eq db1 db'
      (create_transaction-appointments _ db2 db' f2
        ∙ cancel_payment_transaction-appointments a.id db1 db2 e2)
      (save_closed-IsCalendar a' db db1 h closed e1)

eligible-IsCalendar :
    (now k : ℕ) (a : Appointment) (db : Db) (p : CancelReply × Db)
    → IsCalendar db
    → is_open a.status ≡ false
    → (do db' ← create_refund_request_and_transaction now a k db; ok (CancelReply.eligible, db'))
      ≡ ok p
    → IsCalendar p.1
eligible-IsCalendar now k a db p h closed e =
    let (db', e1, f1) = >>=-eq-ok (create_refund_request_and_transaction now a k db) _ e in
    subst (λ (q : CancelReply × Db). IsCalendar q.1) (ok_eq f1)
      (refund_request-IsCalendar now a k db db' h closed e1)

late-IsCalendar :
    (a : Appointment) (db : Db) (p : CancelReply × Db)
    → IsCalendar db
    → (do db' ← cancel_payment_transaction a.id db; ok (not_eligible_refund, db')) ≡ ok p
    → IsCalendar p.1
late-IsCalendar a db p h e =
    let (db', e1, f1) = >>=-eq-ok (cancel_payment_transaction a.id db) _ e in
    subst (λ (q : CancelReply × Db). IsCalendar q.1) (ok_eq f1)
      (IsCalendar-of_eq db db' (cancel_payment_transaction-appointments a.id db db' e1) h)

same_state :
    (c : CancelReply) (db : Db) (p : CancelReply × Db)
    → IsCalendar db
    → ok (c, db) ≡ ok p
    → IsCalendar p.1
same_state c db p h e = subst (λ (q : CancelReply × Db). IsCalendar q.1) (ok_eq e) h

refund_step-IsCalendar :
    (now : ℕ) (key : Option ℕ) (a : Appointment) (db : Db) (p : CancelReply × Db)
    → IsCalendar db
    → is_open a.status ≡ false
    → refund_step now key a db ≡ ok p
    → IsCalendar p.1
unfolding refund_step
refund_step-IsCalendar now key a db p h closed e = elim (Bool-cases (is_paid_appointment a)) [
  | inr free ↦ same_state not_applicable_refund db p h (rw free at e)
  | inl paid ↦ elim (Bool-cases (check_refund_eligibility a)) [
    | inr late ↦ late-IsCalendar a db p h (rw (paid, late) at e)
    | inl soon ↦ elim (Option-cases key) [
      | inl none_key ↦ same_state key_required db p h (rw (paid, soon, none_key) at e)
      | inr (k, ek) ↦ elim (Bool-cases (exists_row (refund_with_key k) db.transactions)) [
        | inl twice ↦ same_state already_requested db p h (rw (paid, soon, ek, twice) at e)
        | inr fresh ↦ eligible-IsCalendar now k a db p h closed (rw (paid, soon, ek, fresh) at e)
      ]
    ]
  ]
]

cancel_body-IsCalendar :
    (now : ℕ) (r : CancelRequest) (a : Appointment) (db : Db) (p : CancelReply × Db)
    → IsCalendar db
    → cancel_body now r a db ≡ ok p
    → IsCalendar p.1
unfolding cancel_body cancelled_by_user
cancel_body-IsCalendar now r a db p h e =
    let c = cancelled_by_user now r.user a in
    let (db1, e1, f1) = >>=-eq-ok (save_appointment c db) _ e in
    refund_step-IsCalendar now r.refund_idempotency_key (set_refund_status c) db1 p
      (save_closed-IsCalendar c db db1 h refl e1) (set_refund_status-same c).1 f1

pub atomic-IsCalendar :
    {R : Type 0} (f : Exn → R) (db : Db) (m : Result (R × Db))
    → IsCalendar db
    → ((p : R × Db) → m ≡ ok p → IsCalendar p.1)
    → IsCalendar (atomic f db m).1
atomic-IsCalendar f db (ok p) h k = k p refl
atomic-IsCalendar f db (err x) h k = h

-- From a state in which no two pending or confirmed appointments of one lawyer, or of one client,
-- overlap, a request to cancel an appointment, however it ends, leads to such a state.
pub cancel-IsCalendar :
    (now : ℕ) (r : CancelRequest) (db : Db) → IsCalendar db → IsCalendar (cancel now r db).1
unfolding cancel
cancel-IsCalendar now r db h =
    elim (Option-cases (find appointment_key r.appointment_id db.appointments)) [
      | inl n ↦ ground arith
      | inr (a, e) ↦ ground (
        arith,
        atomic-IsCalendar cancel_error db (cancel_body now r a db) h
            (λ p. cancel_body-IsCalendar now r a db p h),
      )
    ]
