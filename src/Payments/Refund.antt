-- ===== src/Payments/Refund.antt =====
-- `_approve_refund` and `_reject_refund` of lawyer_appointment/admin.py, for an appointment as it is
-- stored.
use juris.Base.{Bool, Option, false, first_row, if◌then◌else◌, none, not, some, true, ℕ, ◌&&◌}
use juris.Payments.Completion.{credit}
use juris.Payments.Unpaid.{pending_payment}
use juris.Status.{
  RefundStatus, TransactionStatus, is_pending_transaction, is_refund, is_refund_pending,
}
use juris.Store.{Appointment, Db, Result, Transaction, atomic, ok, ◌>>=◌}
use juris.Store.Save.{of_appointment, save_appointment, save_transaction}

-- A pending refund of the appointment.
abbrev pub pending_refund : ℕ → Transaction → Bool
pending_refund a t = of_appointment is_refund a t && is_pending_transaction t.status

-- `_approve_refund`, given Stripe's answer: the id of the refund, or none for a `StripeError`. The
-- returns leave the block of `transaction.atomic()` without an exception.
unfoldable pub approve_refund_body : ℕ → ℕ → Option ℕ → Appointment → Db → Result (Bool × Db)
approve_refund_body now admin_user stripe a db = do
  let a' = record a { refund_status = RefundStatus.approved; refund_processed_at = some now }
  db1 ← save_appointment a' db
  elim (first_row (pending_refund a.id) db1.transactions) [
    | none ↦ ok (false, db1)
    | some t ↦ elim stripe [
      | none ↦ do
        db2 ←
            save_appointment
              (record a' { refund_status = RefundStatus.pending; refund_processed_at = none }) db1
        ok (false, db2)
      | some id ↦ do
        db2 ←
            save_transaction
              (record t { stripe_transaction_id = some id; processed_by = some admin_user }) db1
        ok (true, db2)
    ]
  ]

unfoldable pub approve_refund : ℕ → ℕ → Option ℕ → Appointment → Db → Bool × Db
approve_refund now admin_user stripe a db =
    if not (is_refund_pending a.refund_status)
    then (false, db)
    else atomic (λ e. false) db (approve_refund_body now admin_user stripe a db)

abbrev pub cancel_found : Option Transaction → Db → Result Db
cancel_found none db = ok db
cancel_found (some t) db = save_transaction (record t { status = TransactionStatus.cancelled }) db

-- The payment is completed by the administrator, and the wallet credited.
abbrev pub complete_found : ℕ → ℕ → ℕ → Option Transaction → Db → Result Db
complete_found now admin_user amount none db = ok db
complete_found now admin_user amount (some t) db = do
  db' ←
      save_transaction
        (record t {
          status = TransactionStatus.completed;
          processed_at = some now;
          processed_by = some admin_user;
        })
        db
  credit amount t db'

unfoldable pub reject_refund_body : ℕ → ℕ → Appointment → Db → Result (Bool × Db)
reject_refund_body now admin_user a db = do
  db1 ←
      save_appointment
        (record a { refund_status = RefundStatus.rejected; refund_processed_at = some now }) db
  db2 ← cancel_found (first_row (pending_refund a.id) db1.transactions) db1
  db3 ←
      complete_found now admin_user a.lawyer_amount
        (first_row (pending_payment a.id) db2.transactions) db2
  ok (true, db3)

unfoldable pub reject_refund : ℕ → ℕ → Appointment → Db → Bool × Db
reject_refund now admin_user a db =
    if not (is_refund_pending a.refund_status)
    then (false, db)
    else atomic (λ e. false) db (reject_refund_body now admin_user a db)
