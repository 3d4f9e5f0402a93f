-- ===== src/Payments/Webhook.antt =====
-- The handlers of Stripe's events for appointments, subscriptions/webhook.py. The ids are those of
-- the event's metadata, none where they are missing.
use juris.Base.{Option, first_row, holds, none, some, ℕ, ◌&&◌}
use juris.Booking.Create.{schedule_appointment_reminder}
use juris.Status.{AppointmentStatus, RefundStatus, TransactionStatus, is_pending_transaction}
use juris.Store.{Appointment, Db, Result, Transaction, appointment_key, ok, transaction_key, ◌>>=◌}
use juris.Store.Save.{delete_appointment, save_appointment, save_transaction}
use juris.Table.{find}

pub record PaymentEvent : Type 0 where
  pub intent : ℕ
  pub appointment_id : Option ℕ
  pub transaction_id : Option ℕ

-- `Transaction.objects.get(id=transaction_id)` under `if transaction_id`, changed and saved if it is
-- there
abbrev pub update_transaction : Option ℕ → (Transaction → Transaction) → Db → Result Db
update_transaction none f db = ok db
update_transaction (some id) f db = elim (find transaction_key id db.transactions) [
  | none ↦ ok db
  | some t ↦ save_transaction (f t) db
]

-- The appointment of an event: nothing happens if the metadata or the row is missing.
abbrev pub with_appointment : Option ℕ → (Appointment → Db → Result Db) → Db → Result Db
with_appointment none f db = ok db
with_appointment (some id) f db = elim (find appointment_key id db.appointments) [
  | none ↦ ok db
  | some a ↦ f a db
]

-- The body of `transaction.atomic()` of the handler.
unfoldable pub confirm_payment : ℕ → PaymentEvent → Appointment → Db → Result Db
confirm_payment now e a db = do
  let a' = record a {
    status = AppointmentStatus.confirmed;
    stripe_payment_intent_id = some e.intent;
  }
  db1 ← save_appointment a' db
  db2 ←
      update_transaction e.transaction_id (λ t. record t { stripe_transaction_id = some e.intent })
        db1
  (a'', db3) ← schedule_appointment_reminder now a' db2
  ok db3

unfoldable pub handle_appointment_payment_succeeded : ℕ → PaymentEvent → Db → Result Db
handle_appointment_payment_succeeded now e =
    with_appointment e.appointment_id (confirm_payment now e)

unfoldable pub handle_appointment_payment_failed : PaymentEvent → Db → Result Db
handle_appointment_payment_failed e = with_appointment e.appointment_id (λ a db. do
  db1 ← update_transaction e.transaction_id (λ t. record t { status = TransactionStatus.failed }) db
  ok (delete_appointment a.id db1))

unfoldable pub handle_appointment_payment_canceled : PaymentEvent → Db → Result Db
handle_appointment_payment_canceled e = with_appointment e.appointment_id (λ a db. do
  db1 ←
      update_transaction e.transaction_id (λ t. record t { status = TransactionStatus.cancelled })
        db
  ok (delete_appointment a.id db1))

-- `refund.created`; `intent` is the id of the refund
unfoldable pub handle_refund_succeeded : ℕ → PaymentEvent → Db → Result Db
handle_refund_succeeded now e = with_appointment e.appointment_id (λ a db.
    update_transaction e.transaction_id
      (λ t. record t {
        status = TransactionStatus.completed;
        processed_at = some now;
        stripe_transaction_id = some e.intent;
      })
      db)

-- `refund.failed`: the refund waits for review again, if its transaction is there
unfoldable pub handle_refund_failed : PaymentEvent → Db → Result Db
handle_refund_failed e = with_appointment e.appointment_id (λ a db. elim e.transaction_id [
  | none ↦ ok db
  | some id ↦ elim (find transaction_key id db.transactions) [
    | none ↦ ok db
    | some t ↦ do
      db1 ← save_transaction (record t { status = TransactionStatus.failed }) db
      save_appointment (record a { refund_status = RefundStatus.pending }) db1
  ]
])

-- `handle_charge_disputed`, given the payment intent of the charge: the newest pending transaction
-- of the appointment is marked failed, whatever its type
unfoldable pub handle_charge_disputed : ℕ → Db → Result Db
handle_charge_disputed intent db =
    elim (first_row (λ (a : Appointment). holds intent a.stripe_payment_intent_id)
      db.appointments) [
        | none ↦ ok db
        | some a ↦
            elim (first_row
              (λ (t : Transaction). holds a.id t.appointment && is_pending_transaction t.status)
              db.transactions) [
                | none ↦ ok db
                | some t ↦ save_transaction (record t { status = TransactionStatus.failed }) db
              ]
      ]
