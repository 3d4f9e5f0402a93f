-- ===== src/Payments/Completion.antt =====
-- Completing an appointment releases its payment to the lawyer: `mark_as_completed` of
-- `Appointment` and the view `mark_appointment_completed`.
use juris.Base.{
  Bool, Option, false, first_row, if◌then◌else◌, is_some, leb, ltb, none, not, some, true, ℕ, ◌&&◌,
  ◌+◌,
}
use juris.Booking.Reschedule.{is_party}
use juris.Payments.Unpaid.{pending_payment}
use juris.Status.{AppointmentStatus, TransactionStatus, is_confirmed, is_pending_transaction}
use juris.Store.{
  Appointment, Db, Exn, Result, Transaction, appointment_key, atomic, does_not_exist, err, ok,
  wallet_key, ◌>>=◌,
}
use juris.Store.Save.{
  get_payment_transaction, is_paid_appointment, is_physical_appointment, save_appointment,
  save_transaction, save_wallet,
}
use juris.Table.{find}

-- `has_completed_payment`
unfoldable pub has_completed_payment : Appointment → Db → Bool
has_completed_payment a db =
    if is_physical_appointment a then true else elim (get_payment_transaction a.id db) [
      | none ↦ false
      | some t ↦ is_some t.stripe_transaction_id
    ]

unfoldable pub can_be_marked_completed : ℕ → Appointment → Db → Bool
unfolding has_completed_payment
can_be_marked_completed now a db =
    is_confirmed a.status && leb a.end_datetime now && has_completed_payment a db

-- The lawyer's amount is added to the wallet of the payment, if it has one.
unfoldable pub credit : ℕ → Transaction → Db → Result Db
unfolding save_wallet
credit amount t db = elim t.wallet [
  | none ↦ ok db
  | some k ↦ elim (find wallet_key k db.wallets) [
    | none ↦ err does_not_exist
    | some w ↦ ok (save_wallet (record w { balance = w.balance + amount }) db)
  ]
]

-- A pending payment is completed, and the wallet credited.
unfoldable pub release : ℕ → ℕ → Transaction → Db → Result Db
release now amount t db = do
  db' ←
      save_transaction (record t { status = TransactionStatus.completed; processed_at = some now })
        db
  credit amount t db'

abbrev pub release_found : ℕ → ℕ → Option Transaction → Db → Result Db
release_found now amount none db = ok db
release_found now amount (some t) db = release now amount t db

-- What `mark_as_completed` does once the appointment is saved.
unfoldable pub release_payment : ℕ → Appointment → Db → Result Db
release_payment now a db = elim (get_payment_transaction a.id db) [
  | none ↦ ok db
  | some t ↦ if is_pending_transaction t.status then release now a.lawyer_amount t db else ok db
]

unfoldable pub complete_body : ℕ → Appointment → Db → Result Db
complete_body now a db = do
  db' ← save_appointment (record a { status = AppointmentStatus.completed }) db
  if is_paid_appointment a then release_payment now a db' else ok db'

-- `mark_as_completed`; none where it raises "Appointment cannot be marked as completed"
unfoldable pub mark_as_completed : ℕ → Appointment → Db → Option (Result Db)
mark_as_completed now a db =
    if can_be_marked_completed now a db then some (complete_body now a db) else none

-- `mark_as_no_show`
unfoldable pub mark_as_no_show : Appointment → Db → Result Db
mark_as_no_show a db = save_appointment (record a { status = AppointmentStatus.no_show }) db

pub data CompleteReply : Type 0 where
  not_eligible : CompleteReply  -- 404
  no_permission : CompleteReply  -- 403
  not_ended : CompleteReply  -- 400
  released : CompleteReply  -- 200
  complete_error : Exn → CompleteReply  -- an error that no `except` clause takes

-- The body of `transaction.atomic()` in the view, which does not ask for a payment by Stripe.
unfoldable pub complete_view_body : ℕ → Appointment → Db → Result Db
complete_view_body now a db = do
  db' ← save_appointment (record a { status = AppointmentStatus.completed }) db
  release_found now a.lawyer_amount (first_row (pending_payment a.id) db'.transactions) db'

-- The view `mark_appointment_completed`.
unfoldable pub mark_appointment_completed : ℕ → ℕ → ℕ → Db → CompleteReply × Db
mark_appointment_completed now user id db = elim (find appointment_key id db.appointments) [
  | none ↦ (not_eligible, db)
  | some a ↦
      if not (is_confirmed a.status)
      then (not_eligible, db)
      else if not (is_party user a)
      then (no_permission, db)
      else if ltb now a.end_datetime
      then (not_ended, db)
      else atomic complete_error db (do db' ← complete_view_body now a db; ok (released, db'))
]
