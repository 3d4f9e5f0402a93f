-- ===== src/Store/Save.antt =====
-- How rows are saved, and the queries that several views make.
use juris.Base.{
  Bool, List, Option, [], arith, exists_row, false, first_row, holds, if◌then◌else◌, leb, none, not,
  some, ℕ, ◌&&◌, ◌+◌, ◌==◌, ◌∷◌, ◌≡◌,
}
use juris.Pricing.{is_physical}
use juris.Status.{
  RefundStatus, TransactionStatus, TransactionType, is_no_refund, is_payment,
  is_pending_transaction, is_refund,
}
use juris.Store.{
  Appointment, Db, Result, Transaction, Wallet, appointment_key, bad_amount, bad_interval,
  duplicate_key, ok, priced_physical, raise_if, transaction_key, wallet_key, ◌>>◌,
}
use juris.Table.{delete_row, save_row}

-- `wallet.save()`, which checks nothing
unfoldable pub save_wallet : Wallet → Db → Db
save_wallet w db = record db { wallets = save_row wallet_key w db.wallets }

-- Another transaction has the key of this one.
abbrev pub key_taken : Transaction → Transaction → Bool
key_taken t s =
    not (s.id == t.id)
    && elim t.idempotency_key [ none ↦ false | some k ↦ holds k s.idempotency_key ]

-- `Transaction.save`: `full_clean` first
unfoldable pub save_transaction : Transaction → Db → Result Db
save_transaction t db = do
  raise_if (t.amount == 0) bad_amount
  raise_if (exists_row (key_taken t) db.transactions) duplicate_key
  ok (record db { transactions = save_row transaction_key t db.transactions })

-- `Transaction.objects.create`: the newest row comes first
unfoldable pub create_transaction : Transaction → Db → Result Db
create_transaction t db = do
  raise_if (t.amount == 0) bad_amount
  raise_if (exists_row (key_taken t) db.transactions) duplicate_key
  ok (record db { transactions = t ∷ db.transactions; next_id = db.next_id + 1 })

abbrev pub is_physical_appointment : Appointment → Bool
is_physical_appointment a = is_physical a.offering_type.type

abbrev pub is_paid_appointment : Appointment → Bool
is_paid_appointment a = not (is_physical_appointment a)

-- `Appointment.clean`
unfoldable pub clean_appointment : Appointment → Result (Unit {0})
clean_appointment a = do
  raise_if (leb a.end_datetime a.start_datetime) bad_interval
  raise_if (is_physical_appointment a && not (a.total_price == 0)) priced_physical

-- The first statement of `Appointment.save`.
unfoldable pub set_refund_status : Appointment → Appointment
set_refund_status a =
    if is_physical_appointment a && is_no_refund a.refund_status
    then record a { refund_status = RefundStatus.not_applicable }
    else a

-- `Appointment.save`
unfoldable pub save_appointment : Appointment → Db → Result Db
unfolding clean_appointment set_refund_status
save_appointment a db = do
  clean_appointment (set_refund_status a)
  ok (record db { appointments = save_row appointment_key (set_refund_status a) db.appointments })

-- A transaction of the type for the appointment, as `get_payment_transaction` and
-- `get_refund_transaction` look for it.
abbrev pub of_appointment : (TransactionType → Bool) → ℕ → Transaction → Bool
of_appointment is_type a t = holds a t.appointment && is_type t.transaction_type

unfoldable pub get_payment_transaction : ℕ → Db → Option Transaction
get_payment_transaction a db = first_row (of_appointment is_payment a) db.transactions

unfoldable pub get_refund_transaction : ℕ → Db → Option Transaction
get_refund_transaction a db = first_row (of_appointment is_refund a) db.transactions

abbrev pub cancel_pending : ℕ → Transaction → Transaction
cancel_pending a t =
    if holds a t.appointment && is_pending_transaction t.status
    then record t { status = TransactionStatus.cancelled }
    else t

-- ON DELETE SET NULL of `Transaction.appointment`
abbrev pub unlink : ℕ → Transaction → Transaction
unlink a t = if holds a t.appointment then record t { appointment = none } else t

abbrev pub map_rows {ℓ} : {A : Type ℓ} → (A → A) → List A → List A
map_rows f [] = []
map_rows f (x ∷ xs) = f x ∷ map_rows f xs

-- `Appointment.delete`: its pending transactions are cancelled, and all are unlinked
unfoldable pub delete_appointment : ℕ → Db → Db
delete_appointment a db = record db {
  transactions = map_rows (λ t. unlink a (cancel_pending a t)) db.transactions;
  appointments = delete_row appointment_key a db.appointments;
}

-- What a save or a creation of a transaction that succeeds has done.
pub save_transaction-saved :
    (t : Transaction) (db db' : Db)
    → save_transaction t db ≡ ok db'
    → db' ≡ record db { transactions = save_row transaction_key t db.transactions }
unfolding save_transaction
save_transaction-saved t db db' h = ground arith

pub create_transaction-created :
    (t : Transaction) (db db' : Db)
    → create_transaction t db ≡ ok db'
    → db' ≡ record db { transactions = t ∷ db.transactions; next_id = db.next_id + 1 }
unfolding create_transaction
create_transaction-created t db db' h = ground arith
