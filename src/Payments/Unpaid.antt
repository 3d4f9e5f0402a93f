-- ===== src/Payments/Unpaid.antt =====
-- `delete_unpaid_appointment` of lawyer_appointment/tasks.py.
use juris.Base.{Bool, first_row, if◌then◌else◌, none, some, ℕ, ◌&&◌}
use juris.Status.{TransactionStatus, is_payment, is_pending, is_pending_transaction}
use juris.Store.{Db, Result, Transaction, appointment_key, ok, ◌>>=◌}
use juris.Store.Save.{delete_appointment, of_appointment, save_transaction}
use juris.Table.{find}

-- A pending payment of the appointment.
abbrev pub pending_payment : ℕ → Transaction → Bool
pending_payment a t = of_appointment is_payment a t && is_pending_transaction t.status

-- Errors make the task run again; the rows are rolled back.
unfoldable pub delete_unpaid_appointment : ℕ → Db → Result Db
delete_unpaid_appointment id db = elim (find appointment_key id db.appointments) [
  | none ↦ ok db
  | some a ↦
      if is_pending a.status
      then elim (first_row (pending_payment id) db.transactions) [
        | none ↦ ok (delete_appointment id db)
        | some t ↦ do
          db' ← save_transaction (record t { status = TransactionStatus.cancelled }) db
          ok (delete_appointment id db')
      ]
      else ok db
]
