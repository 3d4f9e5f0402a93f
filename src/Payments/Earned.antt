-- ===== src/Payments/Earned.antt =====
-- What completing an appointment adds to a wallet.
use juris.Base.{
  Option-cases, ap, arith, first_row, holds, if◌then◌else◌, inl, inr, none, refl, some, sum_of,
  true, ℕ, ◌+◌, ◌∙◌, ◌≡◌,
}
use juris.Payments.Completion.{
  CompleteReply, complete_error, complete_view_body, credit, mark_appointment_completed,
  no_permission, not_eligible, not_ended, release, released,
}
use juris.Payments.Unpaid.{pending_payment}
use juris.Status.{AppointmentStatus, TransactionStatus}
use juris.Store.{
  >>=-eq-ok, Appointment, Db, Result, Transaction, appointment_key, atomic, err, ok,
  transaction_key, wallet_key, ◌>>=◌,
}
use juris.Store.Save.{save_appointment, save_transaction, save_transaction-saved, save_wallet}
use juris.Table.{HasKeys, find, find-first_row, first_row-fits, key-find, save_row}
use juris.Withdrawal.Held.{held, save_transaction-held, save_wallet-held, taken_from}

-- What the completion of the appointment adds to wallet k: the lawyer's amount, if its pending
-- payment is of that wallet.
abbrev pub earned : ℕ → Appointment → Db → ℕ
earned k a db = elim (first_row (pending_payment a.id) db.transactions) [
  | none ↦ 0
  | some t ↦ if holds k t.wallet then a.lawyer_amount else 0
]

-- What the answer of the view promises to wallet k.
abbrev pub paid_out : ℕ → ℕ → CompleteReply → Db → ℕ
paid_out k id released db = elim (find appointment_key id db.appointments) [
  | none ↦ 0
  | some a ↦ earned k a db
]
paid_out k id not_eligible db = 0
paid_out k id no_permission db = 0
paid_out k id not_ended db = 0
paid_out k id (complete_error e) db = 0

save_appointment-held :
    (k : ℕ) (a : Appointment) (db db' : Db)
    → save_appointment a db ≡ ok db'
    → (held k db' ≡ held k db) × (db'.transactions ≡ db.transactions) × (db'.wallets ≡ db.wallets)
unfolding save_appointment
save_appointment-held k a db db' e = ground arith

-- Nothing but a payout counts as taken.
pending_payment_free :
    (k id : ℕ) (t : Transaction) → pending_payment id t ≡ true → taken_from k t ≡ 0
pending_payment_free k id t e = ground arith

completed_payment_free :
    (k id : ℕ) (t t' : Transaction)
    → pending_payment id t ≡ true
    → t'.transaction_type ≡ t.transaction_type
    → taken_from k t' ≡ 0
completed_payment_free k id t t' e same = ground arith

saved-held :
    (k : ℕ) (t' : Transaction) (db db' : Db)
    → db' ≡ record db { transactions = save_row transaction_key t' db.transactions }
    → sum_of (taken_from k) (save_row transaction_key t' db.transactions)
      ≡ sum_of (taken_from k) db.transactions
    → held k db' ≡ held k db
saved-held k t' db db' e s = ground arith

credit-held :
    (k amount : ℕ) (t : Transaction) (db db' : Db)
    → credit amount t db ≡ ok db'
    → held k db' ≡ held k db + (if holds k t.wallet then amount else 0)
unfolding credit save_wallet
credit-held k amount t db db' e = elim (Option-cases t.wallet) [
  | inl n ↦ ground arith
  | inr (w, ew) ↦ elim (Option-cases (find wallet_key w db.wallets)) [
    | inl missing ↦ absurd (ground arith)
    | inr (row, er) ↦
        let same = key-find wallet_key w db.wallets row er in
        let sums = save_wallet-held k w row (row.balance + amount) db.wallets er in ground arith
  ]
]

release-held :
    (k now amount id : ℕ) (t : Transaction) (db db' : Db)
    → find transaction_key t.id db.transactions ≡ some t
    → pending_payment id t ≡ true
    → release now amount t db ≡ ok db'
    → held k db' ≡ held k db + (if holds k t.wallet then amount else 0)
unfolding release
release-held k now amount id t db db' e pay s =
    let t' : Transaction = record t {
      status = TransactionStatus.completed;
      processed_at = some now;
    } in
    let (db1, e1, f1) = >>=-eq-ok (save_transaction t' db) _ s in
    let sums = save_transaction-held k t t' db.transactions e refl in
    let free = pending_payment_free k id t pay in
    let free' = completed_payment_free k id t t' pay refl in
    let credited = credit-held k amount t db1 db' f1 in
    let stored = save_transaction-saved t' db db1 e1 in
    credited
    ∙ ap (λ n. n + (if holds k t.wallet then amount else 0))
        (saved-held k t' db db1 stored (omega arith))

complete_view_body-held :
    (k now : ℕ) (a : Appointment) (db db' : Db)
    → HasKeys transaction_key db.transactions
    → complete_view_body now a db ≡ ok db'
    → held k db' ≡ held k db + earned k a db
unfolding complete_view_body
complete_view_body-held k now a db db' keys e =
    let (db1, e1, f1) =
      >>=-eq-ok (save_appointment (record a { status = AppointmentStatus.completed }) db) _ e in
    let (same, same_t, same_w) =
      save_appointment-held k (record a { status = AppointmentStatus.completed }) db db1 e1 in
    elim (Option-cases (first_row (pending_payment a.id) db.transactions)) [
      | inl n ↦ ground arith
      | inr (t, et) ↦
          let paid =
            release-held k now a.lawyer_amount a.id t db1 db'
              (rw same_t
                (find-first_row transaction_key (pending_payment a.id) db.transactions t keys et))
              (first_row-fits transaction_key (pending_payment a.id) db.transactions t et)
              (rw (same_t, et) at f1) in
          ground arith
    ]

completion-held :
    (k now id : ℕ) (a : Appointment) (db : Db)
    → HasKeys transaction_key db.transactions
    → find appointment_key id db.appointments ≡ some a
    → let m : Result (CompleteReply × Db) = (do
      db' ← complete_view_body now a db
      ok (CompleteReply.released, db')) in
      held k (atomic complete_error db m).1
      ≡ held k db + paid_out k id (atomic complete_error db m).0 db
completion-held k now id a db keys e = go (complete_view_body now a db) refl
  where
    go :
        (m : Result Db)
        → complete_view_body now a db ≡ m
        → let r : Result (CompleteReply × Db) = (do db' ← m; ok (CompleteReply.released, db')) in
          held k (atomic complete_error db r).1
          ≡ held k db + paid_out k id (atomic complete_error db r).0 db
    go (ok db') b = let paid = complete_view_body-held k now a db db' keys b in ground arith
    go (err x) b = omega arith

-- In a state whose transactions have distinct keys, a user's request to complete an appointment,
-- however it ends, adds to what a wallet holds (its balance and its payouts that are pending or
-- completed) the lawyer's amount of the appointment if the answer is 200 and the first pending
-- payment of the appointment is of that wallet, and nothing otherwise.
pub mark_appointment_completed-held :
    (k now user id : ℕ) (db : Db)
    → HasKeys transaction_key db.transactions
    → held k (mark_appointment_completed now user id db).1
      ≡ held k db + paid_out k id (mark_appointment_completed now user id db).0 db
unfolding mark_appointment_completed
mark_appointment_completed-held k now user id db keys =
    elim (Option-cases (find appointment_key id db.appointments)) [
      | inl n ↦ ground arith
      | inr (a, e) ↦ ground (arith, completion-held k now id a db keys e)
    ]
