-- ===== src/Withdrawal/Review.antt =====
-- Rejections give back what the payout took, once for each time that they are run on a payout that
-- was read while it was pending.
use juris.Base.{
  Bool-cases, Option-cases, ap, arith, false, holds, if◌then◌else◌, inl, inr, some, true, ℕ, ◌+◌,
  ◌∙◌, ◌≡◌,
}
use juris.Status.{TransactionStatus}
use juris.Store.{Db, Transaction, Wallet, transaction_key, wallet_key}
use juris.Store.Save.{save_transaction, save_wallet}
use juris.Table.{find, find-save_row, key-find, save_row, sum_of-save_row}
use juris.Withdrawal.{is_reviewable, reject_withdrawal}
use juris.Withdrawal.Held.{held, save_wallet-held, taken_from}

-- The row that a rejection writes.
abbrev pub rejected_as : ℕ → ℕ → Transaction → Transaction
rejected_as now admin_user t = record t {
  status = TransactionStatus.failed;
  processed_at = some now;
  processed_by = some admin_user;
}

abbrev due : ℕ → Transaction → ℕ
due k t = if holds k t.wallet then t.amount else 0

-- What a rejection that succeeds has done.
pub reject_withdrawal-done :
    (now admin_user : ℕ) (t : Transaction) (db db' : Db)
    → reject_withdrawal now admin_user t db ≡ (true, db')
    → (id : ℕ) × (w : Wallet) × (is_reviewable t ≡ true)
      × (t.wallet ≡ some id)
      × (find wallet_key id db.wallets ≡ some w)
      × (db' ≡ record db {
        wallets = save_row wallet_key (record w { balance = w.balance + t.amount }) db.wallets;
        transactions = save_row transaction_key (rejected_as now admin_user t) db.transactions;
      })
unfolding reject_withdrawal save_transaction save_wallet
reject_withdrawal-done now admin_user t db db' h = elim (Option-cases t.wallet) [
  | inl missing ↦ absurd (ground arith)
  | inr (id, e) ↦ elim (Option-cases (find wallet_key id db.wallets)) [
    | inl missing ↦ absurd (ground arith)
    | inr (w, f) ↦ (id, w, ground arith, e, f, ground arith)
  ]
]

-- A rejection moves the amount to the wallet, and what the stored row took is no longer taken.
reject_withdrawal-moves :
    (k now admin_user : ℕ) (t s : Transaction) (db db' : Db)
    → find transaction_key t.id db.transactions ≡ some s
    → reject_withdrawal now admin_user t db ≡ (true, db')
    → held k db' + taken_from k s ≡ held k db + due k t
reject_withdrawal-moves k now admin_user t s db db' e h =
    let (id, w, r, te, f, same) = reject_withdrawal-done now admin_user t db db' h in
    rw same (
      ground (
        arith,
        save_wallet-held k id w (w.balance + t.amount) db.wallets f,
        sum_of-save_row transaction_key (taken_from k) (rejected_as now admin_user t) s
            db.transactions e,
        key-find wallet_key id db.wallets w f,
      ))

not_rejected :
    (now admin_user : ℕ) (t : Transaction) (db : Db)
    → (reject_withdrawal now admin_user t db).0 ≡ false
    → (reject_withdrawal now admin_user t db).1 ≡ db
unfolding reject_withdrawal save_transaction
not_rejected now admin_user t db h = ground arith

-- The rejection of a transaction that is stored as it was read, however it ends, leaves what every
-- wallet holds, counting its balance and its payouts that are pending or completed.
pub reject_withdrawal-held :
    (k now admin_user : ℕ) (t : Transaction) (db : Db)
    → find transaction_key t.id db.transactions ≡ some t
    → held k (reject_withdrawal now admin_user t db).1 ≡ held k db
reject_withdrawal-held k now admin_user t db e =
    let (done, db') = reject_withdrawal now admin_user t db in
    elim (Bool-cases done) [
      | inl y ↦
          let whole : reject_withdrawal now admin_user t db ≡ (true, db') = λ i. (y i, db') in
          let (id, w, r, own, f, same) = reject_withdrawal-done now admin_user t db db' whole in
          ground (arith, reject_withdrawal-moves k now admin_user t t db db' e whole)
      | inr n ↦ ap (held k) (not_rejected now admin_user t db n)
    ]

-- When two rejections succeed that have both read one payout as it is stored, the second run in
-- the state that the first leaves, the payout's wallet holds the amount more than before, counting
-- its balance and its payouts that are pending or completed.
pub reject_withdrawal-twice :
    (k now admin_user now' admin_user' : ℕ) (t : Transaction) (db db' db'' : Db)
    → find transaction_key t.id db.transactions ≡ some t
    → t.wallet ≡ some k
    → reject_withdrawal now admin_user t db ≡ (true, db')
    → reject_withdrawal now' admin_user' t db' ≡ (true, db'')
    → held k db'' ≡ held k db + t.amount
reject_withdrawal-twice k now admin_user now' admin_user' t db db' db'' e own h h' =
    let (id, w, r, te, f, same) = reject_withdrawal-done now admin_user t db db' h in
    let stored : find transaction_key t.id db'.transactions ≡ some (rejected_as now admin_user t) =
      rw same (
        find-save_row transaction_key t.id (rejected_as now admin_user t) db.transactions
        ∙ ground arith) in
    ground (
      arith,
      reject_withdrawal-moves k now admin_user t t db db' e h,
      reject_withdrawal-moves k now' admin_user' t (rejected_as now admin_user t) db' db'' stored
          h',
    )
