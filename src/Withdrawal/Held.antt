-- ===== src/Withdrawal/Held.antt =====
-- What a wallet holds: its balance, and the payouts that were taken from it and not given back.
use juris.Base.{
  Bool, List, Option-cases, arith, holds, if◌then◌else◌, inl, inr, refl, some, sum_of, ℕ, ◌&&◌, ◌+◌,
  ◌-◌, ◌==◌, ◌||◌, ◌≡◌,
}
use juris.Status.{TransactionStatus, is_completed_transaction, is_payout, is_pending_transaction}
use juris.Store.{
  Db, Lawyer, Result, Transaction, Wallet, atomic, err, ok, transaction_key, wallet_key,
}
use juris.Store.Save.{create_transaction, save_transaction, save_wallet}
use juris.Table.{find, find-key, save_row, sum_of-save_row}
use juris.Withdrawal.{
  Validated, WithdrawReply, WithdrawRequest, accepted, approve_withdrawal, failed_withdrawal,
  invalid_withdrawal, rejected_for, validate_withdrawal, withdraw, withdraw_body,
}

abbrev pub balance_in : ℕ → Wallet → ℕ
balance_in k w = if w.id == k then w.balance else 0

-- A payout that is pending or completed.
abbrev pub is_taken : Transaction → Bool
is_taken t =
    is_payout t.transaction_type
    && (is_pending_transaction t.status || is_completed_transaction t.status)

abbrev pub taken_from : ℕ → Transaction → ℕ
taken_from k t = if holds k t.wallet && is_taken t then t.amount else 0

-- The balance of a wallet and its payouts that are pending or completed.
abbrev pub held : ℕ → Db → ℕ
held k db = sum_of (balance_in k) db.wallets + sum_of (taken_from k) db.transactions

pub save_wallet-held :
    (k id : ℕ) (w : Wallet) (b : ℕ) (ws : List Wallet)
    → find wallet_key id ws ≡ some w
    → sum_of (balance_in k) (save_row wallet_key (record w { balance = b }) ws) + balance_in k w
      ≡ sum_of (balance_in k) ws + balance_in k (record w { balance = b })
save_wallet-held k id w b ws e =
    sum_of-save_row wallet_key (balance_in k) (record w { balance = b }) w ws
      (find-key wallet_key id ws w e)

withdraw_body-held :
    (k : ℕ) (r : WithdrawRequest) (wallet : Wallet) (l : Lawyer) (db : Db) (p : WithdrawReply × Db)
    → withdraw_body r wallet l db ≡ ok p
    → held k p.1 ≡ held k db
unfolding withdraw_body create_transaction save_wallet
withdraw_body-held k r wallet l db p h =
    elim (Option-cases (find wallet_key wallet.id db.wallets)) [
      | inl missing ↦ absurd (ground arith)
      | inr (w, e) ↦
          ground (arith, save_wallet-held k wallet.id w (w.balance - r.amount) db.wallets e)
    ]

-- Whatever a withdrawal request asks for, and whatever has changed between its validation and its
-- write, every wallet holds afterwards what it held before, counting its balance and its payouts
-- that are pending or completed.
pub withdraw-held :
    (k : ℕ) (r : WithdrawRequest) (before db : Db) → held k (withdraw r before db).1 ≡ held k db
unfolding withdraw
withdraw-held k r before db = go (validate_withdrawal r before)
  where
    kept :
        (m : Result (WithdrawReply × Db))
        → ((p : WithdrawReply × Db) → m ≡ ok p → held k p.1 ≡ held k db)
        → held k (atomic (λ e. failed_withdrawal) db m).1 ≡ held k db
    kept (ok p) f = f p refl
    kept (err x) f = refl

    go :
        (v : Validated)
        → held k
            (elim v as (λ x. WithdrawReply × Db) [
              | rejected_for e ↦ (invalid_withdrawal e, db)
              | accepted w l ↦ atomic (λ e. failed_withdrawal) db (withdraw_body r w l db)
            ]).1
          ≡ held k db
    go (rejected_for e) = refl
    go (accepted w l) = kept (withdraw_body r w l db) (withdraw_body-held k r w l db)

pub save_transaction-held :
    (k : ℕ) (t t' : Transaction) (ts : List Transaction)
    → find transaction_key t.id ts ≡ some t
    → t'.id ≡ t.id
    → sum_of (taken_from k) (save_row transaction_key t' ts) + taken_from k t
      ≡ sum_of (taken_from k) ts + taken_from k t'
save_transaction-held k t t' ts e same =
    sum_of-save_row transaction_key (taken_from k) t' t ts (rw same e)

-- The approval of a transaction that is stored as it was read, however it ends, leaves what every
-- wallet holds, counting its balance and its payouts that are pending or completed.
approve_withdrawal-held :
    (k now admin_user : ℕ) (t : Transaction) (db : Db)
    → find transaction_key t.id db.transactions ≡ some t
    → held k (approve_withdrawal now admin_user t db).1 ≡ held k db
unfolding approve_withdrawal save_transaction
approve_withdrawal-held k now admin_user t db e = ground (
  arith,
  save_transaction-held k t
      (record t {
        status = TransactionStatus.completed;
        processed_at = some now;
        processed_by = some admin_user;
      })
      db.transactions e refl,
)
