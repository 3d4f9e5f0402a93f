-- ===== src/Withdrawal.antt =====
-- Withdrawals from a lawyer's wallet: `WithdrawSerializer` and `WithdrawView` of lawyer_wallet, and
-- the approvals and rejections of `TransactionAdmin`, lawyer_wallet/admin.py. The format of the
-- idempotency key and the texts are left out.
pub mod Held
pub mod Review
use juris.Base.{
  Bool, List, Option, exists_row, false, first_row, holds, if◌then◌else◌, ltb, none, not, some,
  true, ℕ, ◌&&◌, ◌+◌, ◌-◌, ◌==◌,
}
use juris.Booking.Create.{of_lawyer}
use juris.Status.{TransactionStatus, is_payout, is_pending_transaction, payout}
use juris.Store.{
  Db, Lawyer, Result, Transaction, Wallet, atomic, attribute_error, bad_amount, does_not_exist, err,
  not_available, ok, or_raise, raise_if, transaction_key, wallet_key, ◌>>=◌, ◌>>◌,
}
use juris.Store.Save.{create_transaction, map_rows, save_transaction, save_wallet}
use juris.Table.{find}

pub record WithdrawRequest : Type 0 where
  pub user : ℕ
  pub amount : ℕ
  pub idempotency_key : ℕ

-- The errors of the serializer, in the order of its checks.
pub data Invalid : Type 0 where
  below_minimum above_maximum : Invalid
  only_lawyers kyc_required wallet_not_found wallet_locked insufficient_balance : Invalid
  key_exists : Invalid

pub data WithdrawReply : Type 0 where
  invalid_withdrawal : Invalid → WithdrawReply  -- 400
  failed_withdrawal : WithdrawReply  -- 400, "Failed to process withdrawal request"
  submitted : Transaction → Wallet → WithdrawReply  -- 201

pub data Validated : Type 0 where
  rejected_for : Invalid → Validated
  accepted : Wallet → Lawyer → Validated

-- A payout that has the key.
abbrev pub payout_with_key : ℕ → Transaction → Bool
payout_with_key k t = holds k t.idempotency_key && is_payout t.transaction_type

-- `kyc_verification` is there and verified.
abbrev pub kyc_ok : Option Bool → Bool
kyc_ok none = false
kyc_ok (some b) = b

-- `serializer.is_valid()`: the field checks of the amount, and `validate`
unfoldable pub validate_withdrawal : WithdrawRequest → Db → Validated
validate_withdrawal r db =
    if ltb r.amount 1000
    then rejected_for below_minimum
    else if ltb 5000000 r.amount
    then rejected_for above_maximum
    else elim (first_row (λ (l : Lawyer). l.user == r.user) db.lawyers) [
      | none ↦ rejected_for only_lawyers
      | some l ↦
          if not (kyc_ok l.kyc_verification)
          then rejected_for kyc_required
          else elim (first_row (of_lawyer l.id) db.wallets) [
            | none ↦ rejected_for wallet_not_found
            | some w ↦
                if w.is_locked
                then rejected_for wallet_locked
                else if ltb w.balance r.amount
                then rejected_for insufficient_balance
                else if exists_row (payout_with_key r.idempotency_key) db.transactions
                then rejected_for key_exists
                else accepted w l
          ]
    ]

-- The pending payout of a withdrawal.
abbrev pub payout_of : ℕ → WithdrawRequest → Wallet → Lawyer → Transaction
payout_of id r w l = record {
  id = id;
  wallet = some w.id;
  lawyer = l.id;
  client = none;
  appointment = none;
  stripe_transaction_id = none;
  amount = r.amount;
  transaction_type = payout;
  status = TransactionStatus.pending;
  idempotency_key = some r.idempotency_key;
  processed_at = none;
  processed_by = none;
}

-- The body of `transaction.atomic()` in `WithdrawView.create`, for the wallet that the serializer
-- found, which may have changed since.
unfoldable pub withdraw_body : WithdrawRequest → Wallet → Lawyer → Db → Result (WithdrawReply × Db)
withdraw_body r wallet l db = do
  w ← or_raise (find wallet_key wallet.id db.wallets) does_not_exist
  raise_if w.is_locked not_available
  raise_if (ltb w.balance r.amount) bad_amount
  let t = payout_of db.next_id r w l
  db' ← create_transaction t db
  let w' = record w { balance = w.balance - r.amount }
  ok (submitted t w', save_wallet w' db')

-- `WithdrawView.create`: validated in the state `before`, written in the state `db`
unfoldable pub withdraw : WithdrawRequest → Db → Db → WithdrawReply × Db
withdraw r before db = elim (validate_withdrawal r before) [
  | rejected_for e ↦ (invalid_withdrawal e, db)
  | accepted w l ↦ atomic (λ e. failed_withdrawal) db (withdraw_body r w l db)
]

-- A payout that waits for its review.
abbrev pub is_reviewable : Transaction → Bool
is_reviewable t = is_payout t.transaction_type && is_pending_transaction t.status

-- `_approve_withdrawal`, of a transaction as it was read
unfoldable pub approve_withdrawal : ℕ → ℕ → Transaction → Db → Bool × Db
approve_withdrawal now admin_user t db =
    if not (is_reviewable t)
    then (false, db)
    else atomic (λ e. false) db
        (do
          db' ←
              save_transaction
                (record t {
                  status = TransactionStatus.completed;
                  processed_at = some now;
                  processed_by = some admin_user;
                })
                db
          ok (true, db'))

-- `withdrawal_transaction.wallet`, which raises where there is none
abbrev pub wallet_of : Transaction → Db → Result Wallet
wallet_of t db = elim t.wallet [
  | none ↦ err attribute_error
  | some w ↦ or_raise (find wallet_key w db.wallets) does_not_exist
]

-- `_reject_withdrawal`, of a transaction as it was read
unfoldable pub reject_withdrawal : ℕ → ℕ → Transaction → Db → Bool × Db
reject_withdrawal now admin_user t db =
    if not (is_reviewable t)
    then (false, db)
    else atomic (λ e. false) db
        (do
          db' ←
              save_transaction
                (record t {
                  status = TransactionStatus.failed;
                  processed_at = some now;
                  processed_by = some admin_user;
                })
                db
          w ← wallet_of t db'
          ok (true, save_wallet (record w { balance = w.balance + t.amount }) db'))

-- `approve_withdrawal_view` and `reject_withdrawal_view`: none for "Transaction not found."
unfoldable pub approve_withdrawal_view : ℕ → ℕ → ℕ → Db → Option Bool × Db
approve_withdrawal_view now admin_user id db = elim (find transaction_key id db.transactions) [
  | none ↦ (none, db)
  | some t ↦ let (done, db') = approve_withdrawal now admin_user t db in (some done, db')
]

unfoldable pub reject_withdrawal_view : ℕ → ℕ → ℕ → Db → Option Bool × Db
reject_withdrawal_view now admin_user id db = elim (find transaction_key id db.transactions) [
  | none ↦ (none, db)
  | some t ↦ let (done, db') = reject_withdrawal now admin_user t db in (some done, db')
]

-- `lock_wallets` and `unlock_wallets`: `queryset.update(is_locked=locked)`
unfoldable pub set_locked : Bool → List ℕ → Db → Db
set_locked locked selected db = record db {
  wallets =
      map_rows
        (λ w. if exists_row (λ k. k == w.id) selected then record w { is_locked = locked } else w)
        db.wallets;
}
