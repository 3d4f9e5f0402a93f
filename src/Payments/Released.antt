-- ===== src/Payments/Released.antt =====
-- What `mark_as_completed` of `Appointment`, lawyer_appointment/models.py, writes, and when.
use juris.Base.{
  Bool, Bool-cases, Option, Option-cases, arith, false, first_row, holds, if◌then◌else◌, inl, inr,
  is_some, none, not, refl, some, subst, sym, true, ℕ, ◌&&◌, ◌+◌, ◌∙◌, ◌≡◌, ◌≤◌, ◌⊎◌,
}
use juris.Payments.Completion.{
  can_be_marked_completed, complete_body, credit, has_completed_payment, mark_as_completed, release,
  release_payment,
}
use juris.Status.{AppointmentStatus, TransactionStatus, is_payment, is_pending_transaction}
use juris.Store.{
  >>=-eq-ok, Appointment, Db, Result, Transaction, Wallet, appointment_key, ok, transaction_key,
  wallet_key,
}
use juris.Store.Save.{
  get_payment_transaction, is_paid_appointment, is_physical_appointment, save_appointment,
  save_transaction, save_transaction-saved, save_wallet, set_refund_status,
}
use juris.Table.{find, find-save_row, key-find, save_row}

-- The first payment of the appointment, which a physical one does not have.
abbrev pub payment_of : Appointment → Db → Option Transaction
payment_of a db =
    if is_physical_appointment a
    then none
    else first_row (λ (t : Transaction). holds a.id t.appointment && is_payment t.transaction_type)
        db.transactions

-- Stripe has given the payment an id.
abbrev pub HasCome : Option Transaction → Type 0
HasCome none = ⊥
HasCome (some t) = is_some t.stripe_transaction_id ≡ true

-- The appointment is confirmed and over, and its payment has come, if it is not physical.
abbrev pub IsDue : ℕ → Appointment → Db → Type 0
IsDue now a db =
    (a.status ≡ AppointmentStatus.confirmed)
    × (a.end_datetime ≤ now)
    × ((is_physical_appointment a ≡ true) ⊎ HasCome (payment_of a db))

-- The wallet, if there is one, holds the amount more.
abbrev pub Credited : ℕ → Option ℕ → Db → Db → Type 0
Credited amount none db db' = db'.wallets ≡ db.wallets
Credited amount (some k) db db' =
    (w : Wallet) × (find wallet_key k db.wallets ≡ some w)
    × (find wallet_key k db'.wallets ≡ some (record w { balance = w.balance + amount }))

abbrev pub ReleasedIf : Bool → ℕ → ℕ → Transaction → Db → Db → Type 0
ReleasedIf true now amount t db db' =
    (find transaction_key t.id db'.transactions
      ≡ some (record t { status = TransactionStatus.completed; processed_at = some now }))
    × Credited amount t.wallet db db'
ReleasedIf false now amount t db db' =
    (db'.transactions ≡ db.transactions) × (db'.wallets ≡ db.wallets)

-- A payment that is pending is completed and credited to its wallet; otherwise no money moves.
abbrev pub Released : ℕ → ℕ → Option Transaction → Db → Db → Type 0
Released now amount none db db' = (db'.transactions ≡ db.transactions) × (db'.wallets ≡ db.wallets)
Released now amount (some t) db db' =
    ReleasedIf (is_pending_transaction t.status) now amount t db db'

-- The appointment is stored as completed, and its payment is released.
abbrev pub IsCompleted : ℕ → Appointment → Db → Db → Type 0
IsCompleted now a db db' =
    ((b : Appointment) × (find appointment_key a.id db'.appointments ≡ some b)
      × (b.status ≡ AppointmentStatus.completed)
      × (b.start_datetime ≡ a.start_datetime)
      × (b.end_datetime ≡ a.end_datetime))
    × Released now a.lawyer_amount (payment_of a db) db db'

has_come :
    (p : Bool) (o : Option Transaction)
    → (if p then true else elim o [ none ↦ false | some t ↦ is_some t.stripe_transaction_id ])
      ≡ true
    → (p ≡ true) ⊎ HasCome (if p then none else o)
has_come true o h = inl refl
has_come false none h = absurd (ground arith)
has_come false (some t) h = inr h

come_has :
    (p : Bool) (o : Option Transaction)
    → (p ≡ true) ⊎ HasCome (if p then none else o)
    → (if p then true else elim o [ none ↦ false | some t ↦ is_some t.stripe_transaction_id ])
      ≡ true
come_has true o h = refl
come_has false none (inl h) = cc
come_has false none (inr h) = absurd h
come_has false (some t) (inl h) = cc
come_has false (some t) (inr h) = h

has_completed_payment-HasCome :
    (a : Appointment) (db : Db)
    → has_completed_payment a db ≡ true
    → (is_physical_appointment a ≡ true) ⊎ HasCome (payment_of a db)
unfolding has_completed_payment get_payment_transaction
has_completed_payment-HasCome a db h = has_come (is_physical_appointment a) _ h

HasCome-has_completed_payment :
    (a : Appointment) (db : Db)
    → (is_physical_appointment a ≡ true) ⊎ HasCome (payment_of a db)
    → has_completed_payment a db ≡ true
unfolding has_completed_payment get_payment_transaction
HasCome-has_completed_payment a db h = come_has (is_physical_appointment a) _ h

can_be_marked_completed-IsDue :
    (now : ℕ) (a : Appointment) (db : Db) → can_be_marked_completed now a db ≡ true → IsDue now a db
unfolding can_be_marked_completed
can_be_marked_completed-IsDue now a db h =
    (ground arith, ground arith, has_completed_payment-HasCome a db (ground arith))

IsDue-can_be_marked_completed :
    (now : ℕ) (a : Appointment) (db : Db) → IsDue now a db → can_be_marked_completed now a db ≡ true
unfolding can_be_marked_completed
IsDue-can_be_marked_completed now a db (c, e, p) =
    let come = HasCome-has_completed_payment a db p in ground arith

wallet_Credited :
    (amount : ℕ) (o : Option ℕ) (t : Transaction) (db db' : Db)
    → t.wallet ≡ o
    → credit amount t db ≡ ok db'
    → (db'.transactions ≡ db.transactions)
      × (db'.appointments ≡ db.appointments)
      × Credited amount o db db'
unfolding credit save_wallet
wallet_Credited amount none t db db' f e = ground arith
wallet_Credited amount (some k) t db db' f e = elim (Option-cases (find wallet_key k db.wallets)) [
  | inl n ↦ absurd (ground arith)
  | inr (w, g) ↦
      let w' : Wallet = record w { balance = w.balance + amount } in
      let same = key-find wallet_key k db.wallets w g in
      let there = find-save_row wallet_key k w' db.wallets in
      (ground arith, ground arith, (w, g, ground arith))
]

Credited-moved :
    (amount : ℕ) (o : Option ℕ) (db1 db db' : Db)
    → db1.wallets ≡ db.wallets
    → Credited amount o db1 db'
    → Credited amount o db db'
Credited-moved amount none db1 db db' same c = c ∙ same
Credited-moved amount (some k) db1 db db' same (w, g, h) = (w, rw (← same) g, h)

ReleasedIf-moved :
    (b : Bool) (now amount : ℕ) (t : Transaction) (db1 db db' : Db)
    → db1.transactions ≡ db.transactions
    → db1.wallets ≡ db.wallets
    → ReleasedIf b now amount t db1 db'
    → ReleasedIf b now amount t db db'
ReleasedIf-moved true now amount t db1 db db' e f (there, c) =
    (there, Credited-moved amount t.wallet db1 db db' f c)
ReleasedIf-moved false now amount t db1 db db' e f (g, h) = (g ∙ e, h ∙ f)

Released-moved :
    (now amount : ℕ) (o : Option Transaction) (db1 db db' : Db)
    → db1.transactions ≡ db.transactions
    → db1.wallets ≡ db.wallets
    → Released now amount o db1 db'
    → Released now amount o db db'
Released-moved now amount none db1 db db' e f (g, h) = (g ∙ e, h ∙ f)
Released-moved now amount (some t) db1 db db' e f r =
    ReleasedIf-moved (is_pending_transaction t.status) now amount t db1 db db' e f r

release-Released :
    (now amount : ℕ) (t : Transaction) (db db' : Db)
    → release now amount t db ≡ ok db'
    → (db'.appointments ≡ db.appointments) × ReleasedIf true now amount t db db'
unfolding release
release-Released now amount t db db' e =
    let t' : Transaction = record t {
      status = TransactionStatus.completed;
      processed_at = some now;
    } in
    let (db1, e1, f1) = >>=-eq-ok (save_transaction t' db) _ e in
    let stored = save_transaction-saved t' db db1 e1 in
    let (same_t, same_a, credited) = wallet_Credited amount t.wallet t db1 db' refl f1 in
    let there = find-save_row transaction_key t.id t' db.transactions in
    let wallets : db1.wallets ≡ db.wallets = ground arith in
    (ground arith, (ground arith, Credited-moved amount t.wallet db1 db db' wallets credited))

-- `release_payment`, on the payment that it has looked for.
abbrev release_pending : ℕ → ℕ → Option Transaction → Db → Result Db
release_pending now amount none db = ok db
release_pending now amount (some t) db =
    if is_pending_transaction t.status then release now amount t db else ok db

release_pending-Released :
    (now amount : ℕ) (p : Bool) (o : Option Transaction) (db db' : Db)
    → (if not p then release_pending now amount o db else ok db) ≡ ok db'
    → (db'.appointments ≡ db.appointments) × Released now amount (if p then none else o) db db'
release_pending-Released now amount true o db db' e = ground arith
release_pending-Released now amount false none db db' e = ground arith
release_pending-Released now amount false (some t) db db' e =
    elim (Bool-cases (is_pending_transaction t.status)) [
      | inl y ↦
          let done = release-Released now amount t db db' (ground arith) in
          (done.0, subst (λ b. ReleasedIf b now amount t db db') (sym y) done.1)
      | inr n ↦
          let same : db' ≡ db = ground arith in
          (
            ground arith,
            subst (λ b. ReleasedIf b now amount t db db') (sym n) (ground arith, ground arith),
          )
    ]

pub paid-Released :
    (now : ℕ) (a : Appointment) (db db' : Db)
    → (if is_paid_appointment a then release_payment now a db else ok db) ≡ ok db'
    → (db'.appointments ≡ db.appointments) × Released now a.lawyer_amount (payment_of a db) db db'
unfolding release_payment get_payment_transaction
paid-Released now a db db' e =
    release_pending-Released now a.lawyer_amount (is_physical_appointment a)
      (first_row (λ (t : Transaction). holds a.id t.appointment && is_payment t.transaction_type)
        db.transactions)
      db db' (ground arith)

saved_appointment :
    (a : Appointment) (db db' : Db)
    → save_appointment a db ≡ ok db'
    → (b : Appointment) × (db'
        ≡ record db { appointments = save_row appointment_key b db.appointments })
      × (b.id ≡ a.id)
      × (b.status ≡ a.status)
      × (b.start_datetime ≡ a.start_datetime)
      × (b.end_datetime ≡ a.end_datetime)
unfolding save_appointment
saved_appointment a db db' e =
    (set_refund_status a, ground arith, ground arith, ground arith, ground arith, ground arith)

complete_body-IsCompleted :
    (now : ℕ) (a : Appointment) (db db' : Db)
    → complete_body now a db ≡ ok db'
    → IsCompleted now a db db'
unfolding complete_body
complete_body-IsCompleted now a db db' e =
    let a' : Appointment = record a { status = AppointmentStatus.completed } in
    let (db1, e1, f1) = >>=-eq-ok (save_appointment a' db) _ e in
    let (b, stored, id, status, start, end) = saved_appointment a' db db1 e1 in
    let rows = save_row appointment_key b db.appointments in
    let (same, released) =
      paid-Released now a (record db { appointments = rows }) db'
        (subst
          (λ (d : Db). (if is_paid_appointment a then release_payment now a d else ok d) ≡ ok db')
          stored f1) in
    let there = find-save_row appointment_key a.id b db.appointments in
    (
      (b, ground arith, status, start, end),
      Released-moved now a.lawyer_amount (payment_of a db) (record db { appointments = rows }) db
          db' refl refl released,
    )

-- The completion that `end_session` tries: nothing changes if it is not due, and otherwise the
-- appointment is completed.
pub mark_as_completed-IsCompleted :
    (now : ℕ) (a : Appointment) (db : Db)
    → ((¬ IsDue now a db) × (mark_as_completed now a db ≡ none))
      ⊎ (IsDue now a db
          × ((r : Result Db) × (mark_as_completed now a db ≡ some r)
              × ((db' : Db) → r ≡ ok db' → IsCompleted now a db db')))
unfolding mark_as_completed
mark_as_completed-IsCompleted now a db = elim (Bool-cases (can_be_marked_completed now a db)) [
  | inl y ↦ inr (
    can_be_marked_completed-IsDue now a db y,
    (complete_body now a db, rw y refl, complete_body-IsCompleted now a db),
  )
  | inr n ↦ inl ((λ d. let y = IsDue-can_be_marked_completed now a db d in cc), rw n refl)
]
