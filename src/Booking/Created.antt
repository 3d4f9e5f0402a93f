-- ===== src/Booking/Created.antt =====
-- What creating an appointment keeps and gives.
use juris.Base.{
  Bool, Bool-cases, List, Option, Option-cases, [], and_false_right, ap, arith, exists_row, false,
  inl, inr, ltb, none, not, or-eq-false, or_false, refl, some, subst, sym, true, ℕ, ◌&&◌, ◌*◌, ◌+◌,
  ◌==◌, ◌||◌, ◌∙◌, ◌∷◌, ◌≡◌,
}
use juris.Booking.{client_conflicts, double_booked, lawyer_conflicts}
use juris.Booking.Create.{
  CreateReply, CreateRequest, create_appointment, create_body, create_free, create_paid,
  create_payment_intent, create_payment_transaction, creation_failed, get_or_create_wallet,
  lawyer_key, new_appointment, offering_type_key, perform_create_with_validation,
  schedule_appointment_reminder, validate_booking_rules,
}
use juris.Booking.Slots.{
  Holds, Holds-of_eq, IsCalendar, SameBooking, in_conflict-same, save_checked-Holds,
  save_same-Holds, set_refund_status-same,
}
use juris.Clock.{hour, minute}
use juris.Pricing.{OfferingType}
use juris.Separate.{in_conflict}
use juris.Status.{AppointmentStatus, is_open}
use juris.Store.{
  >>=-eq-ok, Appointment, Db, Lawyer, Result, Transaction, appointment_key, atomic, err, ok, ok_eq,
}
use juris.Store.Save.{
  create_transaction, is_paid_appointment, save_appointment, save_transaction,
  save_transaction-saved, set_refund_status,
}
use juris.Table.{find}

-- The check of rules 6 and 7 for the row that is created.
rules_free :
    (now client : ℕ) (lawyer : Lawyer) (t : OfferingType) (start end duration : ℕ) (db : Db)
    → validate_booking_rules now client lawyer t start end duration db ≡ ok tt
    → (exists_row (lawyer_conflicts lawyer.id start end) db.appointments ≡ false)
      × (exists_row (client_conflicts client start end) db.appointments ≡ false)
unfolding validate_booking_rules
rules_free now client lawyer t start end duration db h = ground arith

-- With the two queries empty at a row, the row is not in conflict.
free_row :
    (own busy same_lawyer same_client before after : Bool)
    → (same_lawyer && (before && after) && busy) ≡ false
    → (same_client && (before && after) && busy) ≡ false
    → (own && busy && (same_lawyer || same_client) && (after && before)) ≡ false
free_row own busy same_lawyer same_client before after h k = ground arith

free_of_rules :
    (a : Appointment) (xs : List Appointment)
    → exists_row (lawyer_conflicts a.lawyer.id a.start_datetime a.end_datetime) xs ≡ false
    → exists_row (client_conflicts a.client a.start_datetime a.end_datetime) xs ≡ false
    → in_conflict appointment_key double_booked a xs ≡ false
free_of_rules a [] h k = refl
free_of_rules a (x ∷ xs) h k =
    let (h0, h1) = or-eq-false _ _ h in
    let (k0, k1) = or-eq-false _ _ k in
    or_false
      (and_false_right (not (x.id == a.id)) (
        free_row (is_open a.status) (is_open x.status) (x.lawyer.id == a.lawyer.id)
          (x.client == a.client) (ltb x.start_datetime a.end_datetime)
          (ltb a.start_datetime x.end_datetime) h0 k0))
      (free_of_rules a xs h1 k1)

-- What `perform_create_with_validation` has done when it returns.
perform_create_lem :
    (now : ℕ) (r : CreateRequest) (db db' : Db) (a : Appointment)
    → perform_create_with_validation now r db ≡ ok (a, db')
    → (l : Lawyer) × (t : OfferingType) × (find lawyer_key r.lawyer_id db.lawyers ≡ some l)
      × (find offering_type_key r.offering_type_id db.offering_types ≡ some t)
      × (a
          ≡ set_refund_status
              (new_appointment db.next_id r.user l t r.start_datetime r.duration_minutes))
      × (validate_booking_rules now r.user l t r.start_datetime
            (r.start_datetime + r.duration_minutes * minute)
            r.duration_minutes
            db
          ≡ ok tt)
      × (save_appointment a (record db { next_id = db.next_id + 1 }) ≡ ok db')
unfolding perform_create_with_validation
perform_create_lem now r db db' a h = elim (Option-cases (find lawyer_key r.lawyer_id db.lawyers)) [
  | inl n ↦ absurd (ground arith)
  | inr (l, el) ↦
      elim (Option-cases (find offering_type_key r.offering_type_id db.offering_types)) [
        | inl n ↦ absurd (ground arith)
        | inr (t, et) ↦ (l, t, el, et, ground arith, ground arith, ground arith)
      ]
]

get_or_create_wallet-appointments :
    (lawyer : ℕ) (db : Db) → (get_or_create_wallet lawyer db).1.appointments ≡ db.appointments
unfolding get_or_create_wallet
get_or_create_wallet-appointments lawyer db = ground arith

create_payment_transaction-appointments :
    (a : Appointment) (key : ℕ) (db db' : Db) (t : Transaction)
    → create_payment_transaction a key db ≡ ok (t, db')
    → db'.appointments ≡ db.appointments
unfolding create_payment_transaction create_transaction
create_payment_transaction-appointments a key db db' t h =
    ground (arith, get_or_create_wallet-appointments a.lawyer.id db)

unchanged : (a : Appointment) → SameBooking a a
unchanged a = (refl, refl, refl, refl, refl, refl)

-- The result of a step is an appointment and a state that holds it, with the booking unchanged.
abbrev Books : Appointment → Appointment × Db → Type 0
Books a p = Holds p.0 p.1 × SameBooking p.0 a

create_payment_intent-Books :
    (intent : Option ℕ) (a : Appointment) (t : Transaction) (db : Db) (p : Appointment × Db)
    → Holds a db
    → create_payment_intent intent a t db ≡ ok p
    → Books a p
unfolding create_payment_intent
create_payment_intent-Books none a t db p h e = absurd (ground arith)
create_payment_intent-Books (some i) a t db p h e =
    let a' : Appointment = record a { stripe_payment_intent_id = some i } in
    let (db1, e1, f1) = >>=-eq-ok (save_appointment a' db) _ e in
    let (db2, e2, f2) = >>=-eq-ok (save_transaction _ db1) _ f1 in
    subst (Books a) (ok_eq f2) (
      Holds-of_eq a' db1 db2 (ap (λ (d : Db). d.appointments) (save_transaction-saved _ db1 db2 e2))
          (save_same-Holds a a' db db1 h (unchanged a) e1),
      unchanged a,
    )

create_paid-IsCalendar :
    (intent : Option ℕ) (key : ℕ) (a : Appointment) (db : Db) (p : CreateReply × Db)
    → Holds a db
    → create_paid intent key a db ≡ ok p
    → IsCalendar p.1
unfolding create_paid
create_paid-IsCalendar intent key a db p h e =
    let ((t, db1), e1, f1) = >>=-eq-ok (create_payment_transaction a key db) _ e in
    let ((a', db2), e2, f2) = >>=-eq-ok (create_payment_intent intent a t db1) _ f1 in
    let (db3, e3, f3) =
      >>=-eq-ok
        (save_appointment (record a' { payment_task_id = some db2.next_id })
          (record db2 { next_id = db2.next_id + 1 }))
        _ f2 in
    let held = Holds-of_eq a db db1 (create_payment_transaction-appointments a key db db1 t e1) h in
    let (held', _) = create_payment_intent-Books intent a t db1 (a', db2) held e2 in
    subst (λ (q : CreateReply × Db). IsCalendar q.1) (ok_eq f3)
      (save_same-Holds a' (record a' { payment_task_id = some db2.next_id })
        (record db2 { next_id = db2.next_id + 1 }) db3 held' (unchanged a') e3).0

pub schedule_appointment_reminder-Holds :
    (now : ℕ) (a : Appointment) (db : Db) (p : Appointment × Db)
    → Holds a db
    → schedule_appointment_reminder now a db ≡ ok p
    → IsCalendar p.1
unfolding schedule_appointment_reminder
schedule_appointment_reminder-Holds now a db p h e =
    elim (Bool-cases (ltb (now + 24 * hour) a.start_datetime)) [
      | inl later ↦
          let a' : Appointment = record a { reminder_task_id = some db.next_id } in
          let (db1, e1, f1) =
            >>=-eq-ok (save_appointment a' (record db { next_id = db.next_id + 1 })) _
              (rw later at e) in
          subst (λ (q : Appointment × Db). IsCalendar q.1) (ok_eq f1)
            (save_same-Holds a a' (record db { next_id = db.next_id + 1 }) db1 h (unchanged a) e1).0
      | inr soon ↦ subst (λ (q : Appointment × Db). IsCalendar q.1) (ok_eq (rw soon at e)) h.0
    ]

create_free-IsCalendar :
    (now : ℕ) (a : Appointment) (db : Db) (p : CreateReply × Db)
    → is_open a.status ≡ true
    → Holds a db
    → create_free now a db ≡ ok p
    → IsCalendar p.1
unfolding create_free
create_free-IsCalendar now a db p o h e =
    let a' : Appointment = record a { status = AppointmentStatus.confirmed } in
    let (db1, e1, f1) = >>=-eq-ok (save_appointment a' db) _ e in
    let ((a'', db2), e2, f2) = >>=-eq-ok (schedule_appointment_reminder now a' db1) _ f1 in
    let held = save_same-Holds a a' db db1 h (refl, o, refl, refl, refl, refl) e1 in
    subst (λ (q : CreateReply × Db). IsCalendar q.1) (ok_eq f2)
      (schedule_appointment_reminder-Holds now a' db1 (a'', db2) held e2)

perform_create-Holds :
    (now : ℕ) (r : CreateRequest) (db db' : Db) (a : Appointment)
    → IsCalendar db
    → perform_create_with_validation now r db ≡ ok (a, db')
    → Holds a db' × (is_open a.status ≡ true)
unfolding new_appointment
perform_create-Holds now r db db' a h e =
    let (l, t, el, et, same, rules, s) = perform_create_lem now r db db' a e in
    let n = new_appointment db.next_id r.user l t r.start_datetime r.duration_minutes in
    let (no_lawyer, no_client) =
      rules_free now r.user l t r.start_datetime (r.start_datetime + r.duration_minutes * minute)
        r.duration_minutes db rules in
    let like : SameBooking (set_refund_status n) n = set_refund_status-same n in
    (
      save_checked-Holds a (record db { next_id = db.next_id + 1 }) db' h
          (subst (λ z. in_conflict appointment_key double_booked z db.appointments ≡ false)
            (sym same)
            (in_conflict-same (set_refund_status n) n db.appointments like
              ∙ free_of_rules n db.appointments no_lawyer no_client))
          s,
      subst (λ (z : Appointment). is_open z.status ≡ true) (sym same) like.1,
    )

create_body-IsCalendar :
    (now : ℕ) (intent : Option ℕ) (r : CreateRequest) (db : Db) (p : CreateReply × Db)
    → IsCalendar db
    → create_body now intent r db ≡ ok p
    → IsCalendar p.1
unfolding create_body
create_body-IsCalendar now intent r db p h e =
    let ((a, db1), e1, f1) = >>=-eq-ok (perform_create_with_validation now r db) _ e in
    let (held, busy) = perform_create-Holds now r db db1 a h e1 in
    elim (Bool-cases (is_paid_appointment a)) [
      | inl paid ↦ create_paid-IsCalendar intent r.idempotency_key a db1 p held (rw paid at f1)
      | inr free ↦ create_free-IsCalendar now a db1 p busy held (rw free at f1)
    ]

-- From a state in which no two pending or confirmed appointments of one lawyer, or of one client,
-- overlap, a request to create an appointment, whatever it asks for and however it ends, leads to
-- such a state.
pub create_appointment-IsCalendar :
    (now : ℕ) (intent : Option ℕ) (r : CreateRequest) (db : Db)
    → IsCalendar db
    → IsCalendar (create_appointment now intent r db).1
unfolding create_appointment
create_appointment-IsCalendar now intent r db h = go (create_body now intent r db) refl
  where
    kept :
        (m : Result (CreateReply × Db))
        → ((p : CreateReply × Db) → m ≡ ok p → IsCalendar p.1)
        → IsCalendar (atomic creation_failed db m).1
    kept (ok p) k = k p refl
    kept (err x) k = h

    go :
        (m : Result (CreateReply × Db))
        → create_body now intent r db ≡ m
        → IsCalendar (create_appointment now intent r db).1
    go m e = ground (
      arith,
      kept (create_body now intent r db) (λ p. create_body-IsCalendar now intent r db p h),
    )
