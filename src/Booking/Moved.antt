-- ===== src/Booking/Moved.antt =====
-- What rescheduling an appointment keeps and changes.
use juris.Base.{
  Bool, Bool-cases, List, Option-cases, [], arith, exists_row, false, inl, inr, ltb, not,
  or-eq-false, or_false, refl, subst, true, ℕ, ◌&&◌, ◌==◌, ◌||◌, ◌∷◌, ◌≡◌,
}
use juris.Booking.{client_conflicts, double_booked, lawyer_conflicts}
use juris.Booking.Reschedule.{
  RescheduleReply, RescheduleRequest, is_valid_reschedule, perform_reschedule, reschedule,
  rescheduled_to,
}
use juris.Booking.Slots.{IsCalendar, save_checked-IsCalendar}
use juris.Separate.{in_conflict}
use juris.Status.{is_open}
use juris.Store.{>>=-eq-ok, Appointment, Db, Result, appointment_key, atomic, err, ok, ok_eq}
use juris.Store.Save.{save_appointment}
use juris.Table.{find}

-- With the queries of the serializer empty at a row, the row is not in conflict.
free_other :
    (own busy same_lawyer same_client before after self : Bool)
    → ((same_lawyer && (before && after) && busy) && not self) ≡ false
    → ((same_client && (before && after) && busy) && not self) ≡ false
    → (not self && (own && busy && (same_lawyer || same_client) && (after && before))) ≡ false
free_other own busy same_lawyer same_client before after self h k = ground arith

free_of_check :
    (a : Appointment) (xs : List Appointment)
    → exists_row
        (λ b. lawyer_conflicts a.lawyer.id a.start_datetime a.end_datetime b && not (b.id == a.id))
        xs
      ≡ false
    → exists_row
        (λ b. client_conflicts a.client a.start_datetime a.end_datetime b && not (b.id == a.id))
        xs
      ≡ false
    → in_conflict appointment_key double_booked a xs ≡ false
free_of_check a [] h k = refl
free_of_check a (x ∷ xs) h k =
    let (h0, h1) = or-eq-false _ _ h in
    let (k0, k1) = or-eq-false _ _ k in
    or_false
      (free_other (is_open a.status) (is_open x.status) (x.lawyer.id == a.lawyer.id)
        (x.client == a.client) (ltb x.start_datetime a.end_datetime)
        (ltb a.start_datetime x.end_datetime) (x.id == a.id) h0 k0)
      (free_of_check a xs h1 k1)

valid_is_free :
    (now : ℕ) (r : RescheduleRequest) (a : Appointment) (db : Db)
    → is_valid_reschedule now r a db ≡ true
    → in_conflict appointment_key double_booked
        (rescheduled_to now r.user r.new_start_datetime a)
        db.appointments
      ≡ false
unfolding is_valid_reschedule rescheduled_to
valid_is_free now r a db h =
    free_of_check (rescheduled_to now r.user r.new_start_datetime a) db.appointments (ground arith)
      (ground arith)

perform_reschedule-IsCalendar :
    (now : ℕ) (r : RescheduleRequest) (a : Appointment) (db : Db) (p : RescheduleReply × Db)
    → IsCalendar db
    → is_valid_reschedule now r a db ≡ true
    → perform_reschedule now r a db ≡ ok p
    → IsCalendar p.1
unfolding perform_reschedule
perform_reschedule-IsCalendar now r a db p h valid e =
    let a' = rescheduled_to now r.user r.new_start_datetime a in
    let (db', e1, f1) = >>=-eq-ok (save_appointment a' db) _ e in
    subst (λ (q : RescheduleReply × Db). IsCalendar q.1) (ok_eq f1)
      (save_checked-IsCalendar a' db db' h (valid_is_free now r a db valid) e1)

reschedule_found-IsCalendar :
    (now : ℕ) (r : RescheduleRequest) (a : Appointment) (db : Db)
    → IsCalendar db
    → is_valid_reschedule now r a db ≡ true
    → IsCalendar (atomic RescheduleReply.server_error db (perform_reschedule now r a db)).1
reschedule_found-IsCalendar now r a db h valid =
    kept (perform_reschedule now r a db)
      (λ p e. perform_reschedule-IsCalendar now r a db p h valid e)
  where
    kept :
        (m : Result (RescheduleReply × Db))
        → ((p : RescheduleReply × Db) → m ≡ ok p → IsCalendar p.1)
        → IsCalendar (atomic RescheduleReply.server_error db m).1
    kept (ok p) k = k p refl
    kept (err x) k = h

-- From a state in which no two pending or confirmed appointments of one lawyer, or of one client,
-- overlap, a request to reschedule, however it ends, leads to such a state.
pub reschedule-IsCalendar :
    (now : ℕ) (r : RescheduleRequest) (db : Db) → IsCalendar db → IsCalendar (reschedule now r db).1
unfolding reschedule
reschedule-IsCalendar now r db h =
    elim (Option-cases (find appointment_key r.appointment_id db.appointments)) [
      | inl n ↦ ground arith
      | inr (a, e) ↦ elim (Bool-cases (is_valid_reschedule now r a db)) [
        | inr bad ↦ ground arith
        | inl valid ↦ ground (arith, reschedule_found-IsCalendar now r a db h valid)
      ]
    ]
