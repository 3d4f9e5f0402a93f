-- ===== src/Booking/Slots.antt =====
-- The calendar that the operations keep: no two open appointments of one lawyer, or of one client,
-- overlap.
use juris.Base.{List, [], arith, false, refl, some, subst, sym, ℕ, ◌∙◌, ◌∷◌, ◌≡◌}
use juris.Booking.{double_booked}
use juris.Separate.{
  IsSeparate, IsSymmetric, Fits-of_check, in_conflict, in_conflict_of_find, save_row-IsSeparate,
}
use juris.Status.{is_open}
use juris.Store.{Appointment, Db, appointment_key, ok}
use juris.Store.Save.{save_appointment, set_refund_status}
use juris.Table.{find, find-save_row, save_row}

double_booked_symm : IsSymmetric double_booked
double_booked_symm a b = ground arith

-- No two pending or confirmed appointments of one lawyer or one client overlap.
abbrev pub IsCalendar : Db → Type 0
IsCalendar db = IsSeparate appointment_key double_booked db.appointments

save_appointment-saved :
    (a : Appointment) (db db' : Db)
    → save_appointment a db ≡ ok db'
    → db'
      ≡ record db { appointments = save_row appointment_key (set_refund_status a) db.appointments }
unfolding save_appointment
save_appointment-saved a db db' e = ground arith

-- Two values of one appointment's row that take the same time of the same people.
abbrev pub SameBooking : Appointment → Appointment → Type 0
SameBooking a b =
    (a.id ≡ b.id)
    × (is_open a.status ≡ is_open b.status)
    × (a.lawyer.id ≡ b.lawyer.id)
    × (a.client ≡ b.client)
    × (a.start_datetime ≡ b.start_datetime)
    × (a.end_datetime ≡ b.end_datetime)

pub in_conflict-same :
    (a b : Appointment) (xs : List Appointment)
    → SameBooking a b
    → in_conflict appointment_key double_booked a xs
      ≡ in_conflict appointment_key double_booked b xs
in_conflict-same a b [] h = refl
in_conflict-same a b (x ∷ xs) h = ground (arith, in_conflict-same a b xs h)

pub set_refund_status-same : (a : Appointment) → SameBooking (set_refund_status a) a
unfolding set_refund_status
set_refund_status-same a = ground arith

-- A checked appointment may be saved.
pub save_checked-IsCalendar :
    (a : Appointment) (db db' : Db)
    → IsCalendar db
    → in_conflict appointment_key double_booked a db.appointments ≡ false
    → save_appointment a db ≡ ok db'
    → IsCalendar db'
save_checked-IsCalendar a db db' h free e = rw (save_appointment-saved a db db' e) (
    save_row-IsSeparate appointment_key double_booked (set_refund_status a) db.appointments
      double_booked_symm
      (Fits-of_check appointment_key double_booked (set_refund_status a) db.appointments (
        in_conflict-same (set_refund_status a) a db.appointments (set_refund_status-same a) ∙ free))
      h)

-- So may a stored one whose times, people and openness stay.
pub save_same-IsCalendar :
    (old a : Appointment) (k : ℕ) (db db' : Db)
    → IsCalendar db
    → find appointment_key k db.appointments ≡ some old
    → SameBooking a old
    → save_appointment a db ≡ ok db'
    → IsCalendar db'
save_same-IsCalendar old a k db db' h e same s =
    save_checked-IsCalendar a db db' h
      (in_conflict-same a old db.appointments same
        ∙ in_conflict_of_find appointment_key double_booked double_booked_symm k db.appointments old
            h e)
      s

closed_calm :
    (a : Appointment) (xs : List Appointment)
    → is_open a.status ≡ false
    → in_conflict appointment_key double_booked a xs ≡ false
closed_calm a [] h = refl
closed_calm a (x ∷ xs) h = ground (arith, closed_calm a xs h)

-- So may one that is no longer open.
pub save_closed-IsCalendar :
    (a : Appointment) (db db' : Db)
    → IsCalendar db
    → is_open a.status ≡ false
    → save_appointment a db ≡ ok db'
    → IsCalendar db'
save_closed-IsCalendar a db db' h closed e =
    save_checked-IsCalendar a db db' h (closed_calm a db.appointments closed) e

-- The calendar holds, and in it is a row that takes the time and the people of this one.
abbrev pub Holds : Appointment → Db → Type 0
Holds a db =
    IsCalendar db
    × ((b : Appointment) × (find appointment_key a.id db.appointments ≡ some b) × SameBooking a b)

SameBooking-trans : (a b c : Appointment) → SameBooking a b → SameBooking c b → SameBooking c a
SameBooking-trans a b c h k = ground arith

pub stored :
    (a : Appointment) (db db' : Db)
    → save_appointment a db ≡ ok db'
    → find appointment_key a.id db'.appointments ≡ some (set_refund_status a)
stored a db db' e = rw (save_appointment-saved a db db' e) (found a db)
  where
    found :
        (a : Appointment) (db : Db)
        → find appointment_key a.id (save_row appointment_key (set_refund_status a) db.appointments)
          ≡ some (set_refund_status a)
    found a db =
        rw (find-save_row appointment_key a.id (set_refund_status a) db.appointments)
          (ground (arith, set_refund_status-same a))

-- A checked appointment is in the calendar once it is saved.
pub save_checked-Holds :
    (a : Appointment) (db db' : Db)
    → IsCalendar db
    → in_conflict appointment_key double_booked a db.appointments ≡ false
    → save_appointment a db ≡ ok db'
    → Holds a db'
save_checked-Holds a db db' h free e =
    (save_checked-IsCalendar a db db' h free e, (set_refund_status a, stored a db db' e, flip a))
  where
    flip : (a : Appointment) → SameBooking a (set_refund_status a)
    flip a = let s = set_refund_status-same a in ground arith

-- It stays there when its row is saved with another value of the same booking.
pub save_same-Holds :
    (a a' : Appointment) (db db' : Db)
    → Holds a db
    → SameBooking a a'
    → save_appointment a' db ≡ ok db'
    → Holds a' db'
save_same-Holds a a' db db' (h, (b, e, same)) same' s =
    save_checked-Holds a' db db' h
      (in_conflict-same a' b db.appointments (ground arith)
        ∙ in_conflict_of_find appointment_key double_booked double_booked_symm a.id db.appointments
            b h e)
      s

-- Other tables do not matter.
pub Holds-of_eq :
    (a : Appointment) (db db' : Db) → db'.appointments ≡ db.appointments → Holds a db → Holds a db'
Holds-of_eq a db db' e h =
    subst
      (λ (xs : List Appointment).
        IsSeparate appointment_key double_booked xs
        × ((b : Appointment) × (find appointment_key a.id xs ≡ some b) × SameBooking a b))
      (sym e) h
