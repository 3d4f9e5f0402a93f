-- ===== src/Availability.antt =====
-- The weekly slots of the lawyers and the dates on which a lawyer is away: `Availability` and
-- `Unavailability` of lawyer_availability/models.py. Times of the day are microseconds after
-- midnight, dates are days since the epoch. Django's `full_clean` collects the errors of the field
-- checks, of `clean` and of the unique constraint, and `save` writes the row if there are none.
pub mod Slots
pub mod Query
pub mod Offered
pub mod Bulk
pub mod Copies
pub mod Away
pub mod Absences
pub mod Requests
pub mod Agendas
pub mod Owned
pub mod Calls
use juris.Base.{Bool, List, Option, exists_row, if◌then◌else◌, leb, ltb, not, ℕ, ◌&&◌, ◌==◌, ◌||◌}
use juris.Pricing.{Offering}
use juris.Table.{save_row}

pub record Availability : Type 0 where
  pub id : ℕ
  pub lawyer : ℕ
  pub day_of_week : ℕ
  pub start_time : ℕ
  pub end_time : ℕ
  pub offering : Offering
  pub is_active : Bool

-- The errors by the field that carries them; `unique` stands for the constraint
-- unique_lawyer_schedule_slot.
pub record SlotErrors : Type 0 where
  pub day_of_week : Bool
  pub end_time : Bool
  pub offering : Bool
  pub start_time : Bool
  pub unique : Bool

abbrev pub has_errors : SlotErrors → Bool
has_errors e = e.day_of_week || e.end_time || e.offering || e.start_time || e.unique

-- `a.start_time < b.end_time and a.end_time > b.start_time`
abbrev pub overlaps : ℕ → ℕ → ℕ → ℕ → Bool
overlaps start end start' end' = ltb start end' && ltb start' end

-- The slots of the query `overlapping`, with the overlap that its loop looks for.
abbrev pub clashes : Availability → Availability → Bool
clashes a s =
    (s.lawyer == a.lawyer && s.day_of_week == a.day_of_week && s.is_active)
    && overlaps a.start_time a.end_time s.start_time s.end_time

-- The columns of the unique constraint.
abbrev pub same_slot : Availability → Availability → Bool
same_slot a s =
    s.lawyer == a.lawyer
    && s.day_of_week == a.day_of_week
    && s.start_time == a.start_time
    && s.end_time == a.end_time
    && s.offering.id == a.offering.id

-- `full_clean` of a slot against the stored slots, of which `exclude(pk=self.pk)` leaves it out
unfoldable pub clean : Availability → List Availability → SlotErrors
clean a slots = record {
  day_of_week = not (leb a.day_of_week 6);
  end_time = leb a.end_time a.start_time;
  offering = not (a.offering.lawyer_profile == a.lawyer);
  start_time = a.is_active && exists_row (λ s. not (s.id == a.id) && clashes a s) slots;
  unique = exists_row (λ s. not (s.id == a.id) && same_slot a s) slots;
}

-- A save that either writes the row or raises `ValidationError`.
pub data Saved (A E : Type 0) : Type 0 where
  saved : A → Saved A E
  invalid : E → Saved A E

unfoldable pub save : Availability → List Availability → Saved (List Availability) SlotErrors
unfolding clean
save a slots =
    if has_errors (clean a slots)
    then invalid (clean a slots)
    else saved (save_row (λ (s : Availability). s.id) a slots)

-- A date on which a lawyer is away, the whole day or between two times. The kind and the reason of
-- the absence are left out: nothing reads them.
pub record Unavailability : Type 0 where
  pub id : ℕ
  pub lawyer : ℕ
  pub date : ℕ
  pub start_time : Option ℕ
  pub end_time : Option ℕ
  pub is_all_day : Bool
