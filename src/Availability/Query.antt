-- ===== src/Availability/Query.antt =====
-- What the slots and the absences say of a date: `is_available_at_time_with_offering` and
-- `get_availability_for_date_with_offerings` of `LawyerProfile`, lawyer/models.py.
use juris.Availability.{Availability, Unavailability}
use juris.Base.{
  Bool, List, Option, exists_row, false, leb, ltb, none, not, rows, some, true, ℕ, ◌&&◌, ◌==◌, ◌||◌,
}
use juris.Clock.{date, weekday}

-- `unavail.start_time and unavail.end_time and start < unavail.end_time and end > unavail.start_time`
abbrev pub partly_blocks : ℕ → ℕ → Option ℕ → Option ℕ → Bool
partly_blocks start end (some from) (some to) = ltb start to && ltb from end
partly_blocks start end _ _ = false

-- The test that both loops over `unavailable_periods` make.
abbrev pub blocks : ℕ → ℕ → Unavailability → Bool
blocks start end u = u.is_all_day || partly_blocks start end u.start_time u.end_time

-- `self.unavailabilities.filter(date=date)`, for the lawyer
abbrev pub away_on : ℕ → ℕ → Unavailability → Bool
away_on lawyer date u = u.lawyer == lawyer && u.date == date

-- An optional filter: no restriction if it is not given.
abbrev pub filter_by : Option ℕ → ℕ → Bool
filter_by none k = true
filter_by (some o) k = k == o

-- The rows of `availability_query`.
abbrev pub covers : ℕ → ℕ → ℕ → ℕ → Option ℕ → Availability → Bool
covers lawyer weekday start end offering s =
    s.lawyer == lawyer
    && s.day_of_week == weekday
    && s.is_active
    && s.offering.is_active
    && leb s.start_time start
    && leb end s.end_time
    && filter_by offering s.offering.id

unfoldable pub is_available_at_time_with_offering :
    List Availability → List Unavailability → ℕ → ℕ → ℕ → ℕ → Option ℕ → Bool
is_available_at_time_with_offering slots absences lawyer date start end offering =
    exists_row (covers lawyer (weekday date) start end offering) slots
    && not (exists_row (λ u. away_on lawyer date u && blocks start end u) absences)

-- The slots of the query `availability_slots`.
abbrev pub listed_on : ℕ → ℕ → Availability → Bool
listed_on lawyer weekday s =
    s.lawyer == lawyer && s.day_of_week == weekday && s.is_active && s.offering.is_active

-- The slots that are returned for a date; their order by start time is left out.
unfoldable pub get_availability_for_date_with_offerings :
    List Availability → List Unavailability → ℕ → ℕ → List Availability
get_availability_for_date_with_offerings slots absences lawyer date =
    rows
      (λ s.
        listed_on lawyer (weekday date) s
        && not
            (exists_row (λ u. away_on lawyer date u && blocks s.start_time s.end_time u) absences))
      slots
