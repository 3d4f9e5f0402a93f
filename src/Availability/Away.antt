-- ===== src/Availability/Away.antt =====
-- `Unavailability.clean` and `save`. For an absence of a whole day `clean` clears the times before
-- it looks for overlaps, so the row that is written has none.
use juris.Availability.{Saved, Unavailability, invalid, saved}
use juris.Availability.Query.{partly_blocks}
use juris.Base.{
  Bool, List, Option, [], false, if◌then◌else◌, is_some, leb, ltb, none, not, some, true, ℕ, ◌&&◌,
  ◌==◌, ◌||◌, ◌∷◌,
}
use juris.Table.{save_row}

abbrev pub cleared : Unavailability → Unavailability
cleared u = if u.is_all_day then record u { start_time = none; end_time = none } else u

-- The errors by the key that carries them; `times` is "Start time and end time are required" and
-- `all_day` the overlap with a whole day, both under non_field_errors.
pub record AwayErrors : Type 0 where
  pub date : Bool
  pub times : Bool
  pub end_time : Bool
  pub all_day : Bool
  pub start_time : Bool

abbrev pub has_away_errors : AwayErrors → Bool
has_away_errors e = e.date || e.times || e.end_time || e.all_day || e.start_time

-- Start and end are both given, and the start is not before the end.
abbrev pub out_of_order : Option ℕ → Option ℕ → Bool
out_of_order (some start) (some end) = leb end start
out_of_order _ _ = false

-- The `elif` of the loop.
abbrev pub times_overlap : Unavailability → Unavailability → Bool
times_overlap u v = elim u.start_time [
  | none ↦ false
  | some start ↦ elim u.end_time [
    | none ↦ false
    | some end ↦ partly_blocks start end v.start_time v.end_time
  ]
]

-- The rows of the query `overlapping`.
abbrev pub same_date : Unavailability → Unavailability → Bool
same_date u v = not (v.id == u.id) && v.lawyer == u.lawyer && v.date == u.date

-- How the loop ends: it breaks at the first row that overlaps, in either way.
pub data FirstOverlap : Type 0 where
  nothing whole_day part_of_day : FirstOverlap

unfoldable pub first_overlap : Unavailability → List Unavailability → FirstOverlap
first_overlap u [] = nothing
first_overlap u (v ∷ vs) =
    let rest = first_overlap u vs in
    if not (same_date u v)
    then rest
    else if u.is_all_day || v.is_all_day
    then whole_day
    else if times_overlap u v
    then part_of_day
    else rest

abbrev pub is_whole_day : FirstOverlap → Bool
is_whole_day whole_day = true
is_whole_day _ = false

abbrev pub is_part_of_day : FirstOverlap → Bool
is_part_of_day part_of_day = true
is_part_of_day _ = false

-- `clean` at the date of the server, once the times of a whole day are cleared
unfoldable pub clean_away : ℕ → Unavailability → List Unavailability → AwayErrors
unfolding first_overlap
clean_away today u absences = record {
  date = ltb u.date today;
  times = not u.is_all_day && not (is_some u.start_time && is_some u.end_time);
  end_time = not u.is_all_day && out_of_order u.start_time u.end_time;
  all_day = is_whole_day (first_overlap u absences);
  start_time = is_part_of_day (first_overlap u absences);
}

unfoldable pub save_away :
    ℕ → Unavailability → List Unavailability → Saved (List Unavailability) AwayErrors
unfolding clean_away
save_away today u absences =
    let u' = cleared u in
    if has_away_errors (clean_away today u' absences)
    then invalid (clean_away today u' absences)
    else saved (save_row (λ (v : Unavailability). v.id) u' absences)
