-- ===== src/Availability/Absences.antt =====
-- The invariant of the stored absences.
use juris.Availability.{Unavailability, saved}
use juris.Availability.Away.{
  clean_away, cleared, first_overlap, has_away_errors, is_part_of_day, is_whole_day, save_away,
  times_overlap,
}
use juris.Base.{
  All, Bool, List, Option, [], arith, false, if◌then◌else◌, is_some, ltb, not, refl, some, true, ℕ,
  ◌&&◌, ◌==◌, ◌||◌, ◌∷◌, ◌≡◌, ◌≤◌,
}
use juris.Separate.{Fits-of_check, IsSeparate, IsSymmetric, in_conflict, save_row-IsSeparate}
use juris.Table.{All-save_row, save_row}

abbrev pub away_id : Unavailability → ℕ
away_id u = u.id

-- Two absences of one lawyer on one date, one of them for the whole day or with times that overlap.
abbrev pub away_conflict : Unavailability → Unavailability → Bool
away_conflict u v =
    (v.lawyer == u.lawyer && v.date == u.date)
    && (u.is_all_day || v.is_all_day || times_overlap u v)

away_conflict_symm : IsSymmetric away_conflict
away_conflict_symm u v = ground arith

abbrev in_order : Option ℕ → Option ℕ → Bool
in_order (some start) (some end) = ltb start end
in_order _ _ = false

-- An absence of a whole day has no times; any other has both, the start before the end.
abbrev pub IsAbsence : Unavailability → Type 0
IsAbsence u =
    (if u.is_all_day
      then not (is_some u.start_time) && not (is_some u.end_time)
      else in_order u.start_time u.end_time)
    ≡ true

-- Every row is an absence, and on one date of a lawyer none is for the whole day beside another
-- and no two overlap.
abbrev pub AreAbsences : List Unavailability → Type 0
AreAbsences us = All IsAbsence us × IsSeparate away_id away_conflict us

check_away :
    (u : Unavailability) (us : List Unavailability)
    → is_whole_day (first_overlap u us) ≡ false
    → is_part_of_day (first_overlap u us) ≡ false
    → in_conflict away_id away_conflict u us ≡ false
unfolding first_overlap
check_away u [] h k = refl
check_away u (v ∷ us) h k = ground (arith, check_away u us)

IsAbsence-of_clean :
    (today : ℕ) (u : Unavailability) (us : List Unavailability)
    → has_away_errors (clean_away today (cleared u) us) ≡ false
    → IsAbsence (cleared u)
unfolding clean_away
IsAbsence-of_clean today u us h = ground arith

save_away-saved :
    (today : ℕ) (u : Unavailability) (us us' : List Unavailability)
    → save_away today u us ≡ saved us'
    → (has_away_errors (clean_away today (cleared u) us) ≡ false)
      × (us' ≡ save_row away_id (cleared u) us)
unfolding save_away
save_away-saved today u us us' e = ground arith

clean_away_date :
    (today : ℕ) (u : Unavailability) (us : List Unavailability)
    → has_away_errors (clean_away today (cleared u) us) ≡ false
    → today ≤ u.date
unfolding clean_away
clean_away_date today u us h = ground arith

clean_away_free :
    (today : ℕ) (u : Unavailability) (us : List Unavailability)
    → has_away_errors (clean_away today u us) ≡ false
    → in_conflict away_id away_conflict u us ≡ false
unfolding clean_away
clean_away_free today u us h = check_away u us (ground arith) (ground arith)

-- From stored absences that each have their times in order or are for the whole day, and of which
-- on one date of a lawyer none is for the whole day beside another and no two overlap, a save that
-- succeeds leads to such absences, and is for no date in the past.
pub save_away-AreAbsences :
    (today : ℕ) (u : Unavailability) (us us' : List Unavailability)
    → AreAbsences us
    → save_away today u us ≡ saved us'
    → AreAbsences us' × (today ≤ u.date)
save_away-AreAbsences today u us us' h e =
    let (good, same) = save_away-saved today u us us' e in
    let free = clean_away_free today (cleared u) us good in
    (
      rw same (
        All-save_row away_id IsAbsence (cleared u) us h.0 (IsAbsence-of_clean today u us good),
        save_row-IsSeparate away_id away_conflict (cleared u) us away_conflict_symm
            (Fits-of_check away_id away_conflict (cleared u) us free) h.1,
      ),
      clean_away_date today u us good,
    )
