-- ===== src/Availability/Slots.antt =====
-- The invariant of the stored slots: `save` of `Availability` keeps the active slots of a lawyer
-- apart on each day of the week.
use juris.Availability.{Availability, clashes, clean, has_errors, save, saved}
use juris.Base.{
  All, Bool, List, [], arith, exists_row, false, not, refl, true, ℕ, ◌&&◌, ◌<◌, ◌==◌, ◌∷◌, ◌≡◌,
}
use juris.Separate.{IsSeparate, IsSymmetric, Fits-of_check, in_conflict, save_row-IsSeparate}
use juris.Table.{All-save_row, save_row}

-- A slot starts before it ends and belongs to the lawyer of its offering.
abbrev pub IsSlot : Availability → Type 0
IsSlot a = (a.start_time < a.end_time) × ((a.offering.lawyer_profile == a.lawyer) ≡ true)

abbrev pub slot_id : Availability → ℕ
slot_id s = s.id

-- Two active slots of one lawyer that overlap on a day of the week.
abbrev pub slot_conflict : Availability → Availability → Bool
slot_conflict a b = a.is_active && clashes a b

slot_conflict_symm : IsSymmetric slot_conflict
slot_conflict_symm a b = ground arith

-- Every row is a slot, and no two active slots of a lawyer overlap on a day of the week.
abbrev pub IsSchedule : List Availability → Type 0
IsSchedule slots = All IsSlot slots × IsSeparate slot_id slot_conflict slots

-- A save that succeeds found no error and wrote the row.
pub save-saved :
    (a : Availability) (slots slots' : List Availability)
    → save a slots ≡ saved slots'
    → (has_errors (clean a slots) ≡ false) × (slots' ≡ save_row slot_id a slots)
unfolding save
save-saved a slots slots' e = ground arith

check :
    (a : Availability) (slots : List Availability)
    → (a.is_active && exists_row (λ s. not (s.id == a.id) && clashes a s) slots) ≡ false
    → in_conflict slot_id slot_conflict a slots ≡ false
check a [] h = refl
check a (s ∷ slots) h = ground (arith, check a slots)

clean_fits :
    (a : Availability) (slots : List Availability)
    → has_errors (clean a slots) ≡ false
    → IsSlot a × (in_conflict slot_id slot_conflict a slots ≡ false)
unfolding clean
clean_fits a slots h = (ground arith, check a slots (ground arith))

-- From stored slots that each start before they end and belong to their lawyer's offering, and of
-- which no two active ones of one lawyer overlap on a day of the week, a save that succeeds leads
-- to such slots.
pub save-IsSchedule :
    (a : Availability) (slots slots' : List Availability)
    → IsSchedule slots
    → save a slots ≡ saved slots'
    → IsSchedule slots'
save-IsSchedule a slots slots' h e =
    let (good, same) = save-saved a slots slots' e in
    let (own, free) = clean_fits a slots good in
    rw same (
      All-save_row slot_id IsSlot a slots h.0 own,
      save_row-IsSeparate slot_id slot_conflict a slots slot_conflict_symm
          (Fits-of_check slot_id slot_conflict a slots free) h.1,
    )
