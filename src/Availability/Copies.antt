-- ===== src/Availability/Copies.antt =====
-- What the operations that write many slots do to the schedule.
use juris.Availability.{
  Availability, Saved, SlotErrors, clashes, clean, has_errors, invalid, same_slot, save, saved,
}
use juris.Availability.Bulk.{
  Outcome, Report, Schedule, SlotData, bulk_create_availability, clone_availability_to_offering,
  clone_slots, copy_availability_template, create_all, create_slot, created, days_to_slots,
  existing, get_or_create, new_slot, note, refused, retarget, source_of, to_days,
}
use juris.Availability.Slots.{IsSchedule, IsSlot, save-IsSchedule}
use juris.Base.{
  All, Bool, Bool-cases, List, Option, Option-cases, [], ap, arith, exists_row, first_row, inl, inr,
  length, none, not, refl, rows, some, suc, true, ℕ, ◌&&◌, ◌+◌, ◌<◌, ◌==◌, ◌∙◌, ◌∷◌, ◌≡◌,
}
use juris.Booking.Slots.{stored}
use juris.Pricing.{Offering}

create_slot-IsSchedule :
    (d : SlotData) (sch : Schedule) → IsSchedule sch.slots → IsSchedule (create_slot d sch).1.slots
unfolding create_slot
create_slot-IsSchedule d sch h = go (save (new_slot sch.next_id d) sch.slots) refl
  where
    go :
        (r : Saved (List Availability) SlotErrors)
        → save (new_slot sch.next_id d) sch.slots ≡ r
        → IsSchedule (create_slot d sch).1.slots
    go (saved slots) e =
        rw (e, create_slot) (save-IsSchedule (new_slot sch.next_id d) sch.slots slots h e)
    go (invalid x) e = rw (e, create_slot) h

get_or_create-IsSchedule :
    (d : SlotData) (sch : Schedule)
    → IsSchedule sch.slots
    → IsSchedule (get_or_create d sch).1.slots
unfolding get_or_create
get_or_create-IsSchedule d sch h =
    elim (Option-cases (first_row (same_slot (new_slot sch.next_id d)) sch.slots)) [
      | inl missing ↦ rw (missing, get_or_create) (create_slot-IsSchedule d sch h)
      | inr (s, e) ↦ rw (e, get_or_create) h
    ]

-- However many slots a request asks for, the slots that are stored afterwards form a schedule: no
-- two active slots of a lawyer overlap on a day.
pub create_all-IsSchedule :
    (ds : List SlotData) (sch : Schedule)
    → IsSchedule sch.slots
    → IsSchedule (create_all ds sch).1.slots
unfolding create_all
create_all-IsSchedule [] sch h = h
create_all-IsSchedule (d ∷ ds) sch h =
    create_all-IsSchedule ds (get_or_create d sch).1 (get_or_create-IsSchedule d sch h)

note-counts :
    (o : Outcome) (r : Report)
    → length (note o r).created_slots + (note o r).errors ≡ length r.created_slots + r.errors + 1
note-counts (created s) r = omega arith
note-counts (existing s) r = omega arith
note-counts (refused e) r = omega arith

-- Every slot that is asked for is reported once, as created or as an error.
create_all-counts :
    (ds : List SlotData) (sch : Schedule)
    → let r = (create_all ds sch).0 in length r.created_slots + r.errors ≡ length ds
unfolding create_all
create_all-counts [] sch = omega arith
create_all-counts (d ∷ ds) sch = omega (
  arith,
  note-counts (get_or_create d sch).0 (create_all ds (get_or_create d sch).1).0,
  create_all-counts ds (get_or_create d sch).1,
)

-- The keys of the stored slots have been drawn.
abbrev pub IsDrawn : Schedule → Type 0
IsDrawn sch = All (λ (s : Availability). s.id < sch.next_id) sch.slots

-- A source slot of the clone: stored, active, of the lawyer, with its end after its start.
abbrev IsSource : ℕ → Schedule → Availability → Type 0
IsSource lawyer sch s =
    ((s.lawyer == lawyer) ≡ true)
    × (s.is_active ≡ true)
    × (s.start_time < s.end_time)
    × (s.id < sch.next_id)
    × ((p : Availability → Bool) → p s ≡ true → exists_row p sch.slots ≡ true)

-- The copy of a source slot has the times of the source slot itself, which is active too.
create_slot-refused :
    (lawyer : ℕ) (target : Offering) (s : Availability) (sch : Schedule)
    → IsSource lawyer sch s
    → has_errors (clean (new_slot sch.next_id (retarget lawyer target s)) sch.slots) ≡ true
unfolding clean
create_slot-refused lawyer target s sch (own, active, lt, drawn, stored) = ground (
  arith,
  stored
      (λ x.
        not (x.id == sch.next_id) && clashes (new_slot sch.next_id (retarget lawyer target s)) x)
      (ground arith),
)

clone_slots-unchanged :
    (lawyer : ℕ) (target : Offering) (ss : List Availability) (sch : Schedule)
    → All (IsSource lawyer sch) ss
    → (clone_slots lawyer target ss sch).1.slots ≡ sch.slots
unfolding clone_slots save
clone_slots-unchanged lawyer target [] sch h = refl
clone_slots-unchanged lawyer target (s ∷ ss) sch h = ground (
  arith,
  create_slot-refused lawyer target s sch h.0,
  clone_slots-unchanged lawyer target ss sch h.1,
)

module _ (lawyer source_offering_id : ℕ) (sch : Schedule) where
  abbrev is_source : Availability → Bool
  is_source s = s.lawyer == lawyer && s.offering.id == source_offering_id && s.is_active

  sources :
      (ys : List Availability)
      → All IsSlot ys
      → All (λ (s : Availability). s.id < sch.next_id) ys
      → ((p : Availability → Bool) → exists_row p ys ≡ true → exists_row p sch.slots ≡ true)
      → All (IsSource lawyer sch) (rows is_source ys)
  sources [] h d from = tt
  sources (s ∷ ys) h d from =
      let rest = sources ys h.1 d.1 (λ p e. from p (ground arith)) in
      elim (Bool-cases (is_source s)) [
        | inl y ↦
            rw y ((ground arith, ground arith, h.0.0, d.0, λ p e. from p (ground arith)), rest)
        | inr n ↦ rw n rest
      ]

  -- In a schedule (slots that start before they end and belong to their lawyer's offering, no two
  -- active ones of one lawyer overlapping on a day of the week) whose keys have been drawn from
  -- the counter, cloning the slots of an offering to any offering leaves the stored slots as they
  -- are.
  pub clone_availability-unchanged :
      (target : Offering)
      → IsSchedule sch.slots
      → IsDrawn sch
      → (clone_availability_to_offering lawyer source_offering_id target sch).1.slots ≡ sch.slots
  unfolding clone_availability_to_offering
  clone_availability-unchanged target h d =
      clone_slots-unchanged lawyer target (rows is_source sch.slots) sch
        (sources sch.slots h.0 d (λ p e. e))

length-days_to_slots : (d : SlotData) (ws : List ℕ) → length (days_to_slots d ws) ≡ length ws
length-days_to_slots d [] = refl
length-days_to_slots d (w ∷ ws) = ap suc (length-days_to_slots d ws)

-- From a schedule (slots that start before they end and belong to their lawyer's offering, no two
-- active ones of one lawyer overlapping on a day of the week) a bulk request leads to a schedule,
-- and it reports each of its days once, as a slot that was created or as an error.
pub bulk_create-IsSchedule :
    (d : SlotData) (days_of_week : List ℕ) (sch : Schedule)
    → IsSchedule sch.slots
    → let (r, sch') = bulk_create_availability d days_of_week sch in
      IsSchedule sch'.slots × (length r.created_slots + r.errors ≡ length days_of_week)
unfolding bulk_create_availability
bulk_create-IsSchedule d days sch h = (
  create_all-IsSchedule (days_to_slots d days) sch h,
  create_all-counts (days_to_slots d days) sch ∙ length-days_to_slots d days,
)

-- From a schedule (slots that start before they end and belong to their lawyer's offering, no two
-- active ones of one lawyer overlapping on a day of the week) copying a day's slots to other days,
-- whatever the request asks for, leads to a schedule.
pub copy_availability-IsSchedule :
    (lawyer : ℕ) (source_day : Option ℕ) (target_days : List ℕ) (offering : Option ℕ)
    (sch : Schedule)
    → IsSchedule sch.slots
    → IsSchedule (copy_availability_template lawyer source_day target_days offering sch).1.slots
unfolding copy_availability_template
copy_availability-IsSchedule lawyer none target_days offering sch h = h
copy_availability-IsSchedule lawyer (some source_day) target_days offering sch h = ground (
  arith,
  create_all-IsSchedule
      (to_days target_days (rows (source_of lawyer source_day offering) sch.slots)) sch h,
)
