-- ===== src/Availability/Bulk.antt =====
-- The operations that write many slots: `bulk_create_availability` and
-- `copy_availability_template` of lawyer_availability/views.py, and
-- `clone_availability_to_offering` of `LawyerProfile`, lawyer/models.py. A slot that a request would
-- create is saved on its own; the views count an error and go on, the clone raises. Keys are
-- drawn from a counter, which stands for `uuid4`.
use mathlib.Core.Option
use juris.Availability.{Availability, SlotErrors, invalid, same_slot, save, saved}
use juris.Availability.Query.{filter_by}
use juris.Base.{
  Bool, List, Option, [], exists_row, false, first_row, if◌then◌else◌, ltb, none, rows, some, true,
  ℕ, ◌&&◌, ◌++◌, ◌+◌, ◌==◌, ◌∷◌,
}
use juris.Clock.{day}
use juris.Pricing.{Offering}

pub record Schedule : Type 0 where
  pub slots : List Availability
  pub next_id : ℕ

-- The columns by which `get_or_create` looks a slot up, and the default.
pub record SlotData : Type 0 where
  pub lawyer : ℕ
  pub day_of_week : ℕ
  pub start_time : ℕ
  pub end_time : ℕ
  pub offering : Offering
  pub is_active : Bool

pub data Outcome : Type 0 where
  created : Availability → Outcome
  existing : Availability → Outcome
  refused : SlotErrors → Outcome

abbrev pub new_slot : ℕ → SlotData → Availability
new_slot id d = record {
  id = id;
  lawyer = d.lawyer;
  day_of_week = d.day_of_week;
  start_time = d.start_time;
  end_time = d.end_time;
  offering = d.offering;
  is_active = d.is_active;
}

-- `Availability.objects.create`
unfoldable pub create_slot : SlotData → Schedule → Outcome × Schedule
create_slot d sch = elim (save (new_slot sch.next_id d) sch.slots) [
  | saved slots ↦
      (created (new_slot sch.next_id d), record { slots = slots; next_id = sch.next_id + 1 })
  | invalid e ↦ (refused e, record sch { next_id = sch.next_id + 1 })
]

-- `Availability.objects.get_or_create`
unfoldable pub get_or_create : SlotData → Schedule → Outcome × Schedule
unfolding create_slot
get_or_create d sch = elim (first_row (same_slot (new_slot sch.next_id d)) sch.slots) [
  | some s ↦ (existing s, sch)
  | none ↦ create_slot d sch
]

-- The lists `created_slots` and `errors` of the views, the errors by their number.
pub record Report : Type 0 where
  pub created_slots : List Availability
  pub errors : ℕ

abbrev pub note : Outcome → Report → Report
note (created s) r = record r { created_slots = s ∷ r.created_slots }
note (existing s) r = record r { errors = r.errors + 1 }
note (refused e) r = record r { errors = r.errors + 1 }

-- The body of the views' loops, over the slots to be created in their order.
unfoldable pub create_all : List SlotData → Schedule → Report × Schedule
create_all [] sch = (record { created_slots = []; errors = 0 }, sch)
create_all (d ∷ ds) sch =
    let (o, sch') = get_or_create d sch in let (r, sch'') = create_all ds sch' in (note o r, sch'')

abbrev pub days_to_slots : SlotData → List ℕ → List SlotData
days_to_slots d [] = []
days_to_slots d (w ∷ ws) = record d { day_of_week = w } ∷ days_to_slots d ws

-- `bulk_create_availability`: one slot on each of the days
unfoldable pub bulk_create_availability : SlotData → List ℕ → Schedule → Report × Schedule
unfolding create_all
bulk_create_availability d days_of_week = create_all (days_to_slots d days_of_week)

abbrev pub data_of : Availability → SlotData
data_of s = record {
  lawyer = s.lawyer;
  day_of_week = s.day_of_week;
  start_time = s.start_time;
  end_time = s.end_time;
  offering = s.offering;
  is_active = s.is_active;
}

abbrev pub to_day : ℕ → List Availability → List SlotData
to_day w [] = []
to_day w (s ∷ ss) = record (data_of s) { day_of_week = w } ∷ to_day w ss

abbrev pub to_days : List ℕ → List Availability → List SlotData
to_days [] ss = []
to_days (w ∷ ws) ss = to_day w ss ++ to_days ws ss

pub data CopyReply : Type 0 where
  required : CopyReply
  bad_source_day : CopyReply
  bad_target_day : CopyReply
  no_source : CopyReply
  copied : Report → CopyReply

-- The slots of `source_availability`.
abbrev pub source_of : ℕ → ℕ → Option ℕ → Availability → Bool
source_of lawyer day offering s =
    s.lawyer == lawyer && s.day_of_week == day && s.is_active && filter_by offering s.offering.id

abbrev pub is_empty {ℓ} : {A : Type ℓ} → List A → Bool
is_empty [] = true
is_empty (_ ∷ _) = false

-- `copy_availability_template` of a lawyer, with the day of the source if it is given
unfoldable pub copy_availability_template :
    ℕ → Option ℕ → List ℕ → Option ℕ → Schedule → CopyReply × Schedule
unfolding create_all
copy_availability_template lawyer none target_days offering sch = (required, sch)
copy_availability_template lawyer (some source_day) target_days offering sch =
    let source = rows (source_of lawyer source_day offering) sch.slots in
    let (r, sch') = create_all (to_days target_days source) sch in
    if is_empty target_days
    then (required, sch)
    else if ltb 6 source_day
    then (bad_source_day, sch)
    else if exists_row (λ w. ltb 6 w) target_days
    then (bad_target_day, sch)
    else if is_empty source
    then (no_source, sch)
    else (copied r, sch')

-- The slot that the clone looks for, and creates.
abbrev pub retarget : ℕ → Offering → Availability → SlotData
retarget lawyer target s = record (data_of s) { lawyer = lawyer; offering = target }

-- `clone_availability_to_offering` for the source slots; none where a save raises, which ends the
-- loop and leaves what was written
unfoldable pub clone_slots :
    ℕ → Offering → List Availability → Schedule → Option (List Availability) × Schedule
unfolding create_slot
clone_slots lawyer target [] sch = (some [], sch)
clone_slots lawyer target (s ∷ ss) sch =
    let rest = clone_slots lawyer target ss sch in
    let made = create_slot (retarget lawyer target s) sch in
    let rest' = clone_slots lawyer target ss made.1 in
    elim (first_row (same_slot (new_slot 0 (retarget lawyer target s))) sch.slots) [
      | some x ↦ rest
      | none ↦ elim made.0 [
        | created x ↦ (Option.map (λ xs. x ∷ xs) rest'.0, rest'.1)
        | existing x ↦ rest'
        | refused e ↦ (none, made.1)
      ]
    ]

unfoldable pub clone_availability_to_offering :
    ℕ → ℕ → Offering → Schedule → Option (List Availability) × Schedule
unfolding clone_slots
clone_availability_to_offering lawyer source_offering_id target sch =
    clone_slots lawyer target
      (rows (λ s. s.lawyer == lawyer && s.offering.id == source_offering_id && s.is_active)
        sch.slots)
      sch
