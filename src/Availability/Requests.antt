-- ===== src/Availability/Requests.antt =====
-- The requests that change slots and absences: the views of lawyer_availability/views.py with the
-- serializers of lawyer_availability/serializers.py that validate their data. An update gives every
-- column, as PUT does. The user is logged in with the permissions of lawyer/permissions.py.
use juris.Availability.{Availability, Saved, Unavailability, invalid, save, saved}
use juris.Availability.Absences.{away_id}
use juris.Availability.Away.{out_of_order, save_away}
use juris.Availability.Bulk.{
  CopyReply, Report, Schedule, SlotData, bulk_create_availability, copy_availability_template,
  new_slot,
}
use juris.Availability.Slots.{slot_id}
use juris.Base.{
  Bool, List, Option, [], exists_row, false, if◌then◌else◌, is_some, leb, length, ltb, none, not,
  rows, some, ℕ, ◌&&◌, ◌*◌, ◌+◌, ◌==◌, ◌||◌, ◌∷◌,
}
use juris.Clock.{hour, minute}
use juris.Permissions.{
  Requester, Resource, availability, may_act_as_lawyer, may_read_logged_in_or_act, may_write,
  unavailability,
}
use juris.Table.{delete_row, find}

-- The user of each lawyer's profile, and the profile of a user.
pub record Lawyers : Type 0 where
  pub user_of : ℕ → ℕ
  pub profile_of : ℕ → Option ℕ

-- A slot as the permissions see it.
abbrev pub slot_resource : Lawyers → Availability → Resource
slot_resource lawyers s =
    availability (lawyers.user_of s.lawyer) (lawyers.user_of s.offering.lawyer_profile)

pub record Agenda : Type 0 where
  pub schedule : Schedule
  pub absences : List Unavailability
  pub next_absence : ℕ

pub data SlotReply : Type 0 where
  slot_forbidden : SlotReply  -- 403
  slot_invalid : SlotReply  -- 400
  slot_missing : SlotReply  -- 404
  no_profile : SlotReply  -- 404, or an error
  slot_saved : SlotReply  -- 201 or 200
  slot_deleted : SlotReply  -- 204
  cleared_rows : ℕ → SlotReply  -- 200, with the number
  bulk_report : Report → SlotReply  -- 201 or 400
  copy_report : CopyReply → SlotReply  -- 201 or 400
  date_fails : SlotReply  -- 500

abbrev pub between : ℕ → ℕ → ℕ → Bool
between from to t = leb from t && leb t to

-- `AvailabilityCreateUpdateSerializer`; the profile is that of the user
unfoldable pub is_slot_data : Option ℕ → SlotData → Bool
is_slot_data none d = false
is_slot_data (some profile) d =
    leb d.day_of_week 6
    && between (6 * hour) (22 * hour) d.start_time
    && between (7 * hour) (23 * hour + 59 * minute) d.end_time
    && d.offering.lawyer_profile == profile
    && ltb d.start_time d.end_time

abbrev pub has_duplicates : List ℕ → Bool
has_duplicates [] = false
has_duplicates (w ∷ ws) = exists_row (λ v. v == w) ws || has_duplicates ws

-- `AvailabilityBulkCreateSerializer`
unfoldable pub is_bulk_data : ℕ → SlotData → List ℕ → Bool
is_bulk_data profile d days =
    between 1 7 (length days)
    && not (exists_row (λ w. ltb 6 w) days)
    && not (has_duplicates days)
    && d.offering.lawyer_profile == profile
    && ltb d.start_time d.end_time

-- `UnavailabilityCreateUpdateSerializer`; the limit is the date two years from today, which on the 29th
-- of February is an error
unfoldable pub check_absence : ℕ → Option ℕ → Unavailability → SlotReply
check_absence today none u = date_fails
check_absence today (some limit) u =
    if leb u.date limit
      && leb today u.date
      && (u.is_all_day
          || (is_some u.start_time
              && is_some u.end_time
              && not (out_of_order u.start_time u.end_time)))
    then slot_saved
    else slot_invalid

abbrev pub with_slots : Schedule → Agenda → Agenda
with_slots sch g = record g { schedule = sch }

abbrev pub with_absences : List Unavailability → Agenda → Agenda
with_absences us g = record g { absences = us }

abbrev pub answer_save :
    {A E : Type 0} → Saved A E → (A → Agenda → Agenda) → Agenda → SlotReply × Agenda
answer_save (saved x) write g = (slot_saved, write x g)
answer_save (invalid e) write g = (slot_invalid, g)

module _ (lawyers : Lawyers) (u : Requester) where
  -- `AvailabilityListCreateView.perform_create`
  unfoldable pub post_availability : SlotData → Agenda → SlotReply × Agenda
  unfolding is_slot_data
  post_availability d g = elim (lawyers.profile_of u.id) [
    | none ↦ (if may_read_logged_in_or_act false u then slot_invalid else slot_forbidden, g)
    | some profile ↦
        let sch = g.schedule in
        let a = new_slot sch.next_id (record d { lawyer = profile }) in
        if not (may_read_logged_in_or_act false u)
        then (slot_forbidden, g)
        else if not (is_slot_data (some profile) d)
        then (slot_invalid, g)
        else answer_save (save a sch.slots)
            (λ slots. with_slots (record { slots = slots; next_id = sch.next_id + 1 })) g
  ]

  -- `AvailabilityDetailView`, the update: the lawyer of the slot stays
  unfoldable pub put_availability : ℕ → SlotData → Agenda → SlotReply × Agenda
  unfolding is_slot_data
  put_availability pk d g = elim (find slot_id pk g.schedule.slots) [
    | none ↦ (if may_read_logged_in_or_act false u then slot_missing else slot_forbidden, g)
    | some s ↦
        let a = new_slot s.id (record d { lawyer = s.lawyer }) in
        if not (may_write u (slot_resource lawyers s))
        then (slot_forbidden, g)
        else if not (is_slot_data (lawyers.profile_of u.id) d)
        then (slot_invalid, g)
        else answer_save (save a g.schedule.slots)
            (λ slots. with_slots (record (g.schedule) { slots = slots })) g
  ]

  -- `AvailabilityDetailView.destroy`
  unfoldable pub delete_availability : ℕ → Agenda → SlotReply × Agenda
  delete_availability pk g = elim (find slot_id pk g.schedule.slots) [
    | none ↦ (if may_read_logged_in_or_act false u then slot_missing else slot_forbidden, g)
    | some s ↦
        if may_write u (slot_resource lawyers s)
        then (
          slot_deleted,
          with_slots (record (g.schedule) { slots = delete_row slot_id pk g.schedule.slots }) g,
        )
        else (slot_forbidden, g)
  ]

  -- The function views for lawyers: the permission, then the profile
  abbrev pub lawyer_request : (ℕ → Agenda → SlotReply × Agenda) → Agenda → SlotReply × Agenda
  lawyer_request f g = elim (lawyers.profile_of u.id) [
    | none ↦ (if may_act_as_lawyer u then no_profile else slot_forbidden, g)
    | some profile ↦ if may_act_as_lawyer u then f profile g else (slot_forbidden, g)
  ]

  -- `bulk_create_availability`
  unfoldable pub bulk_request : SlotData → List ℕ → Agenda → SlotReply × Agenda
  unfolding is_bulk_data
  bulk_request d days = lawyer_request (λ profile g.
      let (r, sch) = bulk_create_availability (record d { lawyer = profile }) days g.schedule in
      if is_bulk_data profile d days then (bulk_report r, with_slots sch g) else (slot_invalid, g))

  -- `copy_availability_template`
  unfoldable pub copy_request : Option ℕ → List ℕ → Option ℕ → Agenda → SlotReply × Agenda
  copy_request source_day target_days offering = lawyer_request (λ profile g.
      let (r, sch) =
        copy_availability_template profile source_day target_days offering g.schedule in
      (copy_report r, with_slots sch g))

  -- `clear_all_availability`
  unfoldable pub clear_all_availability : Agenda → SlotReply × Agenda
  clear_all_availability = lawyer_request (λ profile g.
      let others = rows (λ (s : Availability). not (s.lawyer == profile)) g.schedule.slots in
      (
        cleared_rows (length (rows (λ (s : Availability). s.lawyer == profile) g.schedule.slots)),
        with_slots (record (g.schedule) { slots = others }) g,
      ))

  -- `UnavailabilityListCreateView.perform_create`
  unfoldable pub post_unavailability : ℕ → Option ℕ → Unavailability → Agenda → SlotReply × Agenda
  unfolding check_absence
  post_unavailability today limit v g =
      if not (may_read_logged_in_or_act false u)
      then (slot_forbidden, g)
      else elim (check_absence today limit v) [
        | slot_saved ↦ elim (lawyers.profile_of u.id) [
          | none ↦ (no_profile, g)
          | some profile ↦
              answer_save
                (save_away today (record v { id = g.next_absence; lawyer = profile }) g.absences)
                (λ us h. record h { absences = us; next_absence = g.next_absence + 1 }) g
        ]
        | r ↦ (r, g)
      ]

  -- `UnavailabilityDetailView`, the update
  unfoldable pub put_unavailability :
      ℕ → Option ℕ → ℕ → Unavailability → Agenda → SlotReply × Agenda
  unfolding check_absence
  put_unavailability today limit pk v g = elim (find away_id pk g.absences) [
    | none ↦ (if may_read_logged_in_or_act false u then slot_missing else slot_forbidden, g)
    | some old ↦
        if not (may_write u (unavailability (lawyers.user_of old.lawyer)))
        then (slot_forbidden, g)
        else elim (check_absence today limit v) [
          | slot_saved ↦
              answer_save
                (save_away today (record v { id = old.id; lawyer = old.lawyer }) g.absences)
                with_absences g
          | r ↦ (r, g)
        ]
  ]

  -- `UnavailabilityDetailView.destroy`
  unfoldable pub delete_unavailability : ℕ → Agenda → SlotReply × Agenda
  delete_unavailability pk g = elim (find away_id pk g.absences) [
    | none ↦ (if may_read_logged_in_or_act false u then slot_missing else slot_forbidden, g)
    | some old ↦
        if may_write u (unavailability (lawyers.user_of old.lawyer))
        then (slot_deleted, with_absences (delete_row away_id pk g.absences) g)
        else (slot_forbidden, g)
  ]

  -- `clear_past_unavailability`
  unfoldable pub clear_past_unavailability : ℕ → Agenda → SlotReply × Agenda
  clear_past_unavailability today = lawyer_request (λ profile g.
      let is_past : Unavailability → Bool = λ v. v.lawyer == profile && ltb v.date today in
      (
        cleared_rows (length (rows is_past g.absences)),
        with_absences (rows (λ v. not (is_past v)) g.absences) g,
      ))
