-- ===== src/Availability/Calls.antt =====
-- Sequences of the requests that change slots and absences.
use juris.Availability.{Availability, Unavailability}
use juris.Availability.Absences.{IsAbsence, away_conflict, away_id}
use juris.Availability.Agendas.{
  IsAgenda, bulk_request-IsAgenda, delete_availability-IsAgenda, delete_unavailability-IsAgenda,
  lawyer_request-IsAgenda, post_availability-IsAgenda, post_unavailability-IsAgenda,
  put_availability-IsAgenda, put_unavailability-IsAgenda,
}
use juris.Availability.Bulk.{SlotData, copy_availability_template}
use juris.Availability.Copies.{copy_availability-IsSchedule}
use juris.Availability.Requests.{
  Agenda, Lawyers, SlotReply, bulk_request, clear_all_availability, clear_past_unavailability,
  cleared_rows, copy_report, copy_request, delete_availability, delete_unavailability,
  post_availability, post_unavailability, put_availability, put_unavailability, with_absences,
  with_slots,
}
use juris.Availability.Slots.{IsSlot, slot_conflict, slot_id}
use juris.Base.{Bool, List, Option, [], length, ltb, not, rows, ℕ, ◌&&◌, ◌==◌, ◌∷◌}
use juris.Permissions.{Requester}
use juris.Separate.{All-rows, rows-IsSeparate}

-- A request of a user.
pub data SlotCall : Type 0 where
  posts_slot : SlotData → SlotCall
  puts_slot : ℕ → SlotData → SlotCall
  deletes_slot : ℕ → SlotCall
  asks_bulk : SlotData → List ℕ → SlotCall
  asks_copy : Option ℕ → List ℕ → Option ℕ → SlotCall
  clears_slots : SlotCall
  posts_absence : ℕ → Option ℕ → Unavailability → SlotCall
  puts_absence : ℕ → Option ℕ → ℕ → Unavailability → SlotCall
  deletes_absence : ℕ → SlotCall
  clears_past : ℕ → SlotCall

module _ (lawyers : Lawyers) where
  unfoldable pub slot_call : Requester → SlotCall → Agenda → SlotReply × Agenda
  slot_call u (posts_slot d) = post_availability lawyers u d
  slot_call u (puts_slot pk d) = put_availability lawyers u pk d
  slot_call u (deletes_slot pk) = delete_availability lawyers u pk
  slot_call u (asks_bulk d days) = bulk_request lawyers u d days
  slot_call u (asks_copy source targets offering) = copy_request lawyers u source targets offering
  slot_call u clears_slots = clear_all_availability lawyers u
  slot_call u (posts_absence today limit v) = post_unavailability lawyers u today limit v
  slot_call u (puts_absence today limit pk v) = put_unavailability lawyers u today limit pk v
  slot_call u (deletes_absence pk) = delete_unavailability lawyers u pk
  slot_call u (clears_past today) = clear_past_unavailability lawyers u today

  abbrev pub slot_calls : List (Requester × SlotCall) → Agenda → Agenda
  slot_calls [] g = g
  slot_calls ((u, c) ∷ cs) g = slot_calls cs (slot_call u c g).1

  copy_request-IsAgenda :
      (u : Requester) (source : Option ℕ) (targets : List ℕ) (offering : Option ℕ) (g : Agenda)
      → IsAgenda g
      → IsAgenda (copy_request lawyers u source targets offering g).1
  unfolding copy_request
  copy_request-IsAgenda u source targets offering g h =
      let body : ℕ → Agenda → SlotReply × Agenda = λ profile a.
        let (r, sch) = copy_availability_template profile source targets offering a.schedule in
        (copy_report r, with_slots sch a) in
      lawyer_request-IsAgenda lawyers u body g h (λ profile.
        (copy_availability-IsSchedule profile source targets offering g.schedule h.0, h.1))

  clear_all_availability-IsAgenda :
      (u : Requester) (g : Agenda) → IsAgenda g → IsAgenda (clear_all_availability lawyers u g).1
  unfolding clear_all_availability
  clear_all_availability-IsAgenda u g h =
      let others : ℕ → Availability → Bool = λ profile s. not (s.lawyer == profile) in
      let body : ℕ → Agenda → SlotReply × Agenda = λ profile a. (
        cleared_rows (length (rows (λ (s : Availability). s.lawyer == profile) a.schedule.slots)),
        with_slots (record (a.schedule) { slots = rows (others profile) a.schedule.slots }) a,
      ) in
      lawyer_request-IsAgenda lawyers u body g h (λ profile. (
        (
          All-rows slot_id slot_conflict IsSlot (others profile) g.schedule.slots h.0.0,
          rows-IsSeparate slot_id slot_conflict (others profile) g.schedule.slots h.0.1,
        ),
        h.1,
      ))

  clear_past_unavailability-IsAgenda :
      (u : Requester) (today : ℕ) (g : Agenda)
      → IsAgenda g
      → IsAgenda (clear_past_unavailability lawyers u today g).1
  unfolding clear_past_unavailability
  clear_past_unavailability-IsAgenda u today g h =
      let is_past : ℕ → Unavailability → Bool =
        λ profile v. v.lawyer == profile && ltb v.date today in
      let body : ℕ → Agenda → SlotReply × Agenda = λ profile a. (
        cleared_rows (length (rows (is_past profile) a.absences)),
        with_absences (rows (λ v. not (is_past profile v)) a.absences) a,
      ) in
      lawyer_request-IsAgenda lawyers u body g h (λ profile. (
        h.0,
        (
          All-rows away_id away_conflict IsAbsence (λ v. not (is_past profile v)) g.absences h.1.0,
          rows-IsSeparate away_id away_conflict (λ v. not (is_past profile v)) g.absences h.1.1,
        ),
      ))

  slot_call-IsAgenda :
      (u : Requester) (c : SlotCall) (g : Agenda) → IsAgenda g → IsAgenda (slot_call u c g).1
  unfolding slot_call
  slot_call-IsAgenda u (posts_slot d) g h = post_availability-IsAgenda lawyers u d g h
  slot_call-IsAgenda u (puts_slot pk d) g h = put_availability-IsAgenda lawyers u pk d g h
  slot_call-IsAgenda u (deletes_slot pk) g h = delete_availability-IsAgenda lawyers u pk g h
  slot_call-IsAgenda u (asks_bulk d days) g h = bulk_request-IsAgenda lawyers u d days g h
  slot_call-IsAgenda u (asks_copy source targets offering) g h =
      copy_request-IsAgenda u source targets offering g h
  slot_call-IsAgenda u clears_slots g h = clear_all_availability-IsAgenda u g h
  slot_call-IsAgenda u (posts_absence today limit v) g h =
      post_unavailability-IsAgenda lawyers u today limit v g h
  slot_call-IsAgenda u (puts_absence today limit pk v) g h =
      put_unavailability-IsAgenda lawyers u today limit pk v g h
  slot_call-IsAgenda u (deletes_absence pk) g h = delete_unavailability-IsAgenda lawyers u pk g h
  slot_call-IsAgenda u (clears_past today) g h = clear_past_unavailability-IsAgenda u today g h

  -- From slots that each start before they end and belong to their lawyer's offering, no two active ones of
  -- a lawyer overlapping on a day of the week, and absences with their times in order or for the whole day,
  -- on one date of a lawyer none for the whole day beside another and no two overlapping, every sequence
  -- of requests of any users leads to such slots and absences: to create, update and delete a slot or an
  -- absence, to create many slots or copy a day's, to clear all slots or the past absences.
  pub slot_calls-IsAgenda :
      (cs : List (Requester × SlotCall)) (g : Agenda) → IsAgenda g → IsAgenda (slot_calls cs g)
  slot_calls-IsAgenda [] g h = h
  slot_calls-IsAgenda ((u, c) ∷ cs) g h =
      slot_calls-IsAgenda cs (slot_call u c g).1 (slot_call-IsAgenda u c g h)
