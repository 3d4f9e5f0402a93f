-- ===== src/Availability/Agendas.antt =====
-- What each request that changes slots or absences keeps.
use juris.Availability.{Availability, Saved, SlotErrors, Unavailability, invalid, save, saved}
use juris.Availability.Absences.{
  AreAbsences, IsAbsence, away_conflict, away_id, save_away-AreAbsences,
}
use juris.Availability.Away.{AwayErrors, save_away}
use juris.Availability.Bulk.{SlotData, bulk_create_availability, new_slot}
use juris.Availability.Copies.{bulk_create-IsSchedule}
use juris.Availability.Requests.{
  Agenda, Lawyers, SlotReply, answer_save, bulk_report, bulk_request, check_absence,
  delete_availability, delete_unavailability, is_bulk_data, lawyer_request, post_availability,
  post_unavailability, put_availability, put_unavailability, slot_invalid, with_absences,
  with_slots,
}
use juris.Availability.Slots.{IsSchedule, IsSlot, save-IsSchedule, slot_conflict, slot_id}
use juris.Base.{
  List, Option, Option-cases, arith, if◌then◌else◌, inl, inr, none, refl, some, subst, sym, ℕ, ◌+◌,
  ◌≡◌, ◌⊎◌,
}
use juris.Permissions.{Requester}
use juris.Separate.{All-delete_row, delete_row-IsSeparate}
use juris.Table.{delete_row, find}

-- The slots are a schedule, and the absences are apart.
abbrev pub IsAgenda : Agenda → Type 0
IsAgenda g = IsSchedule g.schedule.slots × AreAbsences g.absences

module _ (lawyers : Lawyers) where
  saved_slot-IsAgenda :
      (a : Availability) (write : List Availability → Agenda → Agenda) (g : Agenda)
      → ((slots : List Availability) → (write slots g).schedule.slots ≡ slots)
      → ((slots : List Availability) → (write slots g).absences ≡ g.absences)
      → IsAgenda g
      → IsAgenda (answer_save (save a g.schedule.slots) write g).1
  saved_slot-IsAgenda a write g there kept (h, away) = go (save a g.schedule.slots) refl
    where
      go :
          (r : Saved (List Availability) SlotErrors)
          → save a g.schedule.slots ≡ r
          → IsAgenda (answer_save r write g).1
      go (saved slots) e =
          (rw (there slots) (save-IsSchedule a g.schedule.slots slots h e), rw (kept slots) away)
      go (invalid x) e = (h, away)

  saved_absence-IsAgenda :
      (today : ℕ) (v : Unavailability) (write : List Unavailability → Agenda → Agenda) (g : Agenda)
      → ((us : List Unavailability) → (write us g).absences ≡ us)
      → ((us : List Unavailability) → (write us g).schedule ≡ g.schedule)
      → IsAgenda g
      → IsAgenda (answer_save (save_away today v g.absences) write g).1
  saved_absence-IsAgenda today v write g there kept (h, away) =
      go (save_away today v g.absences) refl
    where
      go :
          (r : Saved (List Unavailability) AwayErrors)
          → save_away today v g.absences ≡ r
          → IsAgenda (answer_save r write g).1
      go (saved us) e =
          (rw (kept us) h, rw (there us) ((save_away-AreAbsences today v g.absences us away e).0))
      go (invalid x) e = (h, away)

  -- A request that leaves the state or ends in another one.
  either-IsAgenda : (g p q : Agenda) → (q ≡ g) ⊎ (q ≡ p) → IsAgenda g → IsAgenda p → IsAgenda q
  either-IsAgenda g p q (inl same) h k = subst IsAgenda (sym same) h
  either-IsAgenda g p q (inr same) h k = subst IsAgenda (sym same) k

  pub lawyer_request-IsAgenda :
      (u : Requester) (f : ℕ → Agenda → SlotReply × Agenda) (g : Agenda)
      → IsAgenda g
      → ((profile : ℕ) → IsAgenda (f profile g).1)
      → IsAgenda (lawyer_request lawyers u f g).1
  lawyer_request-IsAgenda u f g h step = elim (Option-cases (lawyers.profile_of u.id)) [
    | inl n ↦ either-IsAgenda g g (lawyer_request lawyers u f g).1 (inl (ground arith)) h h
    | inr (k, e) ↦
        either-IsAgenda g (f k g).1 (lawyer_request lawyers u f g).1 (ground arith) h (step k)
  ]

  pub post_availability-IsAgenda :
      (u : Requester) (d : SlotData) (g : Agenda)
      → IsAgenda g
      → IsAgenda (post_availability lawyers u d g).1
  unfolding post_availability
  post_availability-IsAgenda u d g h =
      let q = (post_availability lawyers u d g).1 in
      elim (Option-cases (lawyers.profile_of u.id)) [
        | inl n ↦ either-IsAgenda g g q (inl (ground arith)) h h
        | inr (k, e) ↦
            let sch = g.schedule in
            let a = new_slot sch.next_id (record d { lawyer = k }) in
            let write : List Availability → Agenda → Agenda =
              λ slots. with_slots (record { slots = slots; next_id = sch.next_id + 1 }) in
            either-IsAgenda g (answer_save (save a sch.slots) write g).1 q (ground arith) h
              (saved_slot-IsAgenda a write g (λ slots. refl) (λ slots. refl) h)
      ]

  pub put_availability-IsAgenda :
      (u : Requester) (pk : ℕ) (d : SlotData) (g : Agenda)
      → IsAgenda g
      → IsAgenda (put_availability lawyers u pk d g).1
  unfolding put_availability
  put_availability-IsAgenda u pk d g h =
      let q = (put_availability lawyers u pk d g).1 in
      elim (Option-cases (find slot_id pk g.schedule.slots)) [
        | inl n ↦ either-IsAgenda g g q (inl (ground arith)) h h
        | inr (s, e) ↦
            let a = new_slot s.id (record d { lawyer = s.lawyer }) in
            let write : List Availability → Agenda → Agenda =
              λ slots. with_slots (record (g.schedule) { slots = slots }) in
            either-IsAgenda g (answer_save (save a g.schedule.slots) write g).1 q (ground arith) h
              (saved_slot-IsAgenda a write g (λ slots. refl) (λ slots. refl) h)
      ]

  pub delete_availability-IsAgenda :
      (u : Requester) (pk : ℕ) (g : Agenda)
      → IsAgenda g
      → IsAgenda (delete_availability lawyers u pk g).1
  unfolding delete_availability
  delete_availability-IsAgenda u pk g ((own, apart), away) =
      let q = (delete_availability lawyers u pk g).1 in
      let slots = g.schedule.slots in
      let p = with_slots (record (g.schedule) { slots = delete_row slot_id pk slots }) g in
      let h : IsAgenda g = ((own, apart), away) in
      let k : IsAgenda p = (
        (
          All-delete_row slot_id slot_conflict IsSlot pk slots own,
          delete_row-IsSeparate slot_id slot_conflict pk slots apart,
        ),
        away,
      ) in
      elim (Option-cases (find slot_id pk slots)) [
        | inl n ↦ either-IsAgenda g g q (inl (ground arith)) h h
        | inr (s, e) ↦ either-IsAgenda g p q (ground arith) h k
      ]

  pub post_unavailability-IsAgenda :
      (u : Requester) (today : ℕ) (limit : Option ℕ) (v : Unavailability) (g : Agenda)
      → IsAgenda g
      → IsAgenda (post_unavailability lawyers u today limit v g).1
  unfolding post_unavailability check_absence
  post_unavailability-IsAgenda u today none v g h =
      let q = (post_unavailability lawyers u today none v g).1 in
      either-IsAgenda g g q (inl (ground arith)) h h
  post_unavailability-IsAgenda u today (some limit) v g h =
      let q = (post_unavailability lawyers u today (some limit) v g).1 in
      elim (Option-cases (lawyers.profile_of u.id)) [
        | inl n ↦ either-IsAgenda g g q (inl (ground arith)) h h
        | inr (k, e) ↦
            let v' : Unavailability = record v { id = g.next_absence; lawyer = k } in
            let write : List Unavailability → Agenda → Agenda =
              λ us a. record a { absences = us; next_absence = g.next_absence + 1 } in
            either-IsAgenda g (answer_save (save_away today v' g.absences) write g).1 q
              (ground arith) h (saved_absence-IsAgenda today v' write g (λ us. refl) (λ us. refl) h)
      ]

  pub put_unavailability-IsAgenda :
      (u : Requester) (today : ℕ) (limit : Option ℕ) (pk : ℕ) (v : Unavailability) (g : Agenda)
      → IsAgenda g
      → IsAgenda (put_unavailability lawyers u today limit pk v g).1
  unfolding put_unavailability check_absence
  put_unavailability-IsAgenda u today none pk v g h =
      let q = (put_unavailability lawyers u today none pk v g).1 in
      either-IsAgenda g g q (inl (ground arith)) h h
  put_unavailability-IsAgenda u today (some limit) pk v g h =
      let q = (put_unavailability lawyers u today (some limit) pk v g).1 in
      elim (Option-cases (find away_id pk g.absences)) [
        | inl n ↦ either-IsAgenda g g q (inl (ground arith)) h h
        | inr (old, e) ↦
            let v' : Unavailability = record v { id = old.id; lawyer = old.lawyer } in
            either-IsAgenda g (answer_save (save_away today v' g.absences) with_absences g).1 q
              (ground arith) h
              (saved_absence-IsAgenda today v' with_absences g (λ us. refl) (λ us. refl) h)
      ]

  pub delete_unavailability-IsAgenda :
      (u : Requester) (pk : ℕ) (g : Agenda)
      → IsAgenda g
      → IsAgenda (delete_unavailability lawyers u pk g).1
  unfolding delete_unavailability
  delete_unavailability-IsAgenda u pk g (slots, (own, apart)) =
      let q = (delete_unavailability lawyers u pk g).1 in
      let p = with_absences (delete_row away_id pk g.absences) g in
      let h : IsAgenda g = (slots, (own, apart)) in
      let k : IsAgenda p = (
        slots,
        (
          All-delete_row away_id away_conflict IsAbsence pk g.absences own,
          delete_row-IsSeparate away_id away_conflict pk g.absences apart,
        ),
      ) in
      elim (Option-cases (find away_id pk g.absences)) [
        | inl n ↦ either-IsAgenda g g q (inl (ground arith)) h h
        | inr (s, e) ↦ either-IsAgenda g p q (ground arith) h k
      ]

  pub bulk_request-IsAgenda :
      (u : Requester) (d : SlotData) (days : List ℕ) (g : Agenda)
      → IsAgenda g
      → IsAgenda (bulk_request lawyers u d days g).1
  unfolding bulk_request
  bulk_request-IsAgenda u d days g h =
      let body : ℕ → Agenda → SlotReply × Agenda = λ profile a.
        let (r, sch) = bulk_create_availability (record d { lawyer = profile }) days a.schedule in
        if is_bulk_data profile d days
        then (bulk_report r, with_slots sch a)
        else (slot_invalid, a) in
      lawyer_request-IsAgenda u body g h (λ profile.
        let d' : SlotData = record d { lawyer = profile } in
        let made = (bulk_create-IsSchedule d' days g.schedule h.0).0 in
        either-IsAgenda g (with_slots (bulk_create_availability d' days g.schedule).1 g)
          (body profile g).1 (ground arith) h (made, h.1))
