-- ===== src/Sessions/Ended.antt =====
-- The end of a session, and what can happen after it.
use juris.Base.{
  Bool, List, Option, Option-cases, [], ap, arith, exists_row, false, inl, inr, none, refl, some,
  subst, sym, true, ℕ, ◌&&◌, ◌-◌, ◌/◌, ◌==◌, ◌∙◌, ◌∷◌, ◌≡◌,
}
use juris.Booking.Reschedule.{is_party}
use juris.Clock.{minute}
use juris.Payments.Completion.{mark_as_completed}
use juris.Payments.Released.{IsCompleted, IsDue, mark_as_completed-IsCompleted}
use juris.Sessions.{
  Participant, ParticipantRole, Session, calculate_actual_duration, ended,
  generate_agora_channel_name, get_or_create_participant, is_online, is_open_session,
  new_participant, participant_key, session_key,
}
use juris.Sessions.Calls.{
  Claim, Rooms, SessionReply, close, close_all, complete_if_due, end_found, end_session,
  find_appointment, finish, has_role, join_as, join_session, joined, over, save_session,
}
use juris.Status.{is_confirmed}
use juris.Store.{Appointment, Db, Result, appointment_key, err, ok}
use juris.Store.Save.{is_physical_appointment, map_rows}
use juris.Table.{find, find-save_row, first_row-fits, key-find, save_row}

-- Nobody is in a session that was closed.
closed-offline :
    (now : ℕ) (ps : List Participant) → exists_row is_online (map_rows (close now) ps) ≡ false
closed-offline now [] = refl
closed-offline now (p ∷ ps) = ground (arith, closed-offline now ps)

find-saved_session :
    (s : Session) (r : Rooms) → find session_key s.appointment (save_session s r).sessions ≡ some s
find-saved_session s r = ground (arith, find-save_row session_key s.appointment s r.sessions)

-- The whole minutes since the start, for a session that has started.
abbrev pub minutes_at : ℕ → Session → Option ℕ
minutes_at now s = elim s.started_at [
  | none ↦ s.actual_duration_minutes
  | some start ↦ some ((now - start) / minute)
]

end_found-over :
    (now : ℕ) (a : Appointment) (s : Session) (r : Rooms) (s' : Session) (updated : Bool)
    → (end_found now a s r).0 ≡ over s' updated
    → (db' : Db) × (complete_if_due now a r.db ≡ ok (updated, db'))
      × (s' ≡ close_all now (finish now s))
      × ((end_found now a s r).1 ≡ save_session s' (record r { db = db' }))
unfolding end_found
end_found-over now a s r s' updated h = go (complete_if_due now a r.db) refl
  where
    go :
        (c : Result (Bool × Db))
        → complete_if_due now a r.db ≡ c
        → (db' : Db) × (complete_if_due now a r.db ≡ ok (updated, db'))
          × (s' ≡ close_all now (finish now s))
          × ((end_found now a s r).1 ≡ save_session s' (record r { db = db' }))
    go (err x) e = absurd (ground arith)
    go (ok (u, db')) e = (db', ground arith, ground arith, ground arith)

finished_fields :
    (now : ℕ) (s : Session)
    → let s' = close_all now (finish now s) in
      (s'.status ≡ ended)
      × (s'.ended_at ≡ some now)
      × (s'.actual_duration_minutes ≡ minutes_at now s)
      × (s'.participants ≡ map_rows (close now) s.participants)
unfolding calculate_actual_duration
finished_fields now s = ground arith

-- What the answer to the end of a session says of the appointment.
abbrev pub Completes : Bool → ℕ → Appointment → Db → Db → Type 0
Completes true now a db db' = IsDue now a db × IsCompleted now a db db'
Completes false now a db db' = (¬ IsDue now a db) × (db' ≡ db)

complete_if_due-Completes :
    (updated : Bool) (now : ℕ) (a : Appointment) (db db' : Db)
    → complete_if_due now a db ≡ ok (updated, db')
    → Completes updated now a db db'
unfolding complete_if_due
complete_if_due-Completes updated now a db db' e = elim (mark_as_completed-IsCompleted now a db) [
  | inl (not_due, f) ↦
      let u : updated ≡ false = ground arith in
      subst (λ b. Completes b now a db db') (sym u) (not_due, ground arith)
  | inr (due, (r, f, done)) ↦
      let (db1, g, h) = completed r f in
      subst (λ b. Completes b now a db db') h.0 (due, done db' (g ∙ ap ok h.1))
]
  where
    completed :
        (r : Result Db)
        → mark_as_completed now a db ≡ some r
        → (db1 : Db) × (r ≡ ok db1) × ((true ≡ updated) × (db1 ≡ db'))
    completed (err x) f = absurd (ground arith)
    completed (ok x) f = (x, refl, (ground arith, ground arith))

-- If ending the session of an appointment is answered with success, the session was open; it is
-- stored as ended now, with the whole minutes since its start, if it had started, and with nobody
-- online. If the appointment is confirmed and over, and is physical or Stripe has given its first
-- payment an id, the answer says that it is completed: it is stored so, and a payment that is pending is
-- stored as completed now, its wallet holding the lawyer's amount more, while no money moves otherwise.
-- If not, the answer says that it is not completed, and no row of the booking part changes.
pub end_session-over :
    (now user : ℕ) (claim : Option Claim) (id : ℕ) (r : Rooms) (s' : Session) (updated : Bool)
    → (end_session now user claim id r).0 ≡ over s' updated
    → let r' = (end_session now user claim id r).1 in
      (a : Appointment) × (s : Session) × (find_appointment (λ a. true) user id r ≡ some a)
      × (find session_key a.id r.sessions ≡ some s)
      × (is_open_session s.status ≡ true)
      × (find session_key a.id r'.sessions ≡ some s')
      × (s'.status ≡ ended)
      × (s'.ended_at ≡ some now)
      × (s'.actual_duration_minutes ≡ minutes_at now s)
      × (exists_row is_online s'.participants ≡ false)
      × Completes updated now a r.db r'.db
unfolding end_session
end_session-over now user claim id r s' updated h =
    elim (Option-cases (find_appointment (λ a. true) user id r)) [
      | inl n ↦ absurd (ground arith)
      | inr (a, e) ↦ elim (Option-cases (find session_key a.id r.sessions)) [
        | inl n ↦ absurd (ground arith)
        | inr (s, f) ↦
            let found : end_session now user claim id r ≡ end_found now a s r = ground arith in
            let open_still : is_open_session s.status ≡ true = ground arith in
            let (db', due, same, left_rooms) =
              end_found-over now a s r s' updated (rw found at h) in
            let own = key-find session_key a.id r.sessions s f in
            let there : find session_key a.id (save_session s' (record r { db = db' })).sessions
                ≡ some s' =
              ground (arith, find-save_row session_key a.id s' r.sessions) in
            let shut = closed-offline now s.participants in
            let (e0, e1, e2, e3) = finished_fields now s in
            rw (found, left_rooms)
              ((
                a,
                s,
                e,
                f,
                open_still,
                there,
                ap (λ (x : Session). x.status) same ∙ e0,
                ap (λ (x : Session). x.ended_at) same ∙ e1,
                ap (λ (x : Session). x.actual_duration_minutes) same ∙ e2,
                ap (λ (x : Session). exists_row is_online x.participants) same
                    ∙ ap (exists_row is_online) e3
                    ∙ shut,
                complete_if_due-Completes updated now a r.db db' due,
              ))
      ]
    ]

-- A session that has ended cannot be ended again.
end_session-closed :
    (now user : ℕ) (claim : Option Claim) (id : ℕ) (s : Session) (r : Rooms)
    → find session_key id r.sessions ≡ some s
    → s.status ≡ ended
    → end_session now user claim id r ≡ (SessionReply.not_found, r)
unfolding end_session
end_session-closed now user claim id s r e fin =
    elim (Option-cases (find_appointment (λ a. true) user id r)) [
      | inl n ↦ ground arith
      | inr (a, f) ↦
          let fits =
            first_row-fits appointment_key
              (λ (a : Appointment). a.id == id && is_party user a && true) r.db.appointments a f in
          let same : a.id ≡ id = ground arith in
          let e' = subst (λ k. find session_key k r.sessions ≡ some s) (sym same) e in ground arith
    ]

join_session-ended :
    (now user : ℕ) (role : ParticipantRole) (a : Appointment) (s : Session) (r : Rooms)
    → find_appointment (λ a. is_confirmed a.status) user a.id r ≡ some a
    → is_physical_appointment a ≡ false
    → has_role role user a ≡ true
    → find session_key a.id r.sessions ≡ some s
    → let s' = join_as now user role (generate_agora_channel_name s) in
      join_session now true user (some role) a.id r ≡ (joined s', save_session s' r)
unfolding join_session
join_session-ended now user role a s r f phys own e = ground arith

-- The user is in the session since now, and everyone else's place is as it was.
abbrev pub HasJoined : ℕ → ℕ → Session → Session → Type 0
HasJoined now user s s' =
    ((p : Participant) × (find participant_key user s'.participants ≡ some p)
      × (p.user ≡ user)
      × (p.attended ≡ true)
      × (p.joined_at ≡ some now)
      × (p.left_at ≡ none))
    × ((other : ℕ)
        → (user == other) ≡ false
        → find participant_key other s'.participants ≡ find participant_key other s.participants)

found_or_new :
    (user : ℕ) (role : ParticipantRole) (ps : List Participant)
    → let (p, ps') = get_or_create_participant user role ps in
      (p.user ≡ user)
      × ((other : ℕ)
          → (user == other) ≡ false
          → find participant_key other ps' ≡ find participant_key other ps)
found_or_new user role ps = elim (Option-cases (find participant_key user ps)) [
  | inl n ↦
      let p = new_participant user role in
      let made : get_or_create_participant user role ps ≡ (p, save_row participant_key p ps) =
        ground arith in
      rw made (refl, λ other differ. find-save_row participant_key other p ps ∙ rw differ refl)
  | inr (p, e) ↦
      let got : get_or_create_participant user role ps ≡ (p, ps) = ground arith in
      rw got (key-find participant_key user ps p e, λ other differ. refl)
]

join_as-HasJoined :
    (now user : ℕ) (role : ParticipantRole) (s : Session)
    → HasJoined now user s (join_as now user role s)
join_as-HasJoined now user role s =
    let (p, ps) = get_or_create_participant user role s.participants in
    let (same, kept) = found_or_new user role s.participants in
    let p' : Participant = record p { attended = true; joined_at = some now; left_at = none } in
    (
      (p', ground (arith, find-save_row participant_key user p' ps), same, refl, refl, refl),
      λ other differ.
          find-save_row participant_key other p' ps ∙ rw (same, differ) refl ∙ kept other differ,
    )

-- A client or lawyer of a confirmed appointment can join its video session after it has ended, in the
-- role that they have: they get in, and the session keeps its status, its end and its duration, with
-- them stored as having joined now and not left, and everyone else's place as it was; nobody can then
-- end the session.
pub join-ended :
    (now later user user' : ℕ) (role : ParticipantRole) (claim' : Option Claim) (a : Appointment)
    (s : Session) (r : Rooms)
    → find_appointment (λ a. is_confirmed a.status) user a.id r ≡ some a
    → is_physical_appointment a ≡ false
    → has_role role user a ≡ true
    → find session_key a.id r.sessions ≡ some s
    → s.status ≡ ended
    → let (reply, r') = join_session now true user (some role) a.id r in
      let (reply', r'') = end_session later user' claim' a.id r' in
      ((s' : Session) × (reply ≡ joined s')
        × (find session_key a.id r'.sessions ≡ some s')
        × (s'.status ≡ ended)
        × (s'.ended_at ≡ s.ended_at)
        × (s'.actual_duration_minutes ≡ s.actual_duration_minutes)
        × HasJoined now user s s')
      × (reply' ≡ SessionReply.not_found)
      × (r'' ≡ r')
unfolding join_session
join-ended now later user user' role claim' a s r f phys own e fin =
    let named = generate_agora_channel_name s in
    let s' = join_as now user role named in
    let r' = save_session s' r in
    let same = key-find session_key a.id r.sessions s e in
    let there : find session_key a.id r'.sessions ≡ some s' =
      ground (arith, find-save_row session_key a.id s' r.sessions) in
    let people : named.participants ≡ s.participants = ground arith in
    let (there_now, others) = join_as-HasJoined now user role named in
    let shut = end_session-closed later user' claim' a.id s' r' there (ground arith) in
    rw (join_session-ended now user role a s r f phys own e) (
      (
        s',
        refl,
        there,
        ground arith,
        ground arith,
        ground arith,
        (there_now, λ other differ. others other differ ∙ ap (find participant_key other) people),
      ),
      ap (λ (p : SessionReply × Rooms). p.0) shut,
      ap (λ (p : SessionReply × Rooms). p.1) shut,
    )
