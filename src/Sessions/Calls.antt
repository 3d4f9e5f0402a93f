-- ===== src/Sessions/Calls.antt =====
-- The session views. The appointments, with their payments, are the `Db` of the booking part.
use juris.Base.{
  Bool, List, Option, [], exists_row, false, first_row, if◌then◌else◌, is_some, length, none, not,
  rows, some, true, ℕ, ◌&&◌, ◌-◌, ◌/◌, ◌==◌, ◌∷◌,
}
use juris.Booking.Reschedule.{is_party}
use juris.Clock.{minute}
use juris.Payments.Completion.{mark_as_completed}
use juris.Sessions.{
  Participant, ParticipantRole, Session, SessionStatus, calculate_actual_duration, client, ended,
  generate_agora_channel_name, get_or_create_participant, get_or_create_session, is_not_started,
  is_online, is_open_session, lawyer, not_started, participant_key, session_key,
}
use juris.Status.{is_confirmed, is_open}
use juris.Store.{Appointment, Db, Exn, Result, err, ok, ◌>>=◌}
use juris.Store.Save.{is_physical_appointment, map_rows}
use juris.Table.{find, save_row}

pub record Rooms : Type 0 where
  pub db : Db
  pub sessions : List Session

abbrev pub save_session : Session → Rooms → Rooms
save_session s r = record r { sessions = save_row session_key s r.sessions }

-- `get_object_or_404` with the filter for the request's user
abbrev pub find_appointment : (Appointment → Bool) → ℕ → ℕ → Rooms → Option Appointment
find_appointment p user id r =
    first_row (λ (a : Appointment). a.id == id && is_party user a && p a) r.db.appointments

-- `ended_by` of a request
pub data Claim : Type 0 where
  as_client as_lawyer as_system : Claim

-- The user is the one of the appointment that it claims to be.
abbrev pub is_own_role : Claim → ℕ → Appointment → Bool
is_own_role as_client user a = user == a.client
is_own_role as_lawyer user a = user == a.lawyer.user
is_own_role as_system user a = true

-- The user is the one of the appointment that its `user_role` says.
abbrev pub has_role : ParticipantRole → ℕ → Appointment → Bool
has_role client user a = user == a.client
has_role lawyer user a = user == a.lawyer.user

pub data SessionReply : Type 0 where
  not_found : SessionReply  -- 404
  physical : SessionReply  -- 400
  bad_request : SessionReply  -- 400, of the serializer
  wrong_role : SessionReply  -- 403
  details : Session → SessionReply  -- 200
  no_agora : SessionReply  -- 500, a ValueError
  joined : Session → SessionReply  -- 200
  left : SessionStatus → Bool → SessionReply  -- 200
  over : Session → Bool → SessionReply  -- 200
  failed : Exn → SessionReply  -- 500
  online : SessionStatus → ℕ → Option ℕ → SessionReply  -- 200

-- Both participants of a session that has none.
unfoldable pub with_parties : Appointment → Session → Session
with_parties a s = elim s.participants [
  | [] ↦
      let ps = (get_or_create_participant a.client client []).1 in
      record s { participants = (get_or_create_participant a.lawyer.user lawyer ps).1 }
  | p ∷ ps ↦ s
]

unfoldable pub get_session_details : ℕ → ℕ → Rooms → SessionReply × Rooms
unfolding with_parties
get_session_details user id r = elim (find_appointment (λ a. is_open a.status) user id r) [
  | none ↦ (not_found, r)
  | some a ↦
      if is_physical_appointment a
      then (physical, r)
      else let s = with_parties a (get_or_create_session a.id (some a.id) r.sessions) in
        (details s, save_session s r)
]

-- "Update session status to ACTIVE if first participant"
abbrev pub activate : ℕ → Session → Session
activate now s =
    if is_not_started s.status
    then record s { status = SessionStatus.active; started_at = some now }
    else s

abbrev pub join_as : ℕ → ℕ → ParticipantRole → Session → Session
join_as now user role s =
    let (p, ps) = get_or_create_participant user role s.participants in
    let p' : Participant = record p { attended = true; joined_at = some now; left_at = none } in
    record (activate now s) { participants = save_row participant_key p' ps }

-- The role is none where the serializer refuses it; `agora` tells whether its settings are there.
unfoldable pub join_session :
    ℕ → Bool → ℕ → Option ParticipantRole → ℕ → Rooms → SessionReply × Rooms
join_session now agora user user_role id r =
    elim (find_appointment (λ a. is_confirmed a.status) user id r) [
      | none ↦ (not_found, r)
      | some a ↦ if is_physical_appointment a then (physical, r) else elim user_role [
        | none ↦ (bad_request, r)
        | some role ↦
            if not (has_role role user a)
            then (wrong_role, r)
            else let s = generate_agora_channel_name (get_or_create_session a.id none r.sessions) in
              let s' = join_as now user role s in
              (if agora then joined s' else no_agora, save_session s' r)
      ]
    ]

-- The end of a session: its status, its time and its duration.
abbrev pub finish : ℕ → Session → Session
finish now s = calculate_actual_duration (record s { status = ended; ended_at = some now })

abbrev pub leave_as : ℕ → Participant → Session → Session
leave_as now p s = record s {
  participants = save_row participant_key (record p { left_at = some now }) s.participants;
}

unfoldable pub leave_session : ℕ → ℕ → Bool → ℕ → Rooms → SessionReply × Rooms
unfolding calculate_actual_duration
leave_session now user is_valid id r = elim (find_appointment (λ a. true) user id r) [
  | none ↦ (not_found, r)
  | some a ↦ elim (find session_key a.id r.sessions) [
    | none ↦ (not_found, r)
    | some s ↦
        if not is_valid then (bad_request, r) else elim (find participant_key user s.participants) [
          | none ↦ (not_found, r)
          | some p ↦
              let s1 = leave_as now p s in
              if exists_row is_online s1.participants
              then (left s.status false, save_session s1 r)
              else (left ended true, save_session (finish now s1) r)
        ]
  ]
]

-- "Update any participants still active"
abbrev pub close : ℕ → Participant → Participant
close now p = if is_some p.left_at then p else record p { left_at = some now }

abbrev pub close_all : ℕ → Session → Session
close_all now s = record s { participants = map_rows (close now) s.participants }

-- The appointment is completed if it can be.
unfoldable pub complete_if_due : ℕ → Appointment → Db → Result (Bool × Db)
unfolding mark_as_completed
complete_if_due now a db = elim (mark_as_completed now a db) [
  | none ↦ ok (false, db)
  | some completion ↦ do db' ← completion; ok (true, db')
]

unfoldable pub end_found : ℕ → Appointment → Session → Rooms → SessionReply × Rooms
unfolding complete_if_due calculate_actual_duration
end_found now a s r =
    let s' = close_all now (finish now s) in
    elim (complete_if_due now a r.db) [
      | err e ↦ (SessionReply.failed e, r)
      | ok (updated, db') ↦ (over s' updated, save_session s' (record r { db = db' }))
    ]

unfoldable pub end_session : ℕ → ℕ → Option Claim → ℕ → Rooms → SessionReply × Rooms
unfolding end_found
end_session now user claim id r = elim (find_appointment (λ a. true) user id r) [
  | none ↦ (not_found, r)
  | some a ↦ elim (find session_key a.id r.sessions) [
    | none ↦ (not_found, r)
    | some s ↦ if not (is_open_session s.status) then (not_found, r) else elim claim [
      | none ↦ (bad_request, r)
      | some c ↦ if is_own_role c user a then end_found now a s r else (wrong_role, r)
    ]
  ]
]

-- Minutes since the start, or the minutes that were recorded.
abbrev pub shown_minutes : ℕ → Session → Option ℕ
shown_minutes now s = elim s.status [
  | not_started ↦ none
  | SessionStatus.active ↦ elim s.started_at [
    | none ↦ none
    | some start ↦ some ((now - start) / minute)
  ]
  | ended ↦ s.actual_duration_minutes
]

unfoldable pub session_status : ℕ → ℕ → ℕ → Rooms → SessionReply
session_status now user id r = elim (find_appointment (λ a. true) user id r) [
  | none ↦ not_found
  | some a ↦ elim (find session_key a.id r.sessions) [
    | none ↦ not_found
    | some s ↦ online s.status (length (rows is_online s.participants)) (shown_minutes now s)
  ]
]
