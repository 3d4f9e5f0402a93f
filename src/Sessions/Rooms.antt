-- ===== src/Sessions/Rooms.antt =====
-- What the status of a session says of its times and of who is in it.
use juris.Base.{
  All, Bool, Bool-cases, List, Option, Option-cases, [], arith, exists_row, false, inl, inr,
  is_some, none, refl, some, true, ℕ, ◌∷◌, ◌≡◌,
}
use juris.Sessions.{
  Participant, ParticipantRole, Session, SessionStatus, calculate_actual_duration, ended,
  generate_agora_channel_name, get_or_create_participant, get_or_create_session, is_online,
  new_session, not_started, participant_key, session_key,
}
use juris.Sessions.Calls.{
  Claim, Rooms, SessionReply, close_all, complete_if_due, end_found, end_session, find_appointment,
  finish, get_session_details, join_as, join_session, leave_as, leave_session, over, save_session,
  with_parties,
}
use juris.Status.{is_confirmed, is_open}
use juris.Store.{Appointment, Db, Result, err, ok}
use juris.Table.{All-save_row, find, find-fits, find-key, save_row}

abbrev pub Fits : SessionStatus → Option ℕ → Option ℕ → List Participant → Type 0
Fits not_started start end ps = (start ≡ none) × All (λ (p : Participant). p.joined_at ≡ none) ps
Fits SessionStatus.active start end ps = (is_some start ≡ true) × (exists_row is_online ps ≡ true)
Fits ended start end ps = is_some end ≡ true

-- A session that has not started has no start and nobody has joined, one that is active has a start
-- and somebody online, and one that has ended has an end.
abbrev pub IsRoom : Session → Type 0
IsRoom s = Fits s.status s.started_at s.ended_at s.participants

nobody_online :
    (ps : List Participant)
    → All (λ (p : Participant). p.joined_at ≡ none) ps
    → exists_row is_online ps ≡ false
nobody_online [] h = refl
nobody_online (p ∷ ps) h = ground (arith, nobody_online ps h.1)

pub saved_online :
    (p : Participant) (ps : List Participant)
    → is_online p ≡ true
    → exists_row is_online (save_row participant_key p ps) ≡ true
saved_online p [] h = ground arith
saved_online p (q ∷ ps) h = ground (arith, saved_online p ps h)

get_or_create_session-IsRoom :
    (id : ℕ) (channel : Option ℕ) (ss : List Session)
    → All IsRoom ss
    → IsRoom (get_or_create_session id channel ss)
get_or_create_session-IsRoom id channel ss h = go (find session_key id ss) refl
  where
    go :
        (o : Option Session)
        → find session_key id ss ≡ o
        → IsRoom (elim o [ none ↦ new_session id channel | some s ↦ s ])
    go none e = (refl, tt)
    go (some s) e = find-fits session_key IsRoom id ss s h e

with_parties-IsRoom : (a : Appointment) (s : Session) → IsRoom s → IsRoom (with_parties a s)
unfolding with_parties
with_parties-IsRoom a s h = ground arith

join_as-IsRoom :
    (now user : ℕ) (role : ParticipantRole) (s : Session)
    → IsRoom s
    → IsRoom (join_as now user role s)
join_as-IsRoom now user role s h =
    let (p, ps) = get_or_create_participant user role s.participants in
    let p' : Participant = record p { attended = true; joined_at = some now; left_at = none } in
    let on = saved_online p' ps refl in ground arith

left_Fits :
    (now : ℕ) (p : Participant) (status : SessionStatus) (start end : Option ℕ)
    (ps : List Participant)
    → Fits status start end ps
    → find participant_key p.user ps ≡ some p
    → exists_row is_online (save_row participant_key (record p { left_at = some now }) ps) ≡ true
    → Fits status start end (save_row participant_key (record p { left_at = some now }) ps)
left_Fits now p not_started start end ps h f on =
    let unjoined =
      find-fits participant_key (λ (q : Participant). q.joined_at ≡ none) p.user ps p h.1 f in
    (
      h.0,
      All-save_row participant_key (λ (q : Participant). q.joined_at ≡ none)
          (record p { left_at = some now }) ps h.1 unjoined,
    )
left_Fits now p SessionStatus.active start end ps h f on = (h.0, on)
left_Fits now p ended start end ps h f on = h

finish-IsRoom : (now : ℕ) (s : Session) → IsRoom (finish now s)
unfolding calculate_actual_duration
finish-IsRoom now s = ground arith

finish-IsRoom_all : (now : ℕ) (s : Session) → IsRoom (close_all now (finish now s))
unfolding calculate_actual_duration
finish-IsRoom_all now s = ground arith

-- Every session is as its status says.
abbrev pub AreRooms : Rooms → Type 0
AreRooms r = All IsRoom r.sessions

saved-AreRooms : (s : Session) (r : Rooms) → AreRooms r → IsRoom s → AreRooms (save_session s r)
saved-AreRooms s r h room = All-save_row session_key IsRoom s r.sessions h room

details-AreRooms :
    (user id : ℕ) (r : Rooms) → AreRooms r → AreRooms (get_session_details user id r).1
unfolding get_session_details
details-AreRooms user id r h =
    elim (Option-cases (find_appointment (λ a. is_open a.status) user id r)) [
      | inl n ↦ ground arith
      | inr (a, e) ↦
          let s = get_or_create_session a.id (some a.id) r.sessions in
          let room =
            with_parties-IsRoom a s (get_or_create_session-IsRoom a.id (some a.id) r.sessions h) in
          ground (arith, saved-AreRooms (with_parties a s) r h room)
    ]

named-IsRoom : (s : Session) → IsRoom s → IsRoom (generate_agora_channel_name s)
named-IsRoom s h = ground arith

join-AreRooms :
    (now : ℕ) (agora : Bool) (user : ℕ) (user_role : Option ParticipantRole) (id : ℕ) (r : Rooms)
    → AreRooms r
    → AreRooms (join_session now agora user user_role id r).1
unfolding join_session
join-AreRooms now agora user user_role id r h =
    elim (Option-cases (find_appointment (λ a. is_confirmed a.status) user id r)) [
      | inl n ↦ ground arith
      | inr (a, e) ↦ joined_by a user_role e
    ]
  where
    joined_by :
        (a : Appointment) (user_role : Option ParticipantRole)
        → find_appointment (λ a. is_confirmed a.status) user id r ≡ some a
        → AreRooms (join_session now agora user user_role id r).1
    joined_by a none e = ground arith
    joined_by a (some role) e =
        let s = get_or_create_session a.id none r.sessions in
        let s' = join_as now user role (generate_agora_channel_name s) in
        let room =
          join_as-IsRoom now user role (generate_agora_channel_name s)
            (named-IsRoom s (get_or_create_session-IsRoom a.id none r.sessions h)) in
        ground (arith, saved-AreRooms s' r h room)

leave-AreRooms :
    (now user : ℕ) (is_valid : Bool) (id : ℕ) (r : Rooms)
    → AreRooms r
    → AreRooms (leave_session now user is_valid id r).1
unfolding leave_session
leave-AreRooms now user is_valid id r h =
    elim (Option-cases (find_appointment (λ a. true) user id r)) [
      | inl n ↦ ground arith
      | inr (a, e) ↦ elim (Option-cases (find session_key a.id r.sessions)) [
        | inl n ↦ ground arith
        | inr (s, f) ↦ elim (Option-cases (find participant_key user s.participants)) [
          | inl n ↦ ground arith
          | inr (p, g) ↦
              let s1 = leave_as now p s in
              elim (Bool-cases (exists_row is_online s1.participants)) [
                | inr off ↦
                    ground (arith, saved-AreRooms (finish now s1) r h (finish-IsRoom now s1))
                | inl on ↦
                    let room = find-fits session_key IsRoom a.id r.sessions s h f in
                    let own = find-key participant_key user s.participants p g in
                    let room' =
                      left_Fits now p s.status s.started_at s.ended_at s.participants room own on in
                    ground (arith, saved-AreRooms s1 r h room')
              ]
        ]
      ]
    ]

end_found-AreRooms :
    (now : ℕ) (a : Appointment) (s : Session) (r : Rooms)
    → AreRooms r
    → AreRooms (end_found now a s r).1
unfolding end_found
end_found-AreRooms now a s r h = go (complete_if_due now a r.db)
  where
    go :
        (c : Result (Bool × Db))
        → AreRooms
            (elim c as (λ x. SessionReply × Rooms) [
              | err e ↦ (SessionReply.failed e, r)
              | ok (updated, db') ↦ (
                over (close_all now (finish now s)) updated,
                save_session (close_all now (finish now s)) (record r { db = db' }),
              )
            ]).1
    go (err x) = h
    go (ok (updated, db')) =
        saved-AreRooms (close_all now (finish now s)) (record r { db = db' }) h
          (finish-IsRoom_all now s)

end-AreRooms :
    (now user : ℕ) (claim : Option Claim) (id : ℕ) (r : Rooms)
    → AreRooms r
    → AreRooms (end_session now user claim id r).1
unfolding end_session
end-AreRooms now user claim id r h = elim (Option-cases (find_appointment (λ a. true) user id r)) [
  | inl n ↦ ground arith
  | inr (a, e) ↦ elim (Option-cases (find session_key a.id r.sessions)) [
    | inl n ↦ ground arith
    | inr (s, f) ↦ let done = end_found-AreRooms now a s r h in ground arith
  ]
]

-- A call of a client, a lawyer or a page.
pub data Call : Type 0 where
  gets : ℕ → ℕ → Call
  joins : Bool → ℕ → Option ParticipantRole → ℕ → Call
  leaves : ℕ → Bool → ℕ → Call
  ends : ℕ → Option Claim → ℕ → Call

-- The rooms after a call at an instant.
abbrev pub after_call : ℕ → Call → Rooms → Rooms
after_call now (gets user id) r = (get_session_details user id r).1
after_call now (joins agora user role id) r = (join_session now agora user role id r).1
after_call now (leaves user is_valid id) r = (leave_session now user is_valid id r).1
after_call now (ends user claim id) r = (end_session now user claim id r).1

abbrev pub after_calls : List (ℕ × Call) → Rooms → Rooms
after_calls [] r = r
after_calls ((now, c) ∷ cs) r = after_calls cs (after_call now c r)

after_call-AreRooms : (now : ℕ) (c : Call) (r : Rooms) → AreRooms r → AreRooms (after_call now c r)
after_call-AreRooms now (gets user id) r h = details-AreRooms user id r h
after_call-AreRooms now (joins agora user role id) r h = join-AreRooms now agora user role id r h
after_call-AreRooms now (leaves user is_valid id) r h = leave-AreRooms now user is_valid id r h
after_call-AreRooms now (ends user claim id) r h = end-AreRooms now user claim id r h

-- From sessions that are as their status says, any calls of the session views, whoever makes them, at
-- whatever instants and in whatever order, lead to such sessions: not started with no start and nobody
-- ever there, active with a start and somebody online, or ended with an end.
pub after_calls-AreRooms :
    (cs : List (ℕ × Call)) (r : Rooms) → AreRooms r → AreRooms (after_calls cs r)
after_calls-AreRooms [] r h = h
after_calls-AreRooms ((now, c) ∷ cs) r h =
    after_calls-AreRooms cs (after_call now c r) (after_call-AreRooms now c r h)
