-- ===== src/Tests/Video.antt =====
-- Runs of the session views on the office's confirmed appointment.
use juris.Base.{[], exists_row, false, refl, some, true, ℕ, ◌*◌, ◌+◌, ◌∷◌, ◌≡◌}
use juris.Clock.{hour, minute}
use juris.Payments.Completion.{
  can_be_marked_completed, complete_body, credit, release, release_payment,
}
use juris.Sessions.{
  Participant, Session, client, ended, lawyer, is_online, is_open_session, session_key,
}
use juris.Sessions.Calls.{
  Rooms, SessionReply, as_client, as_lawyer, end_session, find_appointment, join_session, joined,
}
use juris.Sessions.Ended.{Completes, HasJoined, end_session-over, join-ended, minutes_at}
use juris.Sessions.Rooms.{AreRooms, after_calls, after_calls-AreRooms, ends, joins}
use juris.Store.{Appointment, Transaction}
use juris.Store.Save.{get_payment_transaction, save_appointment, save_transaction}
use juris.Table.{find}
use juris.Tests.{afternoon, morning, office, payment_row}

abbrev afternoon_payment : Transaction
afternoon_payment = record payment_row { appointment = some 31; client = some 14 }

abbrev rooms : Rooms
rooms = record { db = record office { transactions = afternoon_payment ∷ [] }; sessions = [] }

abbrev at_three : ℕ
at_three = morning + 5 * hour

after_calls-AreRooms_example : AreRooms (
    after_calls
      ((at_three, joins true 14 (some client) 31)
        ∷ (at_three + minute, joins true 11 (some lawyer) 31)
        ∷ (at_three + hour, ends 11 (some as_lawyer) 31)
        ∷ [])
      rooms)
after_calls-AreRooms_example =
    after_calls-AreRooms
      ((at_three, joins true 14 (some client) 31)
        ∷ (at_three + minute, joins true 11 (some lawyer) 31)
        ∷ (at_three + hour, ends 11 (some as_lawyer) 31)
        ∷ [])
      rooms tt

abbrev talking : Rooms
talking = (join_session at_three true 14 (some client) 31 rooms).1

abbrev talked : Participant
talked = record {
  user = 14;
  role = client;
  attended = true;
  joined_at = some at_three;
  left_at = some (at_three + hour);
}

abbrev over_session : Session
over_session = record {
  appointment = 31;
  agora_channel_name = some 31;
  status = ended;
  started_at = some at_three;
  ended_at = some (at_three + hour);
  actual_duration_minutes = some 60;
  participants = talked ∷ [];
}

end_session-over_example :
    let r' = (end_session (at_three + hour) 11 (some as_lawyer) 31 talking).1 in
    (a : Appointment) × (s : Session) × (find_appointment (λ a. true) 11 31 talking ≡ some a)
    × (find session_key a.id talking.sessions ≡ some s)
    × (is_open_session s.status ≡ true)
    × (find session_key a.id r'.sessions ≡ some over_session)
    × (over_session.status ≡ ended)
    × (over_session.ended_at ≡ some (at_three + hour))
    × (over_session.actual_duration_minutes ≡ minutes_at (at_three + hour) s)
    × (exists_row is_online over_session.participants ≡ false)
    × Completes true (at_three + hour) a talking.db r'.db
unfolding join_session end_session can_be_marked_completed get_payment_transaction complete_body
    save_appointment release_payment release save_transaction credit
end_session-over_example =
    end_session-over (at_three + hour) 11 (some as_lawyer) 31 talking over_session true refl

abbrev closed_rooms : Rooms
closed_rooms = record { db = office; sessions = over_session ∷ [] }

join-ended_example :
    let (reply, r') = join_session (at_three + 2 * hour) true 11 (some lawyer) 31 closed_rooms in
    let (reply', r'') = end_session (at_three + 3 * hour) 14 (some as_client) 31 r' in
    ((s' : Session) × (reply ≡ joined s')
      × (find session_key 31 r'.sessions ≡ some s')
      × (s'.status ≡ ended)
      × (s'.ended_at ≡ some (at_three + hour))
      × (s'.actual_duration_minutes ≡ some 60)
      × HasJoined (at_three + 2 * hour) 11 over_session s')
    × (reply' ≡ SessionReply.not_found)
    × (r'' ≡ r')
join-ended_example =
    join-ended (at_three + 2 * hour) (at_three + 3 * hour) 11 14 lawyer (some as_client) afternoon
      over_session closed_rooms refl refl refl refl refl
