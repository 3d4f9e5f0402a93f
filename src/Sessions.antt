-- ===== src/Sessions.antt =====
-- The video sessions of appointments: `AppointmentSession` and `AppointmentParticipant` of
-- lawyer_appointment/models.py, and the session views of lawyer_appointment/views.py. A session is
-- the one of its appointment and is named by the appointment's id, as its channel is; its participants
-- are kept with it, one for each user.
pub mod Calls
pub mod Rooms
pub mod Ended
use juris.Base.{
  Bool, List, Option, [], false, if◌then◌else◌, is_some, none, not, some, true, ℕ, ◌&&◌, ◌-◌, ◌/◌,
}
use juris.Clock.{minute}
use juris.Table.{find, save_row}

pub data SessionStatus : Type 0 where
  not_started active ended : SessionStatus

pub data ParticipantRole : Type 0 where
  client lawyer : ParticipantRole

pub record Participant : Type 0 where
  pub user : ℕ
  pub role : ParticipantRole
  pub attended : Bool
  pub joined_at : Option ℕ
  pub left_at : Option ℕ

pub record Session : Type 0 where
  pub appointment : ℕ
  pub agora_channel_name : Option ℕ
  pub status : SessionStatus
  pub started_at : Option ℕ
  pub ended_at : Option ℕ
  pub actual_duration_minutes : Option ℕ
  pub participants : List Participant

abbrev pub is_not_started : SessionStatus → Bool
is_not_started not_started = true
is_not_started _ = false

abbrev pub is_active_session : SessionStatus → Bool
is_active_session active = true
is_active_session _ = false

-- `status__in=[NOT_STARTED, ACTIVE]`
abbrev pub is_open_session : SessionStatus → Bool
is_open_session ended = false
is_open_session _ = true

abbrev pub participant_key : Participant → ℕ
participant_key p = p.user

abbrev pub session_key : Session → ℕ
session_key s = s.appointment

-- `joined_at__isnull=False, left_at__isnull=True`
abbrev pub is_online : Participant → Bool
is_online p = is_some p.joined_at && not (is_some p.left_at)

-- Whole minutes; the clock does not run backwards.
unfoldable pub calculate_actual_duration : Session → Session
calculate_actual_duration s = elim s.started_at [
  | none ↦ s
  | some start ↦ elim s.ended_at [
    | none ↦ s
    | some end ↦ record s { actual_duration_minutes = some ((end - start) / minute) }
  ]
]

abbrev pub new_participant : ℕ → ParticipantRole → Participant
new_participant user role = record {
  user = user;
  role = role;
  attended = false;
  joined_at = none;
  left_at = none;
}

-- `AppointmentParticipant.objects.get_or_create`: the participant, and the rows with it
abbrev pub get_or_create_participant :
    ℕ → ParticipantRole → List Participant → Participant × List Participant
get_or_create_participant user role ps = elim (find participant_key user ps) [
  | none ↦ (new_participant user role, save_row participant_key (new_participant user role) ps)
  | some p ↦ (p, ps)
]

abbrev pub new_session : ℕ → Option ℕ → Session
new_session appointment channel = record {
  appointment = appointment;
  agora_channel_name = channel;
  status = not_started;
  started_at = none;
  ended_at = none;
  actual_duration_minutes = none;
  participants = [];
}

-- `AppointmentSession.objects.get_or_create`, with what it has for the channel of a new one
abbrev pub get_or_create_session : ℕ → Option ℕ → List Session → Session
get_or_create_session appointment channel sessions = elim (find session_key appointment sessions) [
  | none ↦ new_session appointment channel
  | some s ↦ s
]

-- `generate_agora_channel_name`
abbrev pub generate_agora_channel_name : Session → Session
generate_agora_channel_name s =
    if is_some s.agora_channel_name then s else record s { agora_channel_name = some s.appointment }
