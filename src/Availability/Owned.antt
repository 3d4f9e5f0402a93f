-- ===== src/Availability/Owned.antt =====
-- Who may change a stored slot: the two tests of ownership of lawyer/permissions.py.
use juris.Availability.{Availability}
use juris.Availability.Requests.{Lawyers, slot_resource}
use juris.Availability.Slots.{IsSchedule, IsSlot, slot_id}
use juris.Base.{All, Bool, List, ap, arith, ◌&&◌, ◌==◌, ◌||◌, ◌≡◌}
use juris.Permissions.{
  Requester, may_act_as_lawyer, may_own, may_read_logged_in_or_act, may_read_or_change, may_write,
  may_write_own,
}
use juris.Table.{All-map}

-- The user is an administrator, or a lawyer whose profile has the slot.
abbrev pub owns : Lawyers → Requester → Availability → Bool
owns lawyers u s =
    u.is_authenticated
    && (u.is_staff || u.is_superuser || (u.is_lawyer_vendor && lawyers.user_of s.lawyer == u.id))

-- Both permission classes answer alike for the slot, and as this description says.
abbrev pub IsGuarded : Lawyers → Requester → Availability → Type 0
IsGuarded lawyers u s =
    (may_write u (slot_resource lawyers s) ≡ owns lawyers u s)
    × (may_write_own u (slot_resource lawyers s) ≡ owns lawyers u s)

IsSlot-IsGuarded :
    (lawyers : Lawyers) (u : Requester) (s : Availability) → IsSlot s → IsGuarded lawyers u s
unfolding may_read_logged_in_or_act may_read_or_change may_act_as_lawyer may_own
IsSlot-IsGuarded lawyers u s h =
    let same : s.offering.lawyer_profile ≡ s.lawyer = ground arith in
    let holder : lawyers.user_of s.offering.lawyer_profile ≡ lawyers.user_of s.lawyer =
      ap lawyers.user_of same in
    (ground arith, ground arith)

-- In a schedule (slots that start before they end and belong to their lawyer's offering, no two active ones
-- of one lawyer overlapping on a day of the week), the permission class that asks for the slot's
-- lawyer and the one that asks for the lawyer of its offering let the same users write each slot: the
-- administrators, and the lawyer whose profile has the slot, when they are logged in.
pub schedule-IsGuarded :
    (lawyers : Lawyers) (u : Requester) (slots : List Availability)
    → IsSchedule slots
    → All (IsGuarded lawyers u) slots
schedule-IsGuarded lawyers u slots h =
    All-map slot_id IsSlot (IsGuarded lawyers u) slots (IsSlot-IsGuarded lawyers u) h.0
