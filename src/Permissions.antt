-- ===== src/Permissions.antt =====
-- lawyer/permissions.py: who may read and change what belongs to a lawyer.
use juris.Base.{Bool, false, if◌then◌else◌, not, true, ℕ, ◌&&◌, ◌==◌, ◌||◌}

-- The object of a request, with the user whose it is by each attribute that the tests look at.
pub data Resource : Type 0 where
  lawyer_profile : ℕ → Resource  -- has `vendor_profile`
  lawyer_offering : ℕ → Resource  -- has `lawyer_profile`
  offering_type : ℕ → Resource  -- has `offering`
  availability : ℕ → ℕ → Resource  -- has `lawyer`, the first, and `offering`, the second
  unavailability : ℕ → Resource  -- has `lawyer`

-- `request.user`; the category is that of the vendor profile, if it has both.
pub record Requester : Type 0 where
  pub id : ℕ
  pub is_authenticated : Bool
  pub is_staff : Bool
  pub is_superuser : Bool
  pub is_lawyer_vendor : Bool

abbrev pub is_admin : Requester → Bool
is_admin u = u.is_staff || u.is_superuser

-- `IsLawyerVendor.has_permission` and `IsOwnerLawyerVendor.has_permission`
unfoldable pub may_act_as_lawyer : Requester → Bool
may_act_as_lawyer u =
    if not u.is_authenticated then false else if is_admin u then true else u.is_lawyer_vendor

-- `IsLawyerVendorOrReadOnly.has_permission`
unfoldable pub may_read_or_act : Bool → Requester → Bool
may_read_or_act is_safe u =
    if is_safe
    then true
    else if not u.is_authenticated
    then false
    else if is_admin u
    then true
    else u.is_lawyer_vendor

-- `IsAuthenticatedReadOrLawyerWrite.has_permission`
unfoldable pub may_read_logged_in_or_act : Bool → Requester → Bool
may_read_logged_in_or_act is_safe u =
    if not u.is_authenticated
    then false
    else if is_admin u
    then true
    else if is_safe
    then true
    else u.is_lawyer_vendor

-- `IsAuthenticatedReadOrLawyerWrite.has_object_permission`
unfoldable pub may_read_or_change : Bool → Requester → Resource → Bool
may_read_or_change is_safe u r =
    if not u.is_authenticated
    then false
    else if is_admin u
    then true
    else if is_safe
    then true
    else elim r [
      | availability holder by_offering ↦ holder == u.id
      | unavailability holder ↦ holder == u.id
      | lawyer_profile holder ↦ holder == u.id
      | lawyer_offering holder ↦ false
      | offering_type holder ↦ false
    ]

-- `IsOwnerLawyerVendor.has_object_permission`
unfoldable pub may_own : Requester → Resource → Bool
may_own u r = if is_admin u then true else elim r [
  | lawyer_profile holder ↦ holder == u.id
  | lawyer_offering holder ↦ holder == u.id
  | offering_type holder ↦ holder == u.id
  | availability holder by_offering ↦ by_offering == u.id
  | unavailability holder ↦ holder == u.id
]

-- Both tests of a request pass.
abbrev pub may_write : Requester → Resource → Bool
may_write u r = may_read_logged_in_or_act false u && may_read_or_change false u r

abbrev pub may_write_own : Requester → Resource → Bool
may_write_own u r = may_act_as_lawyer u && may_own u r
