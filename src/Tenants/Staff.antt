-- ===== src/Tenants/Staff.antt =====
-- The staff of a tenant (tenants/models.py `StaffMembership`), as the operators' commands read it.
use osds.Prelude.{
  ℕ, String, Bool, true, false, ◌&&◌, Option, none, some, List, find, ◌==◌, leb, if◌then◌else◌,
}
use osds.Audit.Actor.{Actor, staff, admin}

-- `StaffMembership.Status`
pub data MembershipStatus : Type 0 where
  pending active : MembershipStatus

-- `StaffMembership`, with its `Role`: support 0, moderator 1, editor 2, manager 3, admin 4. `email` and
-- `operator_active` are columns of the operator's row.
pub record Membership : Type 0 where
  pub operator : ℕ
  pub status : MembershipStatus
  pub role : ℕ
  pub email : String
  pub operator_active : Bool

abbrev pub manage_role : ℕ
manage_role = 3

abbrev admin_role : ℕ
admin_role = 4

abbrev pub editor_role : ℕ
editor_role = 2

abbrev pub moderator_role : ℕ
moderator_role = 1

abbrev pub is_active : MembershipStatus → Bool
is_active active = true
is_active pending = false

abbrev is_membership_of : ℕ → Membership → Bool
is_membership_of operator m = m.operator == operator && is_active m.status

-- `_membership`
abbrev pub membership_of : List Membership → ℕ → Option Membership
membership_of memberships operator = find (is_membership_of operator) memberships

-- `_actor`
abbrev pub actor_of : ℕ → Option Membership → Actor
actor_of operator none = staff operator
actor_of operator (some m) = if leb admin_role m.role then admin operator else staff operator
