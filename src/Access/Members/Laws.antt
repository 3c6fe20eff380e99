-- ===== src/Access/Members/Laws.antt =====
-- The limits of src/auth/user-management-policy.ts.
use ats_backend.Prelude.{Bool, true, false, ◌||◌, ◌≡◌, ◌⊎◌, arith, includes, includes_any}
use ats_backend.Access.Actor.{Actor}
use ats_backend.Access.Members.{
  Member, Actions, is_platform, is_tenant_wide, is_branch_wide, shares, protected_keys,
  is_protected, in_scope, is_self, user_management_actions,
}

-- Any of the eight actions is allowed.
abbrev pub any_action : Actions → Bool
any_action x =
    x.edit_profile || x.assign_roles || x.assign_manager || x.reset_password || x.review_request
    || x.change_status || x.end_sessions || x.delete_user

-- The bounds of what an actor may do.
pub record Bounds (a : Actor) (m : Member) : Type 0 where
  pub tenant : (is_platform a ≡ true) ⊎ (shares a.tenant_id m.tenant_id ≡ true)
  pub office :
      (is_tenant_wide a ≡ true)
      ⊎ ((shares a.branch_id m.branch_id ≡ true)
          × ((is_branch_wide a ≡ true) ⊎ (shares a.business_unit_id m.business_unit_id ≡ true)))
  pub rank :
      (is_tenant_wide a ≡ true)
      ⊎ (includes_any (protected_keys (is_branch_wide a)) m.permissions ≡ false)

in_scope-Bounds : (a : Actor) (m : Member) → in_scope a m ≡ true → Bounds a m
unfolding in_scope is_protected
in_scope-Bounds a m h = record { tenant = ground arith; office = ground arith; rank = ground arith }

-- Whatever an actor may do to a member, the two share a workspace unless the actor manages the
-- platform; they share a branch, and a unit unless the actor manages the branch, unless the actor
-- manages the whole workspace; and only such an actor reaches a member with workspace permissions.
pub user_management_actions-Bounds :
    (a : Actor) (m : Member) → any_action (user_management_actions a m) ≡ true → Bounds a m
unfolding user_management_actions
user_management_actions-Bounds a m h = in_scope-Bounds a m (ground arith)

-- Nobody may change their own status, end their own sessions or delete themselves; deletion
-- needs the workspace's settings permission or that of the platform; and who may change a
-- member's status may also edit the profile.
pub user_management_actions_self :
    (a : Actor) (m : Member)
    → let x = user_management_actions a m in
      ((is_self a m ≡ false)
        ⊎ ((x.change_status ≡ false) × (x.end_sessions ≡ false) × (x.delete_user ≡ false)))
      × ((x.delete_user ≡ false)
          ⊎ (is_platform a ≡ true)
          ⊎ (includes "tenant:settings" a.permissions ≡ true))
      × ((x.change_status ≡ false) ⊎ (x.edit_profile ≡ true))
unfolding user_management_actions
user_management_actions_self a m = (ground arith, ground arith, ground arith)
