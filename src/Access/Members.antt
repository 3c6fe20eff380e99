-- ===== src/Access/Members.antt =====
-- src/auth/user-management-policy.ts: what a member may do to another.
pub mod Laws
use ats_backend.Prelude.{
  Bool, true, false, not, ◌&&◌, ◌||◌, if◌then◌else◌, String, List, [], ◌∷◌, ◌++◌, Option, includes,
  includes_any,
}
use ats_backend.Access.Actor.{Actor, given, same_id, or_text}

-- `ManagedMember`.
pub record Member : Type 0 where
  pub id : Option String
  pub tenant_id : Option String
  pub branch_id : Option String
  pub business_unit_id : Option String
  pub permissions : List String

pub record Actions : Type 0 where
  pub edit_profile : Bool
  pub assign_roles : Bool
  pub assign_manager : Bool
  pub reset_password : Bool
  pub review_request : Bool
  pub change_status : Bool
  pub end_sessions : Bool
  pub delete_user : Bool

unfoldable pub is_platform : Actor → Bool
is_platform a = includes "*" a.permissions || includes "platform:manage" a.permissions

unfoldable pub is_tenant_wide : Actor → Bool
is_tenant_wide a =
    is_platform a
    || includes "tenant:settings" a.permissions
    || includes "tenant:manage" a.permissions

abbrev pub is_branch_wide : Actor → Bool
is_branch_wide a = includes "branch_admin:manage" a.permissions

-- `!!actor.x && actor.x === target.x`.
unfoldable pub shares : Option String → Option String → Bool
shares mine theirs = given mine && same_id mine theirs

-- The permissions of a member whom this actor may not manage.
abbrev pub protected_keys : Bool → List String
protected_keys branch_wide =
    "*"
    ∷ "platform:manage"
    ∷ "tenant:settings"
    ∷ "tenant:manage"
    ∷ (if branch_wide then [] else "branch_admin:manage" ∷ [])

unfoldable pub is_protected : Actor → Member → Bool
is_protected a m =
    not (is_tenant_wide a) && includes_any (protected_keys (is_branch_wide a)) m.permissions

unfoldable pub in_scope : Actor → Member → Bool
in_scope a m =
    (is_platform a || shares a.tenant_id m.tenant_id)
    && (is_tenant_wide a
        || shares a.branch_id m.branch_id
          && (is_branch_wide a || shares a.business_unit_id m.business_unit_id))
    && not (is_protected a m)

-- `!!target.id && target.id === (actor.dbId || actor.id)`.
unfoldable pub is_self : Actor → Member → Bool
is_self a m = given m.id && same_id m.id (or_text a.db_id a.id)

-- `userManagementActions(actor, target)`.
unfoldable pub user_management_actions : Actor → Member → Actions
user_management_actions a m =
    let manage = in_scope a m && (is_platform a || includes "user:manage" a.permissions) in
    record {
      edit_profile = manage;
      assign_roles = manage;
      assign_manager = manage;
      reset_password = manage;
      review_request = manage;
      change_status = manage && not (is_self a m);
      end_sessions = manage && not (is_self a m);
      delete_user =
          in_scope a m
          && (is_platform a || includes "tenant:settings" a.permissions)
          && not (is_self a m);
    }
