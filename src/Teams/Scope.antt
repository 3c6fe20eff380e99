-- ===== src/Teams/Scope.antt =====
-- `resolveScope` and `assertPodAccess` of src/pods/pods.service.ts: whose pods a member may see and
-- change. Identifiers are texts here, as they come from requests.
pub mod Bounds
use ats_backend.Prelude.{
  Bool, true, false, not, ◌&&◌, ◌||◌, if◌then◌else◌, Option, none, some, List, [], ◌∷◌, String,
  ◌===◌, includes, includes_any, lower_is, Result, ok, throws, ◌>>=◌, ◌>>◌, throw_if, when,
  bad_request, forbidden, not_found,
}
use ats_backend.Access.Actor.{Actor, given, same_id, or_text}

-- What the queries find: whether the workspace uses pods, whether a unit with the given identifier
-- and branch, where they are given, allows them, and the branch of a unit of the workspace.
pub record Units : Type 0 where
  pub pod_system_enabled : Bool
  pub allow_pods : Option String → Option String → Bool
  pub branch_of : String → Option (Option String)

pub record Scope : Type 0 where
  pub branch : Option String
  pub unit : Option String

-- `assertPodsEnabled` of src/auth/workspace-features.ts.
unfoldable pub assert_pods_enabled : Units → Option String → Option String → Result (Unit {0})
assert_pods_enabled units unit branch =
    throw_if (not (units.pod_system_enabled && units.allow_pods unit branch))
      (forbidden "Recruitment pods are disabled for this workspace or operating unit.")

unfoldable pub is_tenant_admin : Actor → Bool
unfolding includes_any
is_tenant_admin a =
    includes_any ("tenant:manage" ∷ "tenant:settings" ∷ "platform:manage" ∷ "*" ∷ []) a.permissions

-- `cleanReqUnit` and `cleanReqBranch`.
unfoldable pub clean : Option String → Option String
unfolding lower_is
clean none = none
clean (some s) =
    if s === "" || lower_is "all" s || lower_is "null" s || lower_is "undefined" s
    then none
    else some s

abbrev is_missing : Option String → Bool
is_missing none = true
is_missing (some s) = false

-- Whether a requested office is another than the member's own.
unfoldable pub is_foreign : Option String → Option String → Bool
unfolding same_id
is_foreign none own = false
is_foreign (some s) own = not (same_id (some s) own)

unfoldable pub require_unit : Bool → Option String → Result (Unit {0})
require_unit require_ unit =
    throw_if (require_ && is_missing unit)
      (bad_request "An operating unit is required for this recruitment pod operation.")

-- The branch of a unit that a tenant admin asks for.
unfoldable pub admin_branch : Units → Option String → Option String → Result (Option String)
unfolding is_foreign
admin_branch units none branch = ok branch
admin_branch units (some unit) branch = elim (units.branch_of unit) [
  | none ↦ throws (not_found "Operating unit not found.")
  | some own ↦
      throw_if (given own && is_foreign branch own)
        (bad_request "Selected operating unit does not belong to the selected branch.")
      >> ok (or_text own branch)
]

unfoldable pub tenant_scope : Units → Option String → Option String → Bool → Result Scope
unfolding admin_branch require_unit
tenant_scope units unit branch require_ = do
  own ← admin_branch units unit branch
  require_unit require_ unit
  ok (record { branch = own; unit = unit })

-- `bu?.branchId || user.branchId || undefined`.
unfoldable pub unit_branch : Units → Actor → Option String
unfolding or_text
unit_branch units a = elim a.business_unit_id [
  | none ↦ a.branch_id
  | some unit ↦ elim (units.branch_of unit) [
    | none ↦ a.branch_id
    | some own ↦ or_text own a.branch_id
  ]
]

unfoldable pub unit_admin_scope : Units → Actor → Option String → Result Scope
unfolding given is_foreign unit_branch
unit_admin_scope units a unit = do
  throw_if (not (given a.business_unit_id)) (forbidden "You are not assigned to an operating unit.")
  throw_if (is_foreign unit a.business_unit_id)
      (forbidden "You do not have access to pods outside your assigned operating unit.")
  ok (record { branch = unit_branch units a; unit = a.business_unit_id })

-- Whether a unit is one of a branch, `findFirst({ where: { id, tenantId, branchId } })`.
unfoldable pub is_unit_of : Units → Option String → String → Bool
unfolding same_id
is_unit_of units branch unit = elim (units.branch_of unit) [
  | none ↦ false
  | some own ↦ not (is_missing own) && same_id own branch
]

unfoldable pub check_unit : Units → Option String → Option String → Result (Unit {0})
unfolding is_unit_of
check_unit units none branch = ok tt
check_unit units (some unit) branch =
    throw_if (not (is_unit_of units branch unit))
      (forbidden "Operating unit does not belong to your assigned branch.")

unfoldable pub branch_admin_scope :
    Units → Actor → Option String → Option String → Bool → Result Scope
unfolding given is_foreign check_unit require_unit
branch_admin_scope units a unit branch require_ = do
  throw_if (not (given a.branch_id)) (forbidden "You are not assigned to any branch office.")
  throw_if (is_foreign branch a.branch_id)
      (forbidden "You can only access pods within your assigned branch.")
  check_unit units unit a.branch_id
  require_unit require_ unit
  ok (record { branch = a.branch_id; unit = unit })

unfoldable pub unit_staff_scope : Actor → Option String → Result Scope
unfolding is_foreign
unit_staff_scope a unit = do
  throw_if (is_foreign unit a.business_unit_id)
      (forbidden "You do not have access to pods outside your assigned operating unit.")
  ok (record { branch = a.branch_id; unit = a.business_unit_id })

unfoldable pub branch_staff_scope : Actor → Option String → Option String → Result Scope
unfolding is_foreign
branch_staff_scope a unit branch = do
  throw_if (is_foreign branch a.branch_id)
      (forbidden "You can only access pods within your assigned branch.")
  ok (record { branch = a.branch_id; unit = unit })

unfoldable pub staff_scope : Actor → Option String → Option String → Result Scope
unfolding given unit_staff_scope branch_staff_scope
staff_scope a unit branch =
    if given a.business_unit_id
    then unit_staff_scope a unit
    else if given a.branch_id
    then branch_staff_scope a unit branch
    else throws (forbidden "You do not have an assigned operating unit or branch office.")

-- The scope of a member who is no tenant admin.
unfoldable pub office_scope : Units → Actor → Option String → Option String → Bool → Result Scope
unfolding unit_admin_scope branch_admin_scope staff_scope
office_scope units a unit branch require_ =
    if includes "unit_admin:manage" a.permissions
    then unit_admin_scope units a unit
    else if includes "branch_admin:manage" a.permissions
    then branch_admin_scope units a unit branch require_
    else staff_scope a unit branch

-- `resolveScope`.
unfoldable pub resolve_scope : Units → Actor → Option String → Option String → Bool → Result Scope
unfolding clean is_tenant_admin assert_pods_enabled or_text tenant_scope office_scope
resolve_scope units a unit branch require_ = do
  assert_pods_enabled units
      (or_text (clean unit) (if is_tenant_admin a then none else a.business_unit_id))
      (if is_tenant_admin a then clean branch else a.branch_id)
  (if is_tenant_admin a
      then tenant_scope units (clean unit) (clean branch) require_
      else office_scope units a (clean unit) (clean branch) require_)

-- The pod that `assertPodAccess` is given.
pub record PodRow : Type 0 where
  pub unit : Option String
  pub branch : Option String
  pub head : Option String
  pub members : List String

-- `pod.podHeadId === user.dbId || …`.
unfoldable pub is_member : Actor → PodRow → Bool
unfolding same_id includes
is_member a pod =
    same_id pod.head a.db_id || elim a.db_id [ none ↦ false | some id_ ↦ includes id_ pod.members ]

unfoldable pub check_pod_access : Actor → PodRow → Result (Unit {0})
unfolding given same_id includes is_member
check_pod_access a pod =
    if includes "unit_admin:manage" a.permissions
    then throw_if (not (given a.business_unit_id) || not (same_id pod.unit a.business_unit_id))
        (forbidden "You do not have access to pods outside your assigned operating unit.")
    else if includes "branch_admin:manage" a.permissions
    then throw_if
        (not (given a.branch_id) || given pod.branch && not (same_id pod.branch a.branch_id))
        (forbidden "You do not have access to pods outside your assigned branch.")
    else throw_if
        (not (is_member a pod)
          && not (given a.business_unit_id && same_id pod.unit a.business_unit_id))
        (forbidden "You do not have access to this recruitment pod.")

-- `assertPodAccess`, for a pod that was found.
unfoldable pub assert_pod_access : Units → Actor → PodRow → Result (Unit {0})
unfolding assert_pods_enabled is_tenant_admin check_pod_access or_text
assert_pod_access units a pod = do
  assert_pods_enabled units (or_text pod.unit a.business_unit_id) (or_text pod.branch a.branch_id)
  (if is_tenant_admin a then ok tt else check_pod_access a pod)
