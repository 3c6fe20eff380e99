-- ===== src/Teams/Leads.antt =====
-- `promoteToPodHead` and `demoteFromPodHead` of src/pods/pods.service.ts.
pub mod Restored
use ats_backend.Prelude.{
  ℕ, ◌==◌, Bool, true, false, not, ◌&&◌, ◌||◌, if◌then◌else◌, any, find, map, Option, none, some,
  List, [], ◌∷◌, ◌++◌, String, ◌===◌, Result, ok, throws, ◌>>=◌, ◌>>◌, throw_if, bad_request,
  conflict, internal,
}
use ats_backend.Teams.{
  User, CustomRole, Pod, Tables, has, refers_to, filter, distinct, user_of, update_user,
}

abbrev pub is_lead_role : CustomRole → Bool
is_lead_role role = role.system_key === "POD_LEAD"

-- `leadIds` and `podLeadRoleIds`.
unfoldable pub lead_ids : List CustomRole → List ℕ
lead_ids roles = map (λ role. role.id) (filter is_lead_role roles)

-- The custom Pod Lead roles of a unit, `customRoles`.
unfoldable pub unit_lead_roles : ℕ → List CustomRole → List CustomRole
unit_lead_roles unit roles =
    filter (λ role. refers_to role.business_unit_id unit && not role.is_system && is_lead_role role)
      roles

abbrev is_absent : Option ℕ → Bool
is_absent none = true
is_absent (some n) = false

-- The system template, where the unit has no custom role.
unfoldable pub system_lead_role : List CustomRole → Option CustomRole
system_lead_role roles =
    find (λ role. role.is_system && is_absent role.branch_id && is_lead_role role) roles

-- `role`, or why there is none.
unfoldable pub lead_role : ℕ → List CustomRole → List CustomRole → Result CustomRole
unfolding system_lead_role
lead_role unit roles (role ∷ next_ ∷ rest) = throws (
    conflict
      "Multiple custom Pod Lead roles exist for this branch unit. Ask the tenant administrator to reconcile them.")
lead_role unit roles (role ∷ []) =
    throw_if (not (refers_to role.business_unit_id unit))
      (bad_request "The custom Pod Lead role must be assigned to the pod's branch unit.")
    >> ok role
lead_role unit roles [] = elim (system_lead_role roles) [
  | none ↦ throws (bad_request "Configure a Pod Lead role before assigning pod leadership.")
  | some role ↦ ok role
]

abbrev listed : Option ℕ → List ℕ
listed none = []
listed (some n) = n ∷ []

-- `newAssignedRoleIds`.
unfoldable pub promoted_roles : List ℕ → ℕ → User → List ℕ
promoted_roles leads role u =
    distinct
      (filter (λ n. not (has n leads)) (listed u.role_id ++ u.assigned_role_ids) ++ role ∷ [])

abbrev pub promoted : List ℕ → ℕ → User → User
promoted leads role u = record u {
  role_id = some role;
  assigned_role_ids = promoted_roles leads role u;
}

-- `user.update`, of the row that was found. The update of a row that is not there fails.
unfoldable pub write_promotion : ℕ → ℕ → Tables → Option User → Result Tables
unfolding lead_ids promoted_roles update_user
write_promotion user role t none = throws (internal "Record to update not found.")
write_promotion user role t (some u) =
    ok (record t { users = update_user user (promoted (lead_ids t.roles) role) t.users })

-- `promoteToPodHead`.
unfoldable pub promote_to_pod_head : ℕ → ℕ → Tables → Result Tables
unfolding unit_lead_roles lead_role write_promotion
promote_to_pod_head user unit t = do
  role ← lead_role unit t.roles (unit_lead_roles unit t.roles)
  write_promotion user role.id t (user_of user t.users)

-- `filteredRoles`.
unfoldable pub kept_roles : List ℕ → User → List ℕ
kept_roles leads u =
    distinct (filter (λ n. not (has n leads)) (u.assigned_role_ids ++ listed u.role_id))

abbrev first_of : List ℕ → Option ℕ
first_of [] = none
first_of (n ∷ ns) = some n

-- `newRoleId`.
unfoldable pub kept_role : List ℕ → User → Option ℕ
unfolding kept_roles
kept_role leads u = elim u.role_id [
  | none ↦ first_of (kept_roles leads u)
  | some n ↦ if not (has n leads) then some n else first_of (kept_roles leads u)
]

abbrev pub demoted : List ℕ → User → User
demoted leads u = record u { role_id = kept_role leads u; assigned_role_ids = kept_roles leads u }

-- Whether a member leads a pod other than the given one, `otherPods`.
unfoldable pub leads_other_pod : ℕ → ℕ → List Pod → Bool
leads_other_pod user excluded pods =
    any (λ pod. refers_to pod.head user && not (pod.id == excluded)) pods

-- `demoteFromPodHead`, on behalf of the pod that the member led; a member who is not found is left.
unfoldable pub demote_from_pod_head : ℕ → ℕ → Tables → Tables
unfolding lead_ids kept_role kept_roles leads_other_pod update_user
demote_from_pod_head user excluded t =
    if leads_other_pod user excluded t.pods
    then t
    else record t { users = update_user user (demoted (lead_ids t.roles)) t.users }
