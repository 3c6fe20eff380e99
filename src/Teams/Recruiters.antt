-- ===== src/Teams/Recruiters.antt =====
-- `validateRecruiters` of src/pods/pods.service.ts: who may be a member of a pod.
pub mod Eligible
use ats_backend.Prelude.{
  ℕ, ◌==◌, ◌+◌, Bool, true, false, not, ◌&&◌, ◌||◌, if◌then◌else◌, any, find, length, Option, none,
  some, List, [], ◌∷◌, ◌++◌, String, ◌<>◌, upper_is, upper_contains, Result, ok, throws, ◌>>=◌,
  ◌>>◌, throw_if, bad_request, conflict, not_found,
}
use ats_backend.Teams.{User, CustomRole, Pod, Tables, has, refers_to, filter}

-- The rows of the users whose identifiers are given.
unfoldable pub users_among : List ℕ → List User → List User
users_among ids us = filter (λ u. has u.id ids) us

-- `userIds.find((id) => !foundIds.has(id))`.
abbrev pub knows : ℕ → List User → Bool
knows n us = any (λ u. u.id == n) us

abbrev role_of : List CustomRole → ℕ → List CustomRole
role_of roles n = elim (find (λ r. r.id == n) roles) [ none ↦ [] | some r ↦ r ∷ [] ]

abbrev roles_of : List CustomRole → List ℕ → List CustomRole
roles_of roles [] = []
roles_of roles (n ∷ ns) = role_of roles n ++ roles_of roles ns

abbrev listed : Option ℕ → List ℕ
listed none = []
listed (some n) = n ∷ []

-- `effectiveRoles`. The fallback, the role that `roleId` refers to, is among the roles already if
-- it exists.
unfoldable pub effective_roles : List CustomRole → User → List CustomRole
effective_roles roles u = roles_of roles (listed u.role_id ++ u.assigned_role_ids)

-- The test of `isRecruiterRole`.
unfoldable pub is_recruiter_role : CustomRole → Bool
unfolding upper_is upper_contains
is_recruiter_role role =
    upper_is "RECRUITER" role.system_key
    || upper_is "POD_LEAD" role.system_key
    || upper_is "RECRUITER" role.name
    || upper_contains "RECRUITER" role.name
    || upper_contains "POD LEAD" role.name
    || upper_contains "TEAM LEAD" role.name

abbrev pub is_elsewhere : Option ℕ → Option ℕ → Bool
is_elsewhere none current = false
is_elsewhere (some pod) none = true
is_elsewhere (some pod) (some current) = not (pod == current)

abbrev pub in_other_unit : Option ℕ → ℕ → Bool
in_other_unit none unit = false
in_other_unit (some own) unit = not (own == unit)

-- The checks of one user. The message of the last names the other pod too.
unfoldable pub check_recruiter : List CustomRole → ℕ → Option ℕ → User → Result (Unit {0})
unfolding effective_roles is_recruiter_role
check_recruiter roles unit current u = do
  throw_if (not u.is_active || not u.is_approved)
      (bad_request ("User \"" <> u.full_name <> "\" is not an active, approved staff member."))
  throw_if (in_other_unit u.business_unit_id unit) (
      conflict (
        "User \"" <> u.full_name
        <> "\" belongs to a different operating unit. Only recruiters from this operating unit can be assigned."))
  throw_if (not (any is_recruiter_role (effective_roles roles u))) (
      bad_request (
        "User \"" <> u.full_name
        <> "\" cannot be added to a recruitment pod because they do not have an eligible recruiter role."))
  throw_if (is_elsewhere u.pod_id current)
      (conflict ("User \"" <> u.full_name <> "\" is already assigned to recruitment pod"))

unfoldable pub check_recruiters : List CustomRole → ℕ → Option ℕ → List User → Result (Unit {0})
unfolding check_recruiter
check_recruiters roles unit current [] = ok tt
check_recruiters roles unit current (u ∷ us) = do
  check_recruiter roles unit current u
  check_recruiters roles unit current us

-- `validateRecruiters`, for identifiers without repetition.
unfoldable pub validate_recruiters : Tables → List ℕ → ℕ → Option ℕ → Result (Unit {0})
unfolding users_among check_recruiters
validate_recruiters t [] unit current = ok tt
validate_recruiters t (n ∷ ns) unit current = do
  throw_if (not (length (users_among (n ∷ ns) t.users) == length (n ∷ ns)))
      (not_found "User not found in this organization.")
  check_recruiters t.roles unit current (users_among (n ∷ ns) t.users)
