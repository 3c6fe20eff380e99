-- ===== src/Jobs/Staffing.antt =====
-- `resolveJobStaffingScope` of src/jobs/job-staffing.ts: for which office or pod a member may
-- choose the staff of a job.
pub mod Laws
use ats_backend.Prelude.{
  Bool, true, false, not, ◌&&◌, ◌||◌, if◌then◌else◌, String, ◌===◌, List, [], ◌∷◌, any, Option,
  none, some, includes, includes_any, is_uuid, Result, ok, throws, ◌>>=◌, ◌>>◌, throw_if, when,
  bad_request, forbidden,
}
use ats_backend.Access.Actor.{Actor, given, same_id, or_text}

-- What the call asks for.
pub record Request : Type 0 where
  pub branch : Option String
  pub unit : Option String
  pub permission : String
  pub job_id : Option String

pub record PodRow : Type 0 where
  pub id : String
  pub branch_id : Option String
  pub business_unit_id : Option String

pub record JobRow : Type 0 where
  pub account_manager_id : Option String
  pub recruitment_manager_id : Option String
  pub branch_id : Option String
  pub business_unit_id : Option String

-- What the queries find: whether the pods are enabled for the member's unit, the pod that the
-- member leads, whether the job is mapped to it, the job, and whether a unit is in a branch.
pub record Lookups : Type 0 where
  pub pods_enabled : Bool
  pub pod : Option PodRow
  pub mapped : Bool
  pub job : Option JobRow
  pub unit_exists : String → Option String → Bool

-- `String.prototype.trim` and `toLowerCase`.
pub record Casing : Type 0 where
  pub trimmed : String → String
  pub lowered : String → String

pub record StaffingScope : Type 0 where
  pub branch_id : Option String
  pub unit_id : Option String
  pub pod_id : Option String

abbrev pub cross_branch_keys : List String
cross_branch_keys =
    "platform:manage" ∷ "tenant:manage" ∷ "tenant:settings" ∷ "job:view_all_branches" ∷ []

-- `requested` of src/auth/utils/branch-resolver.ts.
unfoldable pub named_branch : Casing → Option String → Option String
named_branch casing none = none
named_branch casing (some header) =
    if casing.trimmed header === ""
      || includes (casing.lowered (casing.trimmed header)) ("all" ∷ "null" ∷ "undefined" ∷ [])
    then none
    else some (casing.trimmed header)

-- `resolveBranchId(user, headerBranchId)`.
unfoldable pub resolve_branch_id : Casing → Actor → Option String → Result (Option String)
unfolding named_branch
resolve_branch_id casing a header =
    if includes "*" a.permissions || includes_any cross_branch_keys a.permissions
    then ok (named_branch casing header)
    else if not (given a.branch_id)
    then throws (forbidden "An assigned branch is required.")
    else if given (named_branch casing header)
        && not (same_id (named_branch casing header) a.branch_id)
    then throws (forbidden "You can only access your assigned branch.")
    else ok a.branch_id

abbrev pub assigner_keys : List String
assigner_keys =
    "job:override_assignment" ∷ "tenant:manage" ∷ "tenant:settings" ∷ "platform:manage"
    ∷ "branch_admin:manage" ∷ "job:create" ∷ []

-- `isPodScopedRecruiterAssigner(actor)`.
unfoldable pub is_pod_scoped : Actor → Bool
is_pod_scoped a =
    includes "job:assign_recruiter" a.permissions && not (includes_any assigner_keys a.permissions)

-- `podLeadAccess`.
abbrev pub is_pod_lead : Actor → Request → Bool
is_pod_lead a request = request.permission === "job:assign_recruiter" && is_pod_scoped a

abbrev pub is_delivery_head : Actor → Bool
is_delivery_head a = includes "job:override_assignment" a.permissions

-- `branchManager`.
unfoldable pub manages_branch : Actor → Bool
manages_branch a =
    includes_any ("tenant:settings" ∷ "tenant:manage" ∷ "platform:manage" ∷ []) a.permissions
    || includes "branch_admin:manage" a.permissions
    || is_delivery_head a

-- `requested && requested !== id`.
abbrev pub asks_elsewhere : Option String → Option String → Bool
asks_elsewhere requested id = given requested && not (same_id requested id)

abbrev malformed : Option String → Bool
malformed none = false
malformed (some s) = not (s === "") && not (is_uuid s)

unfoldable pub pod_scope : Request → PodRow → Lookups → Result StaffingScope
pod_scope request pod found = do
  throw_if (not found.mapped)
      (forbidden "You can only assign recruiters to jobs mapped to your pod.")
  throw_if
      (given request.branch && given pod.branch_id && not (same_id request.branch pod.branch_id))
      (forbidden "The selected branch is outside your pod scope.")
  throw_if
      (given request.unit
        && given pod.business_unit_id
        && not (same_id request.unit pod.business_unit_id))
      (forbidden "The selected unit is outside your pod scope.")
  ok (record { branch_id = pod.branch_id; unit_id = pod.business_unit_id; pod_id = some pod.id })

-- `if (podLeadAccess) { … }`.
unfoldable pub lead_scope : Request → Lookups → Result StaffingScope
unfolding pod_scope
lead_scope request found =
    throw_if (not found.pods_enabled)
      (forbidden "Recruitment pods are disabled for this workspace or operating unit.")
    >> throw_if (not (given request.job_id))
        (forbidden "Pod Leads can only assign recruiters to jobs mapped to their pod.")
    >> elim found.pod [
      | none ↦ throws (forbidden "You are not assigned as a Pod Lead.")
      | some pod ↦ pod_scope request pod found
    ]

-- `id && (actor.dbId === id || actor.id === id)`.
abbrev is_own : Actor → Option String → Bool
is_own a id = given id && (same_id a.db_id id || same_id a.id id)

-- `isJobOwner`.
unfoldable pub owns_job : Actor → JobRow → Bool
owns_job a job = is_own a job.account_manager_id || is_own a job.recruitment_manager_id

-- The checks on the job, if one is named and exists.
unfoldable pub check_job : Actor → Request → JobRow → Result (Unit {0})
check_job a request job = do
  throw_if
      (is_delivery_head a
        && (not (same_id job.branch_id a.branch_id)
            || not (same_id job.business_unit_id a.business_unit_id)))
      (forbidden "Emergency assignments must stay in your current unit.")
  throw_if (not (manages_branch a) && not (owns_job a job))
      (forbidden "Account Managers can only assign staff to their own created jobs.")
  throw_if
      (not (manages_branch a)
        && (asks_elsewhere request.branch job.branch_id
            || asks_elsewhere request.unit job.business_unit_id))
      (forbidden "Assignments must stay within the job branch and unit.")

-- Whether there is a unit, but none of the branch.
unfoldable pub unit_missing : Lookups → Option String → Option String → Bool
unit_missing found none branch = false
unit_missing found (some id) branch = not (id === "") && not (found.unit_exists id branch)

-- From `effectiveUnit` on.
unfoldable pub final_scope :
    Actor → Request → Lookups → Option String → Bool → Option String → Result StaffingScope
unfolding unit_missing
final_scope a request found branch owner job_unit = do
  let unit = or_text request.unit (or_text job_unit a.business_unit_id)
  throw_if
      (not (manages_branch a)
        && not owner
        && (not (given a.business_unit_id) || asks_elsewhere request.unit a.business_unit_id))
      (forbidden "You can only select recruiters from your assigned unit.")
  throw_if (unit_missing found unit branch)
      (forbidden "The selected unit is outside your job staffing scope.")
  ok (record { branch_id = branch; unit_id = unit; pod_id = none })

-- `if (jobId) { … }` and what follows.
unfoldable pub office_scope : Actor → Request → Lookups → Option String → Result StaffingScope
unfolding check_job final_scope
office_scope a request found branch =
    if given request.job_id
    then elim found.job [
      | none ↦ throws (forbidden "The job is outside your job staffing scope.")
      | some job ↦
          check_job a request job
          >> final_scope a request found (or_text branch job.branch_id) (owns_job a job)
              job.business_unit_id
    ]
    else final_scope a request found branch false none

-- `resolveJobStaffingScope`.
unfoldable pub resolve_job_staffing_scope :
    Casing → Actor → Request → Lookups → Result StaffingScope
unfolding lead_scope office_scope
resolve_job_staffing_scope casing a request found = do
  throw_if (not (includes request.permission a.permissions)) (
      forbidden (
        if request.permission === "job:assign_recruiter"
        then "Recruiter assignment permission is required."
        else "Pod assignment permission is required."))
  throw_if (any malformed (request.branch ∷ request.unit ∷ request.job_id ∷ []))
      (bad_request "Select a valid branch, unit, or job.")
  branch ← resolve_branch_id casing a request.branch
  throw_if
      (is_delivery_head a
        && (not (given a.branch_id)
            || not (given a.business_unit_id)
            || asks_elsewhere request.branch a.branch_id
            || asks_elsewhere request.unit a.business_unit_id))
      (forbidden "Emergency assignments must stay in your current unit.")
  (if is_pod_lead a request then lead_scope request found else office_scope a request found branch)
