-- ===== src/Jobs/Actions.antt =====
-- src/jobs/job-action-policy.ts: who may edit, match, publish and submit to a job.
pub mod Laws
use ats_backend.Prelude.{
  Bool, true, false, not, ◌&&◌, ◌||◌, if◌then◌else◌, String, ◌===◌, Option, none, some, includes,
  trimmed_upper_is, Result, ok, throws, ◌>>=◌, ◌>>◌, throw_if, bad_request, forbidden,
}
use ats_backend.Access.Actor.{Actor, given, same_id}
use ats_backend.Submissions.Capabilities.{is_closed_job}

pub data JobAction : Type 0 where
  edit change_status find_matches manage_publication : JobAction

-- `JobScope`.
pub record JobScope : Type 0 where
  pub approval_status : Option String
  pub status : Option String
  pub tenant_id : Option String
  pub account_manager_id : Option String
  pub branch_id : Option String
  pub business_unit_id : Option String
  pub directly_assigned : Bool
  pub pod_assigned : Bool
  pub pods_enabled : Bool

-- `status?.trim().toUpperCase() === 'ACTIVE'`.
abbrev is_active : Option String → Bool
unfolding trimmed_upper_is
is_active none = false
is_active (some s) = trimmed_upper_is "ACTIVE" s

-- `isActiveApprovedJob(job)`.
unfoldable pub is_active_approved_job : JobScope → Bool
unfolding trimmed_upper_is given same_id
is_active_approved_job job =
    is_active job.status
    && (not (given job.approval_status) || same_id job.approval_status (some "APPROVED"))

abbrev pub has : Actor → String → Bool
has a key = includes key a.permissions

unfoldable pub same_branch : Actor → JobScope → Bool
same_branch a job = given a.branch_id && same_id job.branch_id a.branch_id

unfoldable pub same_unit : Actor → JobScope → Bool
same_unit a job =
    same_branch a job && given a.business_unit_id && same_id job.business_unit_id a.business_unit_id

-- `job:${action}` and what follows it.
abbrev pub action_key : JobAction → String
action_key edit = "job:edit"
action_key change_status = "job:change_status"
action_key find_matches = "job:find_matches"
action_key manage_publication = "job:manage_publication"

abbrev pub tenant_key : JobAction → String
tenant_key edit = "job:edit_tenant"
tenant_key change_status = "job:change_status_tenant"
tenant_key find_matches = "job:find_matches_tenant"
tenant_key manage_publication = "job:manage_publication_tenant"

abbrev pub branch_key : JobAction → String
branch_key edit = "job:edit_branch"
branch_key change_status = "job:change_status_branch"
branch_key find_matches = "job:find_matches_branch"
branch_key manage_publication = "job:manage_publication_branch"

abbrev pub unit_key : JobAction → String
unit_key edit = "job:edit_unit"
unit_key change_status = "job:change_status_unit"
unit_key find_matches = "job:find_matches_unit"
unit_key manage_publication = "job:manage_publication_unit"

abbrev pub is_change_status : JobAction → Bool
is_change_status change_status = true
is_change_status _ = false

abbrev pub is_find_matches : JobAction → Bool
is_find_matches find_matches = true
is_find_matches _ = false

abbrev pub is_manage_publication : JobAction → Bool
is_manage_publication manage_publication = true
is_manage_publication _ = false

abbrev pub is_tenant_manager : Actor → Bool
is_tenant_manager a = has a "tenant:manage" || has a "tenant:settings"

unfoldable pub may_publish : Actor → JobScope → Bool
may_publish a job =
    has a "job:manage_publication_tenant" && is_tenant_manager a
    || same_branch a job && has a "job:manage_publication_branch" && has a "branch_admin:manage"
    || same_unit a job && has a "job:manage_publication_unit" && has a "unit_admin:manage"

unfoldable pub matches_as_assigned : Actor → JobScope → Bool
matches_as_assigned a job =
    has a "job:find_matches_assigned"
    && has a "job:view"
    && has a "candidate:view"
    && same_unit a job
    && (job.directly_assigned
        || job.pods_enabled
          && job.pod_assigned
          && (has a "job:view_pod_jobs" || has a "job:submit_pod_jobs"))

unfoldable pub acts_as_owner : Actor → JobScope → JobAction → Bool
acts_as_owner a job action =
    same_branch a job
    && (not (given a.business_unit_id) || same_unit a job)
    && same_id job.account_manager_id a.db_id
    && has a (action_key action)

-- The permissions by office, from the workspace down to the job's own manager.
unfoldable pub acts_by_office : Actor → JobScope → JobAction → Bool
acts_by_office a job action =
    if is_tenant_manager a
    then true
    else if has a (tenant_key action)
    then true
    else if same_branch a job && (has a (branch_key action) || has a "branch_admin:manage")
    then true
    else if same_unit a job && (has a (unit_key action) || has a "unit_admin:manage")
    then true
    else acts_as_owner a job action

abbrev pub is_platform : Actor → Bool
is_platform a = has a "*" || has a "platform:manage"

-- `canActOnJob(actor, job, action)`; `none` is an absent actor.
unfoldable pub can_act_on_job : Option Actor → JobScope → JobAction → Bool
can_act_on_job none job action = false
can_act_on_job (some a) job action =
    if not (given a.db_id) || not (given a.tenant_id) || not (same_id job.tenant_id a.tenant_id)
    then false
    else if not (is_change_status action) && is_closed_job job.status
    then false
    else if (is_find_matches action || is_manage_publication action)
        && not (is_active_approved_job job)
    then false
    else if is_platform a
    then true
    else if is_find_matches action && not (has a "candidate:view")
    then false
    else if is_manage_publication action
    then may_publish a job
    else if is_find_matches action && matches_as_assigned a job
    then true
    else acts_by_office a job action

-- `canSubmitToJob(actor, job)`.
unfoldable pub can_submit_to_job : Option Actor → JobScope → Bool
can_submit_to_job none job = false
can_submit_to_job (some a) job =
    given a.db_id
    && same_id a.tenant_id job.tenant_id
    && given a.branch_id
    && same_id a.branch_id job.branch_id
    && given a.business_unit_id
    && same_id a.business_unit_id job.business_unit_id
    && has a "submission:create"
    && is_active_approved_job job
    && (has a "job:submit_unit_jobs"
        || has a "job:submit_owned_jobs" && same_id job.account_manager_id a.db_id
        || job.directly_assigned
        || job.pods_enabled && job.pod_assigned && has a "job:submit_pod_jobs")

-- `assertJobAction(actor, job, action)`.
unfoldable pub assert_job_action : Option Actor → JobScope → JobAction → Result (Unit {0})
assert_job_action actor job action = do
  throw_if (not (is_change_status action) && is_closed_job job.status)
      (bad_request "This job is closed. Reopen it before editing, matching or publishing.")
  throw_if (not (can_act_on_job actor job action))
      (forbidden "You do not have permission to perform this action on this job.")

pub record JobCapabilities : Type 0 where
  pub edit_ : Bool
  pub change_status_ : Bool
  pub find_matches_ : Bool
  pub manage_publication_ : Bool
  pub submit_candidate : Bool

-- `jobCapabilities(actor, job)`.
unfoldable pub job_capabilities : Option Actor → JobScope → JobCapabilities
job_capabilities actor job = record {
  edit_ = can_act_on_job actor job edit;
  change_status_ = can_act_on_job actor job change_status;
  find_matches_ = can_act_on_job actor job find_matches;
  manage_publication_ = can_act_on_job actor job manage_publication;
  submit_candidate = can_submit_to_job actor job;
}
