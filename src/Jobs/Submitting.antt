-- ===== src/Jobs/Submitting.antt =====
-- `assertJobSubmissionAccess` of src/jobs/job-submission-access.ts: the check before a candidate
-- is submitted to a job.
use ats_backend.Prelude.{
  Bool, true, not, ◌&&◌, ◌||◌, if◌then◌else◌, String, Option, some, Result, ok, throws, ◌>>◌,
  throw_if, throw_if-eq-ok, forbidden, ◌≡◌, arith,
}
use ats_backend.Access.Actor.{Actor, given, same_id}
use ats_backend.Jobs.Actions.{JobScope, has, is_active_approved_job, can_submit_to_job}

-- What the queries find: the member's current office and pod, the job in that office, whether the
-- member is assigned to it, whether pods are enabled, and whether the job is mapped to the pod.
pub record Standing : Type 0 where
  pub branch_id : Option String
  pub business_unit_id : Option String
  pub pod_id : Option String
  pub approval_status : Option String
  pub status : Option String
  pub account_manager_id : Option String
  pub is_assigned : Bool
  pub pods_enabled : Bool
  pub is_mapped : Bool

-- The job as the action policy reads it.
abbrev pub scope_of : Option String → Standing → JobScope
scope_of tenant s = record {
  approval_status = s.approval_status;
  status = s.status;
  tenant_id = tenant;
  account_manager_id = s.account_manager_id;
  branch_id = s.branch_id;
  business_unit_id = s.business_unit_id;
  directly_assigned = s.is_assigned;
  pod_assigned = given s.pod_id && s.is_mapped;
  pods_enabled = s.pods_enabled;
}

-- The last three ways to be allowed.
unfoldable pub assert_reach : Actor → Standing → Result (Unit {0})
assert_reach a s =
    if has a "job:submit_unit_jobs"
      || has a "job:submit_owned_jobs" && same_id s.account_manager_id a.db_id
    then ok tt
    else if s.is_assigned
    then ok tt
    else if has a "job:submit_pod_jobs" && not s.pods_enabled
    then throws (forbidden "Recruitment pods are disabled for this workspace or operating unit.")
    else if has a "job:submit_pod_jobs" && given s.pod_id && s.is_mapped
    then ok tt
    else throws (forbidden "Ask your pod lead to assign this job to you before submitting.")

-- `assertJobSubmissionAccess`; `found` is whether the job is in the member's office.
unfoldable pub assert_job_submission_access :
    Actor → Option String → String → Bool → Standing → Result (Unit {0})
unfolding assert_reach
assert_job_submission_access a tenant recruiter found s = do
  throw_if (not (given a.db_id) || not (has a "submission:create"))
      (forbidden "Missing submission:create permission.")
  throw_if (not (same_id a.tenant_id tenant)) (forbidden "Submission belongs to another workspace.")
  throw_if (not (same_id (some recruiter) a.db_id))
      (forbidden "Submit candidates under your own recruiter account.")
  throw_if (not (given s.branch_id) || not (given s.business_unit_id))
      (forbidden "A current branch and unit assignment is required.")
  throw_if (not found) (forbidden "Job is outside your current unit.")
  throw_if (not (is_active_approved_job (scope_of tenant s)))
      (forbidden "Only active, approved jobs accept candidate submissions.")
  assert_reach a s

assert_reach-reaches :
    (a : Actor) (s : Standing)
    → assert_reach a s ≡ ok tt
    → (has a "job:submit_unit_jobs"
        || has a "job:submit_owned_jobs" && same_id s.account_manager_id a.db_id
        || s.is_assigned
        || s.pods_enabled && (given s.pod_id && s.is_mapped) && has a "job:submit_pod_jobs")
      ≡ true
unfolding assert_reach
assert_reach-reaches a s h = ground arith

-- A submission that the check lets through is one that the member's capabilities show as allowed,
-- where the member acts in the branch and unit of their current assignment.
pub assert_job_submission_access-can_submit_to_job :
    (a : Actor) (tenant : Option String) (recruiter : String) (found : Bool) (s : Standing)
    → given a.branch_id ≡ true
    → given a.business_unit_id ≡ true
    → same_id a.branch_id s.branch_id ≡ true
    → same_id a.business_unit_id s.business_unit_id ≡ true
    → assert_job_submission_access a tenant recruiter found s ≡ ok tt
    → can_submit_to_job (some a) (scope_of tenant s) ≡ true
unfolding assert_job_submission_access can_submit_to_job
assert_job_submission_access-can_submit_to_job a tenant recruiter found s b u sb su h =
    let (may, h1) = throw_if-eq-ok (not (given a.db_id) || not (has a "submission:create")) _ _ h in
    let (home, h2) = throw_if-eq-ok (not (same_id a.tenant_id tenant)) _ _ h1 in
    let (own, h3) = throw_if-eq-ok (not (same_id (some recruiter) a.db_id)) _ _ h2 in
    let (office, h4) =
      throw_if-eq-ok (not (given s.branch_id) || not (given s.business_unit_id)) _ _ h3 in
    let (inside, h5) = throw_if-eq-ok (not found) _ _ h4 in
    let (active, h6) = throw_if-eq-ok (not (is_active_approved_job (scope_of tenant s))) _ _ h5 in
    let reach = assert_reach-reaches a s h6 in ground arith
