-- ===== src/Jobs/Tests.antt =====
-- The rules of src/jobs (job-action-policy.ts, automatic-pod.ts, job-staffing.ts) on concrete
-- members and jobs.
use ats_backend.Prelude.{
  none, Option, List, map, find, length, String, is_uuid, includes_any, true, false, ◌≡◌, ◌⊎◌, ◌↔◌,
  [], ◌∷◌, some, includes, refl, ok, trimmed_upper_is,
}
use ats_backend.Access.Actor.{Actor, given, same_id, or_text}
use ats_backend.Submissions.Capabilities.{is_closed_job}
use ats_backend.Jobs.Actions.{
  edit, find_matches, JobScope, is_active_approved_job, same_branch, is_change_status,
  is_find_matches, is_manage_publication, acts_by_office, matches_as_assigned, same_unit,
  can_act_on_job, can_submit_to_job, assert_job_action, job_capabilities,
}
use ats_backend.Jobs.Actions.Laws.{
  is_wide, shown, can_act_on_job-bounds, assert_job_action-job_capabilities,
}
use ats_backend.Jobs.Pods.{
  Pod, is_next, renew, give_turn, Policy, pods_enabled, uses_automatic_pods, is_automatic_strategy,
  allocate_automatic_pod,
}
use ats_backend.Jobs.Pods.Rotation.{ahead, spend, publish, distinct, IsAutomatic, publish-rotation}
use ats_backend.Jobs.Staffing.{
  is_pod_lead, Request, Lookups, Casing, StaffingScope, resolve_branch_id, is_delivery_head,
  manages_branch, asks_elsewhere, is_pod_scoped, owns_job, resolve_job_staffing_scope,
}
use ats_backend.Jobs.Staffing.Laws.{InPod, OnJob, WithoutJob, resolve_job_staffing_scope-bounds}
use ats_backend.Jobs.Submitting.{
  Standing, scope_of, assert_reach, assert_job_submission_access,
  assert_job_submission_access-can_submit_to_job,
}

-- A recruiter of branch B, unit U.
abbrev recruiter : Actor
recruiter = record {
  id = some "kc-7";
  db_id = some "7";
  tenant_id = some "T";
  branch_id = some "B";
  business_unit_id = some "U";
  permissions =
      "submission:create" ∷ "candidate:view" ∷ "job:find_matches_unit" ∷ "job:submit_pod_jobs" ∷ [];
  system_role = some "RECRUITER";
  roles = [];
  assigned_branch_ids = [];
}

-- An open job of the same unit, staffed through a pod.
abbrev open_job : JobScope
open_job = record {
  approval_status = some "APPROVED";
  status = some "Active";
  tenant_id = some "T";
  account_manager_id = some "9";
  branch_id = some "B";
  business_unit_id = some "U";
  directly_assigned = false;
  pod_assigned = true;
  pods_enabled = true;
}

matching_allowed : can_act_on_job (some recruiter) open_job find_matches ≡ true
unfolding can_act_on_job given same_id is_closed_job trimmed_upper_is is_active_approved_job
    includes matches_as_assigned acts_by_office same_branch same_unit
matching_allowed = refl

can_act_on_job-bounds_example :
    ((given recruiter.db_id ≡ true)
      × (given recruiter.tenant_id ≡ true)
      × (same_id open_job.tenant_id recruiter.tenant_id ≡ true))
    × ((is_change_status find_matches ≡ true) ⊎ (is_closed_job open_job.status ≡ false))
    × (((is_find_matches find_matches ≡ false) × (is_manage_publication find_matches ≡ false))
        ⊎ (is_active_approved_job open_job ≡ true))
    × ((is_wide recruiter find_matches ≡ true) ⊎ (same_branch recruiter open_job ≡ true))
can_act_on_job-bounds_example =
    can_act_on_job-bounds recruiter open_job find_matches matching_allowed

submission_allowed : can_submit_to_job (some recruiter) open_job ≡ true
unfolding can_submit_to_job given same_id includes is_active_approved_job
submission_allowed = refl

assert_job_action-job_capabilities_example :
    (assert_job_action (some recruiter) open_job edit ≡ ok tt)
    ↔ (shown edit (job_capabilities (some recruiter) open_job) ≡ true)
assert_job_action-job_capabilities_example =
    assert_job_action-job_capabilities (some recruiter) open_job edit

abbrev automatic : Policy
automatic = record {
  pod_system_enabled = true;
  allow_pods = true;
  strategy = none;
  allow_unassigned = false;
}

automatic-IsAutomatic : IsAutomatic automatic
unfolding pods_enabled uses_automatic_pods is_automatic_strategy
automatic-IsAutomatic = record { enabled = refl; automatic = refl }

-- A pod that was not eligible for a while, one that had its turn, one without staff, and one that is
-- to come.
abbrev four_pods : List Pod
four_pods =
    record { id = 1; led = true; staffed = true; is_available = true }
    ∷ record { id = 2; led = true; staffed = true; is_available = false }
    ∷ record { id = 3; led = true; staffed = false; is_available = true }
    ∷ record { id = 4; led = true; staffed = true; is_available = true }
    ∷ []

four_apart : distinct four_pods ≡ true
unfolding distinct
four_apart = refl

ahead-four_pods : ahead four_pods ≡ 1 ∷ 4 ∷ []
unfolding ahead
ahead-four_pods = refl

publish-rotation_example :
    (publish automatic (length (ahead four_pods)) four_pods
      ≡ ok (map some (ahead four_pods), map spend four_pods))
    × (find is_next (map spend four_pods) ≡ none)
    × (allocate_automatic_pod (some automatic) (map spend four_pods)
        ≡ ok (some 1, map (give_turn 1) (map renew four_pods)))
publish-rotation_example =
    publish-rotation automatic four_pods
      (record { id = 1; led = true; staffed = true; is_available = true }) automatic-IsAutomatic
      four_apart refl

-- The account manager of the open job staffs it.
abbrev manager : Actor
manager = record recruiter {
  db_id = some "9";
  permissions = "job:assign_recruiter" ∷ "job:create" ∷ [];
}

abbrev job_id : String
job_id = "0b8f3f1e-52c5-4b6a-9a58-0d6d6ac1a001"

abbrev staffing : Request
staffing = record {
  branch = none;
  unit = none;
  permission = "job:assign_recruiter";
  job_id = some job_id;
}

abbrev lookups : Lookups
lookups = record {
  pods_enabled = true;
  pod = none;
  mapped = false;
  job = some (record {
    account_manager_id = some "9";
    recruitment_manager_id = none;
    branch_id = some "B";
    business_unit_id = some "U";
  });
  unit_exists = λ unit branch. true;
}

abbrev casing : Casing
casing = record { trimmed = λ s. s; lowered = λ s. s }

abbrev staffed : StaffingScope
staffed = record { branch_id = some "B"; unit_id = some "U"; pod_id = none }

staffing_allowed : resolve_job_staffing_scope casing manager staffing lookups ≡ ok staffed
unfolding resolve_job_staffing_scope includes is_uuid resolve_branch_id includes_any given
    is_pod_scoped manages_branch owns_job same_id or_text
staffing_allowed = refl

resolve_job_staffing_scope-bounds_example :
    (includes "job:assign_recruiter" manager.permissions ≡ true)
    × ((is_delivery_head manager ≡ false)
        ⊎ ((asks_elsewhere staffing.branch manager.branch_id ≡ false)
            × (asks_elsewhere staffing.unit manager.business_unit_id ≡ false)))
    × ((branch : Option String) × (resolve_branch_id casing manager staffing.branch ≡ ok branch)
        × (((is_pod_lead manager staffing ≡ true) × InPod staffing lookups staffed)
            ⊎ OnJob manager staffing lookups branch staffed
            ⊎ WithoutJob manager staffing lookups branch staffed))
resolve_job_staffing_scope-bounds_example =
    resolve_job_staffing_scope-bounds casing manager staffing lookups staffed staffing_allowed

abbrev standing : Standing
standing = record {
  branch_id = some "B";
  business_unit_id = some "U";
  pod_id = some "P";
  approval_status = some "APPROVED";
  status = some "ACTIVE";
  account_manager_id = some "9";
  is_assigned = false;
  pods_enabled = true;
  is_mapped = true;
}

access_granted : assert_job_submission_access recruiter (some "T") "7" true standing ≡ ok tt
unfolding assert_job_submission_access assert_reach given same_id includes trimmed_upper_is
    is_active_approved_job
access_granted = refl

has_branch : given (some "B") ≡ true
unfolding given
has_branch = refl

has_unit : given (some "U") ≡ true
unfolding given
has_unit = refl

in_branch : same_id (some "B") (some "B") ≡ true
unfolding same_id
in_branch = refl

in_unit : same_id (some "U") (some "U") ≡ true
unfolding same_id
in_unit = refl

assert_job_submission_access-can_submit_to_job_example :
    can_submit_to_job (some recruiter) (scope_of (some "T") standing) ≡ true
assert_job_submission_access-can_submit_to_job_example =
    assert_job_submission_access-can_submit_to_job recruiter (some "T") "7" true standing has_branch
      has_unit in_branch in_unit access_granted
