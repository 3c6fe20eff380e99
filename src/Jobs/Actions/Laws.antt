-- ===== src/Jobs/Actions/Laws.antt =====
-- The limits of src/jobs/job-action-policy.ts.
use ats_backend.Prelude.{
  Bool, true, false, not, ◌&&◌, ◌||◌, ◌≡◌, ◌⊎◌, ◌↔◌, refl, arith, Option, none, some, ok, inl, inr,
  throw_if-eq-ok, throw_if-ok, not-eq-false,
}
use ats_backend.Access.Actor.{Actor, given, same_id}
use ats_backend.Submissions.Capabilities.{is_closed_job}
use ats_backend.Jobs.Actions.{
  JobAction, edit, change_status, find_matches, manage_publication, JobScope,
  is_active_approved_job, has, same_branch, same_unit, tenant_key, is_change_status,
  is_find_matches, is_manage_publication, is_tenant_manager, is_platform, may_publish,
  matches_as_assigned, acts_as_owner, acts_by_office, can_act_on_job, assert_job_action,
  JobCapabilities, job_capabilities,
}

-- The actor reaches beyond a branch.
abbrev pub is_wide : Actor → JobAction → Bool
is_wide a action = is_platform a || is_tenant_manager a || has a (tenant_key action)

acts_by_office_branch :
    (a : Actor) (job : JobScope) (action : JobAction)
    → acts_by_office a job action ≡ true
    → (is_wide a action ≡ true) ⊎ (same_branch a job ≡ true)
unfolding acts_by_office acts_as_owner same_unit
acts_by_office_branch a job action h = ground arith

may_publish_branch :
    (a : Actor) (job : JobScope)
    → may_publish a job ≡ true
    → (is_wide a manage_publication ≡ true) ⊎ (same_branch a job ≡ true)
unfolding may_publish same_unit
may_publish_branch a job h = ground arith

matches_branch :
    (a : Actor) (job : JobScope) → matches_as_assigned a job ≡ true → same_branch a job ≡ true
unfolding matches_as_assigned same_unit
matches_branch a job h = ground arith

-- An action on a job is allowed only to a known member of the job's workspace; on a closed job
-- only the change of its status; matching and publication only for an active, approved job; and
-- to a member without a workspace-wide permission only inside the job's branch.
pub can_act_on_job-bounds :
    (a : Actor) (job : JobScope) (action : JobAction)
    → can_act_on_job (some a) job action ≡ true
    → ((given a.db_id ≡ true)
        × (given a.tenant_id ≡ true)
        × (same_id job.tenant_id a.tenant_id ≡ true))
      × ((is_change_status action ≡ true) ⊎ (is_closed_job job.status ≡ false))
      × (((is_find_matches action ≡ false) × (is_manage_publication action ≡ false))
          ⊎ (is_active_approved_job job ≡ true))
      × ((is_wide a action ≡ true) ⊎ (same_branch a job ≡ true))
unfolding can_act_on_job
can_act_on_job-bounds a job edit h = (
  (ground arith, ground arith, ground arith),
  ground arith,
  ground arith,
  ground (arith, acts_by_office_branch a job edit),
)
can_act_on_job-bounds a job change_status h = (
  (ground arith, ground arith, ground arith),
  ground arith,
  ground arith,
  ground (arith, acts_by_office_branch a job change_status),
)
can_act_on_job-bounds a job find_matches h = (
  (ground arith, ground arith, ground arith),
  ground arith,
  ground arith,
  ground (arith, acts_by_office_branch a job find_matches, matches_branch a job),
)
can_act_on_job-bounds a job manage_publication h = (
  (ground arith, ground arith, ground arith),
  ground arith,
  ground arith,
  ground (arith, may_publish_branch a job),
)

closed_guard :
    (actor : Option Actor) (job : JobScope) (action : JobAction)
    → can_act_on_job actor job action ≡ true
    → (not (is_change_status action) && is_closed_job job.status) ≡ false
unfolding can_act_on_job
closed_guard none job action h = cc h
closed_guard (some a) job action h =
    open_to (is_change_status action) (is_closed_job job.status)
      (can_act_on_job-bounds a job action h).1
  where
    open_to : (c d : Bool) → (c ≡ true) ⊎ (d ≡ false) → (not c && d) ≡ false
    open_to true d e = refl
    open_to false d (inr e) = e
    open_to false d (inl e) = cc e

assert_iff :
    (actor : Option Actor) (job : JobScope) (action : JobAction)
    → (assert_job_action actor job action ≡ ok tt) ↔ (can_act_on_job actor job action ≡ true)
unfolding assert_job_action
assert_iff actor job action = (
  λ h.
      let (open_, h1) =
        throw_if-eq-ok (not (is_change_status action) && is_closed_job job.status) _ _ h in
      not-eq-false _ (throw_if-ok _ _ h1),
  λ h. rw (closed_guard actor job action h, h),
)

-- What `jobCapabilities` shows for an action.
abbrev pub shown : JobAction → JobCapabilities → Bool
shown edit c = c.edit_
shown change_status c = c.change_status_
shown find_matches c = c.find_matches_
shown manage_publication c = c.manage_publication_

-- `assertJobAction` lets through exactly the actions that `jobCapabilities` shows as allowed.
pub assert_job_action-job_capabilities :
    (actor : Option Actor) (job : JobScope) (action : JobAction)
    → (assert_job_action actor job action ≡ ok tt)
      ↔ (shown action (job_capabilities actor job) ≡ true)
unfolding job_capabilities
assert_job_action-job_capabilities actor job edit = assert_iff actor job edit
assert_job_action-job_capabilities actor job change_status = assert_iff actor job change_status
assert_job_action-job_capabilities actor job find_matches = assert_iff actor job find_matches
assert_job_action-job_capabilities actor job manage_publication =
    assert_iff actor job manage_publication
