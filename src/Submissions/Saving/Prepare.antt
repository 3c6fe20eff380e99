-- ===== src/Submissions/Saving/Prepare.antt =====
-- `update` of src/recruiter-submissions/recruiter-submissions.service.ts up to its transaction.
use ats_backend.Prelude.{
  ℕ, ◌==◌, Bool, true, false, not, ◌&&◌, ◌||◌, if◌then◌else◌, Option, none, some, List, [], ◌∷◌,
  String, ◌===◌, includes, Js, null, truthy, has_text, same_value, time_of, Result, ok, throws,
  ◌>>=◌, ◌>>◌, throw_if, bad_request, forbidden, conflict, not_found, find,
}
use ats_backend.Submissions.Model.{Update}
use ats_backend.Submissions.Capabilities.{submission_capabilities}
use ats_backend.Submissions.RoundUpdate.{round_update}
use ats_backend.Submissions.Validate.{validate_tracker_update}
use ats_backend.Submissions.Update.{store}
use ats_backend.Submissions.History.{
  Columns, Data, Change, history_changes, history_audit_changes, save_request_hash,
}
use ats_backend.Submissions.Saving.{
  Database, Event, JobState, Save, Member, version, tracked, changes_status, workflow_change,
  is_other_manager_job, creator_internal_decision, is_job_paused, viewer_of,
}
use ats_backend.Submissions.Saving.Assigned.{data_of}

-- What the transaction is given: the row that was read with its version, and what to write.
pub record Plan : Type 0 where
  pub existing : Columns
  pub read_version : ℕ
  pub written : Data
  pub audit_changes : List Change
  pub should_record_history : Bool
  pub save : Save
  pub request_hash : String

-- What comes before the transaction: the submission as it is, or a plan to write.
pub data Prepared : Type 0 where
  nothing_to_save : Prepared
  to_write : Plan → Prepared

-- `user.dbId || user.email || user.fullName || null`.
unfoldable pub actor_id : Member → Js
actor_id user =
    if truthy user.db_id
    then user.db_id
    else if truthy user.email
    then user.email
    else if truthy user.full_name
    then user.full_name
    else null

-- `findFirst({ where: { submissionId: id, tenantId, requestId } })`.
unfoldable pub prior_save : Js → List Event → Option Event
unfolding same_value
prior_save request_id events = find (λ e. same_value e.request_id request_id) events

-- The guard on another account manager's job.
unfoldable pub check_manager : Save → JobState → Columns → Result (Unit {0})
unfolding changes_status includes
check_manager s job row =
    throw_if
      (is_other_manager_job s.member job
        && changes_status s.dto
        && not (creator_internal_decision s job row)
        && not (includes "submission:edit_all" s.member.permissions))
      (forbidden "Editing status for another account manager’s job is not enabled for this role.")

abbrev pub request_hash_of : Save → String
request_hash_of s = save_request_hash s.digest s.dto.keys s.body

-- A request identifier that was used: the same save again, or another one.
unfoldable pub replayed : Save → Event → Result Prepared
unfolding actor_id save_request_hash same_value
replayed s prior = do
  throw_if
      (not (prior.request_hash === request_hash_of s)
        || not (same_value prior.actor_id (actor_id s.member)))
      (conflict "This request ID has already been used for another save.")
  ok nothing_to_save

-- `dto.expectedUpdatedAt && new Date(dto.expectedUpdatedAt).getTime() !== existing.updatedAt.getTime()`.
unfoldable pub expects_other_version : Save → ℕ → Bool
unfolding time_of
expects_other_version s read =
    truthy s.dto.expected_updated_at
    && elim (time_of s.runtime s.dto.expected_updated_at) [ none ↦ true | some t ↦ not (t == read) ]

abbrev pub is_empty : List Change → Bool
is_empty [] = true
is_empty (c ∷ cs) = false

-- `shouldRecordHistory`.
unfoldable pub is_recorded : Update → List Change → Bool
is_recorded dto audit =
    not (is_empty audit)
    || has_text dto.bypass_reason
    || has_text dto.correction_reason
    || truthy dto.assessment_version

abbrev pub plan_with : Save → Columns → ℕ → Data → Plan
plan_with s row read written = record {
  existing = row;
  read_version = read;
  written = written;
  audit_changes = history_audit_changes s.runtime row written;
  should_record_history = is_recorded s.dto (history_audit_changes s.runtime row written);
  save = s;
  request_hash = request_hash_of s;
}

-- From `historyAuditChanges` to the transaction.
unfoldable pub plan_of : Save → Columns → ℕ → Data → Prepared
unfolding history_changes
plan_of s row read written =
    if is_empty (history_changes s.runtime row written) && not (has_text s.dto.bypass_reason)
    then nothing_to_save
    else to_write (plan_with s row read written)

-- From `workflowChange` on.
unfoldable pub check_save : Save → JobState → Columns → ℕ → Result Prepared
unfolding is_job_paused workflow_change viewer_of submission_capabilities expects_other_version
    plan_of data_of
check_save s job row read = do
  throw_if (is_job_paused job && workflow_change s.dto)
      (bad_request "Job closed - workflow paused. Activate the job to edit submission status.")
  validate_tracker_update s.runtime (tracked row s.rejection_from_status) s.dto
      (submission_capabilities (viewer_of s job row))
  throw_if (expects_other_version s read)
      (conflict "This submission was updated by someone else. Reload it before saving.")
  changes ← round_update (tracked row s.rejection_from_status).rounds s.dto
  stored ← store s.runtime (tracked row s.rejection_from_status) s.dto changes
  ok (plan_of s row read (data_of s.parse_float s.dto changes stored))

-- The lookup of an earlier save under the request's identifier.
unfoldable pub or_check : Save → JobState → Columns → ℕ → Option Event → Result Prepared
unfolding replayed check_save
or_check s job row read none = check_save s job row read
or_check s job row read (some prior) = replayed s prior

unfoldable pub prepare_with : Save → Database → JobState → Result Prepared
unfolding check_manager prior_save or_check
prepare_with s db job = do
  check_manager s job db.row
  or_check s job db.row (version db)
      (if truthy s.dto.request_id then prior_save s.dto.request_id db.events else none)

unfoldable pub prepare_on : Save → Database → Option JobState → Result Prepared
unfolding prepare_with
prepare_on s db none = throws (not_found "Job not found.")
prepare_on s db (some job) = prepare_with s db job

-- `update`, up to the transaction.
unfoldable pub prepare : Save → Database → Result Prepared
unfolding prepare_on
prepare s db = prepare_on s db db.job
