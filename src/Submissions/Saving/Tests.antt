-- ===== src/Submissions/Saving/Tests.antt =====
-- Concurrent saves of a concrete submission, and the theorems at them.
use ats_backend.Prelude.{
  true, false, ◌===◌, ◌||◌, String, [], ◌∷◌, some, none, undefined, null, str, Runtime, ok, throws,
  conflict, ◌≡◌, ◌≢◌, refl, inl, if◌then◌else◌,
}
use ats_backend.Prelude.{includes, includes_any, same_value, trimmed_upper_is}
use ats_backend.Submissions.Capabilities.{is_closed_job, submission_capabilities, is_paused}
use ats_backend.Submissions.RoundUpdate.{round_update, scan, reset, settle, reopens}
use ats_backend.Submissions.Validate.{check_changes, validate_tracker_update}
use ats_backend.Submissions.Validate.Shape.{check_shape, check_reopening, check_assessment}
use ats_backend.Submissions.Validate.Interviews.{check_rounds, field_touched, check_sequence}
use ats_backend.Submissions.Validate.Outcome.{check_fields, check_outcome, check_result_state}
use ats_backend.Submissions.Update.{store, stored_round, stored_date, after_rejection}
use ats_backend.Submissions.History.{history_value, history_changes, data_at, audit_fields}
use ats_backend.Submissions.Saving.{
  is_other_manager_job, changes_status, mentions_rounds, workflow_change, creator_internal_decision,
  creator_review, is_job_paused, viewer_of,
}
use ats_backend.Submissions.Saving.Prepare.{
  prepare_on, prepare_with, or_check, check_save, prior_save, plan_of, is_recorded,
  expects_other_version,
}
use ats_backend.Submissions.Model.{Round, Rounds, Update}
use ats_backend.Submissions.Update.{Stored}
use ats_backend.Submissions.History.{
  Columns, Digest, history_snapshot, write, history_audit_changes,
}
use ats_backend.Submissions.History.Replay.{replay_changes, replay_changes-history_audit_changes}
use ats_backend.Submissions.Saving.{Member, JobState, Database, Save}
use ats_backend.Submissions.Saving.Assigned.{data_of}
use ats_backend.Submissions.Saving.Prepare.{Plan, plan_with, to_write, prepare, check_manager}
use ats_backend.Submissions.Saving.Commit.{
  Evidence, commit, save, written_to, update_event, baseline_event, commit_on, check_commit,
  compare_and_set, assessment_for, has_unknown_override, is_at_version, record_history,
  create_events, with_baseline, started_from, add_event, next_sequence, latest,
}
use ats_backend.Submissions.Saving.Stale.{unsaved, commit-ne-ok_after_save}
use ats_backend.Submissions.Saving.Log.{IsRecorded, no_events}
use ats_backend.Submissions.Saving.Retry.{is_same_save, save-retry}
use ats_backend.Submissions.Saving.Complete.{opened, saves, just_now, at_time, Run-IsRecorded}

abbrev clock : Runtime
clock = record {
  parse_date = λ s. some 50;
  number_date = λ s. some 50;
  iso_date = λ t. "1970-01-01T00:00:00.050Z";
  date_text = λ t. "Thu Jan 01 1970";
  now = 100;
  url_protocol = λ s. some "https:";
}

abbrev unset : Round
unset = record {
  status = undefined;
  date = undefined;
  remarks = undefined;
  interviewer = undefined;
  color = undefined;
}

abbrev no_rounds : Rounds
no_rounds = record { first = unset; second = unset; third = unset }

abbrev id_one : String
id_one = "11111111-1111-1111-1111-111111111111"

abbrev note : Update
note = record {
  keys = "requestId" ∷ "remarks" ∷ [];
  rounds = no_rounds;
  request_id = str id_one;
  bypass_reason = undefined;
  correction_reason = undefined;
  reset_following_rounds = undefined;
  expected_updated_at = undefined;
  final_status = undefined;
  remarks = str "Called";
  review_feedback = undefined;
  pod_lead_remarks = undefined;
  recruiter_comment = undefined;
  submitted_rate = undefined;
  meeting_link = undefined;
  assessment_version = undefined;
  review_overrides = undefined;
}

abbrev recruiter : Member
recruiter = record {
  db_id = str "u1";
  email = str "ann@example.com";
  full_name = str "Ann";
  system_role = str "RECRUITER";
  roles = [];
  permissions = "submission:edit" ∷ [];
}

abbrev digest : Digest
digest = record { sort = λ keys. keys; hash = λ entries. "h1" }

abbrev first_save : Save
first_save = record {
  member = recruiter;
  dto = note;
  body = λ key. if key === "remarks" then str "Called" else str id_one;
  rejection_from_status = null;
  reviewer_id = null;
  membership = none;
  now = 100;
  uuid = "22222222-2222-2222-2222-222222222222";
  runtime = clock;
  digest = digest;
  parse_float = λ s. str s;
}

-- The same request once more, later.
abbrev second_save : Save
second_save = record first_save { now = 200; runtime = at_time clock 200 }

abbrev job : JobState
job = record {
  status = "ACTIVE";
  keep_existing_submissions_open = false;
  account_manager_id = str "u9";
  created_by_user_id = str "u9";
  branch_id = str "b1";
  business_unit_id = str "n1";
}

-- A submission in progress, of which nothing is recorded yet.
abbrev stored_row : Columns
stored_row column =
    if column === "finalStatus"
    then str "SUBMITTED"
    else if column === "l1Status" || column === "l2Status" || column === "l3Status"
    then str "PENDING"
    else null

abbrev start : Database
start = record { row = stored_row; updated_at = 50123; events = []; job = some job }

abbrev pending_round : Round
pending_round = record {
  status = str "PENDING";
  date = null;
  remarks = null;
  interviewer = null;
  color = null;
}

abbrev stored_rounds : Stored
stored_rounds = record {
  rounds = record { first = pending_round; second = pending_round; third = pending_round };
  final_status = str "SUBMITTED";
}

abbrev plan : Plan
plan = plan_with first_save stored_row 50 (data_of (λ s. str s) note no_rounds stored_rounds)

evidence_ : Evidence
evidence_ = record {
  current_version = "v";
  cached = none;
  assessed = record { version = "v"; criteria = [] };
}

prepared : prepare first_save start ≡ ok (to_write plan)
unfolding prepare prepare_on prepare_with or_check check_save check_manager prior_save plan_of
    is_recorded expects_other_version is_other_manager_job changes_status mentions_rounds
    workflow_change creator_internal_decision creator_review is_job_paused viewer_of is_closed_job
    submission_capabilities is_paused validate_tracker_update check_changes check_shape
    check_reopening check_assessment check_rounds field_touched history_value check_sequence
    check_fields check_outcome check_result_state round_update scan reset settle reopens store
    stored_round stored_date after_rejection data_of history_changes includes includes_any
    same_value trimmed_upper_is
prepared = refl

abbrev after : Database
after = written_to plan start (update_event plan 1 ∷ baseline_event plan ∷ [])

committed : commit plan evidence_ start ≡ ok after
unfolding commit commit_on check_commit compare_and_set assessment_for has_unknown_override
    is_at_version record_history create_events with_baseline started_from add_event next_sequence
    latest is_job_paused is_closed_job workflow_change changes_status mentions_rounds
    trimmed_upper_is is_recorded history_audit_changes history_changes includes audit_fields data_of
    data_at update_event baseline_event same_value
committed = refl

recorded : plan.should_record_history ≡ true
unfolding is_recorded history_audit_changes history_changes includes audit_fields data_of data_at
recorded = refl

stays_allowed : check_manager second_save job after.row ≡ ok tt
unfolding check_manager is_other_manager_job includes includes_any
stays_allowed = refl

start-IsRecorded : IsRecorded clock start
start-IsRecorded = record { in_order = no_events; faithful = inl refl }

replay_changes-history_audit_changes_example :
    replay_changes
      (history_snapshot clock stored_row)
      (history_audit_changes clock stored_row plan.written)
    ≡ history_snapshot clock (write stored_row plan.written)
replay_changes-history_audit_changes_example =
    replay_changes-history_audit_changes clock stored_row plan.written

commit-ne-ok_after_save_example : commit plan evidence_ after ≢ ok after
commit-ne-ok_after_save_example =
    commit-ne-ok_after_save plan plan evidence_ evidence_ start start after after refl unsaved
      committed unsaved after

save-retry_example : save second_save evidence_ after ≡ (
    if is_same_save first_save second_save
    then ok after
    else throws (conflict "This request ID has already been used for another save."))
save-retry_example =
    save-retry first_save second_save start start after after plan evidence_ evidence_ job id_one
      prepared committed recorded unsaved refl refl refl refl stays_allowed

Run-IsRecorded_example : IsRecorded clock after
Run-IsRecorded_example =
    Run-IsRecorded start-IsRecorded
      (saves first_save start plan evidence_ opened just_now refl prepared committed)
