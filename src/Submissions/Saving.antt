-- ===== src/Submissions/Saving.antt =====
-- `update` of src/recruiter-submissions/recruiter-submissions.service.ts as a transaction on the
-- stored submission: the checks and the columns that a
-- request leads to are in Saving/Prepare.antt and
-- Saving/Assigned.antt, the database transaction in Saving/Commit.antt.
pub mod Assigned
pub mod Prepare
pub mod Commit
pub mod Stale
pub mod Log
pub mod Interleaved
pub mod Complete
mod Tests
pub mod Retry
use ats_backend.Prelude.{
  ℕ, ◌+◌, ◌/◌, ◌==◌, Bool, true, false, not, ◌&&◌, ◌||◌, if◌then◌else◌, any, Option, none, some,
  List, [], ◌∷◌, ◌++◌, String, ◌===◌, includes, includes_any, map, Js, undefined, null, bool, is,
  is_defined, one_of, truthy, has_text, same_value, time_of, Runtime, Result, ok, throws, ◌>>=◌,
  ◌>>◌, throw_if, when, bad_request, forbidden, conflict, internal,
}
use ats_backend.Submissions.Model.{
  RoundKey, l1, l2, l3, round_keys, Round, Rounds, round_of, Row, Update,
}
use ats_backend.Submissions.Capabilities.{Viewer, is_closed_job, submission_capabilities}
use ats_backend.Submissions.RoundUpdate.{round_update}
use ats_backend.Submissions.Validate.{validate_tracker_update}
use ats_backend.Submissions.Update.{Stored, store}
use ats_backend.Submissions.History.{
  Columns, Data, Change, history_changes, history_audit_changes, Digest, save_request_hash,
}

-- What is recorded of a save or of the creation: `kind` and `details`.
pub data Details : Type 0 where
  -- `CREATED` and `BASELINE`: a snapshot.
  created_as : List (String × Option String) → Details
  baseline : List (String × Option String) → Details
  -- `UPDATE`: the changes, and the reasons given; the copy of an assessment is left out.
  updated : List Change → Js → Js → Details

-- A row of `submission_events`.
pub record Event : Type 0 where
  pub sequence : ℕ
  pub request_id : Js
  pub request_hash : String
  pub actor_id : Js
  pub details : Details

-- The columns of the job that the save reads.
pub record JobState : Type 0 where
  pub status : String
  pub keep_existing_submissions_open : Bool
  pub account_manager_id : Js
  pub created_by_user_id : Js
  pub branch_id : Js
  pub business_unit_id : Js

-- The database as far as one submission goes: its row, `updated_at` in microseconds, its events,
-- and its job, if the job is still there (when the submission is read it is, by the foreign key).
pub record Database : Type 0 where
  pub row : Columns
  pub updated_at : ℕ
  pub events : List Event
  pub job : Option JobState

-- `existing.updatedAt.getTime()`.
abbrev pub version : Database → ℕ
version db = db.updated_at / 1000

-- The signed-in member, `user`.
pub record Member : Type 0 where
  pub db_id : Js
  pub email : Js
  pub full_name : Js
  pub system_role : Js
  pub roles : List String
  pub permissions : List String

-- One call of `update`: who saves what, what `findOne` showed of the submission, the branch and
-- unit of the member's own record, the time, a new identifier, and what the runtime computes.
pub record Save : Type 0 where
  pub member : Member
  pub dto : Update
  pub body : Columns
  pub rejection_from_status : Js
  pub reviewer_id : Js
  pub membership : Option (Js × Js)
  pub now : ℕ
  pub uuid : String
  pub runtime : Runtime
  pub digest : Digest
  pub parse_float : String → Js

-- `existing` as the tracker's checks read it.
abbrev pub tracked : Columns → Js → Row
tracked row rejection_from = record {
  rounds = record {
    first = record {
      status = row "l1Status";
      date = row "l1Date";
      remarks = row "l1Remarks";
      interviewer = row "l1Interviewer";
      color = row "l1Color";
    };
    second = record {
      status = row "l2Status";
      date = row "l2Date";
      remarks = row "l2Remarks";
      interviewer = row "l2Interviewer";
      color = row "l2Color";
    };
    third = record {
      status = row "l3Status";
      date = row "l3Date";
      remarks = row "l3Remarks";
      interviewer = row "l3Interviewer";
      color = row "l3Color";
    };
  };
  final_status = row "finalStatus";
  rejection_from_status = rejection_from;
}

abbrev pub mentions_round : Rounds → RoundKey → Bool
mentions_round rs k =
    is_defined (round_of k rs).status
    || is_defined (round_of k rs).date
    || is_defined (round_of k rs).remarks
    || is_defined (round_of k rs).interviewer
    || is_defined (round_of k rs).color

-- Whether the request names a field of a round.
unfoldable pub mentions_rounds : Update → Bool
mentions_rounds dto = any (mentions_round dto.rounds) round_keys

-- `value === true`.
abbrev is_true : Js → Bool
is_true (bool b) = b
is_true _ = false

-- `changesStatus`.
unfoldable pub changes_status : Update → Bool
changes_status dto = is_defined dto.final_status || mentions_rounds dto

-- `workflowChange`.
unfoldable pub workflow_change : Update → Bool
workflow_change dto =
    changes_status dto || is_defined dto.meeting_link || is_true dto.reset_following_rounds

-- `isOtherManagerJob`.
unfoldable pub is_other_manager_job : Member → JobState → Bool
unfolding includes includes_any same_value
is_other_manager_job user job =
    (is "ACCOUNT_MANAGER" user.system_role || includes "ACCOUNT_MANAGER" user.roles)
    && not (
        includes_any ("*" ∷ "tenant:manage" ∷ "tenant:settings" ∷ "platform:manage" ∷ [])
          user.permissions)
    && not (same_value job.account_manager_id user.db_id)

-- `creatorReview`; the member's own record is read only with the permission.
unfoldable pub creator_review : Save → JobState → Bool
unfolding includes same_value
creator_review s job =
    includes "submission:internal_screening_created_jobs" s.member.permissions
    && elim s.membership [
      | none ↦ false
      | some (branch, unit) ↦
          truthy branch
          && truthy unit
          && same_value job.created_by_user_id s.member.db_id
          && same_value job.branch_id branch
          && same_value job.business_unit_id unit
    ]

-- `creatorInternalDecision`.
unfoldable pub creator_internal_decision : Save → JobState → Columns → Bool
creator_internal_decision s job row =
    creator_review s job
    && is "PENDING_APPROVAL" (row "finalStatus")
    && one_of ("SUBMITTED" ∷ "REJECTED" ∷ []) s.dto.final_status
    && not (mentions_rounds s.dto)

-- `paused`.
unfoldable pub is_job_paused : JobState → Bool
is_job_paused job = is_closed_job (some job.status) && not job.keep_existing_submissions_open

-- The arguments of `submissionCapabilities`.
unfoldable pub viewer_of : Save → JobState → Columns → Viewer
unfolding same_value
viewer_of s job row = record {
  permissions = s.member.permissions;
  is_assigned_manager = same_value s.reviewer_id s.member.db_id;
  job_status = some job.status;
  keep_existing_submissions_open = job.keep_existing_submissions_open;
  creator_review = creator_review s job;
  creator_self_review =
      truthy s.member.db_id
      && same_value job.created_by_user_id s.member.db_id
      && same_value (row "recruiterId") s.member.db_id;
}
