-- ===== src/Submissions/Capabilities.antt =====
-- src/recruiter-submissions/submission-capabilities.ts: what a member may do to a submission.
use ats_backend.Prelude.{
  Bool, false, not, ◌&&◌, ◌||◌, String, Option, none, some, List, includes, trimmed_upper_is,
}
use ats_backend.Submissions.Model.{Capabilities}

-- `isClosedJob(status)` of src/jobs/job-action-policy.ts.
unfoldable pub is_closed_job : Option String → Bool
is_closed_job none = false
is_closed_job (some s) = trimmed_upper_is "CLOSED" s || trimmed_upper_is "CLOSE" s

-- The arguments of `submissionCapabilities`.
pub record Viewer : Type 0 where
  pub permissions : List String
  pub is_assigned_manager : Bool
  pub job_status : Option String
  pub keep_existing_submissions_open : Bool
  pub creator_review : Bool
  pub creator_self_review : Bool

unfoldable pub is_paused : Viewer → Bool
unfolding is_closed_job
is_paused v = is_closed_job v.job_status && not v.keep_existing_submissions_open

abbrev has : Viewer → String → Bool
has v permission = includes "*" v.permissions || includes permission v.permissions

unfoldable pub submission_capabilities : Viewer → Capabilities
submission_capabilities v =
    let live = not (is_paused v) in
    let schedule_ = live && has v "submission:schedule_interview" in
    record {
      review =
          live
          && not v.creator_self_review
          && (has v "submission:internal_screening"
              || v.is_assigned_manager
              || v.creator_review && has v "submission:internal_screening_created_jobs");
      schedule = schedule_;
      cancel_interview = schedule_;
      result_l1 = live && (has v "submission:audit_rounds" || has v "submission:audit_l1");
      result_l2 = live && (has v "submission:audit_rounds" || has v "submission:audit_l2");
      result_l3 = live && (has v "submission:audit_rounds" || has v "submission:audit_l3");
      outcome = live && has v "submission:final_status";
      notes = has v "submission:edit";
      rate = has v "submission:edit_rate";
    }
