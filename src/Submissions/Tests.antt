-- ===== src/Submissions/Tests.antt =====
-- Runs of src/recruiter-submissions on concrete submissions, and the theorems at them.
use ats_backend.Prelude.{
  true, ◌&&◌, String, [], ◌∷◌, some, undefined, null, str, bool, date, truthy, has_text,
  is_nonblank, Runtime, ok, ◌≡◌, refl, ◌⊎◌,
}
use ats_backend.Submissions.Model.{
  l1, l2, l3, rounds_after, rounds_before, Round, Rounds, round_of, Row, Update, Capabilities,
  merge,
}
use ats_backend.Submissions.RoundUpdate.{round_update, scan, reset, settle, reopens, blank_round}
use ats_backend.Submissions.RoundUpdate.Laws.{
  Reopened, AllRounds, AnyRound, unmentioned, round_update-resets, round_update-keeps,
}
use ats_backend.Submissions.Validate.{context, check_changes, validate_tracker_update}
use ats_backend.Submissions.Validate.Shape.{check_shape, check_reopening, check_assessment}
use ats_backend.Submissions.History.{history_value}
use ats_backend.Submissions.Validate.Interviews.{
  is_touched, check_rounds, field_touched, check_sequence,
}
use ats_backend.Submissions.Validate.Outcome.{check_fields, check_outcome, check_result_state}
use ats_backend.Submissions.Update.{Stored, store, update}
use ats_backend.Submissions.Update.Permissions.{
  RoundRules, OutcomeRules, validate-RoundRules, validate-OutcomeRules,
}
use ats_backend.Submissions.Update.Consistency.{IsConsistent, stored_of, update-IsConsistent}

abbrev runtime : Runtime
runtime = record {
  parse_date = λ s. some 50;
  number_date = λ s. some 50;
  iso_date = λ t. "1970-01-01T00:00:00.050Z";
  date_text = λ t. "Thu Jan 01 1970";
  now = 100;
  url_protocol = λ s. some "https:";
}

abbrev done : String → Round
done status = record {
  status = str status;
  date = date 50;
  remarks = null;
  interviewer = str "Ann";
  color = null;
}

abbrev waiting : Round
waiting = record { status = null; date = null; remarks = null; interviewer = null; color = null }

-- L1 is cleared, and L2 has an appointment.
abbrev existing : Row
existing = record {
  rounds = record { first = done "CLEARED"; second = done "SCHEDULED"; third = waiting };
  final_status = str "SUBMITTED";
  rejection_from_status = null;
}

abbrev nothing : Update
nothing = record {
  keys = [];
  rounds = record { first = unmentioned; second = unmentioned; third = unmentioned };
  request_id = undefined;
  bypass_reason = undefined;
  correction_reason = undefined;
  reset_following_rounds = undefined;
  expected_updated_at = undefined;
  final_status = undefined;
  remarks = undefined;
  review_feedback = undefined;
  pod_lead_remarks = undefined;
  recruiter_comment = undefined;
  submitted_rate = undefined;
  meeting_link = undefined;
  assessment_version = undefined;
  review_overrides = undefined;
}

-- L2 is cleared.
abbrev clear_l2 : Update
clear_l2 = record nothing {
  keys = "l2Status" ∷ [];
  rounds = record {
    first = unmentioned;
    second = record unmentioned { status = str "CLEARED" };
    third = unmentioned;
  };
}

-- L1's clearance is corrected to REJECTED.
abbrev correct_l1 : Update
correct_l1 = record nothing {
  keys = "l1Status" ∷ "l1Remarks" ∷ "correctionReason" ∷ "resetFollowingRounds" ∷ [];
  rounds = record {
    first = record unmentioned { status = str "REJECTED"; remarks = str "No show" };
    second = unmentioned;
    third = unmentioned;
  };
  correction_reason = str "Wrong candidate";
  reset_following_rounds = bool true;
}

abbrev full : Capabilities
full = record {
  review = true;
  schedule = true;
  cancel_interview = true;
  result_l1 = true;
  result_l2 = true;
  result_l3 = true;
  outcome = true;
  notes = true;
  rate = true;
}

updates : Unit {0}
unfolding update store round_update scan reset settle reopens validate_tracker_update check_changes
    check_shape check_reopening check_assessment check_rounds field_touched history_value
    check_sequence check_fields check_outcome check_result_state is_nonblank
updates = tt

abbrev corrected : Rounds
corrected = record {
  first = record {
    status = str "REJECTED";
    date = undefined;
    remarks = str "No show";
    interviewer = undefined;
    color = undefined;
  };
  second = blank_round;
  third = blank_round;
}

correct_l1_changes : round_update existing.rounds correct_l1 ≡ ok corrected
unfolding updates
correct_l1_changes = refl

correct_l1_reopens : Reopened existing.rounds (merge existing.rounds corrected) l1
unfolding updates
correct_l1_reopens = record { was_cleared = refl; now_open = refl; later_progressed = refl }

round_update-resets_example :
    ((truthy correct_l1.reset_following_rounds && has_text correct_l1.correction_reason) ≡ true)
    × AllRounds (λ j. round_of j (merge existing.rounds corrected) ≡ blank_round) (rounds_after l1)
round_update-resets_example =
    round_update-resets existing.rounds correct_l1 corrected l1 correct_l1_changes
      correct_l1_reopens

round_update-keeps_example :
    (round_of l3 (merge existing.rounds corrected) ≡ round_of l3 existing.rounds)
    ⊎ ((round_of l3 (merge existing.rounds corrected) ≡ blank_round)
        × AnyRound (Reopened existing.rounds (merge existing.rounds corrected)) (rounds_before l3))
round_update-keeps_example =
    round_update-keeps existing.rounds correct_l1 corrected l3 correct_l1_changes refl

abbrev l2_cleared : Stored
l2_cleared = record {
  rounds = record { first = done "CLEARED"; second = done "CLEARED"; third = waiting };
  final_status = str "SUBMITTED";
}

clear_l2_stored : update runtime existing clear_l2 full ≡ ok l2_cleared
unfolding updates
clear_l2_stored = refl

existing-IsConsistent : IsConsistent (stored_of existing)
unfolding updates
existing-IsConsistent = record {
  sequential = record { l2_after = λ u. refl; l3_after_l1 = λ u. cc; l3_after_l2 = λ u. cc };
  won_cleared = λ h. refl;
  rejected_closed = λ h. cc h;
}

update-IsConsistent_example : IsConsistent l2_cleared
update-IsConsistent_example =
    update-IsConsistent runtime existing clear_l2 full l2_cleared ((tt, tt), (tt, tt), (tt, tt))
      ((tt, tt), (tt, tt), (tt, tt)) existing-IsConsistent clear_l2_stored

-- The changes of clear_l2.
abbrev l2_changes : Rounds
l2_changes = record {
  first = unmentioned;
  second = record unmentioned { status = str "CLEARED" };
  third = unmentioned;
}

clear_l2_valid : validate_tracker_update runtime existing clear_l2 full ≡ ok tt
unfolding updates
clear_l2_valid = refl

clear_l2_changes : round_update existing.rounds clear_l2 ≡ ok l2_changes
unfolding updates
clear_l2_changes = refl

clear_l2_touches : is_touched (context runtime existing clear_l2 full l2_changes) l2 ≡ true
unfolding updates is_touched
clear_l2_touches = refl

validate-RoundRules_example : RoundRules (context runtime existing clear_l2 full l2_changes) l2
validate-RoundRules_example =
    validate-RoundRules runtime existing clear_l2 full l2_changes l2 clear_l2_valid clear_l2_changes
      clear_l2_touches

-- The candidate is selected at once, with the reason why.
abbrev select : Update
select = record nothing {
  keys = "finalStatus" ∷ "bypassReason" ∷ [];
  final_status = str "SELECTED";
  bypass_reason = str "Urgent start";
}

select_valid : validate_tracker_update runtime existing select full ≡ ok tt
unfolding updates
select_valid = refl

abbrev no_changes : Rounds
no_changes = record { first = unmentioned; second = unmentioned; third = unmentioned }

select_changes : round_update existing.rounds select ≡ ok no_changes
unfolding updates
select_changes = refl

validate-OutcomeRules_example : OutcomeRules (context runtime existing select full no_changes)
validate-OutcomeRules_example =
    validate-OutcomeRules runtime existing select full no_changes select_valid select_changes refl
