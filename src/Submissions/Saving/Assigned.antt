-- ===== src/Submissions/Saving/Assigned.antt =====
-- The object `data` that `update` of src/recruiter-submissions/recruiter-submissions.service.ts
-- builds for the columns of a submission. Of the assignments those are left out whose key the
-- check of the request's keys refuses (`jobId`, `candidateId`, `recruiterId` and the candidate's
-- former pay, notice and experience).
use ats_backend.Prelude.{if◌then◌else◌, [], ◌∷◌, ◌++◌, String, Js, null, str, is, is_defined}
use ats_backend.Submissions.Model.{Rounds, Update}
use ats_backend.Submissions.Update.{Stored}
use ats_backend.Submissions.History.{Data}

-- `if (value !== undefined) data[key] = value`.
abbrev pub given_key : String → Js → Data
given_key key value = if is_defined value then (key, value) ∷ [] else []

-- `typeof value === 'string' ? parseFloat(value) : value`.
abbrev pub rate_of : (String → Js) → Js → Js
rate_of parse_float (str s) = parse_float s
rate_of parse_float value = value

-- `{ l1Status, l1Date, …, finalStatus }`.
abbrev pub base : Stored → Data
base stored =
    ("l1Status", stored.rounds.first.status)
    ∷ ("l1Date", stored.rounds.first.date)
    ∷ ("l2Status", stored.rounds.second.status)
    ∷ ("l2Date", stored.rounds.second.date)
    ∷ ("l3Status", stored.rounds.third.status)
    ∷ ("l3Date", stored.rounds.third.date)
    ∷ ("finalStatus", stored.final_status)
    ∷ []

abbrev pub color_columns : Rounds → Data
color_columns changes =
    given_key "l1Color" changes.first.color
    ++ given_key "l2Color" changes.second.color
    ++ given_key "l3Color" changes.third.color

-- The assignments of the remarks, the comments and the rate; a review feedback is a pod lead's
-- remark too, where none is given.
abbrev pub notes : (String → Js) → Update → Data
notes parse_float dto =
    (if is_defined dto.review_feedback
      then (if is_defined dto.pod_lead_remarks
          then []
          else ("podLeadRemarks", dto.review_feedback) ∷ [])
      else [])
    ++ given_key "reviewFeedback" dto.review_feedback
    ++ given_key "podLeadRemarks" dto.pod_lead_remarks
    ++ given_key "submittedRateAmount" (rate_of parse_float dto.submitted_rate)
    ++ given_key "recruiterComment" dto.recruiter_comment
    ++ given_key "remarks" dto.remarks

-- The remarks and the interviewers of the rounds, as one source gives them.
abbrev pub appointments : Rounds → Data
appointments rs =
    given_key "l1Remarks" rs.first.remarks
    ++ given_key "l1Interviewer" rs.first.interviewer
    ++ given_key "l2Remarks" rs.second.remarks
    ++ given_key "l2Interviewer" rs.second.interviewer
    ++ given_key "l3Remarks" rs.third.remarks
    ++ given_key "l3Interviewer" rs.third.interviewer

-- What a rejection clears.
abbrev pub clearances : Stored → Data
clearances stored =
    if is "REJECTED" stored.rounds.first.status
    then ("l2Remarks", null)
      ∷ ("l2Interviewer", null)
      ∷ ("l3Remarks", null)
      ∷ ("l3Interviewer", null)
      ∷ []
    else if is "REJECTED" stored.rounds.second.status
    then ("l3Remarks", null) ∷ ("l3Interviewer", null) ∷ []
    else []

-- `data`, the last assignments first.
unfoldable pub data_of : (String → Js) → Update → Rounds → Stored → Data
data_of parse_float dto changes stored =
    clearances stored
    ++ appointments changes
    ++ given_key "meetingLink" dto.meeting_link
    ++ appointments dto.rounds
    ++ notes parse_float dto
    ++ color_columns changes
    ++ base stored
